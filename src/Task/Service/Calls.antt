-- ===== src/Task/Service/Calls.antt =====
-- internal/task/service.go: Create, Checkout, Release, Update and Comment.
use denkeeper.Prelude.{
  ℕ, String, Bool, true, false, ◌||◌, not, Option, none, some, if◌then◌else◌, ◌==◌, string_eq,
}
use denkeeper.Task.{
  Status, created, claimed, released, status, assigned, edited, comment, subtask, Event, status_eq,
}
use denkeeper.Task.Db.{Env, Result, ok, Loaded, read_task, select_task}
use denkeeper.Task.Store
use denkeeper.Task.Service.Base.{
  Service, Svc, ◌>>=◌, ◌>>◌, give, call, clean_text, resolve, notify, emit,
}

pub record CreateRequest : Type 0 where
  pub title : String
  pub body : String
  pub assignee : String
  pub parent_id : Option ℕ
  pub no_review : Bool

abbrev pub notify_parent : Service → String → Option ℕ → Svc (Unit {0})
notify_parent sv actor none = give (ok tt)
notify_parent sv actor (some p) = notify sv (record { task_id = p; kind = subtask; actor = actor })

-- The reviewer of a new task: the filer, unless review is declined or the filer is the assignee.
abbrev pub reviewer_for : String → String → Bool → String
reviewer_for actor assignee no_review = if no_review || actor == assignee then "" else actor

-- Service.Create
unfoldable pub create : Service → Env → String → CreateRequest → Svc Loaded
create sv env actor req = do
  title ← give (clean_text "title" req.title 200 true)
  body ← give (clean_text "body" req.body 20000 false)
  assignee ← give (resolve sv req.assignee actor)
  t ← call (
      Store.create env sv.limits (record {
        actor = actor;
        title = title;
        body = body;
        assignee = assignee;
        reviewer = reviewer_for actor assignee req.no_review;
        parent_id = req.parent_id;
      }))
  emit sv actor t.id created
  notify_parent sv actor req.parent_id
  give (ok t)

-- Service.Checkout
unfoldable pub checkout : Service → Env → String → ℕ → Svc Loaded
checkout sv env actor id = do
  t ← call (Store.checkout env actor id)
  emit sv actor id claimed
  give (ok t)

-- Service.Release
unfoldable pub release : Service → Env → String → ℕ → Svc Loaded
release sv env actor id = do
  t ← call (Store.release env actor id)
  emit sv actor id released
  give (ok t)

pub record UpdateRequest : Type 0 where
  pub title : Option String
  pub body : Option String
  pub assignee : Option String
  pub status : Option Status
  pub reason : String

-- The drivers of the calls that one Update may make.
pub record Drivers : Type 0 where
  pub get : Env
  pub edit : Env
  pub assign : Env
  pub move : Env

-- editFields, a field at a time
abbrev pub edit_field : String → String → Option String → ℕ → Bool → Result String
edit_field field current none limit is_required = ok current
edit_field field current (some s) limit is_required = clean_text field s limit is_required

abbrev pub resolve_optional : Service → Option String → String → Result String
resolve_optional sv none actor = ok ""
resolve_optional sv (some name) actor = resolve sv name actor

unfoldable pub edit_step : Service → Env → String → ℕ → String → String → Loaded → Svc Loaded
edit_step sv env actor id title body cur =
    if not (title == cur.title) || not (body == cur.body)
    then (do t ← call (Store.edit env actor id title body); emit sv actor id edited; give (ok t))
    else give (ok cur)

unfoldable pub assign_step :
    Service → Env → String → ℕ → Option String → String → Loaded → Svc Loaded
assign_step sv env actor id none assignee t = give (ok t)
assign_step sv env actor id (some _) assignee t =
    if assignee == t.assignee then give (ok t) else (do
      t' ← call (Store.assign env actor id assignee)
      emit sv actor id assigned
      give (ok t'))

unfoldable pub move_step : Service → Env → String → ℕ → Option Status → String → Loaded → Svc Loaded
move_step sv env actor id none reason t = give (ok t)
move_step sv env actor id (some s) reason t = if s == t.status then give (ok t) else (do
  t' ← call (Store.set_status env actor id s reason)
  emit sv actor id status
  give (ok t'))

-- Service.Update
unfoldable pub update : Service → Drivers → String → ℕ → UpdateRequest → Svc Loaded
unfolding edit_step assign_step move_step
update sv drivers actor id req = do
  cur ← call (λ db. (read_task drivers.get select_task id db, db))
  title ← give (edit_field "title" cur.title req.title 200 true)
  body ← give (edit_field "body" cur.body req.body 20000 false)
  reason ← give (clean_text "reason" req.reason 500 false)
  assignee ← give (resolve_optional sv req.assignee actor)
  t ← edit_step sv drivers.edit actor id title body cur
  t' ← assign_step sv drivers.assign actor id req.assignee assignee t
  move_step sv drivers.move actor id req.status reason t'

-- Service.Comment
unfoldable pub add_comment : Service → Env → String → ℕ → String → Svc Event
add_comment sv env actor id body = do
  text ← give (clean_text "comment" body 20000 true)
  ev ← call (Store.add_comment env actor id text)
  emit sv actor id comment
  give (ok ev)
