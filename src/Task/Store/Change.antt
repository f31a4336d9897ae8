-- ===== src/Task/Store/Change.antt =====
-- internal/task/store.go: SetStatus, Assign, Edit and Comment.
use denkeeper.Prelude.{
  ℕ, String, ◌&&◌, not, Option, none, some, List, [], ◌∷◌, if◌then◌else◌, ◌==◌, string_eq, nat_eq,
}
use denkeeper.Task.{
  Status, in_progress, blocked, comment, status, assigned, edited, empty, moved, reassigned, Task,
  Event, human, is_closed, valid_status, status_eq,
}
use denkeeper.Task.Rules.{
  check_status_rule, unknown_status, reopen_before_reassigning, only_filer_or_assignee_reassigns,
  only_filer_edits,
}
use denkeeper.Task.Db.{
  Env, Db, Tx, ◌>>=◌, ◌>>◌, pure, allow, refuse_if, Result, ok, err, rule, driver, Loaded, get_task,
  add_event, update_task_row, in_tx, mutate, select_task, update_task, insert_event, select_event,
}
use denkeeper.Task.Store.Hold.{back_to_todo}

-- The SET part of SetStatus's UPDATE. The clock is read once for `now`.
unfoldable pub status_row : Status → String → ℕ → Task → Task
status_row s reason now t = record t {
  status = s;
  blocked_reason = if s == blocked then reason else "";
  closed_at = if is_closed s then some now else none;
  holder = if s == in_progress then t.holder else "";
  held_at = if s == in_progress then t.held_at else none;
  updated_at = now;
}

unfoldable pub move : Env → String → ℕ → Status → String → Loaded → Tx (Unit {0})
unfolding update_task_row add_event
move env actor id s reason t = if t.status == s then pure tt else do
  allow (check_status_rule actor t.row s reason)
  update_task_row env id (status_row s reason (env.clock update_task))
  add_event env insert_event id actor status reason (moved t.status s)

-- Store.SetStatus
unfoldable pub set_status : Env → String → ℕ → Status → String → Db → Result Loaded × Db
unfolding move
set_status env actor id s reason db =
    if valid_status s
    then mutate env id (move env actor id s reason) db
    else (err (rule unknown_status), db)

unfoldable pub assign_row : String → ℕ → Task → Task
assign_row assignee now t = record t {
  assignee = assignee;
  holder = "";
  held_at = none;
  status = back_to_todo t.status;
  updated_at = now;
}

unfoldable pub reassign : Env → String → ℕ → String → Loaded → Tx (Unit {0})
unfolding update_task_row add_event
reassign env actor id assignee t = if t.assignee == assignee then pure tt else do
  refuse_if (is_closed t.status) reopen_before_reassigning
  refuse_if (not (actor == human) && not (actor == t.created_by) && not (actor == t.assignee))
      only_filer_or_assignee_reassigns
  update_task_row env id (assign_row assignee (env.clock update_task))
  add_event env insert_event id actor assigned "" (reassigned t.assignee assignee)

-- Store.Assign
unfoldable pub assign : Env → String → ℕ → String → Db → Result Loaded × Db
unfolding reassign
assign env actor id assignee db = mutate env id (reassign env actor id assignee) db

unfoldable pub edit_row : String → String → ℕ → Task → Task
edit_row title body now t = record t { title = title; body = body; updated_at = now }

unfoldable pub rewrite : Env → String → ℕ → String → String → Loaded → Tx (Unit {0})
unfolding update_task_row add_event
rewrite env actor id title body t = if t.title == title && t.body == body then pure tt else do
  refuse_if (not (actor == human) && not (actor == t.created_by)) only_filer_edits
  update_task_row env id (edit_row title body (env.clock update_task))
  add_event env insert_event id actor edited "" empty

-- Store.Edit
unfoldable pub edit : Env → String → ℕ → String → String → Db → Result Loaded × Db
unfolding rewrite
edit env actor id title body db = mutate env id (rewrite env actor id title body) db

unfoldable pub touch_row : ℕ → Task → Task
touch_row now t = record t { updated_at = now }

-- `WHERE task_id = ? ORDER BY id DESC LIMIT 1`: events stand in the order of their ids.
unfoldable pub last_event : ℕ → List Event → Option Event
last_event id [] = none
last_event id (e ∷ es) = elim (last_event id es) [
  | none ↦ if e.task_id == id then some e else none
  | some later ↦ some later
]

unfoldable pub select_last_event : Env → ℕ → Tx Event
unfolding last_event
select_last_event env id db =
    if env.runs select_event
    then elim (last_event id db.events) [ none ↦ err (driver select_event) | some e ↦ ok (e, db) ]
    else err (driver select_event)

unfoldable pub comment_tx : Env → String → ℕ → String → Tx Event
unfolding update_task_row add_event select_last_event
comment_tx env actor id body = do
  _ ← get_task env select_task id
  add_event env insert_event id actor comment body empty
  update_task_row env id (touch_row (env.clock update_task))
  select_last_event env id

-- Store.Comment
unfoldable pub add_comment : Env → String → ℕ → String → Db → Result Event × Db
unfolding comment_tx
add_comment env actor id body db = in_tx env (comment_tx env actor id body) db
