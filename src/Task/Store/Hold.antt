-- ===== src/Task/Store/Hold.antt =====
-- internal/task/store.go: Checkout and Release.
use denkeeper.Prelude.{
  ℕ, String, Bool, ◌&&◌, ◌||◌, not, none, some, if◌then◌else◌, ◌==◌, string_eq, nat_eq,
}
use denkeeper.Task.{
  Status, todo, in_progress, blocked, claimed, released, empty, held_by, Task, human, status_eq,
}
use denkeeper.Task.Rules.{not_held, only_holder_releases}
use denkeeper.Task.Db.{
  Env, Db, Tx, ◌>>◌, pure, fail, refuse_if, Result, Error, conflict, driver, held_elsewhere,
  assigned_elsewhere, not_claimable, Loaded, add_event, update_task_row, mutate, update_task,
  insert_event,
}

-- The SET part of Checkout's UPDATE.
unfoldable pub claim_row : String → ℕ → Task → Task
claim_row actor now t = record t {
  holder = actor;
  held_at = some now;
  status = in_progress;
  blocked_reason = "";
  assignee = if t.assignee == "" then actor else t.assignee;
  updated_at = now;
}

-- The WHERE part of Checkout's UPDATE, past the id.
abbrev pub claimable : String → Task → Bool
claimable actor t =
    (t.holder == "" || t.holder == actor)
    && (t.status == todo || t.status == in_progress || t.status == blocked)
    && (t.assignee == "" || t.assignee == actor)

unfoldable pub checkout_conflict : Task → String → Error
checkout_conflict t actor =
    if not (t.holder == "") && not (t.holder == actor)
    then conflict t.id t.holder held_elsewhere
    else if not (t.assignee == "") && not (t.assignee == actor)
    then conflict t.id t.holder assigned_elsewhere
    else conflict t.id t.holder not_claimable

-- The transaction's body, on the task that was loaded. The row that the UPDATE reads is the row
-- that was loaded, so its WHERE is decided on that.
unfoldable pub claim : Env → String → ℕ → Loaded → Tx (Unit {0})
unfolding checkout_conflict update_task_row add_event
claim env actor id t =
    if t.holder == actor && t.status == in_progress
    then pure tt
    else if claimable actor t.row
    then (do
      update_task_row env id (claim_row actor (env.clock update_task))
      add_event env insert_event id actor claimed "" empty)
    else if env.runs update_task
    then fail (checkout_conflict t.row actor)
    else fail (driver update_task)

-- Store.Checkout
unfoldable pub checkout : Env → String → ℕ → Db → Result Loaded × Db
unfolding claim
checkout env actor id db = mutate env id (claim env actor id) db

-- `CASE WHEN status = 'in_progress' THEN 'todo' ELSE status END`
abbrev pub back_to_todo : Status → Status
back_to_todo s = if s == in_progress then todo else s

unfoldable pub release_row : ℕ → Task → Task
release_row now t = record t {
  holder = "";
  held_at = none;
  status = back_to_todo t.status;
  updated_at = now;
}

unfoldable pub release_held : Env → String → ℕ → Loaded → Tx (Unit {0})
unfolding update_task_row add_event
release_held env actor id t = do
  refuse_if (t.holder == "") not_held
  refuse_if (not (actor == human) && not (actor == t.holder)) only_holder_releases
  update_task_row env id (release_row (env.clock update_task))
  add_event env insert_event id actor released "" (held_by t.holder)

-- Store.Release
unfoldable pub release : Env → String → ℕ → Db → Result Loaded × Db
unfolding release_held
release env actor id db = mutate env id (release_held env actor id) db
