-- ===== src/Task/Store/Create.antt =====
-- internal/task/store.go: Create, and the limits on subtasks.
use denkeeper.Prelude.{
  ℕ, ◌+◌, String, Option, none, some, [], ◌∷◌, ◌++◌, ◌++◌, if◌then◌else◌, leb, ltb, string_eq,
  nat_eq,
}
use denkeeper.Task.{todo, created, subtask, filed, child, Task, is_closed, status_eq}
use denkeeper.Task.Rules.{parent_closed, too_deep, too_many_children}
use denkeeper.Task.Db.{
  Env, Db, Tx, ◌>>=◌, ◌>>◌, pure, refuse_if, Result, ok, err, driver, Loaded, read_task, get_task,
  add_event, in_tx, select_parent, insert_task, insert_event, insert_parent_event, select_after,
}

-- Store.maxDepth and Store.maxChildren
pub record Limits : Type 0 where
  pub max_depth : ℕ
  pub max_children : ℕ

pub record CreateInput : Type 0 where
  pub actor : String
  pub title : String
  pub body : String
  pub assignee : String
  pub reviewer : String
  pub parent_id : Option ℕ

-- checkParent, on the parent that was loaded.
unfoldable pub check_loaded_parent : Limits → Loaded → Tx ℕ
check_loaded_parent limits parent = do
  refuse_if (is_closed parent.status) parent_closed
  refuse_if (ltb limits.max_depth (parent.depth + 1)) too_deep
  refuse_if (leb limits.max_children parent.children_total) too_many_children
  pure (parent.depth + 1)

unfoldable pub check_parent : Env → Limits → Option ℕ → Tx ℕ
unfolding check_loaded_parent
check_parent env limits none = pure 0
check_parent env limits (some p) = get_task env select_parent p >>= check_loaded_parent limits

-- The row that INSERT INTO tasks makes, the columns' defaults included.
unfoldable pub new_task : ℕ → ℕ → ℕ → CreateInput → Task
new_task id now depth input = record {
  id = id;
  title = input.title;
  body = input.body;
  status = todo;
  assignee = input.assignee;
  created_by = input.actor;
  reviewer = input.reviewer;
  parent_id = input.parent_id;
  depth = depth;
  holder = "";
  held_at = none;
  blocked_reason = "";
  created_at = now;
  updated_at = now;
  closed_at = none;
}

-- INSERT INTO tasks and LastInsertId.
unfoldable pub insert_task_row : Env → ℕ → CreateInput → Tx ℕ
unfolding new_task
insert_task_row env depth input db =
    let id = db.next_task in
    if env.runs insert_task
    then ok (
      id,
      record db {
        tasks = db.tasks ++ new_task id (env.clock insert_task) depth input ∷ [];
        next_task = id + 1;
      },
    )
    else err (driver insert_task)

-- The event on the parent, where there is one.
unfoldable pub tell_parent : Env → ℕ → CreateInput → Option ℕ → Tx (Unit {0})
tell_parent env id input none = pure tt
tell_parent env id input (some p) =
    add_event env insert_parent_event p input.actor subtask input.title (child id input.assignee)

unfoldable pub create_tx : Env → Limits → CreateInput → Tx ℕ
unfolding check_parent insert_task_row tell_parent add_event
create_tx env limits input = do
  depth ← check_parent env limits input.parent_id
  id ← insert_task_row env depth input
  add_event env insert_event id input.actor created "" (filed input.assignee input.reviewer)
  tell_parent env id input input.parent_id
  pure id

abbrev pub get_created : Env → Result ℕ × Db → Result Loaded × Db
get_created env (err e, db) = (err e, db)
get_created env (ok id, db) = (read_task env select_after id db, db)

-- Store.Create
unfoldable pub create : Env → Limits → CreateInput → Db → Result Loaded × Db
unfolding create_tx
create env limits input db = get_created env (in_tx env (create_tx env limits input) db)
