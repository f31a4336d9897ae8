-- ===== src/Task/Effect.antt =====
-- What a call of the store of internal/task/store.go may do to the tables: nothing; one step on one
-- row with one event in its thread; or one new row with its events.
pub mod Updates
pub mod Create
use mathlib.Core.List.{append-nil, append_assoc}
use denkeeper.Prelude.{
  ap, ltb, leb, ◌∙◌, ne_of_beq-eq-false, not, ◌&&◌, ℕ, ◌+◌, ◌≤◌, ◌<◌, ◌≡◌, refl, inl, inr, String,
  true, false, Bool-cases, Option, none, some, List, [], ◌∷◌, ◌++◌, arith, eq_iff, ◌==◌, string_eq,
  All,
}
use denkeeper.Task.{
  Status, EventKind, Payload, Task, Event, human, is_closed, subtask, child, claimed, released,
  status, assigned, edited, comment, empty, held_by, moved, reassigned, valid_status, status_eq,
  in_progress,
}
use denkeeper.Task.Rules.{check_status_rule}
use denkeeper.Task.Lifecycle.{RowStep, claims, releases, moves, reassigns, edits, touches}
use denkeeper.Task.Db.{
  select_parent, insert_parent_event, Env, Db, written, ok, err, Result, insert_task, load,
  find_task, new_event, update_task, insert_event, get_task, select_task, count_rows, is_child_of,
}
use denkeeper.Task.Db.Lemmas.{
  mutate_after, in_tx_after, bind-eq-ok, get_task-eq-ok, refuse_if-eq-ok, allow-eq-ok,
  add_event-eq-ok, add_event-eq-ok_last, update_task_row-eq-ok, write_and_tell-eq-ok,
}
use denkeeper.Task.Store.{
  Limits, CreateInput, claim, claim_row, checkout, release_held, release_row, release, move,
  status_row, set_status, reassign, assign_row, assign, rewrite, edit_row, edit, touch_row,
  comment_tx, add_comment, select_last_event, create_tx, create, check_parent, check_loaded_parent,
  insert_task_row, new_task, tell_parent, get_created,
}

-- The place of a new task in the tree of tasks.
pub data IsPlaced (limits : Limits) (db : Db) (u : Task) : Type 0 where
  at_top : u.parent_id ≡ none → u.depth ≡ 0 → IsPlaced limits db u
  under :
      (p : ℕ) (parent : Task)
      → u.parent_id ≡ some p
      → find_task p db.tasks ≡ some parent
      → is_closed parent.status ≡ false
      → u.depth ≡ parent.depth + 1
      → u.depth ≤ limits.max_depth
      → count_rows (is_child_of parent.id) db.tasks < limits.max_children
      → IsPlaced limits db u

pub record IsFresh (limits : Limits) (actor : String) (db : Db) (u : Task) : Type 0 where
  pub id : u.id ≡ db.next_task
  pub filer : u.created_by ≡ actor
  pub status : u.status ≡ Status.todo
  pub holder : u.holder ≡ ""
  pub held_at : u.held_at ≡ none
  pub reason : u.blocked_reason ≡ ""
  pub closed_at : u.closed_at ≡ none
  pub place : IsPlaced limits db u

pub data Effect (limits : Limits) (actor : String) (db db' : Db) : Type 0 where
  nothing : db' ≡ db → Effect limits actor db db'
  wrote :
      (now id : ℕ) (t : Task) (f : Task → Task) (kind : EventKind) (body : String)
      (payload : Payload)
      → find_task id db.tasks ≡ some t
      → RowStep actor t (f t)
      → db' ≡ written now id f actor kind body payload db
      → Effect limits actor db db'
  filed :
      (u : Task) (e : Event) (more : List Event)
      → IsFresh limits actor db u
      → db'.tasks ≡ db.tasks ++ u ∷ []
      → db'.next_task ≡ db.next_task + 1
      → db'.events ≡ db.events ++ e ∷ more
      → All (λ x. x.actor ≡ actor) (e ∷ more)
      → Effect limits actor db db'
