-- ===== src/Task/Effect/Create.antt =====
-- The effect of Store.Create of internal/task/store.go.
use mathlib.Core.List.{append-nil, append_assoc}
use denkeeper.Prelude.{
  ap, ltb, leb, ◌∙◌, ℕ, ◌+◌, ◌≡◌, refl, Option, none, some, List, [], ◌∷◌, ◌++◌, arith, string_eq,
  All,
}
use denkeeper.Task.{Task, Event, is_closed, subtask, child, status_eq}
use denkeeper.Task.Db.{
  select_parent, insert_parent_event, Env, Db, ok, err, Result, insert_task, load, find_task,
  new_event, insert_event, get_task, count_rows, is_child_of,
}
use denkeeper.Task.Db.Lemmas.{
  in_tx_after, bind-eq-ok, get_task-eq-ok, refuse_if-eq-ok, add_event-eq-ok, add_event-eq-ok_last,
}
use denkeeper.Task.Store.{
  Limits, CreateInput, create_tx, create, check_parent, check_loaded_parent, insert_task_row,
  new_task, tell_parent, get_created,
}
use denkeeper.Task.Effect.{Effect, nothing, filed, IsFresh, IsPlaced, at_top, under}

module _ (limits : Limits) (env : Env) (input : CreateInput) (db : Db) where
  check_loaded_parent-IsPlaced :
      (p depth : ℕ) (parent : Task) (db' : Db) (u : Task)
      → find_task p db.tasks ≡ some parent
      → check_loaded_parent limits (load db parent) db ≡ ok (depth, db')
      → u.parent_id ≡ some p
      → u.depth ≡ depth
      → IsPlaced limits db u × (db' ≡ db)
  unfolding check_loaded_parent load
  check_loaded_parent-IsPlaced p depth parent db' u found h place at =
      let (open_task, h1) = refuse_if-eq-ok (is_closed parent.status) _ _ db _ h in
      let (deep, h2) = refuse_if-eq-ok (ltb limits.max_depth (parent.depth + 1)) _ _ db _ h1 in
      let (many, h3) =
        refuse_if-eq-ok (leb limits.max_children (count_rows (is_child_of parent.id) db.tasks)) _ _
          db _ h2 in
      (
        under p parent place found open_task (ground arith) (ground arith) (ground arith),
        ground arith,
      )

  check_parent-IsPlaced :
      (parent_id : Option ℕ) (depth : ℕ) (db' : Db) (u : Task)
      → check_parent env limits parent_id db ≡ ok (depth, db')
      → u.parent_id ≡ parent_id
      → u.depth ≡ depth
      → IsPlaced limits db u × (db' ≡ db)
  unfolding check_parent
  check_parent-IsPlaced none depth db' u h place at = (at_top place (ground arith), ground arith)
  check_parent-IsPlaced (some p) depth db' u h place at =
      let (t, db1, got, h1) = bind-eq-ok (get_task env select_parent p) _ db _ h in
      let (row, found, loaded, same) = get_task-eq-ok env select_parent p db db1 t got in
      check_loaded_parent-IsPlaced p depth row db' u found (rw (loaded, same) at h1) place at

  insert_task_row-eq-ok :
      (depth id : ℕ) (d d' : Db)
      → insert_task_row env depth input d ≡ ok (id, d')
      → (d'.tasks ≡ d.tasks ++ new_task d.next_task (env.clock insert_task) depth input ∷ [])
        × (d'.next_task ≡ d.next_task + 1)
        × (d'.events ≡ d.events)
        × (id ≡ d.next_task)
  unfolding insert_task_row
  insert_task_row-eq-ok depth id d d' h = ground arith

  -- What telling the parent adds.
  tell_parent-eq-ok :
      (id : ℕ) (parent_id : Option ℕ) (d d' : Db)
      → tell_parent env id input parent_id d ≡ ok (tt, d')
      → (more : List Event) × (d'.tasks ≡ d.tasks)
        × (d'.next_task ≡ d.next_task)
        × (d'.events ≡ d.events ++ more)
        × All (λ e. e.actor ≡ input.actor) more
  unfolding tell_parent
  tell_parent-eq-ok id none d d' h =
      ([], ground arith, ground arith, ground (arith, append-nil d.events), tt)
  tell_parent-eq-ok id (some p) d d' h =
      let told = add_event-eq-ok_last env insert_parent_event p _ _ _ _ d d' h in
      (
        new_event (env.clock insert_parent_event) p input.actor subtask input.title
              (child id input.assignee) d.next_event
            ∷ [],
        ap (λ (x : Db). x.tasks) told,
        ap (λ (x : Db). x.next_task) told,
        ap (λ (x : Db). x.events) told,
        (refl, tt),
      )

  created-Effect :
      (depth : ℕ) (e : Event) (more : List Event) (db' : Db)
      → let u = new_task db.next_task (env.clock insert_task) depth input in
        IsPlaced limits db u
        → db'.tasks ≡ db.tasks ++ u ∷ []
        → db'.next_task ≡ db.next_task + 1
        → db'.events ≡ (db.events ++ e ∷ []) ++ more
        → e.actor ≡ input.actor
        → All (λ x. x.actor ≡ input.actor) more
        → Effect limits input.actor db db'
  created-Effect depth e more db' place tasks next events by bys =
      filed (new_task db.next_task (env.clock insert_task) depth input) e more fresh tasks next
        (events ∙ append_assoc db.events (e ∷ []) more) (by, bys)
    where
      fresh :
          IsFresh limits input.actor db (new_task db.next_task (env.clock insert_task) depth input)
      fresh =
          unfold new_task in
          record {
            id = refl;
            filer = refl;
            status = refl;
            holder = refl;
            held_at = refl;
            reason = refl;
            closed_at = refl;
            place = place;
          }

  inserted-Effect :
      (depth id : ℕ) (e : Event) (more : List Event) (db1 db2 db3 db' : Db)
      → check_parent env limits input.parent_id db ≡ ok (depth, db1)
      → insert_task_row env depth input db1 ≡ ok (id, db2)
      → db3.tasks ≡ db2.tasks
      → db3.next_task ≡ db2.next_task
      → db3.events ≡ (db2.events ++ e ∷ []) ++ more
      → db' ≡ db3
      → e.actor ≡ input.actor
      → All (λ x. x.actor ≡ input.actor) more
      → Effect limits input.actor db db'
  inserted-Effect depth id e more db1 db2 db3 db' placed inserted tasks' next' events' end by bys =
      let (tasks, next, events, _) = insert_task_row-eq-ok depth id db1 db2 inserted in
      let (place, same) =
        check_parent-IsPlaced input.parent_id depth db1
          (new_task db.next_task (env.clock insert_task) depth input) placed
          (unfold new_task in refl) (unfold new_task in refl) in
      created-Effect depth e more db' place (ground arith) (ground arith) (ground arith) by bys

  create_tx-Effect :
      (id : ℕ) (db' : Db)
      → create_tx env limits input db ≡ ok (id, db')
      → Effect limits input.actor db db'
  unfolding create_tx
  create_tx-Effect id db' ran =
      let (depth, db1, placed, ran1) =
        bind-eq-ok (check_parent env limits input.parent_id) _ db _ ran in
      let (id', db2, inserted, ran2) = bind-eq-ok (insert_task_row env depth input) _ db1 _ ran1 in
      let ran3 = add_event-eq-ok env insert_event _ _ _ _ _ _ db2 _ ran2 in
      let (_, db3, told, ran4) =
        bind-eq-ok (tell_parent env id' input input.parent_id) _ _ _ ran3 in
      let (more, tasks, next, events, by) = tell_parent-eq-ok id' input.parent_id _ db3 told in
      inserted-Effect depth id' _ more db1 db2 db3 db' placed inserted tasks next events
        (ground arith) refl by

  get_created-db : (r : Result ℕ × Db) → (get_created env r).1 ≡ r.1
  get_created-db (err e, d) = refl
  get_created-db (ok id, d) = refl

  pub create-Effect : Effect limits input.actor db (create env limits input db).1
  unfolding create
  create-Effect = rw (get_created-db _) (
      in_tx_after (Effect limits input.actor db) env (create_tx env limits input) db (nothing refl)
        create_tx-Effect)
