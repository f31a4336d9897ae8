-- ===== src/Task/Claims.antt =====
-- Store.Checkout of internal/task/store.go: what a claim leads to, and that of two members who
-- claim one task the second is turned away.
use denkeeper.Prelude.{
  ℕ, ◌≡◌, ◌≢◌, ◌⊎◌, inl, inr, refl, ◌∙◌, String, true, ◌&&◌, Bool-cases, some, arith, eq_iff, ◌==◌,
  nat_eq, nat_beq_iff, string_eq, beq-eq-false_of_ne,
}
use denkeeper.Task.{Task, in_progress, same_status_iff, status_eq}
use denkeeper.Task.Lifecycle.{IsSound}
use denkeeper.Task.Db.Outcomes.{IsHealthy, mutate-eq-err, mutate-eq-ok, read_task-eq-ok}
use denkeeper.Task.Db.Rows.{find_task-All, find_task-id, find_task-update_rows}
use denkeeper.Task.Store.{Limits}
use denkeeper.Task.Invariant.{IsWellFormed}
use denkeeper.Task.Lifecycle.{claims, RowStep-IsSameOrigin}
use denkeeper.Task.Db.{
  update_rows, Env, Db, ok, err, conflict, held_elsewhere, Loaded, load, find_task, select_after,
  update_task,
}
use denkeeper.Task.Store.{checkout, claim, claimable, claim_row, checkout_conflict}

-- A claim of a task that somebody else holds is refused with a conflict that names the holder, and
-- changes nothing.
pub checkout_of_held :
    (env : Env) (actor : String) (id : ℕ) (db : Db) (t : Task)
    → IsHealthy env
    → find_task id db.tasks ≡ some t
    → t.holder ≢ ""
    → t.holder ≢ actor
    → checkout env actor id db ≡ (err (conflict t.id t.holder held_elsewhere), db)
unfolding checkout
checkout_of_held env actor id db t h found held other =
    mutate-eq-err env id (claim env actor id) db t _ h found (
      let e1 = beq-eq-false_of_ne t.holder "" held in
      let e2 = beq-eq-false_of_ne t.holder actor other in
      unfold claim load checkout_conflict in rw (e1, e2, h.all_run update_task) refl)

claim-eq-ok :
    (env : Env) (actor : String) (id : ℕ) (db db' : Db) (t : Task)
    → claim env actor id (load db t) db ≡ ok (tt, db')
    → ((t.holder ≡ actor) × (t.status ≡ in_progress) × (db' ≡ db))
      ⊎ ((claimable actor t ≡ true)
          × (db'.tasks ≡ update_rows id (claim_row actor (env.clock update_task)) db.tasks))
unfolding claim load
claim-eq-ok env actor id db db' t h =
    elim (Bool-cases (t.holder == actor && t.status == in_progress)) [
      | inl again ↦ inl (
        ground (arith, eq_iff t.holder actor),
        ground (arith, same_status_iff t.status in_progress),
        ground arith,
      )
      | inr first ↦ inr (ground arith, ground arith)
    ]

claim_row_holds :
    (actor : String) (now : ℕ) (t : Task)
    → claimable actor t ≡ true
    → let u = claim_row actor now t in
      (u.holder ≡ actor) × (u.status ≡ in_progress) × (u.assignee ≡ actor)
unfolding claim_row
claim_row_holds actor now t h =
    (refl, refl, ground (arith, eq_iff t.assignee "", eq_iff t.assignee actor))

-- After a successful claim of a well-formed table the task that is returned is the row of the
-- table, in progress, and held by and assigned to the claimer.
pub checkout_holds :
    (env : Env) (limits : Limits) (actor : String) (id : ℕ) (db db' : Db) (l : Loaded)
    → IsWellFormed limits db
    → actor ≢ ""
    → checkout env actor id db ≡ (ok l, db')
    → (find_task id db'.tasks ≡ some l.row)
      × (l.holder ≡ actor)
      × (l.status ≡ in_progress)
      × (l.assignee ≡ actor)
unfolding checkout
checkout_holds env limits actor id db db' l ok_db named h =
    let (t, found, ran, back) = mutate-eq-ok env id (claim env actor id) db db' l h in
    let found_l = read_task-eq-ok env select_after id db' l back in
    elim (claim-eq-ok env actor id db db' t ran) [
      | inl (holds, works, same) ↦
          let row : t ≡ l.row = ground (arith, found, found_l) in
          let sound = find_task-All IsSound id db.tasks t found ok_db.sound in
          (
            found_l,
            ground (arith, row, holds),
            ground (arith, row, works),
            ground (arith, row, holds, sound.held_by_assignee (rw holds named)),
          )
      | inr (free, tasks) ↦
          let f = claim_row actor (env.clock update_task) in
          let after : find_task id db'.tasks ≡ some (f t) = rw tasks (
            find_task-update_rows id id 0 f db.tasks t ok_db.ordered found
              (RowStep-IsSameOrigin (claims _ free)).id
            ∙ rw ((nat_beq_iff id id).1 refl)) in
          let row : f t ≡ l.row = ground (arith, after, found_l) in
          let (a, b, c) = claim_row_holds actor (env.clock update_task) t free in
          (found_l, ground (arith, row, a), ground (arith, row, b), ground (arith, row, c))
    ]

-- Of two members who claim one task of a well-formed table, one right after the other, the second is
-- refused with a conflict that names the first, and changes nothing, if the driver works for it.
pub second_claim_loses :
    (env env' : Env) (limits : Limits) (first second : String) (id : ℕ) (db db' : Db) (l : Loaded)
    → IsWellFormed limits db
    → IsHealthy env'
    → first ≢ ""
    → first ≢ second
    → checkout env first id db ≡ (ok l, db')
    → checkout env' second id db' ≡ (err (conflict id first held_elsewhere), db')
second_claim_loses env env' limits first second id db db' l ok_db healthy named other h =
    let (found, holds, _, _) = checkout_holds env limits first id db db' l ok_db named h in
    let refused =
      checkout_of_held env' second id db' l.row healthy found (rw holds named) (rw holds other) in
    rw (find_task-id id db'.tasks l.row found, holds) at refused
