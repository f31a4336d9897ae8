-- ===== src/Task/Rollback.antt =====
-- Errors of internal/task/store.go and internal/task/service.go: what a call that fails has done.
use denkeeper.Prelude.{
  ℕ, ◌≡◌, inl, inr, refl, ◌∙◌, String, true, Bool-cases, some, arith, nat_eq, string_eq,
}
use denkeeper.Task.{Status, valid_status, Task, status_eq}
use denkeeper.Task.Db.{
  Env, Db, Tx, Result, ok, err, Error, Loaded, find_task, mutate, in_tx, finish_tx, then_get,
  get_task, ◌>>=◌, begin_tx, commit_tx, select_task, select_after,
}
use denkeeper.Task.Db.Outcomes.{read_task_of_runs}
use denkeeper.Task.Db.Lemmas.{then_get-db}
use denkeeper.Task.Store.{
  Limits, checkout, release, set_status, assign, edit, add_comment, claim, release_held, move,
  reassign, rewrite, comment_tx,
}
use denkeeper.Task.Effect.Updates.{
  release-Effect, checkout-Effect, set_status-Effect, assign-Effect, edit-Effect,
}
use denkeeper.Task.Effect.{Effect}
use denkeeper.Task.Invariant.{IsWellFormed}
use denkeeper.Task.Track.{Effect-find_task}

finish_tx-err :
    {A : Type 0} (env : Env) (db : Db) (r : Result (A × Db)) (e : Error)
    → (finish_tx env db r).0 ≡ err e
    → (finish_tx env db r).1 ≡ db
finish_tx-err env db (err e') e h = refl
finish_tx-err env db (ok (a, db')) e h = elim (Bool-cases (env.runs commit_tx)) [
  | inl on ↦ absurd (cc (rw on at h))
  | inr off ↦ rw off refl
]

-- An error inside a transaction, or of its begin or commit, leaves the tables as they were.
in_tx-err :
    {A : Type 0} (env : Env) (m : Tx A) (db : Db) (e : Error)
    → (in_tx env m db).0 ≡ err e
    → (in_tx env m db).1 ≡ db
unfolding in_tx
in_tx-err env m db e h = elim (Bool-cases (env.runs begin_tx)) [
  | inl on ↦ rw on (finish_tx-err env db (m db) e (rw on at h))
  | inr off ↦ rw off refl
]

then_get-err :
    (env : Env) (id : ℕ) (r : Result (Unit {0}) × Db) (e : Error) (u : Task)
    → env.runs select_after ≡ true
    → find_task id r.1.tasks ≡ some u
    → (then_get env id r).0 ≡ err e
    → r.0 ≡ err e
then_get-err env id (err e', d) e u on found h = ground arith
then_get-err env id (ok _, d) e u on found h =
    absurd (cc (rw (read_task_of_runs env select_after id d u on found) at h))

module _ (env : Env) (limits : Limits) (actor : String) (id : ℕ) (db : Db) (t : Task) (e : Error)
    (well : IsWellFormed limits db) (on : env.runs select_after ≡ true)
    (found : find_task id db.tasks ≡ some t) where
  mutate_rolls_back :
      (fn : Loaded → Tx (Unit {0}))
      → Effect limits actor db (mutate env id fn db).1
      → (mutate env id fn db).0 ≡ err e
      → (mutate env id fn db).1 ≡ db
  unfolding mutate
  mutate_rolls_back fn effect h =
      let (u, found_u, _) = Effect-find_task limits actor db _ id t well effect found in
      let r = in_tx env (get_task env select_task id >>= fn) db in
      let failed = then_get-err env id r e u on (rw (then_get-db env id r) at found_u) h in
      then_get-db env id r ∙ in_tx-err env (get_task env select_task id >>= fn) db e failed

  -- A checkout, release, change of status, assignment, edit or comment of the store, on a task of a
  -- well-formed table, that returns an error has changed nothing, whichever statement was refused, if
  -- only the read after the commit is carried out.
  pub store_rolls_back :
      ((checkout env actor id db).0 ≡ err e → (checkout env actor id db).1 ≡ db)
      × ((release env actor id db).0 ≡ err e → (release env actor id db).1 ≡ db)
      × ((s : Status) (reason : String)
          → (set_status env actor id s reason db).0 ≡ err e
          → (set_status env actor id s reason db).1 ≡ db)
      × ((assignee : String)
          → (assign env actor id assignee db).0 ≡ err e
          → (assign env actor id assignee db).1 ≡ db)
      × ((title body : String)
          → (edit env actor id title body db).0 ≡ err e
          → (edit env actor id title body db).1 ≡ db)
      × ((body : String)
          → (add_comment env actor id body db).0 ≡ err e
          → (add_comment env actor id body db).1 ≡ db)
  unfolding checkout release set_status assign edit add_comment
  store_rolls_back = (
    mutate_rolls_back (claim env actor id) (checkout-Effect limits env actor id db),
    mutate_rolls_back (release_held env actor id) (release-Effect limits env actor id db),
    λ s reason. elim (Bool-cases (valid_status s)) [
      | inr unknown ↦ λ _. rw unknown refl
      | inl known ↦
          let effect = set_status-Effect limits env actor id db s reason in
          rw known (mutate_rolls_back (move env actor id s reason) (rw known at effect))
    ],
    λ assignee.
        mutate_rolls_back (reassign env actor id assignee)
          (assign-Effect limits env actor id db assignee),
    λ title body.
        mutate_rolls_back (rewrite env actor id title body)
          (edit-Effect limits env actor id db title body),
    λ body. in_tx-err env (comment_tx env actor id body) db e,
  )
