-- ===== src/Task/Track.antt =====
-- Following one task of internal/task/store.go through calls of the service.
use denkeeper.Prelude.{
  ℕ, ◌≡◌, ◌⊎◌, inl, inr, refl, sym, ◌∙◌, String, Bool-cases, some, List, [], ◌∷◌, All, ◌==◌, nat_eq,
  nat_beq_iff, arith, subst,
}
use denkeeper.Task.{Task}
use denkeeper.Task.Lifecycle.{RowStep, RowStep-IsSameOrigin, IsSound}
use denkeeper.Task.Db.{Db, find_task}
use denkeeper.Task.Db.Rows.{find_task-update_rows, find_task-append, find_task-All}
use denkeeper.Task.Store.{Limits}
use denkeeper.Task.Effect.{Effect, nothing, wrote, filed}
use denkeeper.Task.Invariant.{IsWellFormed, Effect-IsWellFormed}
use denkeeper.Task.Service.{World, Service}
use denkeeper.Task.Run.Keeps.{step-Effects}
use denkeeper.Task.Run.{Command, step, run, Effects, done, next}

-- After an effect a task is still there: as it was, or one step on.
pub Effect-find_task :
    (limits : Limits) (actor : String) (db db' : Db) (j : ℕ) (t : Task)
    → IsWellFormed limits db
    → Effect limits actor db db'
    → find_task j db.tasks ≡ some t
    → (u : Task) × (find_task j db'.tasks ≡ some u) × ((u ≡ t) ⊎ RowStep actor t u)
Effect-find_task limits actor db db' j t ok (nothing same) found = (t, rw same found, inl refl)
Effect-find_task limits actor db db' j t ok (filed u e more _ tasks _ _ _) found =
    (t, rw tasks (find_task-append j db.tasks (u ∷ []) t found), inl refl)
Effect-find_task limits actor db db' j t ok (wrote now id r f kind body payload at st same) found =
    let after =
      find_task-update_rows id j 0 f db.tasks r ok.ordered at (RowStep-IsSameOrigin st).id in
    elim (Bool-cases (j == id)) [
      | inl here ↦
          let e : id ≡ j = sym ((nat_beq_iff j id).0 here) in
          let found_r : find_task j db.tasks ≡ some r = rw e at at in
          let same_row : r ≡ t = ground (arith, found, found_r) in
          (f r, rw same (after ∙ rw here), inr (subst (λ x. RowStep actor x (f r)) same_row st))
      | inr elsewhere ↦ (t, rw same (after ∙ rw elsewhere found), inl refl)
    ]

pub Effects-IsWellFormed :
    (limits : Limits) (actor : String) (db db' : Db)
    → Effects limits actor db db'
    → IsWellFormed limits db
    → IsWellFormed limits db'
Effects-IsWellFormed limits actor db db' done ok = ok
Effects-IsWellFormed limits actor db db' (next {d} es e) ok =
    Effect-IsWellFormed limits actor d db' e (Effects-IsWellFormed limits actor db d es ok)

-- Well-formed tables stay well formed under every sequence of calls, by any members, whatever
-- statements the driver refuses.
pub run-IsWellFormed :
    (sv : Service) (cs : List (String × Command)) (w : World)
    → IsWellFormed sv.limits w.db
    → IsWellFormed sv.limits (run sv cs w).db
unfolding run
run-IsWellFormed sv [] w ok = ok
run-IsWellFormed sv ((actor, c) ∷ cs) w ok =
    run-IsWellFormed sv cs (step sv actor c w)
      (Effects-IsWellFormed sv.limits actor w.db _ (step-Effects sv actor c w) ok)

-- A property of a row that the steps of certain members keep.
module _ (Q : String → Type 0) (P : Task → Type 0)
    (keep : (actor : String) (t u : Task)
      → Q actor
      → IsSound t
      → RowStep actor t u
      → P t
      → P u) where
  Effects-keep :
      (limits : Limits) (actor : String) (db db' : Db) (j : ℕ) (t : Task)
      → IsWellFormed limits db
      → Q actor
      → Effects limits actor db db'
      → find_task j db.tasks ≡ some t
      → P t
      → (u : Task) × (find_task j db'.tasks ≡ some u) × P u
  Effects-keep limits actor db db' j t ok q done found p = (t, found, p)
  Effects-keep limits actor db db' j t ok q (next {d} es e) found p =
      let (u, found_u, p_u) = Effects-keep limits actor db d j t ok q es found p in
      let ok_d = Effects-IsWellFormed limits actor db d es ok in
      let (v, found_v, how) = Effect-find_task limits actor d db' j u ok_d e found_u in
      elim how [
        | inl same ↦ (v, found_v, rw same p_u)
        | inr st ↦ (
          v,
          found_v,
          keep actor u v q (find_task-All IsSound j d.tasks u found_u ok_d.sound) st p_u,
        )
      ]

  -- It is kept over calls by those members.
  pub run_keeps :
      (sv : Service) (cs : List (String × Command)) (w : World) (j : ℕ) (t : Task)
      → IsWellFormed sv.limits w.db
      → All (λ c. Q c.0) cs
      → find_task j w.db.tasks ≡ some t
      → P t
      → (u : Task) × (find_task j (run sv cs w).db.tasks ≡ some u) × P u
  unfolding run
  run_keeps sv [] w j t ok q found p = (t, found, p)
  run_keeps sv ((actor, c) ∷ cs) w j t ok q found p =
      let es = step-Effects sv actor c w in
      let (u, found_u, p_u) = Effects-keep sv.limits actor w.db _ j t ok q.0 es found p in
      run_keeps sv cs (step sv actor c w) j u (Effects-IsWellFormed sv.limits actor w.db _ es ok)
        q.1 found_u p_u
