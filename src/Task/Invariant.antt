-- ===== src/Task/Invariant.antt =====
-- Well-formed tables of internal/task/store.go, and that every effect of a call keeps them so.
use denkeeper.Prelude.{
  ℕ, ◌+◌, ◌≤◌, ◌<◌, ◌≡◌, ◌∙◌, String, Bool-cases, none, some, List, [], ◌∷◌, ◌++◌, All, All-append,
  All-map, arith, inl, inr, ◌==◌, nat_eq, nat_beq_iff,
}
use denkeeper.Task.{Task}
use denkeeper.Task.Lifecycle.{IsSound, IsSameOrigin, RowStep-IsSound, RowStep-IsSameOrigin}
use denkeeper.Task.Db.{Db, find_task, count_rows, is_child_of}
use denkeeper.Task.Db.Rows.{
  IsOrdered, Evolves, find_task-id, find_task-All, update_rows-All, update_rows-Evolves,
  Evolves-IsOrdered, Evolves-below, Evolves-find_task, Evolves-count_children, IsOrdered-append,
  find_task-append, count_rows-concat,
}
use denkeeper.Task.Store.{Limits}
use denkeeper.Task.Effect.{Effect, nothing, wrote, filed, IsFresh, IsPlaced, at_top, under}

-- A task without a parent is at depth 0; any other is one level below an older task of the table,
-- and no deeper than allowed.
pub data IsInTree (limits : Limits) (tasks : List Task) (t : Task) : Type 0 where
  root : t.parent_id ≡ none → t.depth ≡ 0 → IsInTree limits tasks t
  below :
      (p : ℕ) (parent : Task)
      → t.parent_id ≡ some p
      → find_task p tasks ≡ some parent
      → p < t.id
      → t.depth ≡ parent.depth + 1
      → t.depth ≤ limits.max_depth
      → IsInTree limits tasks t

pub record IsWellFormed (limits : Limits) (db : Db) : Type 0 where
  pub sound : All IsSound db.tasks
  pub ordered : IsOrdered 0 db.tasks
  pub issued : All (λ t. t.id < db.next_task) db.tasks
  pub in_tree : All (IsInTree limits db.tasks) db.tasks
  pub uncrowded : (p : ℕ) → count_rows (is_child_of p) db.tasks ≤ limits.max_children

module _ (limits : Limits) where
  IsInTree-Evolves :
      (ts us : List Task) (t u : Task)
      → Evolves ts us
      → IsSameOrigin t u
      → IsInTree limits ts t
      → IsInTree limits us u
  IsInTree-Evolves ts us t u e s (root none_above flat) =
      root (s.parent_id ∙ none_above) (s.depth ∙ flat)
  IsInTree-Evolves ts us t u e s (below p parent above found older deep within) =
      let (parent', found', origin) = Evolves-find_task p ts us parent e found in
      below p parent' (s.parent_id ∙ above) found' (rw s.id older)
        (omega (arith, s.depth, deep, origin.depth)) (omega (arith, s.depth, within))

  All-IsInTree-Evolves :
      (ts us vs ws : List Task)
      → Evolves ts us
      → Evolves vs ws
      → All (IsInTree limits ts) vs
      → All (IsInTree limits us) ws
  All-IsInTree-Evolves ts us [] ws e k a = rw k tt
  All-IsInTree-Evolves ts us (v ∷ vs) [] e k a = absurd k
  All-IsInTree-Evolves ts us (v ∷ vs) (w ∷ ws) e k a =
      (IsInTree-Evolves ts us v w e k.0 a.0, All-IsInTree-Evolves ts us vs ws e k.1 a.1)

  IsInTree-append :
      (ts us : List Task) (t : Task) → IsInTree limits ts t → IsInTree limits (ts ++ us) t
  IsInTree-append ts us t (root none_above flat) = root none_above flat
  IsInTree-append ts us t (below p parent above found older deep within) =
      below p parent above (find_task-append p ts us parent found) older deep within

  IsPlaced-IsInTree :
      (db : Db) (u : Task)
      → All (λ t. t.id < db.next_task) db.tasks
      → u.id ≡ db.next_task
      → IsPlaced limits db u
      → IsInTree limits (db.tasks ++ u ∷ []) u
  IsPlaced-IsInTree db u issued new (at_top none_above flat) = root none_above flat
  IsPlaced-IsInTree db u issued new (under p parent above found _ deep within _) =
      below p parent above (find_task-append p db.tasks (u ∷ []) parent found)
        (let at = find_task-id p db.tasks parent found in
          let lt = find_task-All (λ t. t.id < db.next_task) p db.tasks parent found issued in
          omega arith)
        deep within

  IsPlaced-uncrowded :
      (db : Db) (u : Task) (q : ℕ)
      → ((p : ℕ) → count_rows (is_child_of p) db.tasks ≤ limits.max_children)
      → IsPlaced limits db u
      → count_rows (is_child_of q) (db.tasks ++ u ∷ []) ≤ limits.max_children
  IsPlaced-uncrowded db u q within (at_top none_above flat) =
      rw count_rows-concat (rw none_above (omega (arith, within q)))
  IsPlaced-uncrowded db u q within (under p parent above found _ _ _ room) = rw count_rows-concat (
      rw above (elim (Bool-cases (p == q)) [
        | inl same ↦
            let at : parent.id ≡ q =
              find_task-id p db.tasks parent found ∙ (nat_beq_iff p q).0 same in
            rw same (let room' = rw at at room in omega arith)
        | inr other ↦ rw other (omega (arith, within q))
      ]))

  IsFresh-IsSound : (actor : String) (db : Db) (u : Task) → IsFresh limits actor db u → IsSound u
  IsFresh-IsSound actor db u fresh = ground arith

  -- Every effect of a call keeps the tables well formed.
  pub Effect-IsWellFormed :
      (actor : String) (db db' : Db)
      → Effect limits actor db db'
      → IsWellFormed limits db
      → IsWellFormed limits db'
  Effect-IsWellFormed actor db db' (nothing same) ok = rw same ok
  Effect-IsWellFormed actor db db' (wrote now id t f kind body payload found st same) ok = rw same (
      let e = update_rows-Evolves id 0 f db.tasks t ok.ordered found (RowStep-IsSameOrigin st) in
      record {
        sound =
            update_rows-All IsSound id 0 f db.tasks t ok.ordered found (RowStep-IsSound st)
              ok.sound;
        ordered = Evolves-IsOrdered 0 db.tasks _ e ok.ordered;
        issued = Evolves-below db.next_task db.tasks _ e ok.issued;
        in_tree = All-IsInTree-Evolves db.tasks _ db.tasks _ e e ok.in_tree;
        uncrowded = λ p. rw (Evolves-count_children p db.tasks _ e) (ok.uncrowded p);
      })
  Effect-IsWellFormed actor db db' (filed u e more fresh tasks next events by) ok = record {
    sound =
        rw tasks
          (All-append IsSound db.tasks (u ∷ []) ok.sound (IsFresh-IsSound actor db u fresh, tt));
    ordered =
        rw tasks (IsOrdered-append 0 db.tasks u (omega arith) (rw fresh.id ok.issued) ok.ordered);
    issued =
        rw (tasks, next)
          (All-append _ db.tasks (u ∷ []) (All-map _ _ (λ t h. omega arith) db.tasks ok.issued)
            (omega (arith, fresh.id), tt));
    in_tree = rw tasks (
        All-append _ db.tasks (u ∷ [])
          (All-map _ _ (λ t. IsInTree-append db.tasks (u ∷ []) t) db.tasks ok.in_tree)
          (IsPlaced-IsInTree db u ok.issued fresh.id fresh.place, tt));
    uncrowded = λ p. rw tasks (IsPlaced-uncrowded db u p ok.uncrowded fresh.place);
  }
