-- ===== src/Task/Db/Rows.antt =====
-- The rows of the tasks table of internal/task/store.go: lookup, update and count by id, for a
-- table whose ids increase.
use denkeeper.Prelude.{
  ℕ, suc, ◌+◌, ◌≤◌, ◌<◌, ◌≡◌, refl, Bool, Bool-cases, some, List, [], ◌∷◌, ◌++◌, All, arith, inl,
  inr, ◌==◌, nat_eq, if◌then◌else◌,
}
use denkeeper.Task.{Task}
use denkeeper.Task.Lifecycle.{IsSameOrigin}
use denkeeper.Task.Db.{find_task, update_rows, count_rows, is_child_of}

-- Ids increase along the rows, from `b` on.
abbrev pub IsOrdered : ℕ → List Task → Type 0
IsOrdered b [] = Unit
IsOrdered b (t ∷ ts) = (b ≤ t.id) × IsOrdered (suc t.id) ts

-- Row by row, `ts` and `us` are the same tasks.
abbrev pub Evolves : List Task → List Task → Type 0
Evolves [] us = us ≡ []
Evolves (t ∷ ts) [] = ⊥
Evolves (t ∷ ts) (u ∷ us) = IsSameOrigin t u × Evolves ts us

pub IsSameOrigin-refl : (t : Task) → IsSameOrigin t t
IsSameOrigin-refl t = record {
  id = refl;
  parent_id = refl;
  depth = refl;
  created_by = refl;
  reviewer = refl;
  created_at = refl;
}

pub Evolves-refl : (ts : List Task) → Evolves ts ts
Evolves-refl [] = refl
Evolves-refl (t ∷ ts) = (IsSameOrigin-refl t, Evolves-refl ts)

pub find_task-id : (id : ℕ) (ts : List Task) (t : Task) → find_task id ts ≡ some t → t.id ≡ id
unfolding find_task
find_task-id id [] t h = absurd (cc)
find_task-id id (x ∷ ts) t h = ground (arith, find_task-id id ts t)

pub find_task-All :
    (P : Task → Type 0) (id : ℕ) (ts : List Task) (t : Task)
    → find_task id ts ≡ some t
    → All P ts
    → P t
unfolding find_task
find_task-All P id [] t h a = absurd (cc)
find_task-All P id (x ∷ ts) t h a = elim (Bool-cases (x.id == id)) [
  | inl here ↦ let e : x ≡ t = ground arith in rw e at a.0
  | inr later ↦ find_task-All P id ts t (ground arith) a.1
]

-- An update by an id that is too small for any row changes nothing.
update_rows-below :
    (id b : ℕ) (f : Task → Task) (ts : List Task)
    → id < b
    → IsOrdered b ts
    → update_rows id f ts ≡ ts
unfolding update_rows
update_rows-below id b f [] lt o = refl
update_rows-below id b f (t ∷ ts) lt o =
    ground (arith, update_rows-below id (suc t.id) f ts (omega arith) o.1)

pub update_rows-Evolves :
    (id b : ℕ) (f : Task → Task) (ts : List Task) (t : Task)
    → IsOrdered b ts
    → find_task id ts ≡ some t
    → IsSameOrigin t (f t)
    → Evolves ts (update_rows id f ts)
unfolding update_rows find_task
update_rows-Evolves id b f [] t o h s = refl
update_rows-Evolves id b f (x ∷ ts) t o h s = elim (Bool-cases (x.id == id)) [
  | inl here ↦
      let e : t ≡ x = ground arith in
      rw (here, update_rows-below id (suc x.id) f ts (ground arith) o.1)
        (rw e at s, Evolves-refl ts)
  | inr later ↦
      rw later (IsSameOrigin-refl x, update_rows-Evolves id (suc x.id) f ts t o.1 (ground arith) s)
]

-- What holds of every row, and of the row that was updated, holds of every row after it.
pub update_rows-All :
    (P : Task → Type 0) (id b : ℕ) (f : Task → Task) (ts : List Task) (t : Task)
    → IsOrdered b ts
    → find_task id ts ≡ some t
    → (P t → P (f t))
    → All P ts
    → All P (update_rows id f ts)
unfolding update_rows find_task
update_rows-All P id b f [] t o h keep a = tt
update_rows-All P id b f (x ∷ ts) t o h keep a = elim (Bool-cases (x.id == id)) [
  | inl here ↦
      let e : t ≡ x = ground arith in
      rw (here, update_rows-below id (suc x.id) f ts (ground arith) o.1)
        (rw (← e) (keep (rw e a.0)), a.1)
  | inr later ↦ rw later (a.0, update_rows-All P id (suc x.id) f ts t o.1 (ground arith) keep a.1)
]

-- Every other row stays, and the updated row is found.
pub find_task-update_rows :
    (id j b : ℕ) (f : Task → Task) (ts : List Task) (t : Task)
    → IsOrdered b ts
    → find_task id ts ≡ some t
    → (f t).id ≡ t.id
    → find_task j (update_rows id f ts) ≡ (if j == id then some (f t) else find_task j ts)
unfolding update_rows find_task
find_task-update_rows id j b f [] t o h same = absurd (cc)
find_task-update_rows id j b f (x ∷ ts) t o h same = elim (Bool-cases (x.id == id)) [
  | inl here ↦
      let e : x ≡ t = ground arith in
      rw (here, update_rows-below id (suc x.id) f ts (ground arith) o.1)
        (rw e (let at : t.id ≡ id = ground arith in ground arith))
  | inr later ↦
      rw later
        (ground (arith, find_task-update_rows id j (suc x.id) f ts t o.1 (ground arith) same))
]

pub Evolves-IsOrdered :
    (b : ℕ) (ts us : List Task) → Evolves ts us → IsOrdered b ts → IsOrdered b us
Evolves-IsOrdered b [] us e o = rw e tt
Evolves-IsOrdered b (t ∷ ts) [] e o = absurd e
Evolves-IsOrdered b (t ∷ ts) (u ∷ us) e o =
    (omega arith, rw e.0.id (Evolves-IsOrdered (suc t.id) ts us e.1 o.1))

pub Evolves-below :
    (n : ℕ) (ts us : List Task) → Evolves ts us → All (λ t. t.id < n) ts → All (λ t. t.id < n) us
Evolves-below n [] us e a = rw e tt
Evolves-below n (t ∷ ts) [] e a = absurd e
Evolves-below n (t ∷ ts) (u ∷ us) e a = (omega arith, Evolves-below n ts us e.1 a.1)

pub Evolves-find_task :
    (id : ℕ) (ts us : List Task) (t : Task)
    → Evolves ts us
    → find_task id ts ≡ some t
    → (u : Task) × (find_task id us ≡ some u) × IsSameOrigin t u
unfolding find_task
Evolves-find_task id [] us t e h = absurd (cc)
Evolves-find_task id (x ∷ ts) [] t e h = absurd e
Evolves-find_task id (x ∷ ts) (u ∷ us) t e h = elim (Bool-cases (x.id == id)) [
  | inl here ↦ let same : x ≡ t = ground arith in (u, ground arith, rw same at e.0)
  | inr later ↦
      let (v, found, origin) = Evolves-find_task id ts us t e.1 (ground arith) in
      (v, ground arith, origin)
]

pub Evolves-count_children :
    (p : ℕ) (ts us : List Task)
    → Evolves ts us
    → count_rows (is_child_of p) us ≡ count_rows (is_child_of p) ts
unfolding count_rows
Evolves-count_children p [] us e = rw e
Evolves-count_children p (t ∷ ts) [] e = absurd e
Evolves-count_children p (t ∷ ts) (u ∷ us) e =
    rw (e.0.parent_id, Evolves-count_children p ts us e.1)

pub IsOrdered-append :
    (b : ℕ) (ts : List Task) (u : Task)
    → b ≤ u.id
    → All (λ t. t.id < u.id) ts
    → IsOrdered b ts
    → IsOrdered b (ts ++ u ∷ [])
IsOrdered-append b [] u le a o = (le, tt)
IsOrdered-append b (t ∷ ts) u le a o = (o.0, IsOrdered-append (suc t.id) ts u a.0 a.1 o.1)

pub find_task-append :
    (id : ℕ) (ts us : List Task) (t : Task)
    → find_task id ts ≡ some t
    → find_task id (ts ++ us) ≡ some t
unfolding find_task
find_task-append id [] us t h = absurd (cc)
find_task-append id (x ∷ ts) us t h = ground (arith, find_task-append id ts us t)

pub count_rows-concat :
    (p : Task → Bool) (ts : List Task) (u : Task)
    → count_rows p (ts ++ u ∷ []) ≡ count_rows p ts + (if p u then 1 else 0)
unfolding count_rows
count_rows-concat p [] u = omega arith
count_rows-concat p (t ∷ ts) u = omega (arith, count_rows-concat p ts u)
