-- ===== src/Scheduler/Earliest.antt =====
-- internal/scheduler/expr.go: next finds the earliest minute that matches.
use denkeeper.Prelude.{
  ℕ, zero, suc, ◌+◌, ◌<◌, ◌≡◌, refl, Bool, true, false, not, ◌&&◌, Option, none, some, arith,
  Bool-cases, inl, inr,
}
use denkeeper.Scheduler.{Calendar}
use denkeeper.Scheduler.Cron.{CronSpec, matches, search, year, next}

-- No minute of so many, from one on, matches.
unfoldable pub none_of : Calendar → CronSpec → ℕ → ℕ → Bool
none_of cal c zero from = true
none_of cal c (suc k) from = not (matches cal c from) && none_of cal c k (from + 1)

-- The first minute that matches, of those that are left from one on; or nothing, where none of them
-- matches.
abbrev pub Earliest : Calendar → CronSpec → ℕ → ℕ → Option ℕ → Type 0
Earliest cal c left from none = none_of cal c left from ≡ true
Earliest cal c left from (some t) =
    (k : ℕ) × (t ≡ from + k) × (k < left) × (none_of cal c k from ≡ true) × (matches cal c t ≡ true)

skip-Earliest :
    (cal : Calendar) (c : CronSpec) (left from : ℕ) (o : Option ℕ)
    → matches cal c from ≡ false
    → Earliest cal c left (from + 1) o
    → Earliest cal c (suc left) from o
unfolding none_of
skip-Earliest cal c left from none h e = rw (h, e) refl
skip-Earliest cal c left from (some t) h (k, e, lt, before, m) =
    (suc k, omega (arith, e), omega (arith, lt), rw (h, before) refl, m)

pub search-Earliest :
    (cal : Calendar) (c : CronSpec) (left from : ℕ)
    → Earliest cal c left from (search cal c left from)
unfolding search none_of
search-Earliest cal c zero from = refl
search-Earliest cal c (suc left) from = elim (Bool-cases (matches cal c from)) [
  | inl m ↦ rw m (0, omega arith, omega arith, refl, m)
  | inr m ↦ rw m (
      skip-Earliest cal c left from (search cal c left (from + 1)) m
        (search-Earliest cal c left (from + 1)))
]

-- The next time of a cron expression is the first minute after the given one that matches it. There
-- is none exactly where no minute of the 366 days after it matches.
pub next-Earliest :
    (cal : Calendar) (c : CronSpec) (after : ℕ) → Earliest cal c year (after + 1) (next cal c after)
unfolding next
next-Earliest cal c after = search-Earliest cal c year (after + 1)
