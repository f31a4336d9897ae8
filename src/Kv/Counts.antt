-- ===== src/Kv/Counts.antt =====
-- internal/kv/store.go: how the statements change the number of rows of an agent.
use denkeeper.Prelude.{
  ◌+◌, ◌≤◌, ◌<◌, ◌≡◌, String, Bool, true, false, not, ◌&&◌, List, [], ◌∷◌, if◌then◌else◌, ◌==◌,
  string_eq, arith, Bool-cases, inl, inr,
}
use denkeeper.Kv.{Row, has_row, count_rows, upsert, keep}

pub upsert-count_rows :
    (new : Row) (a : String) (rows : List Row)
    → count_rows a (upsert new rows)
      ≡ count_rows a rows
        + (if not (has_row new.agent new.key rows) && new.agent == a then 1 else 0)
unfolding upsert count_rows has_row
upsert-count_rows new a [] = ground arith
upsert-count_rows new a (r ∷ rows) = ground (arith, upsert-count_rows new a rows)

pub keep-count_rows :
    (test : Row → Bool) (a : String) (rows : List Row)
    → count_rows a (keep test rows) ≤ count_rows a rows
unfolding keep count_rows
keep-count_rows test a [] = omega arith
keep-count_rows test a (r ∷ rows) = ground (arith, keep-count_rows test a rows)

-- A key that is gone has made room.
pub keep-room :
    (test : Row → Bool) (agent key : String) (rows : List Row)
    → has_row agent key (keep test rows) ≡ false
    → has_row agent key rows ≡ true
    → count_rows agent (keep test rows) < count_rows agent rows
unfolding keep count_rows has_row
keep-room test agent key [] = λ gone had. absurd (ground (arith, had))
keep-room test agent key (r ∷ rows) = elim (Bool-cases (test r)) [
  | inl kept ↦ rw kept (λ gone had. ground (
    arith,
    gone,
    had,
    keep-room test agent key rows (ground (arith, gone)) (ground (arith, gone, had)),
  ))
  | inr cut ↦ rw cut (λ gone had. elim (Bool-cases (r.agent == agent)) [
    | inl same ↦ rw same (omega (arith, keep-count_rows test agent rows))
    | inr other ↦ rw other (keep-room test agent key rows gone (ground (arith, had, other)))
  ])
]
