-- ===== src/Scheduler/Bits.antt =====
-- internal/scheduler/expr.go: the values of a cron field, against the range that it writes.
use denkeeper.Prelude.{
  ℕ, zero, suc, ◌+◌, ◌*◌, ◌-◌, ◌%◌, ◌≤◌, ◌<◌, ◌≡◌, refl, ◌↔◌, ◌⊎◌, inl, inr, true, if◌then◌else◌,
  ltb, nat_beq, nat_beq_iff, arith, Bool-cases,
}
use Prim.Native.Nat.{◌^◌}
use denkeeper.Scheduler.{Bitset, no_bits, has, with_bit}
use denkeeper.Scheduler.Field.{signed_leb, fill, rounds}

-- A number is one of those that a range writes.
abbrev pub IsStep : ℕ → ℕ → ℕ → ℕ → Type 0
IsStep start end step n = (j : ℕ) × (n ≡ start + j * step) × (n ≤ end)

fill-keeps : (r i end step : ℕ) (b : Bitset) (n : ℕ) → b n ≡ true → fill r i end step b n ≡ true
unfolding fill
fill-keeps zero i end step b n h = h
fill-keeps (suc r) i end step b n h =
    let b' : Bitset = if ltb i 64 then with_bit i b else b in
    let h' : b' n ≡ true = elim (Bool-cases (ltb i 64)) [
      | inl e ↦ rw e (ground (arith, h))
      | inr e ↦ rw e h
    ] in
    elim (Bool-cases (signed_leb i end)) [
      | inl goes ↦ rw goes (fill-keeps r ((i + step) % 2 ^ 64) end step b' n h')
      | inr ends ↦ rw ends h
    ]

-- A round adds a value of at most the end.
bit-within :
    (i end : ℕ) (b : Bitset) (n : ℕ)
    → signed_leb i end ≡ true
    → (if ltb i 64 then with_bit i b else b) n ≡ true
    → (b n ≡ true) ⊎ (n ≤ end)
bit-within i end b n goes = elim (Bool-cases (ltb i 64)) [
  | inl small ↦ rw small (λ h. elim (Bool-cases (nat_beq n i)) [
    | inl same ↦ inr (ground (arith, goes, small, (nat_beq_iff n i).0 same))
    | inr other ↦ inl (ground (arith, h, other))
  ])
  | inr large ↦ rw large (λ h. inl h)
]

-- Every value that the loop adds is at most the end, whatever wraps.
pub fill-within :
    (r i end step : ℕ) (b : Bitset) (n : ℕ)
    → fill r i end step b n ≡ true
    → (b n ≡ true) ⊎ (n ≤ end)
unfolding fill
fill-within zero i end step b n = λ h. inl h
fill-within (suc r) i end step b n = elim (Bool-cases (signed_leb i end)) [
  | inl goes ↦
      let b' : Bitset = if ltb i 64 then with_bit i b else b in
      rw goes (λ h. elim (fill-within r ((i + step) % 2 ^ 64) end step b' n h) [
        | inl old ↦ bit-within i end b n goes old
        | inr le ↦ inr le
      ])
  | inr ends ↦ rw ends (λ h. inl h)
]

no_wrap : (i step : ℕ) → i + step < 2 ^ 63 → (i + step) % 2 ^ 64 ≡ i + step
no_wrap i step h = omega (arith, h)

mul_suc_lem : (j step : ℕ) → suc j * step ≡ step + j * step
mul_suc_lem j step = omega arith

IsStep-next :
    (i end step n : ℕ)
    → i + step < 2 ^ 63
    → IsStep ((i + step) % 2 ^ 64) end step n
    → IsStep i end step n
IsStep-next i end step n lt (j, e, le) =
    (suc j, omega (arith, e, no_wrap i step lt, mul_suc_lem j step), le)

bit-IsStep :
    (i end step : ℕ) (b : Bitset) (n : ℕ)
    → i ≤ end
    → (if ltb i 64 then with_bit i b else b) n ≡ true
    → (b n ≡ true) ⊎ IsStep i end step n
bit-IsStep i end step b n le = elim (Bool-cases (ltb i 64)) [
  | inl small ↦ rw small (λ h. elim (Bool-cases (nat_beq n i)) [
    | inl same ↦
        let e : n ≡ i = (nat_beq_iff n i).0 same in inr (0, omega (arith, e), omega (arith, e, le))
    | inr other ↦ inl (ground (arith, h, other))
  ])
  | inr large ↦ rw large (λ h. inl h)
]

-- The loop, where nothing wraps.
fill_steps :
    (r i end step : ℕ) (b : Bitset) (n : ℕ)
    → end < 64
    → step ≤ 2 ^ 63 - 64
    → fill r i end step b n ≡ true
    → i < 2 ^ 63
    → (b n ≡ true) ⊎ IsStep i end step n
unfolding fill
fill_steps zero i end step b n he hs = λ h hi. inl h
fill_steps (suc r) i end step b n he hs = elim (Bool-cases (signed_leb i end)) [
  | inl goes ↦
      let b' : Bitset = if ltb i 64 then with_bit i b else b in
      rw goes (λ h hi.
        let le : i ≤ end = ground (arith, goes, hi) in
        let lt : i + step < 2 ^ 63 = omega (arith, le, he, hs) in
        let lt' : (i + step) % 2 ^ 64 < 2 ^ 63 = omega (arith, lt, no_wrap i step lt) in
        elim (fill_steps r ((i + step) % 2 ^ 64) end step b' n he hs h lt') [
          | inl old ↦ bit-IsStep i end step b n le old
          | inr is ↦ inr (IsStep-next i end step n lt is)
        ])
  | inr ends ↦ rw ends (λ h hi. inl h)
]

fill_all :
    (r i end step : ℕ) (b : Bitset) (n j : ℕ)
    → end < 64
    → step ≤ 2 ^ 63 - 64
    → 0 < step
    → end < i + r
    → n ≡ i + j * step
    → n ≤ end
    → fill r i end step b n ≡ true
unfolding fill
fill_all zero i end step b n j he hs pos fuel e le = absurd (omega (arith, fuel, e, le))
fill_all (suc r) i end step b n zero he hs pos fuel e le =
    let same : n ≡ i = omega (arith, e) in
    let goes : signed_leb i end ≡ true = ground (arith, same, le) in
    let small : ltb i 64 ≡ true = ground (arith, same, le, he) in
    rw (goes, small)
      (fill-keeps r ((i + step) % 2 ^ 64) end step (with_bit i b) n (ground (arith, same)))
fill_all (suc r) i end step b n (suc j) he hs pos fuel e le =
    let e' : n ≡ i + step + j * step = omega (arith, e, mul_suc_lem j step) in
    let lt : i + step < 2 ^ 63 = omega (arith, e', le, he) in
    let goes : signed_leb i end ≡ true = ground (arith, e', le) in
    let b' : Bitset = if ltb i 64 then with_bit i b else b in
    rw (goes, no_wrap i step lt)
      (fill_all r (i + step) end step b' n j he hs pos (omega (arith, fuel, pos)) e' le)

-- The loop of parseCronPart gives the numbers from the start to the end by the step, and no others,
-- for bounds below 64 and a positive step that keeps 64 from the largest int.
pub fill_lem :
    (start end step n : ℕ)
    → start < 64
    → end < 64
    → 0 < step
    → step ≤ 2 ^ 63 - 64
    → (has (fill rounds start end step no_bits) n ≡ true) ↔ IsStep start end step n
unfolding has
fill_lem start end step n hb he pos hs = (
  λ h.
      elim (fill_steps rounds start end step no_bits n he hs (ground (arith, h))
        (omega (arith, hb))) [ inl empty ↦ absurd (ground (arith, empty)) | inr is ↦ is ],
  λ (j, e, le).
      let small : ltb n 64 ≡ true = ground (arith, le, he) in
      rw (small, fill_all rounds start end step no_bits n j he hs pos (omega (arith, he)) e le)
        refl,
)
