-- ===== src/Scheduler/Ranges.antt =====
-- internal/scheduler/expr.go: the values of a parsed expression stay in the ranges of its fields.
use denkeeper.Prelude.{
  ℕ, ◌≤◌, ◌≡◌, refl, String, false, ◌&&◌, ◌||◌, Option, none, some, List, [], ◌∷◌, if◌then◌else◌,
  ltb, nat_beq, nat_beq_iff, ap, ◌∙◌, arith, Bool-cases, inl, inr, trim_space, split_at,
}
use denkeeper.Scheduler.{Bitset, no_bits, has}
use denkeeper.Scheduler.Bits.{fill-within}
use denkeeper.Scheduler.Cron.{
  CronSpec, spec_of, spec_of_fields, parse_cron_spec, sunday_alias, fields,
}
use denkeeper.Scheduler.Field.{
  fill, rounds, with_step, bounds_of, in_range, filled, parse_cron_part, or_bits, parse_parts,
  parse_cron_field, field_of, split_all, split_at_last,
}

-- No value of a set is above a number.
abbrev pub AtMost : ℕ → Bitset → Type 0
AtMost k b = (n : ℕ) → (b n && ltb k n) ≡ false

abbrev pub AtMostOption : ℕ → Option Bitset → Type 0
AtMostOption k none = Unit
AtMostOption k (some b) = AtMost k b

fill-AtMost : (start end step : ℕ) → AtMost end (fill rounds start end step no_bits)
fill-AtMost start end step n = elim (Bool-cases (fill rounds start end step no_bits n)) [
  | inl h ↦ elim (fill-within rounds start end step no_bits n h) [
    | inl empty ↦ absurd (ground (arith, empty))
    | inr le ↦ rw h (ground (arith, le))
  ]
  | inr h ↦ rw h refl
]

AtMost-more : (j k : ℕ) (b : Bitset) → j ≤ k → AtMost j b → AtMost k b
AtMost-more j k b le h n = ground (arith, le, h n)

in_range-AtMost :
    (min max step : ℕ) (o : Option (ℕ × ℕ)) → AtMostOption max (in_range min max step o)
in_range-AtMost min max step none = tt
in_range-AtMost min max step (some (start, end)) =
    elim (Bool-cases (ltb start min || ltb max end || ltb end start)) [
      | inl bad ↦ rw bad tt
      | inr good ↦ rw good (
          AtMost-more end max (fill rounds start end step no_bits) (ground (arith, good))
            (fill-AtMost start end step))
    ]

filled-AtMost : (min max : ℕ) (o : Option (ℕ × String)) → AtMostOption max (filled min max o)
filled-AtMost min max none = tt
filled-AtMost min max (some (step, base)) = in_range-AtMost min max step (bounds_of base min max)

part-AtMost : (s : String) (min max : ℕ) → AtMostOption max (parse_cron_part s min max)
unfolding parse_cron_part
part-AtMost s min max = filled-AtMost min max (with_step s (split_at_last 47 s))

or_bits-AtMost :
    (max : ℕ) (o p : Option Bitset)
    → AtMostOption max o
    → AtMostOption max p
    → AtMostOption max (or_bits o p)
or_bits-AtMost max (some b) (some c) h g = λ n. ground (arith, h n, g n)
or_bits-AtMost max (some b) none h g = tt
or_bits-AtMost max none (some c) h g = tt
or_bits-AtMost max none none h g = tt

parts-AtMost : (parts : List String) (min max : ℕ) → AtMostOption max (parse_parts parts min max)
unfolding parse_parts
parts-AtMost [] min max = λ n. refl
parts-AtMost (part ∷ parts) min max =
    or_bits-AtMost max (parse_cron_part (trim_space part) min max) (parse_parts parts min max)
      (part-AtMost (trim_space part) min max) (parts-AtMost parts min max)

field-AtMost :
    (s : String) (min max : ℕ) (o : Option (String × String))
    → AtMostOption max (field_of s min max o)
unfolding field_of
field-AtMost s min max none = part-AtMost s min max
field-AtMost s min max (some p) = parts-AtMost (split_all 44 s) min max

-- The values that the fields of a specification may have.
abbrev pub InRanges : Option CronSpec → Type 0
InRanges none = Unit
InRanges (some c) =
    AtMost 59 c.minute × AtMost 23 c.hour × AtMost 31 c.dom × AtMost 12 c.month × AtMost 6 c.dow

dow-AtMost : (dow : Bitset) → AtMost 7 dow → AtMost 6 (if has dow 7 then sunday_alias dow else dow)
unfolding has
dow-AtMost dow h n = elim (Bool-cases (dow 7)) [
  | inl seven ↦ rw seven (ground (arith, h n))
  | inr other ↦ elim (Bool-cases (nat_beq n 7)) [
    | inl e ↦ let same : n ≡ 7 = (nat_beq_iff n 7).0 e in rw (other, ap dow same ∙ other) refl
    | inr e ↦ rw other (ground (arith, h n, e))
  ]
]

spec-InRanges :
    (a b c d e : Option Bitset)
    → AtMostOption 59 a
    → AtMostOption 23 b
    → AtMostOption 31 c
    → AtMostOption 12 d
    → AtMostOption 7 e
    → InRanges (spec_of a b c d e)
spec-InRanges (some a) (some b) (some c) (some d) (some e) ha hb hc hd he =
    (ha, hb, hc, hd, dow-AtMost e he)
spec-InRanges none b c d e ha hb hc hd he = tt
spec-InRanges (some a) none c d e ha hb hc hd he = tt
spec-InRanges (some a) (some b) none d e ha hb hc hd he = tt
spec-InRanges (some a) (some b) (some c) none e ha hb hc hd he = tt
spec-InRanges (some a) (some b) (some c) (some d) none ha hb hc hd he = tt

fields-InRanges : (l : List String) → InRanges (spec_of_fields l)
unfolding parse_cron_field
fields-InRanges (a ∷ b ∷ c ∷ d ∷ e ∷ []) =
    spec-InRanges _ _ _ _ _ (field-AtMost a 0 59 (split_at 44 a))
      (field-AtMost b 0 23 (split_at 44 b)) (field-AtMost c 1 31 (split_at 44 c))
      (field-AtMost d 1 12 (split_at 44 d)) (field-AtMost e 0 7 (split_at 44 e))
fields-InRanges [] = tt
fields-InRanges (a ∷ []) = tt
fields-InRanges (a ∷ b ∷ []) = tt
fields-InRanges (a ∷ b ∷ c ∷ []) = tt
fields-InRanges (a ∷ b ∷ c ∷ d ∷ []) = tt
fields-InRanges (a ∷ b ∷ c ∷ d ∷ e ∷ f ∷ l) = tt

-- Whatever the text, a cron expression that parses has minutes of at most 59, hours of at most 23,
-- days of at most 31, months of at most 12 and, with the seven that stands for Sunday replaced,
-- weekdays of at most 6.
pub parse_cron_spec-InRanges : (expr : String) → InRanges (parse_cron_spec expr)
unfolding parse_cron_spec
parse_cron_spec-InRanges expr = fields-InRanges (fields expr)
