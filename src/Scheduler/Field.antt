-- ===== src/Scheduler/Field.antt =====
-- internal/scheduler/expr.go: parseCronPart and parseCronField. An int is an int64 by its bits.
use denkeeper.Prelude.{
  ℕ, zero, suc, ◌+◌, ◌*◌, ◌-◌, ◌%◌, String, Bool, true, false, ◌&&◌, ◌||◌, Option, none, some, List,
  [], ◌∷◌, if◌then◌else◌, ◌==◌, string_eq, ltb, leb, nat_beq, is_empty, split_at, trim_space,
}
use Prim.Native.Char.{code}
use Prim.Native.Nat.{◌^◌}
use mathlib.Core.Option
use denkeeper.Scheduler.{Bitset, no_bits, union, with_bit}

-- A text cut at the last character of a code.
unfoldable pub split_at_last : ℕ → String → Option (String × String)
split_at_last mark String.[] = none
split_at_last mark (String.◌∷◌ c s) =
    let rest = split_at_last mark s in
    elim rest [
      | some p ↦ some (String.◌∷◌ c p.0, p.1)
      | none ↦ if nat_beq (code c) mark then some ("", s) else none
    ]

-- strings.Split at a character.
unfoldable pub split_all : ℕ → String → List String
split_all mark String.[] = "" ∷ []
split_all mark (String.◌∷◌ c s) =
    let rest = split_all mark s in
    if nat_beq (code c) mark
    then "" ∷ rest
    else (elim rest [ [] ↦ String.◌∷◌ c "" ∷ [] | p ∷ ps ↦ String.◌∷◌ c p ∷ ps ])

unfoldable pub digits : ℕ → String → Option ℕ
digits acc String.[] = some acc
digits acc (String.◌∷◌ c s) =
    let rest = digits (acc * 10 + (code c - 48)) s in
    if leb 48 (code c) && leb (code c) 57 then rest else none

unfoldable pub number : String → Option ℕ
unfolding digits
number s = if is_empty s then none else digits 0 s

-- A value that fits an int64 and is not negative; of the negative ones, only zero.
abbrev pub if_int : Bool → Option ℕ → Option ℕ
if_int negative none = none
if_int negative (some n) =
    if negative
    then (if nat_beq n 0 then some 0 else none)
    else (if ltb n (2 ^ 63) then some n else none)

-- strconv.Atoi, and the test of its callers that a number is not negative.
unfoldable pub atoi : String → Option ℕ
unfolding number
atoi String.[] = none
atoi (String.◌∷◌ c s) =
    if nat_beq (code c) 43
    then if_int false (number s)
    else (if nat_beq (code c) 45
        then if_int true (number s)
        else if_int false (number (String.◌∷◌ c s)))

-- `i <= end`, where a number with the top bit is negative.
abbrev pub signed_leb : ℕ → ℕ → Bool
signed_leb i end = leb (2 ^ 63) i || leb i end

-- The loop of parseCronPart. A shift by more than 63 gives no bit. From a start of at most 63 it ends
-- within 64 rounds, or, where the addition wraps, within as many pairs of rounds.
unfoldable pub fill : ℕ → ℕ → ℕ → ℕ → Bitset → Bitset
fill zero i end step b = b
fill (suc rounds) i end step b =
    let rest = fill rounds ((i + step) % 2 ^ 64) end step (if ltb i 64 then with_bit i b else b) in
    if signed_leb i end then rest else b

abbrev pub rounds : ℕ
rounds = 130

-- The step and the text before it.
abbrev pub with_step : String → Option (String × String) → Option (ℕ × String)
with_step s none = some (1, s)
with_step s (some (base, text)) = elim (atoi text) [
  | none ↦ none
  | some k ↦ if nat_beq k 0 then none else some (k, base)
]

abbrev pub both : Option ℕ → Option ℕ → Option (ℕ × ℕ)
both (some a) (some b) = some (a, b)
both a b = none

abbrev pub range_of : String → Option (String × String) → Option (ℕ × ℕ)
range_of base (some (low, high)) = both (atoi low) (atoi high)
range_of base none = Option.map (λ n. (n, n)) (atoi base)

unfoldable pub bounds_of : String → ℕ → ℕ → Option (ℕ × ℕ)
unfolding split_at atoi
bounds_of base min max = if base == "*" then some (min, max) else range_of base (split_at 45 base)

abbrev pub in_range : ℕ → ℕ → ℕ → Option (ℕ × ℕ) → Option Bitset
in_range min max step none = none
in_range min max step (some (start, end)) =
    if ltb start min || ltb max end || ltb end start
    then none
    else some (fill rounds start end step no_bits)

abbrev pub filled : ℕ → ℕ → Option (ℕ × String) → Option Bitset
filled min max none = none
filled min max (some (step, base)) = in_range min max step (bounds_of base min max)

-- parseCronPart
unfoldable pub parse_cron_part : String → ℕ → ℕ → Option Bitset
unfolding split_at_last atoi fill bounds_of
parse_cron_part s min max = filled min max (with_step s (split_at_last 47 s))

abbrev pub or_bits : Option Bitset → Option Bitset → Option Bitset
or_bits (some b) (some c) = some (union b c)
or_bits b c = none

unfoldable pub parse_parts : List String → ℕ → ℕ → Option Bitset
unfolding parse_cron_part trim_space
parse_parts [] min max = some no_bits
parse_parts (part ∷ parts) min max =
    or_bits (parse_cron_part (trim_space part) min max) (parse_parts parts min max)

-- Whether the text has a comma.
unfoldable pub field_of : String → ℕ → ℕ → Option (String × String) → Option Bitset
unfolding split_all parse_parts parse_cron_part
field_of s min max none = parse_cron_part s min max
field_of s min max (some p) = parse_parts (split_all 44 s) min max

-- parseCronField
unfoldable pub parse_cron_field : String → ℕ → ℕ → Option Bitset
unfolding split_at field_of
parse_cron_field s min max = field_of s min max (split_at 44 s)
