-- ===== src/Prelude/Texts.antt =====
-- What the program uses of Go's package strings, on the code points of a text.
use Prim.Native.Char.{Char, code}
use Prim.Native.String
use Prim.Native.String.{String, [], ◌∷◌}
use mathlib.Core.Bool.{Bool, true, false, ◌&&◌, ◌||◌}
use mathlib.Core.Option
use mathlib.Core.Option.{Option, none, some}
use mathlib.Core.Path.{◌≡◌}
use Prim.Native.Nat.{ℕ}
use native.Mathlib.Omega.{arith}
use text.Mathlib.TextLemmas.{nil-append, cons-append}
use denkeeper.Prelude.Tests.{if◌then◌else◌, leb, nat_beq}

-- unicode.IsSpace
abbrev pub is_space : ℕ → Bool
is_space c =
    leb 9 c && leb c 13
    || nat_beq c 32
    || nat_beq c 0x85
    || nat_beq c 0xA0
    || nat_beq c 0x1680
    || leb 0x2000 c && leb c 0x200a
    || nat_beq c 0x2028
    || nat_beq c 0x2029
    || nat_beq c 0x202f
    || nat_beq c 0x205f
    || nat_beq c 0x3000

abbrev pub is_empty : String → Bool
is_empty [] = true
is_empty (_ ∷ _) = false

unfoldable pub trim_left : String → String
trim_left [] = []
trim_left (c ∷ s) = let rest = trim_left s in if is_space (code c) then rest else c ∷ s

unfoldable pub trim_right : String → String
trim_right [] = []
trim_right (c ∷ s) =
    let rest = trim_right s in if is_empty rest && is_space (code c) then [] else c ∷ rest

-- strings.TrimSpace
unfoldable pub trim_space : String → String
unfolding trim_left trim_right
trim_space s = trim_right (trim_left s)

-- strings.CutPrefix, with the prefix first.
unfoldable pub cut_prefix : String → String → Option String
cut_prefix [] s = some s
cut_prefix (_ ∷ _) [] = none
cut_prefix (c ∷ p) (d ∷ s) =
    let rest = cut_prefix p s in if nat_beq (code c) (code d) then rest else none

-- The text before the first character of a code, and the text after it: strings.Index of one
-- ASCII character, or a SplitN of two at it.
unfoldable pub split_at : ℕ → String → Option (String × String)
split_at mark [] = none
split_at mark (c ∷ s) =
    let rest = split_at mark s in
    if nat_beq (code c) mark then some ("", s) else Option.map (λ p. (c ∷ p.0, p.1)) rest

-- A prefix that was put in front is cut off.
pub cut_prefix-append : (p s : String) → cut_prefix p (String.◌++◌ p s) ≡ some s
unfolding cut_prefix
cut_prefix-append [] s = rw nil-append
cut_prefix-append (c ∷ p) s = rw cons-append (rw (cut_prefix-append p s) (ground arith))

-- A prefix whose first character differs is not cut.
pub cut_prefix_other :
    (c d : Char) (p q s : String)
    → nat_beq (code c) (code d) ≡ false
    → cut_prefix (c ∷ p) (String.◌++◌ (d ∷ q) s) ≡ none
unfolding cut_prefix
cut_prefix_other c d p q s h = rw cons-append (rw h)
