-- ===== src/Prelude/Suffixes.antt =====
-- Go's strings.CutSuffix, on the code points of a text.
use Prim.Native.String.{String, [], ◌∷◌, ◌++◌}
use mathlib.Core.Option
use mathlib.Core.Option.{Option, none, some}
use mathlib.Core.Path.{◌≡◌, refl, sym, ap, ◌∙◌}
use text.Mathlib.TextLemmas.{nil-append, cons-append, append-nil}
use denkeeper.Prelude.Texts.{cut_prefix, cut_prefix-append}

-- A text backwards, in front of another.
unfoldable pub reverse_onto : String → String → String
reverse_onto [] acc = acc
reverse_onto (c ∷ s) acc = reverse_onto s (c ∷ acc)

-- The text before a suffix, which comes first.
unfoldable pub cut_suffix : String → String → Option String
unfolding cut_prefix reverse_onto
cut_suffix suffix s =
    Option.map (λ t. reverse_onto t "") (cut_prefix (reverse_onto suffix "") (reverse_onto s ""))

pub reverse_onto-append :
    (p q acc : String) → reverse_onto (p ++ q) acc ≡ reverse_onto q (reverse_onto p acc)
unfolding reverse_onto
reverse_onto-append [] q acc = rw nil-append refl
reverse_onto-append (c ∷ p) q acc = rw cons-append (reverse_onto-append p q (c ∷ acc))

reverse_onto_twice :
    (p acc b : String) → reverse_onto (reverse_onto p acc) b ≡ reverse_onto acc (p ++ b)
unfolding reverse_onto
reverse_onto_twice [] acc b = rw nil-append refl
reverse_onto_twice (c ∷ p) acc b = rw cons-append (reverse_onto_twice p (c ∷ acc) b)

pub reverse_back : (p : String) → reverse_onto (reverse_onto p "") "" ≡ p
unfolding reverse_onto
reverse_back p = reverse_onto_twice p "" "" ∙ append-nil p

reverse_onto_acc : (q acc r : String) → reverse_onto q (acc ++ r) ≡ reverse_onto q acc ++ r
unfolding reverse_onto
reverse_onto_acc [] acc r = refl
reverse_onto_acc (c ∷ q) acc r =
    ap (reverse_onto q) (sym (cons-append c acc r)) ∙ reverse_onto_acc q (c ∷ acc) r

reverse-append : (p q : String) → reverse_onto (p ++ q) "" ≡ reverse_onto q "" ++ reverse_onto p ""
reverse-append p q =
    reverse_onto-append p q ""
    ∙ (ap (reverse_onto q) (sym (nil-append (reverse_onto p "")))
        ∙ reverse_onto_acc q "" (reverse_onto p ""))

-- A suffix that was put behind is cut off.
pub cut_suffix-append : (p q : String) → cut_suffix q (p ++ q) ≡ some p
unfolding cut_suffix
cut_suffix-append p q =
    rw
      (
        reverse-append p q,
        cut_prefix-append (reverse_onto q "") (reverse_onto p ""),
        reverse_back p,
      )
      refl

-- A suffix whose last character differs is not cut.
pub cut_suffix_other :
    (suffix p q : String)
    → ((t : String) → cut_prefix (reverse_onto suffix "") (reverse_onto q "" ++ t) ≡ none)
    → cut_suffix suffix (p ++ q) ≡ none
unfolding cut_suffix
cut_suffix_other suffix p q h = rw (reverse-append p q, h (reverse_onto p "")) refl
