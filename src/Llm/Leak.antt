-- ===== src/Llm/Leak.antt =====
-- internal/llm/leak.go: a tool call that stands as text in an answer. The regular expression is
-- matched by hand: the characters that may follow each of its parts differ from those of the part,
-- so the longest run is the only one that can match.
use denkeeper.Prelude.{
  ℕ, String, Bool, true, false, ◌&&◌, ◌||◌, Option, none, some, List, [], ◌∷◌, if◌then◌else◌, ◌==◌,
  string_eq, leb, nat_beq, cut_prefix,
}
use Prim.Native.Char.{code}
use denkeeper.Llm.{Response}

abbrev pub is_digit : ℕ → Bool
is_digit c = leb 48 c && leb c 57

-- [A-Za-z0-9_-]
abbrev pub is_name_char : ℕ → Bool
is_name_char c =
    leb 65 c && leb c 90 || leb 97 c && leb c 122 || is_digit c || nat_beq c 95 || nat_beq c 45

-- \s
abbrev pub is_blank : ℕ → Bool
is_blank c = leb 9 c && leb c 10 || leb 12 c && leb c 13 || nat_beq c 32

unfoldable pub skip : (ℕ → Bool) → String → String
skip test String.[] = String.[]
skip test (String.◌∷◌ c s) =
    let rest = skip test s in if test (code c) then rest else String.◌∷◌ c s

-- A run of at least one character.
unfoldable pub skip_run : (ℕ → Bool) → String → Option String
unfolding skip
skip_run test String.[] = none
skip_run test (String.◌∷◌ c s) = if test (code c) then some (skip test s) else none

abbrev pub starts_with : String → String → Bool
starts_with mark s = elim (cut_prefix mark s) [ none ↦ false | some rest ↦ true ]

abbrev pub and_then : Option String → (String → Option String) → Option String
and_then none f = none
and_then (some s) f = f s

abbrev pub is_some : Option String → Bool
is_some none = false
is_some (some s) = true

-- `functions\.[A-Za-z0-9_-]+:\d+\s*\{` at the start of the text.
unfoldable pub leaked_call_at : String → Option String
unfolding cut_prefix skip_run skip
leaked_call_at s = and_then (cut_prefix "functions." s) (λ s1.
    and_then (skip_run is_name_char s1) (λ s2.
      and_then (cut_prefix ":" s2)
        (λ s3. and_then (skip_run is_digit s3) (λ s4. cut_prefix "{" (skip is_blank s4)))))

unfoldable pub leaks_at : String → Bool
unfolding leaked_call_at cut_prefix
leaks_at s =
    is_some (leaked_call_at s)
    || starts_with "<|tool_call_begin|>" s
    || starts_with "<|tool_calls_section_begin|>" s

-- LeakedToolCallText
unfoldable pub leaked_tool_call_text : String → Bool
unfolding leaks_at
leaked_tool_call_text String.[] = false
leaked_tool_call_text (String.◌∷◌ c s) = leaks_at (String.◌∷◌ c s) || leaked_tool_call_text s

abbrev pub no_calls : List String → Bool
no_calls [] = true
no_calls (c ∷ cs) = false

-- LooksLikeLeakedToolCall
unfoldable pub looks_leaked : {A : Type 0} → Response A → Bool
unfolding leaked_tool_call_text
looks_leaked resp =
    resp.finish_reason == "stop" && no_calls resp.tool_calls && leaked_tool_call_text resp.content
