-- ===== src/Skill.antt =====
-- internal/skill: trigger.go, match.go and merge.go. What strings.ToLower and strings.EqualFold do is
-- a parameter.
use denkeeper.Prelude.{
  ℕ, String, Bool, true, false, not, ◌&&◌, ◌||◌, Option, none, some, List, [], ◌∷◌, ◌++◌,
  if◌then◌else◌, ◌==◌, string_eq, nat_beq, is_empty, trim_space, split_at, filter,
}
use Prim.Native.Char.{code}
use Prim.Native.String
pub mod Merged
mod Tests

pub data Trigger : Type 0 where
  command : (raw name : String) → Trigger
  schedule : (raw name : String) → Trigger

pub record Skill : Type 0 where
  pub name : String
  pub description : String
  pub version : String
  pub triggers : List String
  pub parsed_triggers : List Trigger
  pub body : String

pub record Cases : Type 0 where
  pub to_lower : String → String
  pub equal_fold : String → String → Bool

abbrev pub trigger_of : Cases → String → Option (String × String) → Option Trigger
trigger_of g raw none = none
trigger_of g raw (some (prefix, value)) =
    if prefix == "command"
    then (if is_empty (trim_space value)
        then none
        else some (command raw (g.to_lower (trim_space value))))
    else (if prefix == "schedule" then some (schedule raw (trim_space value)) else none)

-- ParseTrigger
unfoldable pub parse_trigger : Cases → String → Option Trigger
unfolding trim_space split_at
parse_trigger g text =
    let raw = trim_space text in if is_empty raw then none else trigger_of g raw (split_at 58 raw)

abbrev pub and_rest : Option Trigger → Option (List Trigger) → Option (List Trigger)
and_rest (some t) (some ts) = some (t ∷ ts)
and_rest t ts = none

-- ParseTriggers
unfoldable pub parse_triggers : Cases → List String → Option (List Trigger)
unfolding parse_trigger
parse_triggers g [] = some []
parse_triggers g (r ∷ raw) = and_rest (parse_trigger g r) (parse_triggers g raw)

-- The text before the first space, if there is one.
abbrev pub first_token : String → Option (String × String) → String
first_token text none = text
first_token text (some (first, rest)) = first

-- A slash or an exclamation mark before the command's name; that the token has two bytes is that
-- something follows it.
abbrev pub names_command : Cases → String → String → Bool
names_command g cmd String.[] = false
names_command g cmd (String.◌∷◌ c s) =
    not (is_empty s) && (nat_beq (code c) 47 || nat_beq (code c) 33) && g.equal_fold s cmd

-- commandMatches
unfoldable pub command_matches : Cases → String → String → Bool
unfolding trim_space split_at
command_matches g cmd message =
    let text = trim_space message in
    not (is_empty text) && names_command g cmd (first_token text (split_at 32 text))

pub record MatchContext : Type 0 where
  pub message_text : String
  pub skill_name : String

-- A scheduler's directive for the skill.
abbrev pub is_directed : Skill → MatchContext → Bool
is_directed s ctx = not (ctx.skill_name == "") && ctx.skill_name == s.name

unfoldable pub any_trigger : Cases → Skill → MatchContext → List Trigger → Bool
unfolding command_matches
any_trigger g s ctx [] = false
any_trigger g s ctx (command raw cmd ∷ ts) =
    command_matches g cmd ctx.message_text || any_trigger g s ctx ts
any_trigger g s ctx (schedule raw name ∷ ts) = is_directed s ctx || any_trigger g s ctx ts

-- skillMatches
unfoldable pub skill_matches : Cases → MatchContext → Skill → Bool
unfolding any_trigger
skill_matches g ctx s = is_directed s ctx || any_trigger g s ctx s.parsed_triggers

abbrev pub has_no_triggers : List Trigger → Bool
has_no_triggers [] = true
has_no_triggers (t ∷ ts) = false

-- MatchSkills
unfoldable pub match_skills : Cases → MatchContext → List Skill → List Skill
unfolding skill_matches
match_skills g ctx [] = []
match_skills g ctx (s ∷ skills) =
    let rest = match_skills g ctx skills in
    if has_no_triggers s.parsed_triggers || skill_matches g ctx s then s ∷ rest else rest

unfoldable pub has_skill : String → List Skill → Bool
has_skill name [] = false
has_skill name (s ∷ skills) = s.name == name || has_skill name skills

-- A skill that no agent-specific one overrides.
abbrev pub not_overridden : List Skill → Skill → Bool
not_overridden agent_specific s = not (has_skill s.name agent_specific)

-- MergeSkills
unfoldable pub merge_skills : List Skill → List Skill → List Skill
unfolding filter has_skill
merge_skills global [] = global
merge_skills [] (a ∷ agent_specific) = a ∷ agent_specific
merge_skills (s ∷ global) (a ∷ agent_specific) =
    filter (not_overridden (a ∷ agent_specific)) (s ∷ global) ++ (a ∷ agent_specific)
