-- ===== src/Skill/Tests.antt =====
-- internal/skill at concrete inputs: an agent whose own skill overrides a global one.
use denkeeper.Prelude.{◌≡◌, refl, String, List, [], ◌∷◌, some, if◌then◌else◌, ◌==◌, string_eq}
use denkeeper.Skill.{
  Skill, Cases, MatchContext, Trigger, command, parse_trigger, match_skills, has_skill,
  merge_skills,
}
use denkeeper.Skill.Merged.{named, match_skills-merge_skills}

abbrev exact : Cases
exact = record { to_lower = λ s. s; equal_fold = λ s t. s == t }

abbrev skill_of : String → List Trigger → Skill
skill_of body triggers = record {
  name = "brief";
  description = "";
  version = "1";
  triggers = [];
  parsed_triggers = triggers;
  body = body;
}

parse_test : parse_trigger exact " command: brief " ≡ some (command "command: brief" "brief")
unfolding parse_trigger
parse_test = refl

abbrev context : MatchContext
context = record { message_text = "/brief today"; skill_name = "" }

abbrev own : Skill
own = skill_of "own" (command "command:brief" "brief" ∷ [])

own_test :
    match_skills exact context (merge_skills (skill_of "global" [] ∷ []) (own ∷ [])) ≡ own ∷ []
unfolding match_skills merge_skills
own_test = refl

match_skills-merge_skills_example :
    named "brief" (match_skills exact context (merge_skills (skill_of "global" [] ∷ []) (own ∷ [])))
    ≡ (if has_skill "brief" (own ∷ [])
        then named "brief" (match_skills exact context (own ∷ []))
        else named "brief" (match_skills exact context (skill_of "global" [] ∷ [])))
match_skills-merge_skills_example =
    match_skills-merge_skills exact context "brief" (skill_of "global" [] ∷ []) (own ∷ [])
