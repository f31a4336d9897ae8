-- ===== src/Approval/Config.antt =====
-- internal/approval/manager.go: the auto-approve rules of the configuration, SetConfigRules.
use denkeeper.Prelude.{
  String, Bool, true, false, ◌&&◌, ◌||◌, List, [], ◌∷◌, ◌++◌, if◌then◌else◌, ◌==◌, string_eq, ltb,
  nat_beq,
}
use Prim.Native.Char.{code}
use denkeeper.Approval.{Oracle, World}
use denkeeper.Approval.Auto.{has_tool, match_config_rule, auto_resolve_pending}

-- Go's order on texts: that of their UTF-8 bytes, which is that of their code points.
unfoldable pub text_ltb : String → String → Bool
text_ltb s String.[] = false
text_ltb String.[] (String.◌∷◌ d t) = true
text_ltb (String.◌∷◌ c s) (String.◌∷◌ d t) =
    let rest = text_ltb s t in ltb (code c) (code d) || nat_beq (code c) (code d) && rest

-- The tools of an agent as a set: the empty name is left out.
unfoldable pub tool_set : List String → List String
tool_set [] = []
tool_set (t ∷ ts) = let rest = tool_set ts in if t == "" || has_tool t rest then rest else t ∷ rest

unfoldable pub add_agent :
    String → List String → List (String × List String) → List (String × List String)
add_agent agent [] rest = rest
add_agent agent (t ∷ ts) rest = (agent, t ∷ ts) ∷ rest

-- The new rules. The argument, a map, has an agent once.
unfoldable pub rule_sets : List (String × List String) → List (String × List String)
unfolding tool_set add_agent
rule_sets [] = []
rule_sets ((agent, tools) ∷ rules) = add_agent agent (tool_set tools) (rule_sets rules)

-- The pairs of an agent that the rules before did not have.
unfoldable pub new_pairs :
    List (String × List String) → String → List String → List (String × String)
unfolding match_config_rule
new_pairs prev agent [] = []
new_pairs prev agent (t ∷ ts) =
    let rest = new_pairs prev agent ts in
    if match_config_rule prev agent t then rest else (agent, t) ∷ rest

unfoldable pub added_pairs :
    List (String × List String) → List (String × List String) → List (String × String)
unfolding new_pairs
added_pairs prev [] = []
added_pairs prev ((agent, tools) ∷ rules) = new_pairs prev agent tools ++ added_pairs prev rules

unfoldable pub pair_ltb : String × String → String × String → Bool
unfolding text_ltb
pair_ltb p q = if p.0 == q.0 then text_ltb p.1 q.1 else text_ltb p.0 q.0

unfoldable pub insert_pair : String × String → List (String × String) → List (String × String)
unfolding pair_ltb
insert_pair p [] = p ∷ []
insert_pair p (q ∷ qs) =
    let rest = insert_pair p qs in if pair_ltb q p then q ∷ rest else p ∷ q ∷ qs

-- sort.Slice, on pairs that all differ.
unfoldable pub sort_pairs : List (String × String) → List (String × String)
unfolding insert_pair
sort_pairs [] = []
sort_pairs (p ∷ ps) = insert_pair p (sort_pairs ps)

unfoldable pub resolve_pairs : Oracle → List (String × String) → World → World
unfolding auto_resolve_pending
resolve_pairs o [] w = w
resolve_pairs o ((agent, tool) ∷ ps) w = resolve_pairs o ps (auto_resolve_pending o agent tool w)

-- Manager.SetConfigRules
unfoldable pub set_config_rules : Oracle → List (String × List String) → World → World
unfolding rule_sets added_pairs sort_pairs resolve_pairs
set_config_rules o rules w =
    let next_rules = rule_sets rules in
    resolve_pairs o (sort_pairs (added_pairs w.config_rules next_rules))
      (record w { config_rules = next_rules })
