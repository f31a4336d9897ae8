-- ===== src/Approval/Blessing.antt =====
-- Which rules let ShouldAutoApprove of internal/approval/manager.go answer yes.
use denkeeper.Prelude.{
  ℕ, ◌<◌, ◌≡◌, inl, inr, refl, ◌∙◌, sym, ap, ◌⊎◌, ◌↔◌, String, Bool, true, false, some, none,
  Option, List, [], ◌∷◌, lookup, drop, Bool-cases, if◌then◌else◌, arith, eq_iff, ◌==◌, string_eq,
}
use Prim.Native.String.{◌++◌}
use denkeeper.Approval.{Scope, session, permanent, config, Oracle, World, Rule}
use denkeeper.Approval.Table.{matches, match_rule, is_permanent, statement, attempt, advance}
use denkeeper.Approval.Callback.{session_rule_key}
use denkeeper.Approval.Auto.{
  match_config_rule, has_tool, blesses, is_live, should_auto_approve, scope_of,
}

abbrev pub IsListed : String → List String → Type 0
IsListed tool [] = ◌≡◌ {A = Bool} true false
IsListed tool (t ∷ ts) = (t ≡ tool) ⊎ IsListed tool ts

-- A rule of the table that is permanent and is of the agent and the tool.
abbrev pub HasRule : String → String → List Rule → Type 0
HasRule agent tool [] = ◌≡◌ {A = Bool} true false
HasRule agent tool (r ∷ rs) =
    ((r.rule_agent ≡ agent) × (r.tool_name ≡ tool) × (r.scope ≡ permanent)) ⊎ HasRule agent tool rs

-- The configuration lists the tool for the agent.
abbrev pub IsConfigured : String → String → World → Type 0
IsConfigured agent tool w =
    (tools : List String) × (lookup agent w.config_rules ≡ some tools) × IsListed tool tools

-- A rule of the agent, the conversation and the tool ends after the present.
abbrev pub IsLive : Oracle → String → String → String → World → Type 0
IsLive o agent tool conversation_id w =
    (end : ℕ) × (lookup (agent ++ "\0" ++ conversation_id ++ "\0" ++ tool) w.session_rules
      ≡ some end)
    × (o.clock w.moment < end)

-- What stands behind an answer: a rule of the scope, and none of a scope that is asked earlier.
abbrev pub Behind : Oracle → String → String → String → World → Option Scope → Type 0
Behind o agent tool conversation_id w (some config) = IsConfigured agent tool w
Behind o agent tool conversation_id w (some session) =
    (¬ IsConfigured agent tool w) × IsLive o agent tool conversation_id w
Behind o agent tool conversation_id w (some permanent) =
    (¬ IsConfigured agent tool w)
    × (¬ IsLive o agent tool conversation_id w)
    × HasRule agent tool w.rules
Behind o agent tool conversation_id w none =
    (¬ IsConfigured agent tool w)
    × (¬ IsLive o agent tool conversation_id w)
    × (¬ HasRule agent tool w.rules)

-- What a test that fails would hold of is not so.
refute : {P : Type 0} (b : Bool) → (b ≡ true) ↔ P → b ≡ false → ¬ P
refute b (_, back) e p = absurd (cc (sym (back p) ∙ e))

has_tool_iff : (tool : String) (ts : List String) → (has_tool tool ts ≡ true) ↔ IsListed tool ts
has_tool_iff tool [] = (λ h. sym h, λ h. sym h)
has_tool_iff tool (t ∷ ts) =
    let (to, from) = has_tool_iff tool ts in
    elim (Bool-cases (t == tool)) [
      | inl same ↦ rw same (λ h. inl ((eq_iff t tool).0 same), λ h. refl)
      | inr other ↦ rw other (
        λ h. inr (to h),
        λ h. elim h [ inl e ↦ absurd (cc (sym ((eq_iff t tool).1 e) ∙ other)) | inr l ↦ from l ],
      )
    ]

blesses_iff :
    (tool : String) (o : Option (List String))
    → (blesses tool o ≡ true) ↔ ((tools : List String) × (o ≡ some tools) × IsListed tool tools)
blesses_iff tool none = (λ h. absurd (cc h), λ h. absurd (cc h.1))
blesses_iff tool (some tools) = (
  λ h. (tools, refl, (has_tool_iff tool tools).0 h),
  λ (ts, e, l). ap (λ o. blesses tool o) e ∙ (has_tool_iff tool ts).1 l,
)

IsConfigured-iff :
    (agent tool : String) (w : World)
    → (match_config_rule w.config_rules agent tool ≡ true) ↔ IsConfigured agent tool w
unfolding match_config_rule
IsConfigured-iff agent tool w = blesses_iff tool (lookup agent w.config_rules)

is_live_iff :
    (now : ℕ) (o : Option ℕ) → (is_live now o ≡ true) ↔ ((end : ℕ) × (o ≡ some end) × (now < end))
is_live_iff now none = (λ h. absurd (cc h), λ h. absurd (cc h.1))
is_live_iff now (some end) = (
  λ h. (end, refl, ground (arith, h)),
  λ (t, e, later). ap (λ o. is_live now o) e ∙ ground (arith, later),
)

IsLive-iff :
    (o : Oracle) (agent tool conversation_id : String) (w : World)
    → (is_live
          (o.clock w.moment)
          (lookup (session_rule_key agent conversation_id tool) w.session_rules)
        ≡ true)
      ↔ IsLive o agent tool conversation_id w
unfolding session_rule_key
IsLive-iff o agent tool conversation_id w =
    is_live_iff (o.clock w.moment)
      (lookup (agent ++ "\0" ++ conversation_id ++ "\0" ++ tool) w.session_rules)

is_permanent_iff : (s : Scope) → (is_permanent s ≡ true) ↔ (s ≡ permanent)
is_permanent_iff s = ground arith

matches_iff :
    (agent tool : String) (rules : List Rule)
    → (matches agent tool rules ≡ true) ↔ HasRule agent tool rules
unfolding matches
matches_iff agent tool [] = (λ h. sym h, λ h. sym h)
matches_iff agent tool (r ∷ rs) = ground (
  arith,
  matches_iff agent tool rs,
  eq_iff r.rule_agent agent,
  eq_iff r.tool_name tool,
  is_permanent_iff r.scope,
)

-- A query that the driver carries out says whether a permanent rule matches.
query :
    (o : Oracle) (agent tool : String) (w : World)
    → o.runs w.moment ≡ true
    → (scope_of (match_rule o agent tool w)).0
      ≡ (if matches agent tool w.rules then some permanent else none)
unfolding match_rule statement attempt advance
query o agent tool w works = elim (Bool-cases (matches agent tool w.rules)) [
  | inl e ↦ rw (works, e) refl
  | inr e ↦ rw (works, e) refl
]

-- Where the driver works, ShouldAutoApprove answers by the first of these that lets the agent use
-- the tool, and names its scope: the tools that the configuration lists for the agent, a rule for
-- this agent, conversation and tool that is not over, and a permanent rule for the agent and the
-- tool. It names no scope only if there is none of the three.
pub should_auto_approve_lem :
    (o : Oracle) (agent tool conversation_id : String) (w : World)
    → o.runs w.moment ≡ true
    → Behind o agent tool conversation_id w (should_auto_approve o agent tool conversation_id w).0
unfolding should_auto_approve
should_auto_approve_lem o agent tool conversation_id w works =
    let key = session_rule_key agent conversation_id tool in
    let asked = query o agent tool (record w { session_rules = drop key w.session_rules }) works in
    let configured = IsConfigured-iff agent tool w in
    let live = IsLive-iff o agent tool conversation_id w in
    let ruled = matches_iff agent tool w.rules in
    elim (Bool-cases (match_config_rule w.config_rules agent tool)) [
      | inl a ↦ rw a (configured.0 a)
      | inr a ↦ elim (Bool-cases (is_live (o.clock w.moment) (lookup key w.session_rules))) [
        | inl b ↦ rw (a, b) (refute _ configured a, live.0 b)
        | inr b ↦ elim (Bool-cases (matches agent tool w.rules)) [
          | inl m ↦ rw (a, b, asked, m) (refute _ configured a, refute _ live b, ruled.0 m)
          | inr m ↦ rw (a, b, asked, m) (refute _ configured a, refute _ live b, refute _ ruled m)
        ]
      ]
    ]
