-- ===== src/Llm/Cost.antt =====
-- internal/llm/cost.go: CostTracker. Its maps are association lists; a key that a map of numbers
-- does not have reads as zero.
use denkeeper.Prelude.{
  ℕ, ◌+◌, String, Bool, ◌&&◌, ◌||◌, Option, none, some, List, [], if◌then◌else◌, ◌==◌, string_eq,
  lookup, put, split_at,
}
use denkeeper.Llm.{Dollars, Usage}

pub record SessionLimits (A : Type 0) : Type 0 where
  pub soft : A
  pub hard : A

pub record SessionStats (A : Type 0) : Type 0 where
  pub cost : A
  pub input_tokens : ℕ
  pub output_tokens : ℕ
  pub cached_tokens : ℕ
  pub messages : ℕ
  pub pricing_sources : List (String × ℕ)

pub record CostTracker (A : Type 0) : Type 0 where
  pub session_costs : List (String × A)
  pub session_stats : List (String × SessionStats A)
  pub session_agents : List (String × String)
  pub session_providers : List (String × String)
  pub global_cost : A
  pub default_limits : SessionLimits A
  pub agent_overrides : List (String × SessionLimits A)
  pub provider_limits : List (String × SessionLimits A)

abbrev pub or_else : {A : Type 0} → A → Option A → A
or_else a none = a
or_else a (some b) = b

-- agentFromSessionID: the text before the first colon, unless it is empty.
abbrev pub before_colon : String → Option (String × String) → String
before_colon id none = id
before_colon id (some (agent, rest)) = if agent == "" then id else agent

unfoldable pub agent_from_session_id : String → String
agent_from_session_id id = before_colon id (split_at 58 id)

-- `if provider != ""`
abbrev pub note_provider : String → String → List (String × String) → List (String × String)
note_provider session provider providers =
    if provider == "" then providers else put session provider providers

-- `PricingSources[source]++`, unless the source is empty.
abbrev pub note_source : String → List (String × ℕ) → List (String × ℕ)
note_source source sources =
    if source == "" then sources else put source (or_else 0 (lookup source sources) + 1) sources

module _ {A : Type 0} where
  -- CostTracker.agentForSession
  unfoldable pub agent_for_session : CostTracker A → String → String
  unfolding agent_from_session_id
  agent_for_session ct session =
      or_else (agent_from_session_id session) (lookup session ct.session_agents)

  abbrev pub provider_limit : CostTracker A → Option String → Option (SessionLimits A)
  provider_limit ct none = none
  provider_limit ct (some provider) = lookup provider ct.provider_limits

  -- CostTracker.limitsForSession
  unfoldable pub limits_for_session : CostTracker A → String → SessionLimits A
  unfolding agent_for_session
  limits_for_session ct session =
      or_else (or_else ct.default_limits (provider_limit ct (lookup session ct.session_providers)))
        (lookup (agent_for_session ct session) ct.agent_overrides)

  abbrev pub noted : String → String → CostTracker A → CostTracker A
  noted session provider ct = record ct {
    session_providers = note_provider session provider ct.session_providers;
  }

  unfoldable pub register_session_agent : String → String → CostTracker A → CostTracker A
  register_session_agent session agent ct = record ct {
    session_agents = put session agent ct.session_agents;
  }

  unfoldable pub set_agent_limits : String → SessionLimits A → CostTracker A → CostTracker A
  set_agent_limits agent limits ct = record ct {
    agent_overrides = put agent limits ct.agent_overrides;
  }

  unfoldable pub set_provider_limits : String → SessionLimits A → CostTracker A → CostTracker A
  set_provider_limits provider limits ct = record ct {
    provider_limits = put provider limits ct.provider_limits;
  }

  unfoldable pub set_default_limits : SessionLimits A → CostTracker A → CostTracker A
  set_default_limits limits ct = record ct { default_limits = limits }

module _ {A : Type 0} (d : Dollars A) where
  unfoldable pub session_cost : CostTracker A → String → A
  session_cost ct session = or_else d.none_of (lookup session ct.session_costs)

  abbrev pub new_stats : SessionStats A
  new_stats = record {
    cost = d.none_of;
    input_tokens = 0;
    output_tokens = 0;
    cached_tokens = 0;
    messages = 0;
    pricing_sources = [];
  }

  -- getOrCreateStats, with what it stores written by the caller.
  unfoldable pub stats_of : CostTracker A → String → SessionStats A
  stats_of ct session = or_else new_stats (lookup session ct.session_stats)

  -- `hard == 0 || ct.sessionCosts[sessionID] <= hard`
  unfoldable pub within_hard : CostTracker A → String → Bool
  unfolding limits_for_session session_cost
  within_hard ct session =
      let hard = (limits_for_session ct session).hard in
      d.same hard d.none_of || d.leq (session_cost ct session) hard

  unfoldable pub exceeds_soft_limit : CostTracker A → String → Bool
  unfolding limits_for_session session_cost
  exceeds_soft_limit ct session =
      let soft = (limits_for_session ct session).soft in
      d.less d.none_of soft && d.less soft (session_cost ct session)

  unfoldable pub exceeds_hard_limit : CostTracker A → String → Bool
  unfolding limits_for_session session_cost
  exceeds_hard_limit ct session =
      let hard = (limits_for_session ct session).hard in
      d.less d.none_of hard && d.less hard (session_cost ct session)

  unfoldable pub add_stats : A → ℕ → ℕ → ℕ → String → SessionStats A → SessionStats A
  add_stats cost input output cached source s = record {
    cost = d.add s.cost cost;
    input_tokens = s.input_tokens + input;
    output_tokens = s.output_tokens + output;
    cached_tokens = s.cached_tokens + cached;
    messages = s.messages + 1;
    pricing_sources = note_source source s.pricing_sources;
  }

  -- The writes that the three recording methods share.
  unfoldable pub charge : String → A → ℕ → ℕ → ℕ → String → CostTracker A → CostTracker A
  unfolding session_cost stats_of add_stats
  charge session cost input output cached source ct = record ct {
    session_costs = put session (d.add (session_cost ct session) cost) ct.session_costs;
    global_cost = d.add ct.global_cost cost;
    session_stats =
        put session (add_stats cost input output cached source (stats_of ct session))
          ct.session_stats;
  }

  -- CostTracker.Record
  unfoldable pub record_cost : String → A → CostTracker A → Bool × CostTracker A
  unfolding charge within_hard
  record_cost session cost ct =
      let ct' = charge session cost 0 0 0 "" ct in (within_hard ct' session, ct')

  -- CostTracker.RecordWithTokens, with the empty text for no pricing source.
  unfoldable pub record_with_tokens :
      String → A → ℕ → ℕ → String → CostTracker A → Bool × CostTracker A
  unfolding charge within_hard
  record_with_tokens session cost input output source ct =
      let ct' = charge session cost input output 0 source ct in (within_hard ct' session, ct')

  -- CostTracker.RecordWithProvider
  unfoldable pub record_with_provider :
      String → String → A → Usage → String → CostTracker A → Bool × CostTracker A
  unfolding charge within_hard
  record_with_provider session provider cost usage source ct =
      let noted = record ct {
        session_providers = note_provider session provider ct.session_providers;
      } in
      let ct' =
        charge session cost usage.prompt usage.completion usage.cached_prompt source noted in
      (within_hard ct' session, ct')
