-- ===== src/Llm/Router.antt =====
-- internal/llm/router.go: Router, and a completion. A provider is known by its name, and the set of
-- registered names does not change during a completion. An OpenRouter upstream, spans, meters and
-- logs are left out.
use denkeeper.Prelude.{
  ℕ, String, Bool, true, false, not, ◌&&◌, ◌||◌, Option, none, some, List, [], ◌∷◌, if◌then◌else◌,
  ◌==◌, string_eq,
}
use denkeeper.Llm.{Dollars, Response, Failure, is_retryable, is_rate_limit}
use denkeeper.Llm.Cost.{CostTracker, exceeds_soft_limit, exceeds_hard_limit, record_with_provider}
use denkeeper.Llm.Pricing.{Registry, cost_of}
use denkeeper.Llm.Retry.{Reply, answer, failed, World}

pub record FallbackRule : Type 0 where
  pub trigger : String
  pub action : String
  pub provider : String
  pub model : String
  pub scope : String
  pub max_retries : ℕ
  pub backoff : String

pub record Router (A : Type 0) : Type 0 where
  pub providers : List String
  pub default_provider : String
  pub default_model : String
  pub fallbacks : List FallbackRule
  pub tool_source : List String
  pub pricing : Option (Registry A)
  pub stream_idle_timeout : ℕ
  pub max_output_tokens : ℕ

-- completeOpts
pub record Options : Type 0 where
  pub streaming : Bool
  pub omit_tools : Bool
  pub tool_filter : Option (List String → List String)

-- What completeInternal returns: the errors are a provider that is not registered, a hard limit that
-- is exceeded, and that of the last attempt.
pub data Outcome (A : Type 0) : Type 0 where
  completed : Response A → Outcome A
  not_registered over_hard_limit : Outcome A
  not_completed : Failure → Outcome A

-- A response with the name of the provider that served it.
pub data Served (A : Type 0) : Type 0 where
  served : Response A → (provider : String) → Served A
  not_served : Failure → Served A

unfoldable pub has_name : String → List String → Bool
has_name name [] = false
has_name name (p ∷ ps) = p == name || has_name name ps

abbrev pub or_given : String → String → String
or_given given chosen = if chosen == "" then given else chosen

abbrev pub filtered : Option (List String → List String) → List String → List String
filtered none tools = tools
filtered (some f) tools = f tools

unfoldable pub fallback_matches_error : FallbackRule → Failure → Bool
unfolding is_rate_limit is_retryable
fallback_matches_error rule e =
    if rule.trigger == "rate_limit"
    then is_rate_limit e
    else rule.trigger == "error" && not (is_rate_limit e) && is_retryable e

abbrev pub or_target : Option (String × String) → String × String → String × String
or_target none later = later
or_target (some target) later = target

module _ {A : Type 0} where
  unfoldable pub has_provider : Router A → String → Bool
  unfolding has_name
  has_provider r name = has_name name r.providers

  unfoldable pub with_model : String → Router A → Router A
  with_model model r =
      if model == "" || model == r.default_model then r else record r { default_model = model }

  unfoldable pub with_provider : String → Router A → Router A
  with_provider provider r =
      if provider == "" || provider == r.default_provider
      then r
      else record r { default_provider = provider }

  -- SetDefaultProvider, with whether it returns no error.
  unfoldable pub set_default_provider : String → Router A → Bool × Router A
  unfolding has_provider
  set_default_provider provider r =
      if has_provider r provider
      then (true, record r { default_provider = provider })
      else (false, r)

  unfoldable pub advertised : Router A → Options → List String
  advertised r opts = if opts.omit_tools then [] else filtered opts.tool_filter r.tool_source

  unfoldable pub with_billed : A → Response A → Response A
  with_billed cost resp = record resp { billed_usd = cost }

  abbrev pub mark_leak_retry : Reply A × World A → Reply A × World A
  mark_leak_retry (answer resp, w) = (answer (record resp { leak_retry = true }), w)
  mark_leak_retry (failed e, w) = (failed e, w)

  abbrev pub served_by : String → Reply A × World A → Served A × World A
  served_by name (answer resp, w) = (served resp name, w)
  served_by name (failed e, w) = (not_served e, w)

  abbrev pub after_action :
      (Failure → World A → Served A × World A) → Served A × World A → Served A × World A
  after_action next (served resp name, w) = (served resp name, w)
  after_action next (not_served e, w) = next e w

module _ {A : Type 0} (d : Dollars A) where
  unfoldable pub token_cost : Response A → Option (Registry A) → String → A × String
  unfolding cost_of
  token_cost resp none provider =
      if d.less d.none_of resp.cost_usd
      then (resp.cost_usd, "provider")
      else (d.mul (d.div (d.of_count resp.tokens_used.total) (d.of_count 1000)) d.cent, "fallback")
  token_cost resp (some registry) provider =
      cost_of d registry provider resp.model resp.tokens_used.prompt resp.tokens_used.completion
        resp.tokens_used.cached_prompt resp.tokens_used.cache_write_prompt resp.cost_usd

  -- Whether the limit that the rule's scope names is exceeded; an unknown scope is skipped.
  unfoldable pub limit_exceeded : CostTracker A → String → String → Bool
  unfolding exceeds_soft_limit exceeds_hard_limit
  limit_exceeded ct session scope =
      if scope == "hard"
      then exceeds_hard_limit d ct session
      else (scope == "soft" || scope == "") && exceeds_soft_limit d ct session

  -- The provider and model that the rule's action chooses; `none` where the loop continues.
  unfoldable pub cost_target : Router A → FallbackRule → Option (String × String)
  unfolding has_provider
  cost_target r rule =
      if rule.action == "switch_model"
      then some (r.default_provider, rule.model)
      else if rule.action == "switch_provider"
      then (if has_provider r rule.provider
          then some (rule.provider, or_given r.default_model rule.model)
          else none)
      else some (r.default_provider, r.default_model)

  -- applyCostLimitFallback, over the rules that are left.
  unfoldable pub apply_cost_limit_fallback :
      Router A → CostTracker A → String → List FallbackRule → String × String
  unfolding limit_exceeded cost_target
  apply_cost_limit_fallback r ct session [] = (r.default_provider, r.default_model)
  apply_cost_limit_fallback r ct session (rule ∷ rules) =
      or_target
        (if rule.trigger == "cost_limit" && limit_exceeded ct session rule.scope
          then cost_target r rule
          else none)
        (apply_cost_limit_fallback r ct session rules)

  -- TokenCost and RecordWithProvider, as they stand together.
  unfoldable pub bill : Router A → String → String → Response A → World A → World A
  unfolding token_cost record_with_provider
  bill r session provider resp w =
      let (cost, source) = token_cost resp r.pricing provider in
      record w {
        tracker =
            (record_with_provider d session provider cost resp.tokens_used source w.tracker).1;
      }
