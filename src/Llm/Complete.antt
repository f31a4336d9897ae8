-- ===== src/Llm/Complete.antt =====
-- internal/llm/router.go: completeInternal and what it calls.
use denkeeper.Prelude.{ℕ, String, not, ◌&&◌, ◌||◌, List, [], ◌∷◌, if◌then◌else◌, ◌==◌, string_eq}
use denkeeper.Llm.{Dollars, Response, Failure, is_retryable}
use denkeeper.Llm.Cost.{exceeds_hard_limit}
use denkeeper.Llm.Leak.{looks_leaked}
use denkeeper.Llm.Retry.{
  Asked, Reply, answer, failed, Net, resets_upstream, World, plain, noting, reset_stream, ask,
  retry,
}
use denkeeper.Llm.Router.{
  FallbackRule, Router, Options, Outcome, completed, not_registered, over_hard_limit, not_completed,
  Served, served, not_served, has_provider, or_given, advertised, fallback_matches_error,
  with_billed, mark_leak_retry, served_by, after_action, token_cost, apply_cost_limit_fallback,
  bill,
}

-- The arguments that stay the same during a completion.
pub record Call (A : Type 0) : Type 0 where
  pub router : Router A
  pub options : Options
  pub session : String

module _ {A : Type 0} (n : Net A) where
  -- The request, with the idle timeout that its caller gives: buildReq gives none.
  unfoldable pub build_req : Call A → ℕ → String → String → Asked
  unfolding advertised
  build_req c idle provider model = record {
    provider = provider;
    model = model;
    tools = advertised c.router c.options;
    max_tokens = c.router.max_output_tokens;
    idle_timeout = idle;
    streams = c.options.streaming && n.supports_streaming provider;
  }

  -- One more call of a provider, after resetStream.
  unfoldable pub ask_again : Call A → String → String → World A → Served A × World A
  unfolding build_req ask reset_stream
  ask_again c provider model w =
      served_by provider (ask n (build_req c 0 provider model) (reset_stream c.options.streaming w))

  -- executeFallbackAction
  unfoldable pub execute_fallback_action :
      Call A → FallbackRule → String → String → World A → Served A × World A
  unfolding ask_again retry build_req has_provider
  execute_fallback_action c rule active model w =
      if rule.action == "wait_and_retry"
      then served_by active (
          retry n rule.max_retries 0 rule.backoff c.options.streaming (build_req c 0 active model)
            plain w)
      else if rule.action == "switch_provider"
      then (if has_provider c.router rule.provider
          then ask_again c rule.provider (or_given model rule.model) w
          else (not_served plain, w))
      else if rule.action == "switch_model"
      then ask_again c active rule.model w
      else (not_served plain, w)

  -- applyErrorFallbacks, over the rules that are left, after an error.
  unfoldable pub apply_error_fallbacks :
      Call A → String → String → List FallbackRule → Failure → World A → Served A × World A
  unfolding execute_fallback_action fallback_matches_error
  apply_error_fallbacks c active model [] e w = (not_served e, w)
  apply_error_fallbacks c active model (rule ∷ rules) e w =
      let rest = apply_error_fallbacks c active model rules in
      if rule.trigger == "cost_limit" || not (fallback_matches_error rule e)
      then rest e w
      else after_action rest (execute_fallback_action c rule active model w)

  -- Steps 4 and 5.
  unfoldable pub fall_back : Call A → String → String → Reply A × World A → Served A × World A
  unfolding is_retryable apply_error_fallbacks
  fall_back c active model (answer resp, w) = (served resp active, w)
  fall_back c active model (failed e, w) =
      if n.context_over w.moment || not (is_retryable e)
      then (not_served e, w)
      else apply_error_fallbacks c active model c.router.fallbacks e w

module _ {A : Type 0} (d : Dollars A) where
  -- The accounting at both ends of completeInternal.
  unfoldable pub settle : Call A → Served A × World A → Outcome A × World A
  unfolding token_cost with_billed bill
  settle c (not_served e, w) = (not_completed e, w)
  settle c (served resp provider, w) =
      let cost = (token_cost d resp c.router.pricing provider).0 in
      (
        completed (with_billed cost resp),
        bill d c.router c.session provider (with_billed cost resp) w,
      )

module _ {A : Type 0} (d : Dollars A) (n : Net A) where
  -- retryLeakedToolCall
  unfoldable pub retry_leaked_tool_call : Call A → Asked → Response A → World A → Reply A × World A
  unfolding bill noting reset_stream ask
  retry_leaked_tool_call c req leaked w =
      let w1 = bill d c.router c.session req.provider leaked w in
      let w2 =
        if n.reports_faults req.provider then noting (resets_upstream req.provider) w1 else w1 in
      mark_leak_retry (ask n req (reset_stream c.options.streaming w2))

  unfoldable pub unless_leaked : Call A → Asked → Reply A × World A → Reply A × World A
  unfolding looks_leaked retry_leaked_tool_call
  unless_leaked c req (failed e, w) = (failed e, w)
  unless_leaked c req (answer resp, w) =
      if looks_leaked resp then retry_leaked_tool_call c req resp w else (answer resp, w)

  unfoldable pub primary_completion : Call A → Asked → World A → Reply A × World A
  unfolding unless_leaked ask
  primary_completion c req w = unless_leaked c req (ask n req w)

  unfoldable pub complete_at : Call A → String × String → World A → Outcome A × World A
  unfolding exceeds_hard_limit primary_completion fall_back settle build_req
  complete_at c (active, model) w =
      if active == c.router.default_provider && exceeds_hard_limit d w.tracker c.session
      then (over_hard_limit, w)
      else (settle d c (
          fall_back n c active model
            (primary_completion c (build_req n c c.router.stream_idle_timeout active model) w)))

  -- completeInternal
  unfoldable pub complete : Call A → World A → Outcome A × World A
  unfolding complete_at apply_cost_limit_fallback has_provider
  complete c w =
      if has_provider c.router c.router.default_provider
      then (complete_at c
          (apply_cost_limit_fallback d c.router w.tracker c.session c.router.fallbacks) w)
      else (not_registered, w)
