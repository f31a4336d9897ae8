-- ===== src/Llm/Requests/Bounds.antt =====
-- internal/llm/router.go: what completeInternal sends, and how often, over all its fallbacks.
use denkeeper.Prelude.{
  ℕ, ◌+◌, ◌≡◌, refl, String, Bool, true, false, not, ◌&&◌, ◌||◌, List, [], ◌∷◌, arith, Bool-cases,
  inl, inr, if◌then◌else◌, ◌==◌, string_eq,
}
use denkeeper.Llm.{Dollars, Response, Failure, is_retryable}
use denkeeper.Llm.Complete.{
  Call, build_req, ask_again, execute_fallback_action, apply_error_fallbacks,
  retry_leaked_tool_call, unless_leaked, primary_completion, settle, fall_back, complete_at,
  complete,
}
use denkeeper.Llm.Cost.{exceeds_hard_limit}
use denkeeper.Llm.Leak.{looks_leaked}
use denkeeper.Llm.Requests.{
  Carries, requests, rule_requests, all_requests, Spends, Spends-same, Spends-then, Spends-more,
  Fits, ask-Spends, ask_reset-Spends, retry-Spends,
}
use denkeeper.Llm.Retry.{
  Asked, Reply, answer, failed, Net, asks, resets_upstream, World, plain, noting, reset_stream, ask,
  retry,
}
use denkeeper.Llm.Router.{
  FallbackRule, Served, served, not_served, has_provider, or_given, advertised,
  fallback_matches_error, mark_leak_retry, served_by, after_action, apply_cost_limit_fallback, bill,
}

module _ {A : Type 0} (n : Net A) (c : Call A) where
  abbrev tools : List String
  tools = advertised c.router c.options

  abbrev cap : ℕ
  cap = c.router.max_output_tokens

  abbrev Within : ℕ → {R : Type 0} → World A → R × World A → Type 0
  Within k w r = Fits tools cap n k w r

  build_req-Carries :
      (idle : ℕ) (provider model : String)
      → Carries tools cap (asks (build_req n c idle provider model))
  unfolding build_req
  build_req-Carries idle provider model = (refl, refl)

  served_by-Within :
      (name : String) (k : ℕ) (w : World A) (r : Reply A × World A)
      → Within k w r
      → Within k w (served_by name r)
  served_by-Within name k w (answer resp, w1) s = s
  served_by-Within name k w (failed e, w1) s = s

  ask_again-Within :
      (provider model : String) (w : World A) → Within 1 w (ask_again n c provider model w)
  unfolding ask_again
  ask_again-Within provider model w =
      let req = build_req n c 0 provider model in
      served_by-Within provider 1 w (ask n req (reset_stream c.options.streaming w)) (
        ask_reset-Spends tools cap n c.options.streaming req w (build_req-Carries 0 provider model))

  nothing-Within : (k : ℕ) (e : Failure) (w : World A) → Within k {R = Served A} w (not_served e, w)
  nothing-Within k e w = Spends-same _ k w w refl

  switch-Within :
      (registered : Bool) (rule : FallbackRule) (model : String) (w : World A)
      → Within 1 w (
          if registered
          then ask_again n c rule.provider (or_given model rule.model) w
          else (not_served plain, w))
  switch-Within true rule model w = ask_again-Within rule.provider (or_given model rule.model) w
  switch-Within false rule model w = nothing-Within 1 plain w

  execute-Within :
      (rule : FallbackRule) (active model : String) (w : World A)
      → (rule.trigger == "cost_limit") ≡ false
      → Within (rule_requests rule) w (execute_fallback_action n c rule active model w)
  unfolding execute_fallback_action rule_requests
  execute-Within rule active model w h = elim (Bool-cases (rule.action == "wait_and_retry")) [
    | inl waits ↦
        let req = build_req n c 0 active model in
        rw (h, waits)
          (served_by-Within active rule.max_retries w
            (retry n rule.max_retries 0 rule.backoff c.options.streaming req plain w)
            (retry-Spends tools cap n rule.max_retries 0 rule.backoff c.options.streaming req plain
              w (build_req-Carries 0 active model)))
    | inr other ↦ elim (Bool-cases (rule.action == "switch_provider")) [
      | inl switches ↦
          rw (h, other, switches) (switch-Within (has_provider c.router rule.provider) rule model w)
      | inr third ↦ elim (Bool-cases (rule.action == "switch_model")) [
        | inl e ↦ rw (h, other, third, e) (ask_again-Within active rule.model w)
        | inr e ↦ rw (h, other, third, e) (nothing-Within 1 plain w)
      ]
    ]
  ]

  after_action-Within :
      (next : Failure → World A → Served A × World A)
      → (j k : ℕ) (w : World A) → ((e : Failure) (w1 : World A) → Within k w1 (next e w1))
      → (r : Served A × World A) → Within j w r
      → Within (j + k) w (after_action next r)
  after_action-Within next j k w h (served resp name, w1) s =
      Spends-more _ j (j + k) w w1 (omega arith) s
  after_action-Within next j k w h (not_served e, w1) s =
      Spends-then _ j k w w1 (next e w1).1 s (h e w1)

  fallbacks-Within :
      (active model : String) (rules : List FallbackRule) (e : Failure) (w : World A)
      → Within (all_requests rules) w (apply_error_fallbacks n c active model rules e w)
  unfolding apply_error_fallbacks all_requests
  fallbacks-Within active model [] e w = nothing-Within 0 e w
  fallbacks-Within active model (rule ∷ rules) e w =
      let next = apply_error_fallbacks n c active model rules in
      let rest = fallbacks-Within active model rules in
      elim (Bool-cases (rule.trigger == "cost_limit")) [
        | inl cost ↦
            rw cost (Spends-more _ (all_requests rules) _ w (next e w).1 (omega arith) (rest e w))
        | inr other ↦ elim (Bool-cases (fallback_matches_error rule e)) [
          | inl matches ↦
              rw (other, matches)
                (after_action-Within next (rule_requests rule) (all_requests rules) w rest
                  (execute_fallback_action n c rule active model w)
                  (execute-Within rule active model w other))
          | inr differs ↦
              rw (other, differs)
                (Spends-more _ (all_requests rules) _ w (next e w).1 (omega arith) (rest e w))
        ]
      ]

  mark-Within :
      (k : ℕ) (w : World A) (r : Reply A × World A) → Within k w r → Within k w (mark_leak_retry r)
  mark-Within k w (answer resp, w1) s = s
  mark-Within k w (failed e, w1) s = s

  fall_back-Within :
      (active model : String) (k : ℕ) (w : World A) (r : Reply A × World A)
      → Within k w r
      → Within (k + all_requests c.router.fallbacks) w (fall_back n c active model r)
  unfolding fall_back
  fall_back-Within active model k w (answer resp, w1) s = Spends-more _ k _ w w1 (omega arith) s
  fall_back-Within active model k w (failed e, w1) s =
      elim (Bool-cases (n.context_over w1.moment || not (is_retryable e))) [
        | inl ends ↦ rw ends (Spends-more _ k _ w w1 (omega arith) s)
        | inr goes ↦
            let rules = c.router.fallbacks in
            let r = apply_error_fallbacks n c active model rules e w1 in
            rw goes (
              Spends-then _ k (all_requests rules) w w1 r.1 s
                (fallbacks-Within active model rules e w1))
      ]

module _ {A : Type 0} (d : Dollars A) (n : Net A) (c : Call A) where
  faults-Spends :
      (b : Bool) (provider : String) (w : World A)
      → Spends
          (Carries (tools n c) (cap n c))
          0
          w
          (if b then noting (resets_upstream provider) w else w)
  unfolding noting requests
  faults-Spends true provider w = (resets_upstream provider ∷ [], refl, (tt, tt), omega arith)
  faults-Spends false provider w = Spends-same _ 0 w w refl

  retry_leaked-Within :
      (req : Asked) (leaked : Response A) (w : World A)
      → Carries (tools n c) (cap n c) (asks req)
      → Within n c 1 w (retry_leaked_tool_call d n c req leaked w)
  unfolding retry_leaked_tool_call bill
  retry_leaked-Within req leaked w h =
      let w1 = bill d c.router c.session req.provider leaked w in
      let b = n.reports_faults req.provider in
      let w2 = if b then noting (resets_upstream req.provider) w1 else w1 in
      let r = ask n req (reset_stream c.options.streaming w2) in
      mark-Within n c 1 w r (
        Spends-then _ 0 1 w w2 r.1 (faults-Spends b req.provider w1)
          (ask_reset-Spends (tools n c) (cap n c) n c.options.streaming req w2 h))

  unless_leaked-Within :
      (req : Asked) (w : World A) (r : Reply A × World A)
      → Carries (tools n c) (cap n c) (asks req)
      → Within n c 1 w r
      → Within n c 2 w (unless_leaked d n c req r)
  unfolding unless_leaked
  unless_leaked-Within req w (failed e, w1) h s = Spends-more _ 1 2 w w1 (omega arith) s
  unless_leaked-Within req w (answer resp, w1) h s = elim (Bool-cases (looks_leaked resp)) [
    | inl leaks ↦ rw leaks (
        Spends-then _ 1 1 w w1 (retry_leaked_tool_call d n c req resp w1).1 s
          (retry_leaked-Within req resp w1 h))
    | inr fine ↦ rw fine (Spends-more _ 1 2 w w1 (omega arith) s)
  ]

  settle-Within :
      (k : ℕ) (w : World A) (r : Served A × World A)
      → Within n c k w r
      → Within n c k w (settle d c r)
  unfolding settle bill
  settle-Within k w (served resp name, w1) s = s
  settle-Within k w (not_served e, w1) s = s

  complete_at-Within :
      (active model : String) (w : World A)
      → Within n c (2 + all_requests c.router.fallbacks) w (complete_at d n c (active, model) w)
  unfolding complete_at primary_completion
  complete_at-Within active model w =
      let req = build_req n c c.router.stream_idle_timeout active model in
      let h = build_req-Carries n c c.router.stream_idle_timeout active model in
      let r = unless_leaked d n c req (ask n req w) in
      elim (Bool-cases
        (active == c.router.default_provider && exceeds_hard_limit d w.tracker c.session)) [
          | inl refused ↦ rw refused (Spends-same _ _ w w refl)
          | inr goes ↦ rw goes (
              settle-Within _ w (fall_back n c active model r) (
                fall_back-Within n c active model 2 w r
                  (unless_leaked-Within req w (ask n req w) h (ask-Spends _ _ n req w h))))
        ]

  -- A completion makes at most two requests and, for each fallback rule that is not of a cost limit,
  -- one more, or as many as its retries where it waits. Each of them, whichever fallback makes it,
  -- carries the tools that the options leave of the router's, and the router's output cap.
  pub complete-Spends :
      (w : World A)
      → Spends
          (Carries (advertised c.router c.options) c.router.max_output_tokens)
          (2 + all_requests c.router.fallbacks)
          w
          (complete d n c w).1
  unfolding complete
  complete-Spends w = elim (Bool-cases (has_provider c.router c.router.default_provider)) [
    | inl known ↦
        let target = apply_cost_limit_fallback d c.router w.tracker c.session c.router.fallbacks in
        rw known (complete_at-Within target.0 target.1 w)
    | inr unknown ↦ rw unknown (Spends-same _ _ w w refl)
  ]
