-- ===== src/Llm/Fallbacks.antt =====
-- internal/llm/router.go: fallbacks, which leave the costs alone until a completion is settled.
use denkeeper.Prelude.{
  ℕ, zero, suc, ◌+◌, ◌≡◌, refl, ◌∙◌, inl, inr, String, Bool, true, false, not, ◌||◌, Option, none,
  some, List, [], ◌∷◌, Bool-cases, ◌==◌, string_eq,
}
use denkeeper.Llm.{Failure, is_rate_limit, is_retryable}
use denkeeper.Llm.Complete.{
  Call, build_req, ask_again, execute_fallback_action, apply_error_fallbacks, fall_back,
}
use denkeeper.Llm.Retry.{
  Asked, Reply, answer, failed, Net, World, plain, noting, reset_stream, after_attempt, ask,
  wait_before, attempt_once, retry,
}
use denkeeper.Llm.Router.{
  FallbackRule, Served, served, not_served, has_provider, or_given, fallback_matches_error,
  served_by, after_action,
}

module _ {A : Type 0} (n : Net A) where
  -- A step that charges nothing.
  abbrev pub Free : {R : Type 0} → World A → R × World A → Type 0
  Free w (r, w') = w'.tracker ≡ w.tracker

  abbrev FreeOption : World A → Option (World A) → Type 0
  FreeOption w none = Unit
  FreeOption w (some w') = w'.tracker ≡ w.tracker

  pub reset_stream-tracker :
      (streaming : Bool) (w : World A) → (reset_stream streaming w).tracker ≡ w.tracker
  unfolding reset_stream noting
  reset_stream-tracker true w = refl
  reset_stream-tracker false w = refl

  pub ask_reset-Free :
      (streaming : Bool) (req : Asked) (w : World A) → Free w (ask n req (reset_stream streaming w))
  unfolding ask
  ask_reset-Free streaming req w = reset_stream-tracker streaming w

  wait_before-Free :
      (backoff : String) (attempt : ℕ) (w : World A)
      → FreeOption w (wait_before n backoff attempt w)
  unfolding wait_before
  wait_before-Free backoff zero w = refl
  wait_before-Free backoff (suc k) w = elim (Bool-cases (n.context_over w.moment)) [
    | inl e ↦ rw e tt
    | inr e ↦ rw e refl
  ]

  after_attempt-Free :
      (again : Failure → World A → Reply A × World A)
      → ((e : Failure) (w1 : World A) → Free w1 (again e w1))
      → (w : World A) (r : Reply A × World A) → Free w r
      → Free w (after_attempt again r)
  after_attempt-Free again h w (answer resp, w1) s = s
  after_attempt-Free again h w (failed e, w1) s = elim (Bool-cases (is_rate_limit e)) [
    | inl limited ↦ rw limited (h e w1 ∙ s)
    | inr other ↦ rw other s
  ]

  attempt_once-Free :
      (again : Failure → World A → Reply A × World A)
      → ((e : Failure) (w1 : World A) → Free w1 (again e w1))
      → (streaming : Bool) (req : Asked) (w : World A) (o : Option (World A)) → FreeOption w o
      → Free w (attempt_once n again streaming req w o)
  unfolding attempt_once
  attempt_once-Free again h streaming req w none s = refl
  attempt_once-Free again h streaming req w (some w1) s =
      after_attempt-Free again h w (ask n req (reset_stream streaming w1))
        (ask_reset-Free streaming req w1 ∙ s)

  retry-Free :
      (left attempt : ℕ) (backoff : String) (streaming : Bool) (req : Asked) (e : Failure)
      → (w : World A) → Free w (retry n left attempt backoff streaming req e w)
  unfolding retry
  retry-Free zero attempt backoff streaming req e w = refl
  retry-Free (suc left) attempt backoff streaming req e w =
      attempt_once-Free (retry n left (attempt + 1) backoff streaming req)
        (λ e' w'. retry-Free left (attempt + 1) backoff streaming req e' w') streaming req w
        (wait_before n backoff attempt w) (wait_before-Free backoff attempt w)

  served_by-Free :
      (name : String) (w : World A) (r : Reply A × World A) → Free w r → Free w (served_by name r)
  served_by-Free name w (answer resp, w1) s = s
  served_by-Free name w (failed e, w1) s = s

  ask_again-Free :
      (c : Call A) (provider model : String) (w : World A) → Free w (ask_again n c provider model w)
  unfolding ask_again
  ask_again-Free c provider model w =
      let req = build_req n c 0 provider model in
      served_by-Free provider w (ask n req (reset_stream c.options.streaming w))
        (ask_reset-Free c.options.streaming req w)

  execute-Free :
      (c : Call A) (rule : FallbackRule) (active model : String) (w : World A)
      → Free w (execute_fallback_action n c rule active model w)
  unfolding execute_fallback_action
  execute-Free c rule active model w = elim (Bool-cases (rule.action == "wait_and_retry")) [
    | inl waits ↦
        let req = build_req n c 0 active model in
        rw waits (
          served_by-Free active w
            (retry n rule.max_retries 0 rule.backoff c.options.streaming req plain w)
            (retry-Free rule.max_retries 0 rule.backoff c.options.streaming req plain w))
    | inr other ↦ elim (Bool-cases (rule.action == "switch_provider")) [
      | inl switches ↦ elim (Bool-cases (has_provider c.router rule.provider)) [
        | inl known ↦
            rw (other, switches, known)
              (ask_again-Free c rule.provider (or_given model rule.model) w)
        | inr unknown ↦ rw (other, switches, unknown) refl
      ]
      | inr third ↦ elim (Bool-cases (rule.action == "switch_model")) [
        | inl e ↦ rw (other, third, e) (ask_again-Free c active rule.model w)
        | inr e ↦ rw (other, third, e) refl
      ]
    ]
  ]

  after_action-Free :
      (next : Failure → World A → Served A × World A)
      → ((e : Failure) (w1 : World A) → Free w1 (next e w1))
      → (w : World A) (r : Served A × World A) → Free w r
      → Free w (after_action next r)
  after_action-Free next h w (served resp name, w1) s = s
  after_action-Free next h w (not_served e, w1) s = h e w1 ∙ s

  fallbacks-Free :
      (c : Call A) (active model : String) (rules : List FallbackRule) (e : Failure) (w : World A)
      → Free w (apply_error_fallbacks n c active model rules e w)
  unfolding apply_error_fallbacks
  fallbacks-Free c active model [] e w = refl
  fallbacks-Free c active model (rule ∷ rules) e w =
      elim (Bool-cases (rule.trigger == "cost_limit" || not (fallback_matches_error rule e))) [
        | inl skips ↦ rw skips (fallbacks-Free c active model rules e w)
        | inr acts ↦ rw acts (
            after_action-Free (apply_error_fallbacks n c active model rules)
              (fallbacks-Free c active model rules) w
              (execute_fallback_action n c rule active model w)
              (execute-Free c rule active model w))
      ]

  pub fall_back-Free :
      (c : Call A) (active model : String) (w : World A) (r : Reply A × World A)
      → Free w r
      → Free w (fall_back n c active model r)
  unfolding fall_back
  fall_back-Free c active model w (answer resp, w1) s = s
  fall_back-Free c active model w (failed e, w1) s =
      elim (Bool-cases (n.context_over w1.moment || not (is_retryable e))) [
        | inl ends ↦ rw ends s
        | inr goes ↦ rw goes (fallbacks-Free c active model c.router.fallbacks e w1 ∙ s)
      ]
