-- ===== src/Llm/Requests.antt =====
-- internal/llm/router.go: what a completion sends to the providers, and how often.
pub mod Bounds
use denkeeper.Prelude.{
  ℕ, zero, suc, ◌+◌, ◌≤◌, ◌≡◌, refl, sym, ap, ◌∙◌, String, Bool, true, false, not, ◌&&◌, ◌||◌,
  Option, none, some, List, [], ◌∷◌, ◌++◌, arith, Bool-cases, inl, inr, if◌then◌else◌, ◌==◌,
  string_eq, All, All-append,
}
use mathlib.Core.List.{append_assoc}
use denkeeper.Llm.{Dollars, Response, Failure, is_rate_limit, is_retryable}
use denkeeper.Llm.Complete.{
  Call, build_req, ask_again, execute_fallback_action, apply_error_fallbacks,
  retry_leaked_tool_call, unless_leaked, primary_completion, settle, fall_back, complete_at,
  complete,
}
use denkeeper.Llm.Leak.{looks_leaked}
use denkeeper.Llm.Retry.{
  Asked, Reply, answer, failed, Net, Event, asks, resets_stream, resets_upstream, World, plain,
  noting, reset_stream, after_attempt, ask, wait_before, attempt_once, retry,
}
use denkeeper.Llm.Router.{
  FallbackRule, Served, served, not_served, has_provider, or_given, advertised,
  fallback_matches_error, mark_leak_retry, served_by, after_action, apply_cost_limit_fallback, bill,
}

-- A request of a call carries its tools and its output cap.
abbrev pub Carries : List String → ℕ → Event → Type 0
Carries tools cap (asks q) = (q.tools ≡ tools) × (q.max_tokens ≡ cap)
Carries tools cap e = Unit

unfoldable pub requests : List Event → ℕ
requests [] = 0
requests (asks q ∷ l) = suc (requests l)
requests (e ∷ l) = requests l

requests-append : (l m : List Event) → requests (l ++ m) ≡ requests l + requests m
unfolding requests
requests-append [] m = omega arith
requests-append (asks q ∷ l) m = omega (arith, requests-append l m)
requests-append (resets_stream ∷ l) m = omega (arith, requests-append l m)
requests-append (resets_upstream p ∷ l) m = omega (arith, requests-append l m)

-- The requests that a rule can make.
unfoldable pub rule_requests : FallbackRule → ℕ
rule_requests rule =
    if rule.trigger == "cost_limit"
    then 0
    else if rule.action == "wait_and_retry"
    then rule.max_retries
    else 1

unfoldable pub all_requests : List FallbackRule → ℕ
all_requests [] = 0
all_requests (rule ∷ rules) = rule_requests rule + all_requests rules

module _ {A : Type 0} where
  -- The events that are new all satisfy a predicate, and at most `k` of them are requests.
  abbrev pub Spends : (Event → Type 0) → ℕ → World A → World A → Type 0
  Spends P k w w' = (new : List Event) × (w'.log ≡ new ++ w.log) × All P new × (requests new ≤ k)

  pub Spends-same : (P : Event → Type 0) (k : ℕ) (w w' : World A) → w'.log ≡ w.log → Spends P k w w'
  unfolding requests
  Spends-same P k w w' e = ([], e, tt, omega arith)

  pub Spends-then :
      (P : Event → Type 0) (j k : ℕ) (w w1 w2 : World A)
      → Spends P j w w1
      → Spends P k w1 w2
      → Spends P (j + k) w w2
  Spends-then P j k w w1 w2 (l, e, hl, bl) (m, f, hm, bm) = (
    m ++ l,
    f ∙ (ap (λ t. m ++ t) e ∙ sym (append_assoc m l w.log)),
    All-append P m l hm hl,
    omega (arith, requests-append m l, bl, bm),
  )

  pub Spends-more :
      (P : Event → Type 0) (j k : ℕ) (w w' : World A) → j ≤ k → Spends P j w w' → Spends P k w w'
  Spends-more P j k w w' h (l, e, hl, bl) = (l, e, hl, omega (arith, bl, h))

module _ {A : Type 0} (tools : List String) (cap : ℕ) (n : Net A) where
  -- The world after a step, which the steps put behind a value.
  abbrev pub Fits : ℕ → {R : Type 0} → World A → R × World A → Type 0
  Fits k w (r, w') = Spends (Carries tools cap) k w w'

  abbrev SameLog : World A → Option (World A) → Type 0
  SameLog w none = Unit
  SameLog w (some w') = w'.log ≡ w.log

  pub ask-Spends :
      (req : Asked) (w : World A) → Carries tools cap (asks req) → Fits 1 w (ask n req w)
  unfolding ask requests
  ask-Spends req w h = (asks req ∷ [], refl, (h, tt), omega arith)

  pub reset_stream-Spends :
      (streaming : Bool) (w : World A) → Spends (Carries tools cap) 0 w (reset_stream streaming w)
  unfolding reset_stream noting requests
  reset_stream-Spends true w = (resets_stream ∷ [], refl, (tt, tt), omega arith)
  reset_stream-Spends false w = Spends-same _ 0 w w refl

  pub ask_reset-Spends :
      (streaming : Bool) (req : Asked) (w : World A)
      → Carries tools cap (asks req)
      → Fits 1 w (ask n req (reset_stream streaming w))
  unfolding ask
  ask_reset-Spends streaming req w h =
      Spends-then (Carries tools cap) 0 1 w (reset_stream streaming w)
        (ask n req (reset_stream streaming w)).1 (reset_stream-Spends streaming w)
        (ask-Spends req (reset_stream streaming w) h)

  wait_before-Spends :
      (backoff : String) (attempt : ℕ) (w : World A) → SameLog w (wait_before n backoff attempt w)
  unfolding wait_before
  wait_before-Spends backoff zero w = refl
  wait_before-Spends backoff (suc k) w = elim (Bool-cases (n.context_over w.moment)) [
    | inl e ↦ rw e tt
    | inr e ↦ rw e refl
  ]

  after_attempt-Spends :
      (again : Failure → World A → Reply A × World A)
      → (j k : ℕ) (w : World A) → ((e : Failure) (w1 : World A) → Fits k w1 (again e w1))
      → (r : Reply A × World A) → Fits j w r
      → Fits (j + k) w (after_attempt again r)
  after_attempt-Spends again j k w h (answer resp, w1) s =
      Spends-more _ j (j + k) w w1 (omega arith) s
  after_attempt-Spends again j k w h (failed e, w1) s = elim (Bool-cases (is_rate_limit e)) [
    | inl limited ↦ rw limited (Spends-then _ j k w w1 (again e w1).1 s (h e w1))
    | inr other ↦ rw other (Spends-more _ j (j + k) w w1 (omega arith) s)
  ]

  attempt_once-Spends :
      (again : Failure → World A → Reply A × World A)
      → (k : ℕ) (streaming : Bool) (req : Asked) (w : World A) → Carries tools cap (asks req)
      → ((e : Failure) (w1 : World A) → Fits k w1 (again e w1))
      → (o : Option (World A)) → SameLog w o
      → Fits (suc k) w (attempt_once n again streaming req w o)
  unfolding attempt_once
  attempt_once-Spends again k streaming req w h f none s = Spends-same _ (suc k) w w refl
  attempt_once-Spends again k streaming req w h f (some w1) s =
      let r = ask n req (reset_stream streaming w1) in
      let a = after_attempt-Spends again 1 k w1 f r (ask_reset-Spends streaming req w1 h) in
      Spends-more _ (0 + (1 + k)) (suc k) w (after_attempt again r).1 (omega arith)
        (Spends-then _ 0 (1 + k) w w1 (after_attempt again r).1 (Spends-same _ 0 w w1 s) a)

  pub retry-Spends :
      (left attempt : ℕ) (backoff : String) (streaming : Bool) (req : Asked) (e : Failure)
      → (w : World A) → Carries tools cap (asks req)
      → Fits left w (retry n left attempt backoff streaming req e w)
  unfolding retry
  retry-Spends zero attempt backoff streaming req e w h = Spends-same _ 0 w w refl
  retry-Spends (suc left) attempt backoff streaming req e w h =
      attempt_once-Spends (retry n left (attempt + 1) backoff streaming req) left streaming req w h
        (λ e' w'. retry-Spends left (attempt + 1) backoff streaming req e' w' h)
        (wait_before n backoff attempt w) (wait_before-Spends backoff attempt w)
