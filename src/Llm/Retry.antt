-- ===== src/Llm/Retry.antt =====
-- internal/llm/router.go: asking a provider, and doWaitAndRetry. The providers are a parameter: what
-- one answers, and whether the caller's context ends, depends on the moment.
use denkeeper.Prelude.{
  ℕ, zero, suc, ◌+◌, ◌*◌, ◌%◌, String, Bool, true, false, ◌&&◌, Option, none, some, List, ◌∷◌,
  if◌then◌else◌, ◌==◌, string_eq, ltb,
}
use Prim.Native.Nat.{◌^◌}
use denkeeper.Llm.{Response, Failure, is_rate_limit}
use denkeeper.Llm.Cost.{CostTracker}

-- What of a ChatRequest the router decides.
pub record Asked : Type 0 where
  pub provider : String
  pub model : String
  pub tools : List String
  pub max_tokens : ℕ
  pub idle_timeout : ℕ
  pub streams : Bool

pub data Reply (A : Type 0) : Type 0 where
  answer : Response A → Reply A
  failed : Failure → Reply A

pub record Net (A : Type 0) : Type 0 where
  pub replies : ℕ → Asked → Reply A
  pub context_over : ℕ → Bool
  pub supports_streaming : String → Bool
  pub reports_faults : String → Bool

-- What a call did, besides the costs: it asked a provider, told the consumer of the stream to discard
-- what it has, or told a provider to drop its preferred upstream.
pub data Event : Type 0 where
  asks : Asked → Event
  resets_stream : Event
  resets_upstream : (provider : String) → Event

-- The events so far, the latest first; how long the router waited, in nanoseconds; and the costs.
pub record World (A : Type 0) : Type 0 where
  pub log : List Event
  pub waited : ℕ
  pub tracker : CostTracker A
  pub moment : ℕ

-- An int64 by its bits: 2 ^ 63 and above are negative.
abbrev pub word : ℕ
word = 2 ^ 64

abbrev pub is_positive : ℕ → Bool
is_positive bits = ltb 0 bits && ltb bits (2 ^ 63)

abbrev pub second : ℕ
second = 1000000000

-- `time.Duration(1<<uint(attempt)) * time.Second`
unfoldable pub doubled : ℕ → ℕ
doubled attempt = (2 ^ attempt % word) * second % word

unfoldable pub retry_delay : String → ℕ → ℕ
unfolding doubled
retry_delay backoff attempt =
    if backoff == "constant"
    then second
    else (if is_positive (doubled attempt) && ltb (30 * second) (doubled attempt)
        then 30 * second
        else doubled attempt)

-- How long time.After takes, before an attempt but the first: a negative delay is over at once.
unfoldable pub retry_wait : String → ℕ → ℕ
unfolding retry_delay
retry_wait backoff attempt =
    if is_positive (retry_delay backoff attempt) then retry_delay backoff attempt else 0

-- The error of a context that is over.
abbrev pub over : Failure
over = record { idle_timeout = false; truncated = false; context_over = true; status_code = none }

-- Any other error.
abbrev pub plain : Failure
plain = record { idle_timeout = false; truncated = false; context_over = false; status_code = none }

module _ {A : Type 0} where
  unfoldable pub noting : Event → World A → World A
  noting event w = record w { log = event ∷ w.log }

  -- resetStream of executeFallbackAction
  unfoldable pub reset_stream : Bool → World A → World A
  unfolding noting
  reset_stream streaming w = if streaming then noting resets_stream w else w

  abbrev pub after_attempt :
      (Failure → World A → Reply A × World A) → Reply A × World A → Reply A × World A
  after_attempt again (answer resp, w) = (answer resp, w)
  after_attempt again (failed e, w) = if is_rate_limit e then again e w else (failed e, w)

module _ {A : Type 0} (n : Net A) where
  -- Provider.ChatCompletion
  unfoldable pub ask : Asked → World A → Reply A × World A
  ask req w = (n.replies w.moment req, record w { log = asks req ∷ w.log; moment = w.moment + 1 })

  -- Before an attempt but the first, wait; `none` where the context ends meanwhile.
  unfoldable pub wait_before : String → ℕ → World A → Option (World A)
  unfolding retry_wait
  wait_before backoff zero w = some w
  wait_before backoff (suc k) w =
      if n.context_over w.moment
      then none
      else some (record w { waited = w.waited + retry_wait backoff (suc k); moment = w.moment + 1 })

  unfoldable pub attempt_once :
      (Failure → World A → Reply A × World A)
      → Bool
      → Asked
      → World A
      → Option (World A)
      → Reply A × World A
  unfolding ask reset_stream is_rate_limit
  attempt_once again streaming req w none = (failed over, w)
  attempt_once again streaming req w (some w') =
      after_attempt again (ask req (reset_stream streaming w'))

  -- doWaitAndRetry with `left` attempts to go, after attempts of which the last failed with the
  -- error; its closure is the one of executeFallbackAction.
  unfoldable pub retry : ℕ → ℕ → String → Bool → Asked → Failure → World A → Reply A × World A
  unfolding attempt_once wait_before
  retry zero attempt backoff streaming req e w = (failed e, w)
  retry (suc left) attempt backoff streaming req e w =
      attempt_once (retry left (attempt + 1) backoff streaming req) streaming req w
        (wait_before backoff attempt w)
