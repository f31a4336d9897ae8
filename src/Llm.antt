-- ===== src/Llm.antt =====
-- internal/llm: the data of provider.go, and the numbers of dollars that the package counts in.
use denkeeper.Prelude.{
  ℕ, ◌+◌, String, Bool, true, false, not, ◌&&◌, ◌||◌, Option, none, some, List, if◌then◌else◌, ◌==◌,
  nat_eq,
}
pub mod Billing
pub mod Complete
pub mod Cost
pub mod Delay
pub mod Fallbacks
pub mod Leak
pub mod Ledger
pub mod Limits
pub mod Longest
pub mod Registered
pub mod Pricing
pub mod Requests
pub mod Retry
mod Tests
pub mod Router

-- Go's float64, as far as the package computes with it. Its addition is not associative, and no law
-- is assumed here: the theorems that need one name it.
pub record Dollars (A : Type 0) : Type 0 where
  pub none_of : A
  pub add : A → A → A
  pub mul : A → A → A
  pub div : A → A → A
  pub of_count : ℕ → A
  pub quarter : A
  pub cent : A
  pub leq : A → A → Bool
  pub less : A → A → Bool
  pub same : A → A → Bool

-- TokenUsage. Providers report counts, which are not negative.
pub record Usage : Type 0 where
  pub prompt : ℕ
  pub completion : ℕ
  pub cached_prompt : ℕ
  pub cache_write_prompt : ℕ
  pub total : ℕ

-- TokenUsage.Add
unfoldable pub add_usage : Usage → Usage → Usage
add_usage t u = record {
  prompt = t.prompt + u.prompt;
  completion = t.completion + u.completion;
  cached_prompt = t.cached_prompt + u.cached_prompt;
  cache_write_prompt = t.cache_write_prompt + u.cache_write_prompt;
  total = t.total + u.total;
}

-- What errors.Is and errors.As find in an error: a wrapped one keeps all of it.
pub record Failure : Type 0 where
  pub idle_timeout : Bool
  pub truncated : Bool
  pub context_over : Bool
  pub status_code : Option ℕ

-- LLMError.Retryable
unfoldable pub retryable_status : ℕ → Bool
retryable_status code =
    not (code == 400 || code == 401 || code == 402 || code == 404 || code == 422)

abbrev pub retryable_code : Option ℕ → Bool
retryable_code none = true
retryable_code (some code) = retryable_status code

-- IsRetryable
unfoldable pub is_retryable : Failure → Bool
unfolding retryable_status
is_retryable e =
    if e.idle_timeout
    then true
    else if e.truncated
    then true
    else if e.context_over
    then false
    else retryable_code e.status_code

abbrev pub rate_limit_code : Option ℕ → Bool
rate_limit_code none = false
rate_limit_code (some code) = code == 429

-- IsRateLimit
unfoldable pub is_rate_limit : Failure → Bool
is_rate_limit e = rate_limit_code e.status_code

pub record Response (A : Type 0) : Type 0 where
  pub content : String
  pub tool_calls : List String
  pub tokens_used : Usage
  pub model : String
  pub finish_reason : String
  pub cost_usd : A
  pub billed_usd : A
  pub leak_retry : Bool
