-- ===== src/Llm/Delay.antt =====
-- internal/llm/router.go: how long doWaitAndRetry waits.
use denkeeper.Prelude.{
  ℕ, zero, suc, ◌+◌, ◌*◌, ◌≤◌, ◌<◌, ◌≡◌, refl, ap, ◌∙◌, String, Bool, true, false, ◌&&◌, arith,
  Bool-cases, inl, inr, Option, some, if◌then◌else◌, ◌==◌, string_eq, nat_beq, nat_beq_iff, ltb,
}
use Prim.Native.Nat.{◌^◌}
use denkeeper.Llm.{Failure, is_rate_limit}
use denkeeper.Llm.Retry.{
  Asked, Reply, answer, failed, Net, World, second, doubled, retry_delay, retry_wait, noting,
  reset_stream, after_attempt, ask, wait_before, attempt_once, retry,
}

-- A test that holds of the numbers below another, by running it on each.
unfoldable pub all_below : ℕ → (ℕ → Bool) → Bool
all_below zero test = true
all_below (suc n) test = test n && all_below n test

all_below_lem :
    (n : ℕ) (test : ℕ → Bool) → all_below n test ≡ true → (a : ℕ) → a < n → test a ≡ true
unfolding all_below
all_below_lem zero test h a lt = absurd (omega (arith, lt))
all_below_lem (suc n) test h a lt = elim (Bool-cases (nat_beq a n)) [
  | inl same ↦ ground (arith, h, same, (nat_beq_iff a n).0 same)
  | inr other ↦ all_below_lem n test (ground (arith, h)) a (ground (arith, lt, other))
]

-- The pause before the attempt of a number, in seconds: none before the first one, then a time that
-- doubles, up to thirty; and none before the attempt of number 34, whose delay in nanoseconds is above
-- 2 ^ 63.
abbrev pub pause : ℕ → ℕ
pause zero = 0
pause (suc k) = if nat_beq k 33 then 0 else (if ltb k 4 then 2 ^ suc k else 30)

-- The pauses before a number of attempts, from the attempt of a number on.
unfoldable pub pauses : ℕ → ℕ → ℕ
pauses zero attempt = 0
pauses (suc left) attempt = pause attempt + pauses left (attempt + 1)

abbrev agrees_at : ℕ → Bool
agrees_at k = nat_beq (retry_wait "exponential" (suc k)) (pause (suc k) * second)

agrees : all_below 34 agrees_at ≡ true
unfolding all_below retry_wait retry_delay doubled
agrees = refl

retry_wait_lem : (k : ℕ) → suc k ≤ 34 → retry_wait "exponential" (suc k) ≡ pause (suc k) * second
retry_wait_lem k h =
    (nat_beq_iff (retry_wait "exponential" (suc k)) (pause (suc k) * second)).0
      (all_below_lem 34 agrees_at agrees k (omega (arith, h)))

module _ {A : Type 0} (n : Net A) where
  wait_before-waited :
      (attempt : ℕ) (w : World A)
      → n.context_over w.moment ≡ false
      → attempt ≤ 34
      → (w' : World A) × (wait_before n "exponential" attempt w ≡ some w')
        × (w'.waited ≡ w.waited + pause attempt * second)
  unfolding wait_before
  wait_before-waited zero w goes_on h = (w, refl, omega arith)
  wait_before-waited (suc k) w goes_on h = (
    record w { waited = w.waited + retry_wait "exponential" (suc k); moment = w.moment + 1 },
    rw goes_on refl,
    ap (λ x. w.waited + x) (retry_wait_lem k h),
  )

  reset_stream-waited :
      (streaming : Bool) (w : World A) → (reset_stream streaming w).waited ≡ w.waited
  unfolding reset_stream noting
  reset_stream-waited true w = refl
  reset_stream-waited false w = refl

  -- Whether a reply is an error that the provider gives for its rate limit.
  abbrev pub is_limited : Reply A → Bool
  is_limited (answer resp) = false
  is_limited (failed e) = is_rate_limit e

  after_attempt-limited :
      (again : Failure → World A → Reply A × World A) (r : Reply A) (w : World A)
      → is_limited r ≡ true
      → (e : Failure) × (after_attempt again (r, w) ≡ again e w)
  after_attempt-limited again (answer resp) w h = absurd (cc h)
  after_attempt-limited again (failed e) w h = (e, rw h refl)

  -- One attempt of which the reply is limited: the router pauses, and goes on.
  attempt-waited :
      (again : Failure → World A → Reply A × World A) (streaming : Bool) (req : Asked)
      → (w : World A) (o : Option (World A)) (w1 : World A)
      → ((m : ℕ) → is_limited (n.replies m req) ≡ true)
      → o ≡ some w1
      → (e : Failure) × (w2 : World A) × (attempt_once n again streaming req w o ≡ again e w2)
        × (w2.waited ≡ w1.waited)
  unfolding attempt_once ask
  attempt-waited again streaming req w o w1 limited at =
      let w2 = (ask n req (reset_stream streaming w1)).1 in
      let (e, to) =
        after_attempt-limited again (n.replies (reset_stream streaming w1).moment req) w2
          (limited (reset_stream streaming w1).moment) in
      (e, w2, rw at to, reset_stream-waited streaming w1)

  retry-pauses :
      (left attempt : ℕ) (streaming : Bool) (req : Asked) (e : Failure) (w : World A)
      → ((m : ℕ) → n.context_over m ≡ false)
      → ((m : ℕ) → is_limited (n.replies m req) ≡ true)
      → left + attempt ≤ 35
      → (retry n left attempt "exponential" streaming req e w).1.waited
        ≡ w.waited + pauses left attempt * second
  unfolding retry pauses
  retry-pauses zero attempt streaming req e w goes_on limited h = omega arith
  retry-pauses (suc left) attempt streaming req e w goes_on limited h =
      let again = retry n left (attempt + 1) "exponential" streaming req in
      let (w1, at, paused) = wait_before-waited attempt w (goes_on w.moment) (omega (arith, h)) in
      let (e1, w2, to, same) =
        attempt-waited again streaming req w (wait_before n "exponential" attempt w) w1 limited
          at in
      let rest =
        retry-pauses left (attempt + 1) streaming req e1 w2 goes_on limited (omega (arith, h)) in
      ap (λ r. r.1.waited) to ∙ omega (arith, rest, same, paused)

  -- A retry with exponential backoff and at most 35 attempts, of a request that is always refused for
  -- the rate limit in a context that goes on, waits in all: nothing before its first attempt, then 2, 4, 8 and 16 seconds,
  -- then thirty seconds before each attempt up to that of number 33, and nothing before that of number
  -- 34, whose delay overflows to a negative duration.
  pub retry-waited :
      (left : ℕ) (streaming : Bool) (req : Asked) (e : Failure) (w : World A)
      → ((m : ℕ) → n.context_over m ≡ false)
      → ((m : ℕ) → is_limited (n.replies m req) ≡ true)
      → left ≤ 35
      → (retry n left 0 "exponential" streaming req e w).1.waited
        ≡ w.waited + pauses left 0 * second
  retry-waited left streaming req e w goes_on limited h =
      retry-pauses left 0 streaming req e w goes_on limited (omega (arith, h))

-- Whatever the attempt and the backoff, the router waits at most thirty seconds before it.
pub retry_wait-le : (backoff : String) (attempt : ℕ) → retry_wait backoff attempt ≤ 30 * second
unfolding retry_wait retry_delay
retry_wait-le backoff attempt = elim (Bool-cases (backoff == "constant")) [
  | inl same ↦ rw same (omega arith)
  | inr other ↦ rw other (ground arith)
]
