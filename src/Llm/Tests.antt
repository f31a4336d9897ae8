-- ===== src/Llm/Tests.antt =====
-- internal/llm at concrete inputs: dollars that are numbers, two providers of which the first limits
-- its rate at first, and a router with rules for that and for the soft limit.
use denkeeper.Prelude.{
  ℕ, ◌+◌, ◌*◌, ◌/◌, ◌≡◌, refl, String, true, false, ◌||◌, none, some, List, [], ◌∷◌, arith,
  if◌then◌else◌, ◌==◌, string_eq, nat_eq, nat_beq, ltb, leb, lookup, put,
}
use denkeeper.Llm.{Dollars, Usage, Response, Failure, is_rate_limit}
use denkeeper.Llm.Billing.{charges_of, complete-Adds}
use denkeeper.Llm.Complete.{Call, complete}
use denkeeper.Llm.Cost.{CostTracker, record_with_provider}
use denkeeper.Llm.Delay.{pauses, retry-waited}
use denkeeper.Llm.Leak.{looks_leaked}
use denkeeper.Llm.Ledger.{
  Entry, records, registers, records_tokens, ledger_of, track_all, Adds, track_all-Adds,
}
use denkeeper.Llm.Limits.{reported, record_with_provider-complete}
use denkeeper.Llm.Longest.{Registration, register_all, of_model, of_prefix, latest_model}
use denkeeper.Llm.Registered.{registered, IsFound, find_price-IsFound}
use denkeeper.Llm.Pricing.{ModelPrice, find_price}
use denkeeper.Llm.Requests.{Carries, Spends, rule_requests, all_requests}
use denkeeper.Llm.Requests.Bounds.{complete-Spends}
use denkeeper.Llm.Retry.{Asked, Reply, answer, failed, Net, World, second, retry}
use denkeeper.Llm.Router.{
  FallbackRule, Router, completed, over_hard_limit, advertised, has_provider,
  apply_cost_limit_fallback,
}

abbrev whole : Dollars ℕ
whole = record {
  none_of = 0;
  add = λ a b. a + b;
  mul = λ a b. a * b;
  div = λ a b. a / b;
  of_count = λ k. k;
  quarter = 0;
  cent = 0;
  leq = leb;
  less = ltb;
  same = nat_beq;
}

abbrev used : Usage
used = record { prompt = 10; completion = 5; cached_prompt = 0; cache_write_prompt = 0; total = 15 }

abbrev reply_of : String → Response ℕ
reply_of content = record {
  content = content;
  tool_calls = [];
  tokens_used = used;
  model = "m";
  finish_reason = "stop";
  cost_usd = 7;
  billed_usd = 0;
  leak_retry = false;
}

abbrev limited : Failure
limited = record {
  idle_timeout = false;
  truncated = false;
  context_over = false;
  status_code = some 429;
}

abbrev net_of : (ℕ → Asked → Reply ℕ) → Net ℕ
net_of replies = record {
  replies = replies;
  context_over = λ t. false;
  supports_streaming = λ name. name == "a";
  reports_faults = λ name. true;
}

-- The first two answers say that the rate is too high.
abbrev net : Net ℕ
net = net_of (λ t req. if ltb t 2 then failed limited else answer (reply_of "hello"))

-- The first answer is a leaked tool call.
abbrev leaky : Net ℕ
leaky =
    net_of
      (λ t req. answer (if nat_beq t 0 then reply_of "functions.kv_get:0 {" else reply_of "hello"))

abbrev fresh : CostTracker ℕ
fresh = record {
  session_costs = [];
  session_stats = [];
  session_agents = [];
  session_providers = [];
  global_cost = 0;
  default_limits = record { soft = 5; hard = 10 };
  agent_overrides = [];
  provider_limits = [];
}

abbrev start : World ℕ
start = record { log = []; waited = 0; tracker = fresh; moment = 0 }

abbrev waiting : FallbackRule
waiting = record {
  trigger = "rate_limit";
  action = "wait_and_retry";
  provider = "";
  model = "";
  scope = "";
  max_retries = 3;
  backoff = "constant";
}

abbrev cheaper : FallbackRule
cheaper = record {
  trigger = "cost_limit";
  action = "switch_model";
  provider = "";
  model = "small";
  scope = "soft";
  max_retries = 0;
  backoff = "";
}

abbrev router : Router ℕ
router = record {
  providers = "a" ∷ "b" ∷ [];
  default_provider = "a";
  default_model = "large";
  fallbacks = cheaper ∷ waiting ∷ [];
  tool_source = "kv_get" ∷ [];
  pricing = none;
  stream_idle_timeout = 60;
  max_output_tokens = 100;
}

abbrev call : Call ℕ
call = record {
  router = router;
  options = record { streaming = true; omit_tools = true; tool_filter = none };
  session = "main:1";
}

-- The rule retries twice, with a second between.
answered :
    (complete whole net call start).0 ≡ completed (record (reply_of "hello") { billed_usd = 7 })
unfolding complete is_rate_limit lookup
answered = refl

waited_once : (complete whole net call start).1.waited ≡ second
unfolding complete lookup
waited_once = refl

leak_test : looks_leaked (reply_of "See functions.kv_get:0 {\"key\": 1}") ≡ true
unfolding looks_leaked
leak_test = refl

-- Both attempts are charged.
leak_charged : (complete whole leaky call start).1.tracker.global_cost ≡ 14
unfolding complete lookup
leak_charged = refl

complete-Spends_example : Spends (Carries [] 100) 5 start (complete whole net call start).1
unfolding advertised all_requests rule_requests
complete-Spends_example = complete-Spends whole net call start

complete-Adds_example :
    Adds whole
      (charges_of whole leaky call start (complete whole leaky call start).0)
      fresh
      (complete whole leaky call start).1.tracker
complete-Adds_example = complete-Adds whole leaky call start

abbrev entries : List (Entry ℕ)
entries = records "main:1" 4 ∷ registers "x" "main" ∷ records_tokens "x" 3 1 2 "registry" ∷ []

track_all-Adds_example : Adds whole (ledger_of entries) fresh (track_all whole entries fresh)
track_all-Adds_example = track_all-Adds whole entries fresh

-- A net that limits the rate of every request.
abbrev busy : Net ℕ
busy = record {
  replies = λ m req. failed limited;
  context_over = λ m. false;
  supports_streaming = λ p. false;
  reports_faults = λ p. false;
}

abbrev asked : Asked
asked = record {
  provider = "a";
  model = "m";
  tools = [];
  max_tokens = 100;
  idle_timeout = 0;
  streams = false;
}

pauses_test : pauses 7 0 ≡ 2 + 4 + 8 + 16 + 30 + 30
unfolding pauses
pauses_test = refl

retry-waited_example :
    (retry busy 7 0 "exponential" false asked limited start).1.waited ≡ 0 + pauses 7 0 * second
unfolding is_rate_limit
retry-waited_example =
    retry-waited busy 7 false asked limited start (λ m. refl) (λ m. refl) (omega arith)

abbrev price : ℕ → ModelPrice ℕ
price k = record { input_per_mtok = k; output_per_mtok = k; cached_input_per_mtok = 0 }

abbrev registrations : List (Registration ℕ)
registrations =
    of_prefix "gpt-" (price 1) ∷ of_model "o1" (price 2) ∷ of_prefix "gpt-4" (price 3) ∷ []

longest_test : find_price (registered registrations 0) "gpt-4o" ≡ some (price 3)
unfolding find_price lookup register_all put
longest_test = refl

find_price-IsFound_example :
    IsFound "gpt-4o" registrations
      (latest_model "gpt-4o" registrations)
      (find_price (registered registrations 0) "gpt-4o")
find_price-IsFound_example = find_price-IsFound registrations 0 "gpt-4o"

whole_order : (a b : ℕ) → (leb a b || ltb b a) ≡ true
whole_order a b = ground arith

record_with_provider-complete_example :
    complete whole net call
      (record start { tracker = (reported whole call start "a" 12 used "").1 })
    ≡ (over_hard_limit, record start { tracker = (reported whole call start "a" 12 used "").1 })
unfolding record_with_provider has_provider apply_cost_limit_fallback lookup put
record_with_provider-complete_example =
    record_with_provider-complete whole whole_order net call start "a" 12 used "" refl refl refl
      refl
