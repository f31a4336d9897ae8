-- ===== src/Approval/Tests.antt =====
-- The theorems on internal/approval at concrete inputs.
use denkeeper.Prelude.{
  ℕ, ◌+◌, ◌≡◌, refl, String, true, false, some, none, List, [], ◌∷◌, lookup, arith, Option, nat_beq,
  if◌then◌else◌,
}
use Prim.Native.String.{◌++◌}
use denkeeper.Approval.{
  Status, pending, approved, denied, aborted, tool_call, Request, ok, action_failed, Oracle, World,
}
use denkeeper.Approval.Table.{find_request, has_id}
use denkeeper.Approval.Manager
use denkeeper.Approval.Manager.{expiry_tick, Submission}
use denkeeper.Approval.Callback.{
  approve_always, parse_callback, extract_tool_name, key_conversation, session_rule_key,
}
use denkeeper.Approval.Run.{Call, resolves, aborts, presses, asks, run, expires_all}
use denkeeper.Approval.Invariant.{IsConsistent, IsSameRequest}
use denkeeper.Approval.Track.{run-IsConsistent, request_kept, refused_never_runs}
use denkeeper.Approval.Outcomes.{Left, abort_lem}
use denkeeper.Approval.Resolve.{approve_lem, deny_lem}
use denkeeper.Approval.Auto.{should_auto_approve}
use denkeeper.Approval.Blessing.{Behind, should_auto_approve_lem}
use denkeeper.Approval.Expiry.{IsTicked, expiry_tick_lem}
use denkeeper.Approval.Parse.{button_data, parse_callback-button_data}

-- The driver works, and the closure 9 fails.
abbrev perform_nine : ℕ → Option String
perform_nine action = if nat_beq action 9 then some "no space left" else none

abbrev surroundings : Oracle
surroundings = record {
  runs = λ n. true;
  clock = λ n. 1000 + n;
  new_id = λ n. "fresh";
  perform = λ n action payload. perform_nine action;
  newest_first = λ rs. rs;
  has_auditor = true;
}

abbrev waiting : Request
waiting = record {
  id = "a1";
  agent_name = "bot";
  kind = tool_call;
  status = pending;
  summary = "Execute tool \"shell\" with args: {}";
  payload = "{}";
  callback_data = "appr:a1";
  external_id = "7";
  adapter_name = "telegram";
  conversation_id = "c";
  created_at = 900;
  expires_at = some 5000;
  resolved_at = none;
  resolved_by = "";
}

abbrev settled_as : Status → ℕ → String → Request
settled_as s now by = record waiting { status = s; resolved_at = some now; resolved_by = by }

abbrev refused : Request
refused = record waiting {
  id = "b2";
  callback_data = "appr:b2";
  status = denied;
  resolved_at = some 950;
  resolved_by = "api";
}

abbrev world : World
world = record {
  requests = waiting ∷ refused ∷ [];
  rules = [];
  actions = ("a1", 9) ∷ [];
  waiters = ("a1", none) ∷ [];
  session_rules = [];
  config_rules = [];
  ran = [];
  audit = [];
  moment = 0;
}

world-IsConsistent : IsConsistent world
unfolding lookup
world-IsConsistent = record {
  once = tt;
  approved_ran = λ id payload e. absurd (cc);
  gone = λ id payload e. absurd (cc);
}

abbrev calls : List Call
calls =
    presses "appr:a1:approve_session" "telegram"
    ∷ resolves "b2" true "api"
    ∷ asks "bot" "shell" "c"
    ∷ aborts "a1" "stop"
    ∷ expires_all
    ∷ []

run-IsConsistent_example : IsConsistent (run surroundings calls world)
run-IsConsistent_example = run-IsConsistent surroundings calls world world-IsConsistent

found_waiting : find_request (has_id "a1") world.requests ≡ some waiting
unfolding find_request
found_waiting = refl

found_refused : find_request (has_id "b2") world.requests ≡ some refused
unfolding find_request
found_refused = refl

request_kept_example :
    (r : Request) × (find_request (has_id "a1") (run surroundings calls world).requests ≡ some r)
    × IsSameRequest waiting r
request_kept_example = request_kept surroundings calls world "a1" waiting found_waiting

refused_never_runs_example : lookup "b2" (run surroundings calls world).ran ≡ none
refused_never_runs_example =
    refused_never_runs surroundings calls world "b2" refused world-IsConsistent found_refused
      (λ e. ground arith) (λ e. ground arith)

has_action : lookup "a1" world.actions ≡ some 9
unfolding lookup
has_action = refl

approve_lem_example :
    ((Manager.resolve surroundings "a1" true "api" world).0
      ≡ (some (settled_as approved 1000 "api"), some (action_failed "no space left")))
    × Left "a1"
        (settled_as approved 1000 "api")
        (("a1", "{}") ∷ [])
        (record { status = approved; action_error = some "no space left" })
        world
        (Manager.resolve surroundings "a1" true "api" world).1
approve_lem_example =
    approve_lem surroundings "a1" "api" world waiting refl refl found_waiting refl 9 has_action

deny_lem_example :
    ((Manager.resolve surroundings "a1" false "api" world).0
      ≡ (some (settled_as denied 1000 "api"), none))
    × Left "a1"
        (settled_as denied 1000 "api")
        []
        (record { status = denied; action_error = none })
        world
        (Manager.resolve surroundings "a1" false "api" world).1
deny_lem_example = deny_lem surroundings "a1" "api" world waiting refl refl found_waiting refl

abort_lem_example :
    ((Manager.abort surroundings "a1" "stop" world).0 ≡ ok tt)
    × Left "a1"
        (settled_as aborted 1000 "stopped")
        []
        (record { status = aborted; action_error = none })
        world
        (Manager.abort surroundings "a1" "stop" world).1
abort_lem_example = abort_lem surroundings "a1" "stop" world waiting refl found_waiting refl

parse_callback-button_data_example :
    parse_callback (button_data "a1" approve_always) ≡ some ("appr:" ++ "a1", approve_always)
parse_callback-button_data_example = parse_callback-button_data "a1" approve_always

names_shell : extract_tool_name waiting.summary ≡ "shell"
unfolding extract_tool_name
names_shell = refl

key_of_c : key_conversation (session_rule_key "bot" "c" "shell") ≡ some "c"
unfolding key_conversation session_rule_key
key_of_c = refl

-- A live rule of the conversation answers, and no other.
abbrev blessed_world : World
blessed_world = record world { session_rules = (session_rule_key "bot" "c" "shell", 1001) ∷ [] }

should_auto_approve_lem_example :
    Behind surroundings "bot" "shell" "c" blessed_world
      (should_auto_approve surroundings "bot" "shell" "c" blessed_world).0
should_auto_approve_lem_example =
    should_auto_approve_lem surroundings "bot" "shell" "c" blessed_world refl

expiry_tick_lem_example :
    (r' : Request) × (find_request
        (has_id "a1")
        (expiry_tick surroundings (record world { moment = 4000 })).requests
      ≡ some r')
    × IsTicked 5000 waiting r'
expiry_tick_lem_example =
    expiry_tick_lem surroundings (record world { moment = 4000 }) "a1" waiting refl found_waiting
