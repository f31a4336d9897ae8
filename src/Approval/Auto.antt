-- ===== src/Approval/Auto.antt =====
-- internal/approval/manager.go: auto-approve rules, and the resolution of the callbacks of chat
-- buttons.
use denkeeper.Prelude.{
  ℕ, ◌+◌, ◌*◌, String, Bool, true, false, not, ◌&&◌, ◌||◌, Option, none, some, List, [], ◌∷◌,
  filter, if◌then◌else◌, ◌==◌, string_eq, ltb, lookup, drop, put,
}
use denkeeper.Approval.{
  pending, Request, is_tool_call, Scope, session, permanent, config, Rule, rule_created, not_found,
  stale_callback, Result, ok, err, Oracle, World, approval_status_eq,
}
use denkeeper.Approval.Table
use denkeeper.Approval.Table.{Op}
use denkeeper.Approval.Manager
use denkeeper.Approval.Manager.{Reply, emit, settle, notify_waiter, status_for, wrap_action_error}
use denkeeper.Approval.Callback.{
  CallbackAction, deny, approve_session, approve_always, parse_callback, extract_tool_name,
  session_rule_key, key_conversation,
}

abbrev pub session_rule_ttl : ℕ
session_rule_ttl = 15 * 60 * 1000000000

abbrev pub has_tool : String → List String → Bool
has_tool tool [] = false
has_tool tool (t ∷ ts) = t == tool || has_tool tool ts

abbrev pub blesses : String → Option (List String) → Bool
blesses tool none = false
blesses tool (some tools) = has_tool tool tools

-- Manager.matchConfigRule
unfoldable pub match_config_rule : List (String × List String) → String → String → Bool
match_config_rule rules agent tool = blesses tool (lookup agent rules)

abbrev pub is_live : ℕ → Option ℕ → Bool
is_live now none = false
is_live now (some expires_at) = ltb now expires_at

abbrev pub scope_of : Result (Unit {0}) × World → Option Scope × World
scope_of (ok _, w) = (some permanent, w)
scope_of (err e, w) = (none, w)

-- Manager.ShouldAutoApprove: the scope of the rule that approves the call, if one does.
unfoldable pub should_auto_approve :
    Oracle → String → String → String → World → Option Scope × World
unfolding match_config_rule
should_auto_approve o agent tool conversation_id w =
    let key = session_rule_key agent conversation_id tool in
    if match_config_rule w.config_rules agent tool
    then (some config, w)
    else if is_live (o.clock w.moment) (lookup key w.session_rules)
    then (some session, w)
    else scope_of
        (Table.match_rule o agent tool (record w { session_rules = drop key w.session_rules }))

abbrev pub concerns : String → String → Request → Bool
concerns agent tool r =
    r.agent_name == agent && is_tool_call r.kind && extract_tool_name r.summary == tool

unfoldable pub resolve_each : Oracle → String → String → List Request → World → World
resolve_each o agent tool [] w = w
resolve_each o agent tool (r ∷ rs) w =
    resolve_each o agent tool rs
      (if concerns agent tool r then (Manager.resolve o r.id true "auto_approve" w).1 else w)

unfoldable pub resolve_listed : Oracle → String → String → Result (List Request) × World → World
unfolding resolve_each
resolve_listed o agent tool (err e, w) = w
resolve_listed o agent tool (ok rs, w) = resolve_each o agent tool rs w

-- Manager.autoResolvePending
unfoldable pub auto_resolve_pending : Oracle → String → String → World → World
unfolding resolve_listed
auto_resolve_pending o agent tool w = resolve_listed o agent tool (Table.list o pending w)

-- Manager.auditRuleCreated
unfoldable pub audit_rule_created :
    Oracle → String → String → Scope → String → String → World → World
unfolding emit
audit_rule_created o agent tool scope conversation_id by w =
    emit o (rule_created agent tool scope conversation_id by) w

-- Manager.AddSessionRule
unfoldable pub add_session_rule : Oracle → String → String → String → String → World → World
unfolding auto_resolve_pending audit_rule_created
add_session_rule o agent tool conversation_id by w = auto_resolve_pending o agent tool (
    audit_rule_created o agent tool session conversation_id by (record w {
      session_rules =
          put (session_rule_key agent conversation_id tool) (o.clock w.moment + session_rule_ttl)
            w.session_rules;
    }))

-- Manager.AddPermanentRule, on a store that keeps rules, as SQLiteStore does.
unfoldable pub add_permanent_rule : Oracle → String → String → String → Op Rule
unfolding auto_resolve_pending audit_rule_created
add_permanent_rule o agent tool by w =
    let rule : Rule = record {
      rule_id = o.new_id w.moment;
      rule_agent = agent;
      tool_name = tool;
      scope = permanent;
      created_by = by;
    } in
    Table.and_then (Table.create_rule o rule w) (λ _ w'. (
      ok rule,
      auto_resolve_pending o agent tool (audit_rule_created o agent tool permanent "" by w'),
    ))

-- Manager.RemoveAutoApproveRule
unfoldable pub remove_rule : Oracle → String → Op (Unit {0})
remove_rule o id w = Table.delete_rule o id w

abbrev in_conversation : String → Option String → Bool
in_conversation conversation_id none = false
in_conversation conversation_id (some c) = c == conversation_id

-- Manager.ClearSessionRules
unfoldable pub clear_session_rules : String → World → World
clear_session_rules conversation_id w = record w {
  session_rules =
      filter (λ p. not (in_conversation conversation_id (key_conversation p.0))) w.session_rules;
}

-- Manager.createAutoApproveFromCallback
unfoldable pub create_rule_for : Oracle → CallbackAction → Request → String → String → World → World
unfolding add_session_rule add_permanent_rule
create_rule_for o approve_session req tool by w =
    add_session_rule o req.agent_name tool req.conversation_id by w
create_rule_for o approve_always req tool by w = (add_permanent_rule o req.agent_name tool by w).1
create_rule_for o action req tool by w = w

unfoldable pub create_auto_approve : Oracle → CallbackAction → Request → String → World → World
unfolding create_rule_for
create_auto_approve o action req by w =
    let tool = extract_tool_name req.summary in
    if not (is_tool_call req.kind) || tool == "" then w else create_rule_for o action req tool by w

abbrev pub is_approval : CallbackAction → Bool
is_approval deny = false
is_approval action = true

unfoldable pub bless : Oracle → CallbackAction → Request → String → Option String → World → World
unfolding create_auto_approve
bless o action req by (some e) w = w
bless o action req by none w =
    if is_approval action then create_auto_approve o action req by w else w

unfoldable pub stale : Result Request × World → Reply × World
stale (ok existing, w) = ((some existing, some stale_callback), w)
stale (err e, w) = ((none, some not_found), w)

unfoldable pub answered :
    Oracle → String → CallbackAction → String → Result Request × World → Reply × World
unfolding stale bless settle notify_waiter
answered o prefix action by (err not_found, w) = stale (Table.get_by_callback_data o prefix w)
answered o prefix action by (err e, w) = ((none, some e), w)
answered o prefix action by (ok req, w) =
    let (action_error, w1) = settle o req by w in
    let w2 = bless o action req by action_error w1 in
    ((some req, wrap_action_error action_error), notify_waiter req.id req.status action_error w2)

unfoldable pub answer : Oracle → String → Option (String × CallbackAction) → World → Reply × World
unfolding answered
answer o by none w = ((none, some not_found), w)
answer o by (some (prefix, action)) w =
    answered o prefix action by
      (Table.resolve_by_callback_prefix o prefix (status_for (is_approval action)) by w)

-- Manager.ResolveByCallback
unfoldable pub resolve_by_callback : Oracle → String → String → World → Reply × World
unfolding answer parse_callback
resolve_by_callback o callback_data by w = answer o by (parse_callback callback_data) w
