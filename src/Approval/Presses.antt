-- ===== src/Approval/Presses.antt =====
-- The callbacks of chat buttons, and so every call of internal/approval/manager.go, are sequences of
-- effects.
use denkeeper.Prelude.{
  refl, String, Bool, not, ◌||◌, some, none, Option, lookup, ◌==◌, string_eq, Bool-cases, inl, inr,
}
use denkeeper.Approval.{Status, Request, is_tool_call, not_found, Result, ok, err, Oracle, World}
use denkeeper.Approval.Table
use denkeeper.Approval.Table.{Op, find_request, has_id, hit, statement, advance}
use denkeeper.Approval.Manager
use denkeeper.Approval.Manager.{Submission, Wake, told, context_done, status_for}
use denkeeper.Approval.Callback.{
  CallbackAction, approve, deny, approve_session, approve_always, extract_tool_name, parse_callback,
  session_rule_key,
}
use denkeeper.Approval.Auto
use denkeeper.Approval.Auto.{concerns, is_approval, match_config_rule, is_live}
use denkeeper.Approval.Effect.{
  Effects, silent, Adds, and_then-Adds, found-Adds, get-Adds, resolve-Adds, statement-Adds,
  expire-Adds,
}
use denkeeper.Approval.Settle.{
  IsRow, get-IsRow, and_then-IsRow, notify_waiter-Effects, settle-Effects, resolve-Effects,
  abort-Effects, status_for-settled,
}
use denkeeper.Approval.Run.{
  configures, awaits, Call, submits, submits_and_waits, wakes, resolves, aborts, presses, asks,
  adds_session_rule, adds_permanent_rule, removes_rule, ends_conversation, expires_all, ticks, call,
}
use denkeeper.Approval.Calls.{
  set_config_rules-Effects, submit-Adds, submit_and_wait-Adds, woken-Effects,
  add_session_rule-Effects, delete_rows-Adds, add_permanent_rule-Adds,
}

module _ (o : Oracle) (w0 : World) where
  -- A look-up that changes nothing.
  select-Adds : (test : Request → Bool) → Adds w0 (Table.select_row test)
  unfolding Table.select_row
  select-Adds test w es = found-Adds o w0 (find_request test w.requests) w es

  resolve_found-Adds :
      (approves : Bool) (by : String) (req : Request)
      → Adds w0 (Table.resolve_found o (status_for approves) by req)
  unfolding Table.resolve_found
  resolve_found-Adds approves by req w es =
      and_then-Adds w0 (Table.resolve o req.id (status_for approves) by w) (λ _. Table.get o req.id)
        (resolve-Adds o w0 req.id (status_for approves) by (status_for-settled approves) w es)
        (λ _. get-Adds o w0 req.id)

  by_prefix-Adds :
      (prefix : String) (approves : Bool) (by : String)
      → Adds w0 (Table.resolve_by_callback_prefix o prefix (status_for approves) by)
  unfolding Table.resolve_by_callback_prefix
  by_prefix-Adds prefix approves by w es =
      and_then-Adds w0 (statement o (Table.select_row (Table.with_prefix prefix)) w)
        (Table.resolve_found o (status_for approves) by)
        (statement-Adds w0 o (Table.select_row (Table.with_prefix prefix)) (select-Adds _) w es)
        (resolve_found-Adds approves by)

  resolve_found-IsRow :
      (s : Status) (by : String) (req : Request) (w : World)
      → IsRow (Table.resolve_found o s by req w)
  unfolding Table.resolve_found
  resolve_found-IsRow s by req w =
      and_then-IsRow (Table.resolve o req.id s by w) (λ _. Table.get o req.id)
        (λ _. get-IsRow o req.id)

  by_prefix-IsRow :
      (prefix : String) (s : Status) (by : String) (w : World)
      → IsRow (Table.resolve_by_callback_prefix o prefix s by w)
  unfolding Table.resolve_by_callback_prefix
  by_prefix-IsRow prefix s by w =
      and_then-IsRow (statement o (Table.select_row (Table.with_prefix prefix)) w)
        (Table.resolve_found o s by) (resolve_found-IsRow s by)

  create_rule_for-Effects :
      (action : CallbackAction) (req : Request) (tool by : String) (w : World)
      → Effects w0 w
      → Effects w0 (Auto.create_rule_for o action req tool by w)
  unfolding Auto.create_rule_for
  create_rule_for-Effects approve_session req tool by w es =
      add_session_rule-Effects o w0 req.agent_name tool req.conversation_id by w es
  create_rule_for-Effects approve_always req tool by w es =
      add_permanent_rule-Adds o w0 req.agent_name tool by w es
  create_rule_for-Effects approve req tool by w es = es
  create_rule_for-Effects deny req tool by w es = es

  create_auto_approve-Effects :
      (action : CallbackAction) (req : Request) (by : String) (w : World)
      → Effects w0 w
      → Effects w0 (Auto.create_auto_approve o action req by w)
  unfolding Auto.create_auto_approve
  create_auto_approve-Effects action req by w es =
      elim (Bool-cases (not (is_tool_call req.kind) || extract_tool_name req.summary == "")) [
        | inl e ↦ rw e es
        | inr e ↦ rw e (create_rule_for-Effects action req (extract_tool_name req.summary) by w es)
      ]

  bless-Effects :
      (action : CallbackAction) (req : Request) (by : String) (failed : Option String) (w : World)
      → Effects w0 w
      → Effects w0 (Auto.bless o action req by failed w)
  unfolding Auto.bless
  bless-Effects action req by (some e) w es = es
  bless-Effects approve req by none w es = create_auto_approve-Effects approve req by w es
  bless-Effects deny req by none w es = es
  bless-Effects approve_session req by none w es =
      create_auto_approve-Effects approve_session req by w es
  bless-Effects approve_always req by none w es =
      create_auto_approve-Effects approve_always req by w es

  stale-Effects : (r : Result Request × World) → Effects w0 r.1 → Effects w0 (Auto.stale r).1
  unfolding Auto.stale
  stale-Effects (ok existing, w) es = es
  stale-Effects (err e, w) es = es

  newest-Adds : (callback_data : String) → Adds w0 (Table.get_by_callback_data o callback_data)
  unfolding Table.get_by_callback_data Table.newest
  newest-Adds callback_data =
      statement-Adds w0 o (Table.newest o callback_data) (λ v fs. found-Adds o w0 _ v fs)

  answered-Effects :
      (prefix : String) (action : CallbackAction) (by : String) (r : Result Request × World)
      → IsRow r
      → Effects w0 r.1
      → Effects w0 (Auto.answered o prefix action by r).1
  unfolding Auto.answered
  answered-Effects prefix action by (err not_found, w) row es =
      stale-Effects _ (newest-Adds prefix w es)
  answered-Effects prefix action by (err e, w) row es = es
  answered-Effects prefix action by (ok req, w) row es =
      notify_waiter-Effects req.id _ _ _
        (bless-Effects action req by _ _ (settle-Effects o req w (row req refl) by es))

  answer-Effects :
      (by : String) (parsed : Option (String × CallbackAction)) (w : World)
      → Effects w0 w
      → Effects w0 (Auto.answer o by parsed w).1
  unfolding Auto.answer
  answer-Effects by none w es = es
  answer-Effects by (some (prefix, action)) w es =
      answered-Effects prefix action by _
        (by_prefix-IsRow prefix (status_for (is_approval action)) by w)
        (by_prefix-Adds prefix (is_approval action) by w es)

  scope_of-Effects :
      (r : Result (Unit {0}) × World) → Effects w0 r.1 → Effects w0 (Auto.scope_of r).1
  scope_of-Effects (ok _, w) es = es
  scope_of-Effects (err e, w) es = es

  matched-Adds : (agent tool : String) → Adds w0 (Table.match_rule o agent tool)
  unfolding Table.match_rule
  matched-Adds agent tool = statement-Adds w0 o _ (λ v fs. fs)

  should-Effects :
      (agent tool conversation_id : String) (w : World)
      → Effects w0 w
      → Effects w0 (Auto.should_auto_approve o agent tool conversation_id w).1
  unfolding Auto.should_auto_approve
  should-Effects agent tool conversation_id w es =
      elim (Bool-cases (match_config_rule w.config_rules agent tool)) [
        | inl blessed ↦ rw blessed es
        | inr unblessed ↦
            rw unblessed
              (elim (Bool-cases (
                is_live (o.clock w.moment)
                  (lookup (session_rule_key agent conversation_id tool) w.session_rules))) [
                    | inl live ↦ rw live es
                    | inr dead ↦
                        rw dead (
                          scope_of-Effects _ (matched-Adds agent tool _ (silent es refl refl refl)))
                  ])
      ]

  -- Every call, whatever the driver and the closures do.
  pub call-Effects : (c : Call) (w : World) → Effects w0 w → Effects w0 (call o c w)
  unfolding call Manager.submit_fresh Manager.wait_for_resolution Manager.open_waiter
      Auto.resolve_by_callback Auto.remove_rule Auto.clear_session_rules Manager.wait_end
      Table.expire_pending Manager.expiry_tick Table.expire_before Table.delete_rule
  call-Effects (submits s action) w es = submit-Adds o w0 (o.new_id w.moment) s action w es
  call-Effects (submits_and_waits s action) w es = submit_and_wait-Adds o w0 s action w es
  call-Effects (awaits id) w es = silent es refl refl refl
  call-Effects (wakes id wake) w es = woken-Effects o w0 id wake (lookup id w.waiters) w es
  call-Effects (resolves id approves by) w es = resolve-Effects o w0 id approves by w es
  call-Effects (aborts id reason) w es = abort-Effects o w0 id reason w es
  call-Effects (presses callback_data by) w es =
      answer-Effects by (parse_callback callback_data) w es
  call-Effects (asks agent tool conversation_id) w es =
      should-Effects agent tool conversation_id w es
  call-Effects (adds_session_rule agent tool conversation_id by) w es =
      add_session_rule-Effects o w0 agent tool conversation_id by w es
  call-Effects (adds_permanent_rule agent tool by) w es =
      add_permanent_rule-Adds o w0 agent tool by w es
  call-Effects (removes_rule id) w es = statement-Adds w0 o _ (delete_rows-Adds o w0 _ id) w es
  call-Effects (ends_conversation conversation_id) w es = silent es refl refl refl
  call-Effects (configures rules) w es = set_config_rules-Effects o w0 rules w es
  call-Effects expires_all w es = expire-Adds o w0 _ _ w es
  call-Effects ticks w es = expire-Adds o w0 _ _ w es
