-- ===== src/Approval/Run.antt =====
-- The calls that the other packages make of internal/approval, in any order.
use denkeeper.Prelude.{ℕ, String, Bool, Option, none, some, List, [], ◌∷◌}
use denkeeper.Approval.{Oracle, World, Waited}
use denkeeper.Approval.Table
use denkeeper.Approval.Table.{advance}
use denkeeper.Approval.Manager
use denkeeper.Approval.Manager.{Submission, Wake}
use denkeeper.Approval.Auto
use denkeeper.Approval.Config.{set_config_rules}

pub data Call : Type 0 where
  submits submits_and_waits : Submission → (action : ℕ) → Call
  awaits : (id : String) → Call
  wakes : (id : String) → Wake → Call
  resolves : (id : String) (approve : Bool) (by : String) → Call
  aborts : (id reason : String) → Call
  presses : (callback_data by : String) → Call
  asks : (agent tool conversation_id : String) → Call
  adds_session_rule : (agent tool conversation_id by : String) → Call
  adds_permanent_rule : (agent tool by : String) → Call
  removes_rule : (id : String) → Call
  ends_conversation : (conversation_id : String) → Call
  configures : List (String × List String) → Call
  expires_all ticks : Call

-- A blocked waiter changes nothing.
unfoldable pub woke : World → Option (Waited × World) → World
woke w none = w
woke w (some (r, w')) = w'

unfoldable pub call : Oracle → Call → World → World
unfolding Manager.submit_fresh Manager.submit_and_wait Manager.wait_for_resolution Manager.wait_end
    woke Manager.resolve Manager.abort Auto.resolve_by_callback Auto.should_auto_approve
    Auto.add_session_rule Auto.add_permanent_rule Auto.remove_rule Auto.clear_session_rules
    Table.expire_pending Manager.expiry_tick set_config_rules
call o (submits s action) w = (Manager.submit_fresh o s action w).1
call o (submits_and_waits s action) w = (Manager.submit_and_wait o s action w).1
call o (awaits id) w = Manager.wait_for_resolution id w
call o (wakes id wake) w = woke w (Manager.wait_end id wake w)
call o (resolves id approve by) w = (Manager.resolve o id approve by w).1
call o (aborts id reason) w = (Manager.abort o id reason w).1
call o (presses callback_data by) w = (Auto.resolve_by_callback o callback_data by w).1
call o (asks agent tool conversation_id) w =
    (Auto.should_auto_approve o agent tool conversation_id w).1
call o (adds_session_rule agent tool conversation_id by) w =
    Auto.add_session_rule o agent tool conversation_id by w
call o (adds_permanent_rule agent tool by) w = (Auto.add_permanent_rule o agent tool by w).1
call o (removes_rule id) w = (Auto.remove_rule o id w).1
call o (ends_conversation conversation_id) w = Auto.clear_session_rules conversation_id w
call o (configures rules) w = set_config_rules o rules w
call o expires_all w = (Table.expire_pending o w).1
call o ticks w = Manager.expiry_tick o w

-- A sequence of calls, with a moment between them.
unfoldable pub run : Oracle → List Call → World → World
unfolding call advance
run o [] w = w
run o (c ∷ cs) w = run o cs (call o c (advance w))
