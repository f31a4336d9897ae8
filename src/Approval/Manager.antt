-- ===== src/Approval/Manager.antt =====
-- internal/approval/manager.go: submitting, resolving, aborting and awaiting requests, with the
-- registry of registry.go. A call runs from its first statement to its last without another call
-- between them, and an action is a closure that calls the manager no more.
use denkeeper.Prelude.{
  ℕ, ◌+◌, ◌*◌, String, Bool, true, false, Option, none, some, ◌∷◌, if◌then◌else◌, ◌==◌, lookup,
  drop, put,
}
use Prim.Native.String.{◌++◌}
use mathlib.Core.Option
use denkeeper.Approval.{
  Status, pending, approved, denied, expired, aborted, ActionKind, Request, Waited, Audited,
  resolution, abort_event, Error, action_failed, Result, ok, err, Oracle, World, approval_status_eq,
}
use denkeeper.Approval.Table
use denkeeper.Approval.Table.{Op}

-- Registry.Register
unfoldable pub register : String → ℕ → World → World
register id action w = record w { actions = put id action w.actions }

-- Registry.Delete
unfoldable pub drop_action : String → World → World
drop_action id w = record w { actions = drop id w.actions }

abbrev pub status_for : Bool → Status
status_for true = approved
status_for false = denied

-- In nanoseconds, as time.Duration counts.
abbrev pub default_ttl : ℕ
default_ttl = 24 * 3600 * 1000000000

-- What a caller of Submit says of its request.
pub record Submission : Type 0 where
  pub agent_name : String
  pub kind : ActionKind
  pub summary : String
  pub payload : String
  pub external_id : String
  pub adapter_name : String
  pub conversation_id : String

abbrev pub request_of : String → ℕ → Submission → Request
request_of id now s = record {
  id = id;
  agent_name = s.agent_name;
  kind = s.kind;
  status = pending;
  summary = s.summary;
  payload = s.payload;
  callback_data = "appr:" ++ id;
  external_id = s.external_id;
  adapter_name = s.adapter_name;
  conversation_id = s.conversation_id;
  created_at = 0;
  expires_at = some (now + default_ttl);
  resolved_at = none;
  resolved_by = "";
}

-- Manager.submit
unfoldable pub submit : Oracle → String → Submission → ℕ → Op Request
unfolding register
submit o id s action w =
    let req = request_of id (o.clock w.moment) s in
    Table.and_then (Table.create o req w) (λ _ w'. (ok req, register id action w'))

-- Manager.Submit
unfoldable pub submit_fresh : Oracle → Submission → ℕ → Op Request
unfolding submit
submit_fresh o s action w = submit o (o.new_id w.moment) s action w

unfoldable pub emit : Oracle → Audited → World → World
emit o event w = if o.has_auditor then record w { audit = event ∷ w.audit } else w

unfoldable pub run_found : Oracle → Option ℕ → Request → World → Option String × World
run_found o none req w = (none, w)
run_found o (some action) req w = (
  o.perform w.moment action req.payload,
  record w {
    actions = drop req.id w.actions;
    ran = (req.id, req.payload) ∷ w.ran;
    moment = w.moment + 1;
  },
)

-- Manager.runAction, with Registry.Pop
unfoldable pub run_action : Oracle → Request → World → Option String × World
unfolding run_found
run_action o req w = run_found o (lookup req.id w.actions) req w

unfoldable pub act : Oracle → Bool → Request → World → Option String × World
unfolding run_action drop_action
act o true req w = run_action o req w
act o false req w = (none, drop_action req.id w)

-- Manager.auditResolution
unfoldable pub audit_resolution : Oracle → String → Status → String → Option String → World → World
unfolding emit
audit_resolution o id s by action_error w = emit o (resolution id s by action_error) w

-- Manager.settle
unfoldable pub settle : Oracle → Request → String → World → Option String × World
unfolding act audit_resolution
settle o req by w =
    let (action_error, w') = act o (req.status == approved) req w in
    (action_error, audit_resolution o req.id req.status by action_error w')

-- What a waiter finds in its channel: the first result stays.
unfoldable pub tell : Option (Option Waited) → String → Waited → World → World
tell none id r w = w
tell (some (some earlier)) id r w = w
tell (some none) id r w = record w { waiters = put id (some r) w.waiters }

-- Manager.notifyWaiterWithErr
unfoldable pub notify_waiter : String → Status → Option String → World → World
unfolding tell
notify_waiter id s action_error w =
    tell (lookup id w.waiters) id (record { status = s; action_error = action_error }) w

-- Go's pair of a request and an error.
abbrev pub Reply : Type 0
Reply = Option Request × Option Error

abbrev pub wrap_action_error : Option String → Option Error
wrap_action_error none = none
wrap_action_error (some e) = some (action_failed e)

unfoldable pub fetched : Oracle → String → Bool → String → Result Request × World → Reply × World
unfolding settle drop_action notify_waiter audit_resolution
fetched o id approve by (err e, w) =
    let action_error = if approve then some "fetching resolved request" else none in
    (
      (none, some e),
      notify_waiter id (status_for approve) action_error
          (audit_resolution o id (status_for approve) by action_error (drop_action id w)),
    )
fetched o id approve by (ok req, w) =
    let (action_error, w') = settle o req by w in
    (
      (some req, wrap_action_error action_error),
      notify_waiter id (status_for approve) action_error w',
    )

unfoldable pub resolved :
    Oracle → String → Bool → String → Result (Unit {0}) × World → Reply × World
unfolding fetched
resolved o id approve by (err e, w) = ((none, some e), w)
resolved o id approve by (ok _, w) = fetched o id approve by (Table.get o id w)

-- Manager.Resolve
unfoldable pub resolve : Oracle → String → Bool → String → World → Reply × World
unfolding resolved
resolve o id approve by w = resolved o id approve by (Table.resolve o id (status_for approve) by w)

-- Manager.Abort
unfoldable pub abort : Oracle → String → String → Op (Unit {0})
unfolding drop_action emit notify_waiter
abort o id reason w = Table.and_then (Table.resolve o id aborted "stopped" w) (λ _ w'.
    (ok tt, notify_waiter id aborted none (emit o (abort_event id reason) (drop_action id w'))))

unfoldable pub drop_waiter : String → World → World
drop_waiter id w = record w { waiters = drop id w.waiters }

unfoldable pub open_waiter : String → World → World
open_waiter id w = record w { waiters = put id none w.waiters }

unfoldable pub submitted : String → Result Request × World → Result Request × World
unfolding drop_waiter
submitted id (err e, w) = (err e, drop_waiter id w)
submitted id (ok req, w) = (ok req, w)

-- Manager.SubmitAndWait up to its select: the waiter is there before the request is.
unfoldable pub submit_and_wait : Oracle → Submission → ℕ → Op Request
unfolding submit open_waiter submitted
submit_and_wait o s action w =
    let id = o.new_id w.moment in submitted id (submit o id s action (open_waiter id w))

-- The select of SubmitAndWait and its deferred delete. The waiter blocks, `none`, where it has no
-- result and its context is not done. Where both are ready, Go picks one.
pub data Wake : Type 0 where
  told context_done : Wake

unfoldable pub woken : String → Wake → Option (Option Waited) → World → Option (Waited × World)
unfolding drop_waiter
woken id context_done channel w =
    some (record { status = expired; action_error = some "context done" }, drop_waiter id w)
woken id told (some (some r)) w = some (r, drop_waiter id w)
woken id told channel w = none

unfoldable pub wait_end : String → Wake → World → Option (Waited × World)
unfolding woken
wait_end id wake w = woken id wake (lookup id w.waiters) w

-- WaitForResolution up to its select, and its select with the deferred delete.
unfoldable pub wait_for_resolution : String → World → World
unfolding open_waiter
wait_for_resolution id w = open_waiter id w

unfoldable pub wait_status : String → Wake → World → Option (Status × World)
unfolding wait_end
wait_status id wake w = Option.map (λ r. (r.0.status, r.1)) (wait_end id wake w)

-- One tick of StartExpiryWorker.
unfoldable pub expiry_tick : Oracle → World → World
expiry_tick o w = (Table.expire_before o (o.clock w.moment) w).1
