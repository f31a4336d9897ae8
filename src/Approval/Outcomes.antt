-- ===== src/Approval/Outcomes.antt =====
-- What Resolve and Abort of internal/approval/manager.go do to a pending request.
use denkeeper.Prelude.{
  ℕ, suc, ◌≡◌, refl, ◌∙◌, ap, String, true, some, none, Option, List, [], ◌∷◌, filter, length,
  lookup, lookup-drop, lookup-put, string_eq, arith, Bool-cases, inl, inr, eq_refl,
}
use mathlib.Core.Option
use denkeeper.Approval.{
  Status, pending, aborted, Request, ok, Oracle, World, approval_status_eq, same_status_iff,
  Audited, Waited,
}
use denkeeper.Approval.Table
use denkeeper.Approval.Table.{
  find_request, has_id, hit, update_pending, resolve_row, statement, attempt, advance,
}
use denkeeper.Approval.Manager
use denkeeper.Approval.Manager.{status_for, wrap_action_error}
use denkeeper.Approval.Settle.{find_request-id}
use denkeeper.Approval.Invariant.{find_request-update}

-- A pending row that has the id is affected.
affected_some :
    (id : String) (rs : List Request) (r : Request)
    → find_request (has_id id) rs ≡ some r
    → r.status ≡ pending
    → (n : ℕ) × (length (filter (hit (has_id id)) rs) ≡ suc n)
unfolding find_request filter
affected_some id [] r e p = absurd (cc)
affected_some id (x ∷ xs) r e p = elim (Bool-cases (hit (has_id id) x)) [
  | inl touched_row ↦ (length (filter (hit (has_id id)) xs), rw touched_row refl)
  | inr other_row ↦
      let (n, more) =
        affected_some id xs r (ground (arith, e, p, other_row, same_status_iff x.status pending))
          p in
      (n, rw other_row more)
]

-- The world after Resolve's UPDATE of the store.
abbrev pub after_update : Oracle → String → Status → String → World → World
after_update o id s by w = record (advance w) {
  requests = update_pending (has_id id) s (o.clock w.moment) by w.requests;
}

pub resolve-pending :
    (o : Oracle) (id : String) (s : Status) (by : String) (w : World) (r : Request)
    → o.runs w.moment ≡ true
    → find_request (has_id id) w.requests ≡ some r
    → r.status ≡ pending
    → Table.resolve o id s by w ≡ (ok tt, after_update o id s by w)
unfolding Table.resolve statement attempt Table.resolve_rows Table.resolved_rows advance
resolve-pending o id s by w r works at p =
    let (n, more) = affected_some id w.requests r at p in rw (works, more) refl

pub find_request-resolved :
    (o : Oracle) (id : String) (s : Status) (by : String) (w : World) (r : Request)
    → find_request (has_id id) w.requests ≡ some r
    → r.status ≡ pending
    → find_request (has_id id) (after_update o id s by w).requests
      ≡ some (resolve_row s (o.clock w.moment) by r)
find_request-resolved o id s by w r at p =
    let is_hit : hit (has_id id) r ≡ true =
      rw (p, find_request-id id w.requests r at) (eq_refl id) in
    find_request-update (has_id id) s (o.clock w.moment) by id w.requests r at ∙ rw is_hit refl

emit-keeps :
    (o : Oracle) (event : Audited) (w : World)
    → ((Manager.emit o event w).requests ≡ w.requests)
      × ((Manager.emit o event w).actions ≡ w.actions)
      × ((Manager.emit o event w).ran ≡ w.ran)
      × ((Manager.emit o event w).waiters ≡ w.waiters)
unfolding Manager.emit
emit-keeps o event w = elim (Bool-cases o.has_auditor) [
  | inl e ↦ rw e (refl, refl, refl, refl)
  | inr e ↦ rw e (refl, refl, refl, refl)
]

-- A channel of one place keeps its first result.
abbrev pub keep_first : Waited → Option Waited → Option Waited
keep_first r none = some r
keep_first r (some earlier) = some earlier

tell-keeps :
    (channel : Option (Option Waited)) (id : String) (r : Waited) (w : World)
    → lookup id w.waiters ≡ channel
    → ((Manager.tell channel id r w).requests ≡ w.requests)
      × ((Manager.tell channel id r w).actions ≡ w.actions)
      × ((Manager.tell channel id r w).ran ≡ w.ran)
      × (lookup id (Manager.tell channel id r w).waiters ≡ Option.map (keep_first r) channel)
unfolding Manager.tell
tell-keeps none id r w e = (refl, refl, refl, e)
tell-keeps (some (some earlier)) id r w e = (refl, refl, refl, e)
tell-keeps (some none) id r w e =
    (refl, refl, refl, rw (lookup-put id id (some r) w.waiters, eq_refl id) refl)

-- An audit event, then the result for the waiter: nothing else changes.
abbrev pub told_of : Oracle → Audited → String → Status → Option String → World → World
told_of o event id s action_error w =
    Manager.notify_waiter id s action_error (Manager.emit o event w)

pub told_of-keeps :
    (o : Oracle) (event : Audited) (id : String) (s : Status) (e : Option String) (w : World)
    → ((told_of o event id s e w).requests ≡ w.requests)
      × ((told_of o event id s e w).actions ≡ w.actions)
      × ((told_of o event id s e w).ran ≡ w.ran)
      × (lookup id (told_of o event id s e w).waiters
          ≡ Option.map (keep_first (record { status = s; action_error = e })) (lookup id w.waiters))
unfolding Manager.notify_waiter
told_of-keeps o event id s e w =
    let (a, b, c, d) = emit-keeps o event w in
    let v = Manager.emit o event w in
    let (p, q, r, t) =
      tell-keeps (lookup id v.waiters) id (record { status = s; action_error = e }) v refl in
    (
      p ∙ a,
      q ∙ b,
      r ∙ c,
      t
          ∙ ap
              (λ m. Option.map (keep_first (record { status = s; action_error = e })) (lookup id m))
              d,
    )

-- What a call leaves of a request: its row, its action, what ran, and what its waiter finds.
pub record Left (id : String) (row : Request) (ran : List (String × String)) (told : Waited)
    (w w' : World) : Type 0 where
  pub row_is : find_request (has_id id) w'.requests ≡ some row
  pub no_action : lookup id w'.actions ≡ none
  pub ran_is : w'.ran ≡ ran
  pub waiter_told : lookup id w'.waiters ≡ Option.map (keep_first told) (lookup id w.waiters)

-- Where the driver works, Abort of a pending request succeeds: the row is aborted by "stopped" with
-- the time and otherwise as submitted, its action is gone without being run, and its waiter, if there
-- is one that was told nothing before, finds the status aborted.
pub abort_lem :
    (o : Oracle) (id reason : String) (w : World) (r : Request)
    → o.runs w.moment ≡ true
    → find_request (has_id id) w.requests ≡ some r
    → r.status ≡ pending
    → ((Manager.abort o id reason w).0 ≡ ok tt)
      × Left id
          (record r {
            status = aborted;
            resolved_at = some (o.clock w.moment);
            resolved_by = "stopped";
          })
          w.ran
          (record { status = aborted; action_error = none })
          w
          (Manager.abort o id reason w).1
unfolding Manager.abort Table.and_then Manager.drop_action resolve_row advance
abort_lem o id reason w r works at p =
    let v = after_update o id aborted "stopped" w in
    let dropped_world = Manager.drop_action id v in
    let (a, b, c, d) =
      told_of-keeps o (Audited.abort_event id reason) id aborted none dropped_world in
    rw (resolve-pending o id aborted "stopped" w r works at p) (
      refl,
      record {
        row_is = rw a (find_request-resolved o id aborted "stopped" w r at p);
        no_action = rw (b, lookup-drop id id w.actions, eq_refl id) refl;
        ran_is = c;
        waiter_told = d;
      },
    )
