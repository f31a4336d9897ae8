-- ===== src/Approval/Resolve.antt =====
-- What Manager.Resolve of internal/approval/manager.go does to a pending request.
use denkeeper.Prelude.{
  ℕ, ◌+◌, ◌≡◌, refl, sym, ◌∙◌, ap, subst, String, Bool, true, false, some, none, Option, ◌∷◌,
  lookup, drop, lookup-drop, string_eq, eq_refl,
}
use mathlib.Core.Option
use denkeeper.Approval.{
  Status, pending, approved, denied, Request, ok, Oracle, World, approval_status_eq, resolution,
  action_failed,
}
use denkeeper.Approval.Table
use denkeeper.Approval.Table.{find_request, has_id, resolve_row, statement, attempt, advance}
use denkeeper.Approval.Manager
use denkeeper.Approval.Manager.{status_for, wrap_action_error}
use denkeeper.Approval.Settle.{find_request-id}
use denkeeper.Approval.Outcomes.{
  Left, after_update, resolve-pending, find_request-resolved, told_of-keeps,
}

get-found :
    (o : Oracle) (id : String) (w : World) (r : Request)
    → o.runs w.moment ≡ true
    → find_request (has_id id) w.requests ≡ some r
    → Table.get o id w ≡ (ok r, advance w)
unfolding Table.get Table.select_row Table.found statement attempt advance
get-found o id w r works at = rw (works, at) refl

wrapped : (e : Option String) → wrap_action_error e ≡ Option.map action_failed e
wrapped none = refl
wrapped (some e) = refl

module _ (o : Oracle) (id : String) (by : String) (w : World) (r : Request)
    (updates : o.runs w.moment ≡ true) (reads : o.runs (w.moment + 1) ≡ true)
    (at : find_request (has_id id) w.requests ≡ some r) (p : r.status ≡ pending) where
  resolve-settle :
      (approve : Bool)
      → Manager.resolve o id approve by w
        ≡ Manager.fetched o id approve by (
          ok (resolve_row (status_for approve) (o.clock w.moment) by r),
          advance (after_update o id (status_for approve) by w),
        )
  unfolding Manager.resolve Manager.resolved advance
  resolve-settle approve =
      rw
        (
          resolve-pending o id (status_for approve) by w r updates at p,
          get-found o id (after_update o id (status_for approve) by w) _ reads
              (find_request-resolved o id (status_for approve) by w r at p),
        )
        refl

  -- The row as submitted, with the status, the time and the caller.
  abbrev stamped : Status → Request
  stamped s = record r { status = s; resolved_at = some (o.clock w.moment); resolved_by = by }

  -- What the action returns.
  abbrev outcome : ℕ → Option String
  outcome action = o.perform (w.moment + 1 + 1) action r.payload

  -- Where the driver works, approving a pending request that has an action runs the action once, on
  -- the payload of the request, and takes it from the registry. The row is approved by the caller
  -- with the time and otherwise as submitted; the caller and a waiter that was told nothing before
  -- get the error of the action, if it has one.
  pub approve_lem :
      (action : ℕ)
      → lookup id w.actions ≡ some action
      → ((Manager.resolve o id true by w).0
          ≡ (some (stamped approved), Option.map action_failed (outcome action)))
        × Left id
            (stamped approved)
            ((id, r.payload) ∷ w.ran)
            (record { status = approved; action_error = outcome action })
            w
            (Manager.resolve o id true by w).1
  unfolding Manager.fetched Manager.settle Manager.act Manager.run_action Manager.run_found
      Manager.audit_resolution resolve_row advance
  approve_lem action has =
      let same : r.id ≡ id = find_request-id id w.requests r at in
      let has_r : lookup r.id w.actions ≡ some action =
        subst (λ i. lookup i w.actions ≡ some action) (sym same) has in
      let v : World = record (after_update o id approved by w) {
        actions = drop r.id w.actions;
        ran = (r.id, r.payload) ∷ w.ran;
        moment = w.moment + 1 + 1 + 1;
      } in
      let (a, b, c, d) =
        told_of-keeps o (resolution r.id approved by (outcome action)) id approved (outcome action)
          v in
      rw (resolve-settle true, has_r)
        (
          ap (λ e. (some (stamped approved), e)) (wrapped (outcome action)),
          record {
            row_is = rw a (find_request-resolved o id approved by w r at p);
            no_action = rw (b, same, lookup-drop id id w.actions, eq_refl id) refl;
            ran_is = c ∙ ap (λ i. (i, r.payload) ∷ w.ran) same;
            waiter_told = d;
          },
        )

  -- Where the driver works, denying a pending request drops its action without running it. The row
  -- is denied by the caller with the time and otherwise as submitted, and a waiter that was told
  -- nothing before finds the status denied.
  pub deny_lem :
      ((Manager.resolve o id false by w).0 ≡ (some (stamped denied), none))
      × Left id
          (stamped denied)
          w.ran
          (record { status = denied; action_error = none })
          w
          (Manager.resolve o id false by w).1
  unfolding Manager.fetched Manager.settle Manager.act Manager.drop_action Manager.audit_resolution
      resolve_row advance
  deny_lem =
      let row = resolve_row denied (o.clock w.moment) by r in
      let v = Manager.drop_action r.id (advance (after_update o id denied by w)) in
      let (a, b, c, d) = told_of-keeps o (resolution r.id denied by none) id denied none v in
      rw (resolve-settle false) (
        refl,
        record {
          row_is = rw a (find_request-resolved o id denied by w r at p);
          no_action =
              rw (b, find_request-id id w.requests r at, lookup-drop id id w.actions, eq_refl id)
                refl;
          ran_is = c;
          waiter_told = d;
        },
      )
