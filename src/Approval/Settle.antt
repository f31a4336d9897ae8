-- ===== src/Approval/Settle.antt =====
-- internal/approval/manager.go: submitting, resolving and aborting are sequences of effects.
use denkeeper.Prelude.{
  ℕ, ◌≡◌, ◌≢◌, refl, sym, subst, String, Bool, true, false, some, none, Option, List, [], ◌∷◌,
  lookup, ◌==◌, string_eq, eq_iff, arith, Bool-cases, inl, inr,
}
use denkeeper.Approval.{
  Status, pending, approved, Request, Waited, Audited, Result, ok, err, Oracle, World,
  approval_status_eq, same_status_iff,
}
use denkeeper.Approval.Table
use denkeeper.Approval.Table.{find_request, has_id, attempt, statement, advance}
use denkeeper.Approval.Manager
use denkeeper.Approval.Manager.{Submission, status_for}
use denkeeper.Approval.Effect.{
  Effects, next, dropped, performed, silent, Adds, and_then-Adds, get-Adds, resolve-Adds,
}

-- The result of a read is the row of the table that has its id.
abbrev pub IsRow : Result Request × World → Type 0
IsRow r = (req : Request) → r.0 ≡ ok req → find_request (has_id req.id) r.1.requests ≡ some req

pub find_request-id :
    (id : String) (rs : List Request) (r : Request)
    → find_request (has_id id) rs ≡ some r
    → r.id ≡ id
unfolding find_request
find_request-id id [] r h = absurd (cc)
find_request-id id (x ∷ xs) r h = elim (Bool-cases (x.id == id)) [
  | inl here ↦ ground (arith, eq_iff x.id id)
  | inr there ↦ find_request-id id xs r (ground arith)
]

found-IsRow :
    (found_row : Option Request) (w : World)
    → ((r : Request) → found_row ≡ some r → find_request (has_id r.id) w.requests ≡ some r)
    → IsRow (Table.found found_row w)
unfolding Table.found
found-IsRow none w h req e = absurd (cc)
found-IsRow (some r) w h req e = h req (cc)

attempt-IsRow : (b : Bool) (f : Table.Op Request) (w : World) → IsRow (f w) → IsRow (attempt b f w)
unfolding attempt
attempt-IsRow true f w h req e = h req e
attempt-IsRow false f w h req e = absurd (cc)

pub get-IsRow : (o : Oracle) (id : String) (w : World) → IsRow (Table.get o id w)
unfolding Table.get Table.select_row statement
get-IsRow o id w = attempt-IsRow (o.runs w.moment) _ (advance w) (
    found-IsRow (find_request (has_id id) (advance w).requests) (advance w) (λ r e.
      subst (λ j. find_request (has_id j) (advance w).requests ≡ some r)
        (sym (find_request-id id _ r e)) e))

pub and_then-IsRow :
    {A : Type 0} (r : Result A × World) (f : A → Table.Op Request)
    → ((a : A) (w : World) → IsRow (f a w))
    → IsRow (Table.and_then r f)
unfolding Table.and_then
and_then-IsRow (err e, w) f h req eq = absurd (cc)
and_then-IsRow (ok a, w) f h req eq = h a w req eq

module _ {w0 : World} where
  pub emit-Effects :
      (o : Oracle) (event : Audited) (w : World)
      → Effects w0 w
      → Effects w0 (Manager.emit o event w)
  unfolding Manager.emit
  emit-Effects o event w es = elim (Bool-cases o.has_auditor) [
    | inl e ↦ rw e (silent es refl refl refl)
    | inr e ↦ rw e es
  ]

  tell-Effects :
      (channel : Option (Option Waited)) (id : String) (r : Waited) (w : World)
      → Effects w0 w
      → Effects w0 (Manager.tell channel id r w)
  unfolding Manager.tell
  tell-Effects none id r w es = es
  tell-Effects (some (some earlier)) id r w es = es
  tell-Effects (some none) id r w es = silent es refl refl refl

  pub notify_waiter-Effects :
      (id : String) (s : Status) (action_error : Option String) (w : World)
      → Effects w0 w
      → Effects w0 (Manager.notify_waiter id s action_error w)
  unfolding Manager.notify_waiter
  notify_waiter-Effects id s action_error w es = tell-Effects (lookup id w.waiters) id _ w es

  pub drop_action-Effects :
      (id : String) (w : World) → Effects w0 w → Effects w0 (Manager.drop_action id w)
  unfolding Manager.drop_action
  drop_action-Effects id w es = next es (dropped id refl refl refl)

  module _ (o : Oracle) (req : Request) (w : World)
      (row : find_request (has_id req.id) w.requests ≡ some req) where
    run_found-Effects :
        (action : Option ℕ)
        → lookup req.id w.actions ≡ action
        → req.status ≡ approved
        → Effects w0 w
        → Effects w0 (Manager.run_found o action req w).1
    unfolding Manager.run_found
    run_found-Effects none e s es = es
    run_found-Effects (some action) e s es = next es (performed req action row s e refl refl refl)

    act-Effects :
        (b : Bool)
        → (req.status == approved) ≡ b
        → Effects w0 w
        → Effects w0 (Manager.act o b req w).1
    unfolding Manager.act Manager.run_action
    act-Effects true e es =
        run_found-Effects (lookup req.id w.actions) refl ((same_status_iff req.status approved).0 e)
          es
    act-Effects false e es = drop_action-Effects req.id w es

    pub settle-Effects : (by : String) → Effects w0 w → Effects w0 (Manager.settle o req by w).1
    unfolding Manager.settle Manager.audit_resolution
    settle-Effects by es = emit-Effects o _ _ (act-Effects (req.status == approved) refl es)

pub status_for-settled : (approve : Bool) → status_for approve ≢ pending
status_for-settled true e = ground arith
status_for-settled false e = ground arith

module _ (o : Oracle) (w0 : World) where
  fetched-Effects :
      (id : String) (approve : Bool) (by : String) (r : Result Request × World)
      → IsRow r
      → Effects w0 r.1
      → Effects w0 (Manager.fetched o id approve by r).1
  unfolding Manager.fetched Manager.audit_resolution
  fetched-Effects id approve by (err e, w) row es =
      notify_waiter-Effects id _ _ _ (emit-Effects o _ _ (drop_action-Effects id w es))
  fetched-Effects id approve by (ok req, w) row es =
      notify_waiter-Effects id _ _ _ (settle-Effects o req w (row req refl) by es)

  resolved-Effects :
      (id : String) (approve : Bool) (by : String) (r : Result (Unit {0}) × World)
      → Effects w0 r.1
      → Effects w0 (Manager.resolved o id approve by r).1
  unfolding Manager.resolved
  resolved-Effects id approve by (err e, w) es = es
  resolved-Effects id approve by (ok _, w) es =
      fetched-Effects id approve by (Table.get o id w) (get-IsRow o id w) (get-Adds o w0 id w es)

  pub resolve-Effects :
      (id : String) (approve : Bool) (by : String) (w : World)
      → Effects w0 w
      → Effects w0 (Manager.resolve o id approve by w).1
  unfolding Manager.resolve
  resolve-Effects id approve by w es =
      resolved-Effects id approve by _
        (resolve-Adds o w0 id (status_for approve) by (status_for-settled approve) w es)

  pub abort-Effects : (id reason : String) → Adds w0 (Manager.abort o id reason)
  unfolding Manager.abort
  abort-Effects id reason w es =
      and_then-Adds w0 (Table.resolve o id Status.aborted "stopped" w) _
        (resolve-Adds o w0 id Status.aborted "stopped" (λ e. ground arith) w es)
        (λ _ v fs.
          notify_waiter-Effects id _ _ _ (emit-Effects o _ _ (drop_action-Effects id v fs)))
