-- ===== src/Approval/Track.antt =====
-- Requests and their actions over any calls of internal/approval.
use denkeeper.Prelude.{
  ℕ, ◌≡◌, ◌≢◌, refl, ◌∙◌, subst, String, some, none, List, [], ◌∷◌, lookup, drop, put, lookup-drop,
  lookup-put, ◌==◌, string_eq, eq_iff, arith, Bool-cases, Option-cases, inl, inr,
}
use denkeeper.Approval.{pending, approved, Request, Oracle, World, approval_status_eq}
use denkeeper.Approval.Table.{find_request, has_id, advance}
use denkeeper.Approval.Effect.{
  Effect, Effects, done, next, quiet, filed, updated, dropped, performed, silent,
}
use denkeeper.Approval.Invariant.{
  IsConsistent, IsSameRequest, IsSameRequest-refl, IsSameRequest-trans, Effect-find_request,
}
use denkeeper.Approval.Run.{Call, call, run}
use denkeeper.Approval.Presses.{call-Effects}

-- A request that had its action run is settled, so it stays approved.
kept_row :
    (w w' : World)
    → Effect w w'
    → (id payload : String)
    → ((r : Request) × (find_request (has_id id) w.requests ≡ some r)
        × (r.status ≡ approved)
        × (r.payload ≡ payload))
    → (r : Request) × (find_request (has_id id) w'.requests ≡ some r)
      × (r.status ≡ approved)
      × (r.payload ≡ payload)
kept_row w w' e id payload (r, at, s, p) =
    let (r', at', same) = Effect-find_request w w' id r e at in
    let settled : r.status ≢ pending = λ q. ground (arith, q, s) in
    let is_r : r' ≡ r = same.settled_is_same settled in (r', at', rw is_r s, rw is_r p)

-- The record of what ran is the same, and the registry has no more for the ids in it.
still :
    (w w' : World)
    → Effect w w'
    → w'.ran ≡ w.ran
    → ((id payload : String)
        → lookup id w.ran ≡ some payload
        → lookup id w.actions ≡ none
        → lookup id w'.actions ≡ none)
    → IsConsistent w
    → IsConsistent w'
still w w' e same less ok = record {
  once = rw same ok.once;
  approved_ran = λ id payload at.
      let before : lookup id w.ran ≡ some payload = rw⁻¹ same at in
      kept_row w w' e id payload (ok.approved_ran id payload before);
  gone = λ id payload at.
      let before : lookup id w.ran ≡ some payload = rw⁻¹ same at in
      less id payload before (ok.gone id payload before);
}

-- A new request has an id for which nothing ran.
put_other :
    (w : World) (q : Request) (action : ℕ) (id payload : String)
    → find_request (has_id q.id) w.requests ≡ none
    → IsConsistent w
    → lookup id w.ran ≡ some payload
    → lookup id w.actions ≡ none
    → lookup id (put q.id action w.actions) ≡ none
put_other w q action id payload fresh ok at gone = elim (Bool-cases (q.id == id)) [
  | inl here ↦
      let e : q.id ≡ id = (eq_iff q.id id).0 here in
      let none_there : find_request (has_id id) w.requests ≡ none =
        subst (λ i. find_request (has_id i) w.requests ≡ none) e fresh in
      let (r, found, _, _) = ok.approved_ran id payload at in absurd (cc)
  | inr there ↦ rw (lookup-put q.id id action w.actions, there) gone
]

-- An action that is registered has not run.
not_ran :
    (w : World) (id : String) (action : ℕ)
    → IsConsistent w
    → lookup id w.actions ≡ some action
    → lookup id w.ran ≡ none
not_ran w id action ok at = elim (Option-cases (lookup id w.ran)) [
  | inl never ↦ never
  | inr (payload, ran) ↦ let gone = ok.gone id payload ran in absurd (cc)
]

-- The record of what ran, with one more.
module _ (w : World) (r : Request) (row : find_request (has_id r.id) w.requests ≡ some r)
    (is_approved : r.status ≡ approved) (ok : IsConsistent w) where
  ran_approved :
      (id payload : String)
      → lookup id ((r.id, r.payload) ∷ w.ran) ≡ some payload
      → (q : Request) × (find_request (has_id id) w.requests ≡ some q)
        × (q.status ≡ approved)
        × (q.payload ≡ payload)
  unfolding lookup
  ran_approved id payload at = elim (Bool-cases (r.id == id)) [
    | inl here ↦
        let e : r.id ≡ id = (eq_iff r.id id).0 here in
        (
          r,
          subst (λ i. find_request (has_id i) w.requests ≡ some r) e row,
          is_approved,
          ground (arith, at, here),
        )
    | inr there ↦ ok.approved_ran id payload (ground (arith, at, there))
  ]

  ran_gone :
      (id payload : String)
      → lookup id ((r.id, r.payload) ∷ w.ran) ≡ some payload
      → lookup id (drop r.id w.actions) ≡ none
  unfolding lookup
  ran_gone id payload at = elim (Bool-cases (r.id == id)) [
    | inl here ↦ rw (lookup-drop r.id id w.actions, here) refl
    | inr there ↦
        rw (lookup-drop r.id id w.actions, there) (ok.gone id payload (ground (arith, at, there)))
  ]

pub Effect-IsConsistent : (w w' : World) → Effect w w' → IsConsistent w → IsConsistent w'
Effect-IsConsistent w w' (quiet a b c) ok =
    still w w' (quiet a b c) c (λ id payload at gone. rw b gone) ok
Effect-IsConsistent w w' (updated t s now by n a b c) ok =
    still w w' (updated t s now by n a b c) c (λ id payload at gone. rw b gone) ok
Effect-IsConsistent w w' (dropped i a b c) ok =
    still w w' (dropped i a b c) c
      (λ id payload at gone. rw (b, lookup-drop i id w.actions) (ground (arith, gone))) ok
Effect-IsConsistent w w' (filed q action fresh p a b c) ok =
    still w w' (filed q action fresh p a b c) c
      (λ id payload at gone. rw b (put_other w q action id payload fresh ok at gone)) ok
Effect-IsConsistent w w' (performed r action row s l a b c) ok = record {
  once = rw c (not_ran w r.id action ok l, ok.once);
  approved_ran = λ id payload at.
      let at' : lookup id ((r.id, r.payload) ∷ w.ran) ≡ some payload = rw⁻¹ c at in
      rw a (ran_approved w r row s ok id payload at');
  gone = λ id payload at.
      let at' : lookup id ((r.id, r.payload) ∷ w.ran) ≡ some payload = rw⁻¹ c at in
      rw b (ran_gone w r row s ok id payload at');
}

pub Effects-IsConsistent : (w w' : World) → Effects w w' → IsConsistent w → IsConsistent w'
Effects-IsConsistent w w' done ok = ok
Effects-IsConsistent w w' (next {v} es e) ok =
    Effect-IsConsistent v w' e (Effects-IsConsistent w v es ok)

Effects-find_request :
    (w w' : World) (id : String) (r : Request)
    → Effects w w'
    → find_request (has_id id) w.requests ≡ some r
    → (r' : Request) × (find_request (has_id id) w'.requests ≡ some r') × IsSameRequest r r'
Effects-find_request w w' id r done at = (r, at, IsSameRequest-refl r)
Effects-find_request w w' id r (next {v} es e) at =
    let (q, at_v, same) = Effects-find_request w v id r es at in
    let (r', at', same') = Effect-find_request v w' id q e at_v in
    (r', at', IsSameRequest-trans r q r' same same')

step-Effects : (o : Oracle) (c : Call) (w : World) → Effects w (call o c (advance w))
unfolding advance
step-Effects o c w = call-Effects o w c _ (silent done refl refl refl)

-- After any sequence of calls, whatever the driver and the closures answer, each action that ran
-- did so once, on the payload of its request, which is approved, and is gone from the registry, if
-- that was so before.
pub run-IsConsistent :
    (o : Oracle) (cs : List Call) (w : World) → IsConsistent w → IsConsistent (run o cs w)
unfolding run
run-IsConsistent o [] w ok = ok
run-IsConsistent o (c ∷ cs) w ok =
    run-IsConsistent o cs _ (Effects-IsConsistent w _ (step-Effects o c w) ok)

-- A request stays in the table under any calls, with the agent, the kind, the summary, the payload
-- and the conversation that it was submitted with, and one that is no longer pending does not change
-- at all.
pub request_kept :
    (o : Oracle) (cs : List Call) (w : World) (id : String) (r : Request)
    → find_request (has_id id) w.requests ≡ some r
    → (r' : Request) × (find_request (has_id id) (run o cs w).requests ≡ some r')
      × IsSameRequest r r'
unfolding run
request_kept o [] w id r at = (r, at, IsSameRequest-refl r)
request_kept o (c ∷ cs) w id r at =
    let (q, at_q, same) = Effects-find_request w _ id r (step-Effects o c w) at in
    let (r', at', same') = request_kept o cs (call o c (advance w)) id q at_q in
    (r', at', IsSameRequest-trans r q r' same same')

-- The action of a request that was denied, expired or aborted never runs, whatever is called
-- afterwards.
pub refused_never_runs :
    (o : Oracle) (cs : List Call) (w : World) (id : String) (r : Request)
    → IsConsistent w
    → find_request (has_id id) w.requests ≡ some r
    → r.status ≢ pending
    → r.status ≢ approved
    → lookup id (run o cs w).ran ≡ none
refused_never_runs o cs w id r ok at settled refused =
    elim (Option-cases (lookup id (run o cs w).ran)) [
      | inl never ↦ never
      | inr (payload, ran) ↦
          let (q, at_q, s, _) = (run-IsConsistent o cs w ok).approved_ran id payload ran in
          let (r', at', same) = request_kept o cs w id r at in
          let one : q ≡ r' = ground (arith, at_q, at') in
          let is_r : r' ≡ r = same.settled_is_same settled in absurd (refused (rw⁻¹ (one ∙ is_r) s))
    ]
