-- ===== src/Approval/Invariant.antt =====
-- What the calls of internal/approval keep of a request and of the actions that ran.
use denkeeper.Prelude.{
  ℕ, ◌≡◌, ◌≢◌, refl, ◌∙◌, String, Bool, true, false, some, none, List, [], ◌∷◌, lookup, ◌==◌,
  string_eq, eq_iff, arith, if◌then◌else◌, Bool-cases, inl, inr,
}
use denkeeper.Approval.{
  Status, pending, approved, Request, World, approval_status_eq, same_status_iff,
}
use denkeeper.Approval.Table.{find_request, has_id, hit, update_pending, resolve_row}
use denkeeper.Approval.Effect.{Effect, quiet, filed, updated, dropped, performed}

-- No id stands twice in the record of what ran.
abbrev pub IsOnce : List (String × String) → Type 0
IsOnce [] = Unit
IsOnce ((id, payload) ∷ m) = (lookup id m ≡ none) × IsOnce m

-- Each action that ran is that of an approved request, ran once, on the payload of the request,
-- and is gone from the registry.
pub record IsConsistent (w : World) : Type 0 where
  pub once : IsOnce w.ran
  pub approved_ran :
      (id payload : String)
      → lookup id w.ran ≡ some payload
      → (r : Request) × (find_request (has_id id) w.requests ≡ some r)
        × (r.status ≡ approved)
        × (r.payload ≡ payload)
  pub gone : (id payload : String) → lookup id w.ran ≡ some payload → lookup id w.actions ≡ none

-- What no call changes of a request.
pub record IsSameRequest (r r' : Request) : Type 0 where
  pub id : r'.id ≡ r.id
  pub agent_name : r'.agent_name ≡ r.agent_name
  pub kind : r'.kind ≡ r.kind
  pub summary : r'.summary ≡ r.summary
  pub payload : r'.payload ≡ r.payload
  pub callback_data : r'.callback_data ≡ r.callback_data
  pub conversation_id : r'.conversation_id ≡ r.conversation_id
  pub settled_is_same : r.status ≢ pending → r' ≡ r

pub IsSameRequest-refl : (r : Request) → IsSameRequest r r
IsSameRequest-refl r = ground arith

pub IsSameRequest-trans :
    (r r' r'' : Request) → IsSameRequest r r' → IsSameRequest r' r'' → IsSameRequest r r''
IsSameRequest-trans r r' r'' a b = record {
  id = b.id ∙ a.id;
  agent_name = b.agent_name ∙ a.agent_name;
  kind = b.kind ∙ a.kind;
  summary = b.summary ∙ a.summary;
  payload = b.payload ∙ a.payload;
  callback_data = b.callback_data ∙ a.callback_data;
  conversation_id = b.conversation_id ∙ a.conversation_id;
  settled_is_same =
      λ settled. let same = a.settled_is_same settled in b.settled_is_same (rw same settled) ∙ same;
}

module _ (test : Request → Bool) (s : Status) (now : ℕ) (by : String) where
  abbrev pub touched : Request → Request
  touched r = if hit test r then resolve_row s now by r else r

  touched-IsSameRequest : (r : Request) → IsSameRequest r (touched r)
  unfolding resolve_row
  touched-IsSameRequest r = elim (Bool-cases (hit test r)) [
    | inl e ↦ rw e (record {
      id = refl;
      agent_name = refl;
      kind = refl;
      summary = refl;
      payload = refl;
      callback_data = refl;
      conversation_id = refl;
      settled_is_same = λ settled. absurd (ground (arith, same_status_iff r.status pending));
    })
    | inr e ↦ rw e (IsSameRequest-refl r)
  ]

  pub find_request-update :
      (id : String) (rs : List Request) (r : Request)
      → find_request (has_id id) rs ≡ some r
      → find_request (has_id id) (update_pending test s now by rs) ≡ some (touched r)
  unfolding find_request update_pending
  find_request-update id [] r e = absurd (cc)
  find_request-update id (x ∷ xs) r e = elim (Bool-cases (x.id == id)) [
    | inl here ↦
        let same : x ≡ r = ground (arith, e, here) in
        let kept : (touched x).id == id ≡ true = rw (touched-IsSameRequest x).id here in
        rw kept (ground (arith, same))
    | inr there ↦
        let kept : (touched x).id == id ≡ false = rw (touched-IsSameRequest x).id there in
        rw kept (find_request-update id xs r (ground (arith, e, there)))
  ]

-- After an effect a request is still there, with what no call changes.
pub Effect-find_request :
    (w w' : World) (id : String) (r : Request)
    → Effect w w'
    → find_request (has_id id) w.requests ≡ some r
    → (r' : Request) × (find_request (has_id id) w'.requests ≡ some r') × IsSameRequest r r'
unfolding find_request
Effect-find_request w w' id r (quiet same _ _) e = (r, rw same e, IsSameRequest-refl r)
Effect-find_request w w' id r (dropped i same _ _) e = (r, rw same e, IsSameRequest-refl r)
Effect-find_request w w' id r (performed q a f s l same _ _) e =
    (r, rw same e, IsSameRequest-refl r)
Effect-find_request w w' id r (updated test s now by n same _ _) e = (
  touched test s now by r,
  rw same (find_request-update test s now by id w.requests r e),
  touched-IsSameRequest test s now by r,
)
Effect-find_request w w' id r (filed q a fresh p same _ _) e = elim (Bool-cases (q.id == id)) [
  | inl here ↦ absurd (ground (arith, eq_iff q.id id, fresh, e))
  | inr there ↦ (r, rw same (ground (arith, there, e)), IsSameRequest-refl r)
]
