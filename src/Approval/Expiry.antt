-- ===== src/Approval/Expiry.antt =====
-- What the expiry worker of internal/approval/manager.go does to each request.
use denkeeper.Prelude.{
  ℕ, ◌≤◌, ◌<◌, ◌≡◌, ◌≢◌, refl, sym, ap, ◌∙◌, ◌⊎◌, inl, inr, String, Bool, true, false, Bool-cases,
  ◌&&◌, Option, some, none, ◌==◌, if◌then◌else◌, leb, arith,
}
use denkeeper.Approval.{
  pending, expired, Request, Oracle, World, approval_status_eq, same_status_iff,
}
use denkeeper.Approval.Table
use denkeeper.Approval.Table.{
  find_request, has_id, is_due, resolve_row, update_pending, statement, attempt, advance,
}
use denkeeper.Approval.Manager.{expiry_tick}
use denkeeper.Approval.Invariant.{find_request-update}

attempt-works :
    {A : Type 0} (b : Bool) (f : Table.Op A) (w : World) → b ≡ true → attempt b f w ≡ f w
unfolding attempt
attempt-works true f w e = refl
attempt-works false f w e = absurd (cc)

ticked :
    (o : Oracle) (w : World)
    → o.runs w.moment ≡ true
    → (expiry_tick o w).requests
      ≡ update_pending
          (λ q. is_due (o.clock w.moment) q.expires_at)
          expired
          (o.clock w.moment)
          "expired"
          w.requests
unfolding expiry_tick Table.expire_before Table.expire_rows statement advance
ticked o w works =
    ap (λ p. p.1.requests)
      (attempt-works (o.runs w.moment)
        (Table.expire_rows (λ q. is_due (o.clock w.moment) q.expires_at) (o.clock w.moment))
        (advance w) works)

-- What a tick does to a request: one that is pending with a time of expiry that is not after the
-- tick's is expired, at that time, by the worker; any other one stays as it is.
abbrev pub IsTicked : ℕ → Request → Request → Type 0
IsTicked now r r' =
    ((end : ℕ) × (r.status ≡ pending)
      × (r.expires_at ≡ some end)
      × (end ≤ now)
      × (r' ≡ record r { status = expired; resolved_at = some now; resolved_by = "expired" }))
    ⊎ ((r' ≡ r)
        × ((r.status ≢ pending)
            ⊎ (r.expires_at ≡ none)
            ⊎ ((end : ℕ) × (r.expires_at ≡ some end) × (now < end))))

-- The row that the UPDATE leaves.
abbrev ticked_row : ℕ → Request → Request
ticked_row now r =
    if r.status == pending && is_due now r.expires_at
    then resolve_row expired now "expired" r
    else r

row-IsTicked :
    (now : ℕ) (r : Request) (at : Option ℕ) → r.expires_at ≡ at → IsTicked now r (ticked_row now r)
unfolding resolve_row
row-IsTicked now r none e = rw e (elim (Bool-cases (r.status == pending)) [
  | inl p ↦ rw p (inr (refl, inr (inl refl)))
  | inr q ↦ rw q (inr (refl, inr (inl refl)))
])
row-IsTicked now r (some end) e = rw e (elim (Bool-cases (r.status == pending)) [
  | inr q ↦ rw q (inr (refl, inl (λ p. cc (sym ((same_status_iff r.status pending).1 p) ∙ q))))
  | inl p ↦ elim (Bool-cases (leb end now)) [
    | inl due ↦
        rw (p, due)
          (inl (end, (same_status_iff r.status pending).0 p, refl, ground (arith, due), refl))
    | inr early ↦ rw (p, early) (inr (refl, inr (inr (end, refl, ground (arith, early)))))
  ]
])

-- Where the driver works, a tick of the expiry worker expires each pending request whose time of
-- expiry has come, with the time of the tick and the actor "expired", and leaves as it is every
-- request that is settled, has no time of expiry, or one that is after the tick.
pub expiry_tick_lem :
    (o : Oracle) (w : World) (id : String) (r : Request)
    → o.runs w.moment ≡ true
    → find_request (has_id id) w.requests ≡ some r
    → (r' : Request) × (find_request (has_id id) (expiry_tick o w).requests ≡ some r')
      × IsTicked (o.clock w.moment) r r'
expiry_tick_lem o w id r works at = (
  ticked_row (o.clock w.moment) r,
  rw (ticked o w works) (
      find_request-update (λ q. is_due (o.clock w.moment) q.expires_at) expired (o.clock w.moment)
        "expired" id w.requests r at),
  row-IsTicked (o.clock w.moment) r r.expires_at refl,
)
