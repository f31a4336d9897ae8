-- ===== src/Approval/Effect.antt =====
-- What one call of internal/approval/manager.go may do to the requests and their actions, as a
-- sequence of effects.
use denkeeper.Prelude.{
  ℕ, zero, suc, ◌≡◌, ◌≢◌, refl, String, true, false, some, none, Option, ◌∷◌, lookup, drop, put,
  string_eq, Bool, arith,
}
use denkeeper.Approval.{
  Status, pending, approved, Request, Result, ok, err, Oracle, World, approval_status_eq,
}
use denkeeper.Approval.Table
use denkeeper.Approval.Table.{
  Op, find_request, has_id, update_pending, statement, attempt, advance, and_then,
}

pub data Effect (w w' : World) : Type 0 where
  quiet : w'.requests ≡ w.requests → w'.actions ≡ w.actions → w'.ran ≡ w.ran → Effect w w'
  filed :
      (r : Request) (action : ℕ)
      → find_request (has_id r.id) w.requests ≡ none
      → r.status ≡ pending
      → w'.requests ≡ r ∷ w.requests
      → w'.actions ≡ put r.id action w.actions
      → w'.ran ≡ w.ran
      → Effect w w'
  updated :
      (test : Request → Bool) (s : Status) (now : ℕ) (by : String)
      → s ≢ pending
      → w'.requests ≡ update_pending test s now by w.requests
      → w'.actions ≡ w.actions
      → w'.ran ≡ w.ran
      → Effect w w'
  dropped :
      (id : String)
      → w'.requests ≡ w.requests
      → w'.actions ≡ drop id w.actions
      → w'.ran ≡ w.ran
      → Effect w w'
  performed :
      (r : Request) (action : ℕ)
      → find_request (has_id r.id) w.requests ≡ some r
      → r.status ≡ approved
      → lookup r.id w.actions ≡ some action
      → w'.requests ≡ w.requests
      → w'.actions ≡ drop r.id w.actions
      → w'.ran ≡ (r.id, r.payload) ∷ w.ran
      → Effect w w'

pub data Effects (w : World) : World → Type 0 where
  done : Effects w w
  next : {v u : World} → Effects w v → Effect v u → Effects w u

-- What an operation adds to the effects so far.
abbrev pub Adds : {A : Type 0} → World → Op A → Type 0
Adds w0 f = (w : World) → Effects w0 w → Effects w0 (f w).1

pub silent :
    {w0 w w' : World}
    → Effects w0 w
    → w'.requests ≡ w.requests
    → w'.actions ≡ w.actions
    → w'.ran ≡ w.ran
    → Effects w0 w'
silent es a b c = next es (quiet a b c)

module _ (w0 : World) where
  pub attempt-Adds : {A : Type 0} (b : Bool) (f : Op A) → Adds w0 f → Adds w0 (attempt b f)
  unfolding attempt
  attempt-Adds true f k w es = k w es
  attempt-Adds false f k w es = es

  pub statement-Adds : {A : Type 0} (o : Oracle) (f : Op A) → Adds w0 f → Adds w0 (statement o f)
  unfolding statement advance
  statement-Adds o f k w es =
      attempt-Adds (o.runs w.moment) f k (advance w) (silent es refl refl refl)

  pub and_then-Adds :
      {A B : Type 0} (r : Result A × World) (f : A → Op B)
      → Effects w0 r.1
      → ((a : A) → Adds w0 (f a))
      → Effects w0 (and_then r f).1
  unfolding and_then
  and_then-Adds (err e, w) f es k = es
  and_then-Adds (ok a, w) f es k = k a w es

-- An operation that reads.
module _ (o : Oracle) (w0 : World) where
  pub found-Adds : (found_row : Option Request) → Adds w0 (Table.found found_row)
  unfolding Table.found
  found-Adds none w es = es
  found-Adds (some r) w es = es

  pub get-Adds : (id : String) → Adds w0 (Table.get o id)
  unfolding Table.get Table.select_row
  get-Adds id = statement-Adds w0 o _ (λ w. found-Adds (find_request (has_id id) w.requests) w)

  pub why_unresolved-Adds :
      (r : Result Request × World) → Effects w0 r.1 → Effects w0 (Table.why_unresolved r).1
  unfolding Table.why_unresolved
  why_unresolved-Adds (err e, w) es = es
  why_unresolved-Adds (ok r, w) es = es

  resolved_rows-Adds :
      (id : String) (n : ℕ) (w' w : World)
      → Effects w0 w
      → Effects w0 w'
      → Effects w0 (Table.resolved_rows o id n w' w).1
  unfolding Table.resolved_rows
  resolved_rows-Adds id zero w' w es es' = why_unresolved-Adds _ (get-Adds id w es)
  resolved_rows-Adds id (suc n) w' w es es' = es'

  pub resolve-Adds :
      (id : String) (s : Status) (by : String) → s ≢ pending → Adds w0 (Table.resolve o id s by)
  unfolding Table.resolve Table.resolve_rows
  resolve-Adds id s by h w es =
      statement-Adds w0 o _
        (λ v fs.
          resolved_rows-Adds id _ _ v fs
            (next fs (updated (has_id id) s (o.clock w.moment) by h refl refl refl)))
        w es

  pub expire-Adds :
      (test : Request → Bool) (now : ℕ) → Adds w0 (statement o (Table.expire_rows test now))
  unfolding Table.expire_rows
  expire-Adds test now = statement-Adds w0 o _ (λ v fs.
      next fs (updated test Status.expired now "expired" (λ e. ground arith) refl refl refl))
