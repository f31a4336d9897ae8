-- ===== src/Kv/Locks.antt =====
-- internal/kv/store.go: SetNX as a lock.
use denkeeper.Prelude.{
  ℕ, ◌≡◌, ◌≢◌, String, Bool, true, false, ◌&&◌, ◌||◌, none, some, List, [], ◌∷◌, string_eq, arith,
  eq_refl, Bool-cases, inl, inr,
}
use denkeeper.Kv.{Row, is_at, has_row, insert_or_ignore, keep}
use denkeeper.Kv.Store.{
  Env, Limits, Db, Result, done, value_too_large, too_many_keys, query_failed, second_at, new_row,
  expiry, too_large, check_key_limit, after_check, not_expired_at, free_slot, insert_row,
  claim_slot, set_nx,
}
use denkeeper.Kv.Values.{check_key_limit-rows}

-- A row of the key that never expires.
unfoldable pub is_locked : String → String → List Row → Bool
is_locked agent key [] = false
is_locked agent key (r ∷ rows) =
    (is_at agent key r && elim r.expires_at [ none ↦ true | some t ↦ false ])
    || is_locked agent key rows

locked_stays :
    (agent key : String) (now : ℕ) (rows : List Row)
    → is_locked agent key rows ≡ true
    → has_row agent key (keep (not_expired_at agent key now) rows) ≡ true
unfolding is_locked has_row keep
locked_stays agent key now [] h = absurd (ground (arith, h))
locked_stays agent key now (r ∷ rows) h = ground (arith, h, locked_stays agent key now rows)

locked_has_row :
    (agent key : String) (rows : List Row)
    → is_locked agent key rows ≡ true
    → has_row agent key rows ≡ true
unfolding is_locked has_row
locked_has_row agent key [] h = h
locked_has_row agent key (r ∷ rows) h = ground (arith, h, locked_has_row agent key rows)

abbrev LockedIf : String → String → Result Bool × Db → Type 0
LockedIf agent key (done true, db') = is_locked agent key db'.rows ≡ true
LockedIf agent key (r, db') = Unit

locked_of :
    (agent key : String) (r : Result Bool × Db)
    → LockedIf agent key r
    → r.0 ≡ done true
    → is_locked agent key r.1.rows ≡ true
locked_of agent key (done true, db') h e = h
locked_of agent key (done false, db') h e = cc e
locked_of agent key (value_too_large, db') h e = cc e
locked_of agent key (too_many_keys, db') h e = cc e
locked_of agent key (query_failed, db') h e = cc e

module _ (env : Env) (agent key value : String) where
  insert_row-LockedIf : (db : Db) → LockedIf agent key (insert_row env agent key value 0 db)
  unfolding insert_row insert_or_ignore new_row is_locked expiry
  insert_row-LockedIf db = elim (Bool-cases (env.works db.moment)) [
    | inl works ↦ elim (Bool-cases (has_row agent key db.rows)) [
      | inl there ↦ rw (works, there) tt
      | inr new ↦ rw (works, new) (ground (arith, eq_refl agent, eq_refl key))
    ]
    | inr fails ↦ rw fails tt
  ]

  after_check-LockedIf :
      (r : Result Unit × Db) → LockedIf agent key (after_check (claim_slot env agent key value 0) r)
  unfolding claim_slot
  after_check-LockedIf (done u, db') = insert_row-LockedIf (free_slot env agent key db')
  after_check-LockedIf (value_too_large, db') = tt
  after_check-LockedIf (too_many_keys, db') = tt
  after_check-LockedIf (query_failed, db') = tt

  set_nx-LockedIf : (l : Limits) (db : Db) → LockedIf agent key (set_nx env l agent key value 0 db)
  unfolding set_nx
  set_nx-LockedIf l db = elim (Bool-cases (too_large l value)) [
    | inl large ↦ rw large tt
    | inr fits ↦ rw fits (after_check-LockedIf (check_key_limit env l agent key db))
  ]

module _ (env : Env) (agent key value : String) (ttl : ℕ) where
  abbrev Refused : Result Bool × Db → Type 0
  Refused r = r.0 ≢ done true

  insert_row-Refused :
      (db : Db) → has_row agent key db.rows ≡ true → Refused (insert_row env agent key value ttl db)
  unfolding insert_row insert_or_ignore new_row
  insert_row-Refused db there = elim (Bool-cases (env.works db.moment)) [
    | inl works ↦ rw (works, there) (λ e. cc e)
    | inr fails ↦ rw fails (λ e. cc e)
  ]

  free_slot-has_row :
      (db : Db)
      → is_locked agent key db.rows ≡ true
      → has_row agent key (free_slot env agent key db).rows ≡ true
  unfolding free_slot
  free_slot-has_row db h = elim (Bool-cases (env.works db.moment)) [
    | inl works ↦ rw works (locked_stays agent key (second_at env db.moment) db.rows h)
    | inr fails ↦ rw fails (locked_has_row agent key db.rows h)
  ]

  after_check-Refused :
      (r : Result Unit × Db)
      → is_locked agent key r.1.rows ≡ true
      → Refused (after_check (claim_slot env agent key value ttl) r)
  unfolding claim_slot
  after_check-Refused (done u, db') h =
      insert_row-Refused (free_slot env agent key db') (free_slot-has_row db' h)
  after_check-Refused (value_too_large, db') h = λ e. cc e
  after_check-Refused (too_many_keys, db') h = λ e. cc e
  after_check-Refused (query_failed, db') h = λ e. cc e

  set_nx-Refused :
      (l : Limits) (db : Db)
      → is_locked agent key db.rows ≡ true
      → Refused (set_nx env l agent key value ttl db)
  unfolding set_nx
  set_nx-Refused l db h = elim (Bool-cases (too_large l value)) [
    | inl large ↦ rw large (λ e. cc e)
    | inr fits ↦ rw fits (
        after_check-Refused (check_key_limit env l agent key db)
          (rw (check_key_limit-rows env l agent key db) h))
  ]

-- Where a SetNX without a lifetime has set a key, a second one of the same key does not report that
-- it set it, whatever its value, its lifetime, the limits and the time are, and whichever statement
-- the driver refuses.
pub set_nx_twice :
    (env later_env : Env) (l m : Limits) (agent key value other : String) (ttl : ℕ) (db : Db)
    → (set_nx env l agent key value 0 db).0 ≡ done true
    → (set_nx later_env m agent key other ttl (set_nx env l agent key value 0 db).1).0 ≢ done true
set_nx_twice env later_env l m agent key value other ttl db first =
    let r = set_nx env l agent key value 0 db in
    set_nx-Refused later_env agent key other ttl m r.1
      (locked_of agent key r (set_nx-LockedIf env agent key value l db) first)
