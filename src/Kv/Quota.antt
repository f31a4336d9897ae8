-- ===== src/Kv/Quota.antt =====
-- internal/kv/store.go: how many keys an agent has.
use denkeeper.Prelude.{
  ℕ, ◌≤◌, ◌≡◌, refl, String, Bool, true, false, ◌&&◌, ◌||◌, List, [], ◌∷◌, string_eq, ltb, leb,
  nat_beq, arith, eq_iff, Bool-cases, inl, inr,
}
use denkeeper.Kv.{Row, is_live, has_row, count_rows, insert_or_ignore, keep}
use denkeeper.Kv.Counts.{upsert-count_rows, keep-count_rows, keep-room}
use denkeeper.Kv.Store.{
  Env, Limits, Db, Result, done, value_too_large, too_many_keys, query_failed, second_at, later,
  new_row, too_large, check_count, check_key_limit, write_row, after_check, set, not_at, delete,
  not_expired_at, free_slot, insert_row, claim_slot, set_nx, cleanup, Command, sets, sets_nx,
  deletes, cleans, step, run_all,
}

-- Every agent has at most so many rows.
abbrev pub Bounded : ℕ → List Row → Type 0
Bounded max rows = (agent : String) → count_rows agent rows ≤ max

-- The key exists, or the agent has room for one more.
abbrev pub has_room : Limits → String → String → List Row → Bool
has_room l agent key rows = has_row agent key rows || ltb (count_rows agent rows) l.max_keys

-- A check changes no row, and there is room where it finds no error.
abbrev pub Checks : Limits → String → String → Db → Result Unit × Db → Type 0
Checks l agent key db (done u, db') = (db'.rows ≡ db.rows) × (has_room l agent key db.rows ≡ true)
Checks l agent key db (value_too_large, db') = db'.rows ≡ db.rows
Checks l agent key db (too_many_keys, db') = db'.rows ≡ db.rows
Checks l agent key db (query_failed, db') = db'.rows ≡ db.rows

check_count-Checks :
    (env : Env) (l : Limits) (agent key : String) (db : Db)
    → Checks l agent key db (check_count env l agent db)
unfolding check_count
check_count-Checks env l agent key db = elim (Bool-cases (env.works db.moment)) [
  | inl works ↦ elim (Bool-cases (leb l.max_keys (count_rows agent db.rows))) [
    | inl full ↦ rw (works, full) refl
    | inr room ↦ rw (works, room) (refl, ground (arith, room))
  ]
  | inr fails ↦ rw fails refl
]

check_key_limit-Checks :
    (env : Env) (l : Limits) (agent key : String) (db : Db)
    → nat_beq l.max_keys 0 ≡ false
    → Checks l agent key db (check_key_limit env l agent key db)
unfolding check_key_limit
check_key_limit-Checks env l agent key db limited =
    elim (Bool-cases (env.works db.moment && has_row agent key db.rows)) [
      | inl there ↦ rw (limited, there) (refl, ground (arith, there))
      | inr new ↦ rw (limited, new) (check_count-Checks env l agent key (later db))
    ]

module _ (env : Env) (l : Limits) where
  after_check-Bounded :
      {A : Type 0} (f : Db → Result A × Db) (agent key : String) (db : Db)
      → ((db' : Db)
          → has_room l agent key db'.rows ≡ true
          → Bounded l.max_keys db'.rows
          → Bounded l.max_keys (f db').1.rows)
      → Bounded l.max_keys db.rows
      → (r : Result Unit × Db) → Checks l agent key db r
      → Bounded l.max_keys (after_check f r).1.rows
  after_check-Bounded f agent key db h b (done u, db') (e, room) = h db' (rw e room) (rw e b)
  after_check-Bounded f agent key db h b (value_too_large, db') e = rw e b
  after_check-Bounded f agent key db h b (too_many_keys, db') e = rw e b
  after_check-Bounded f agent key db h b (query_failed, db') e = rw e b

  write_row-Bounded :
      (agent key value : String) (ttl : ℕ) (db : Db)
      → has_room l agent key db.rows ≡ true
      → Bounded l.max_keys db.rows
      → Bounded l.max_keys (write_row env agent key value ttl db).1.rows
  unfolding write_row new_row
  write_row-Bounded agent key value ttl db room b a = elim (Bool-cases (env.works db.moment)) [
    | inl works ↦ rw works (
        ground (
          arith,
          room,
          b a,
          eq_iff agent a,
          upsert-count_rows (new_row env agent key value ttl db.moment) a db.rows,
        ))
    | inr fails ↦ rw fails (b a)
  ]

  keep-Bounded :
      (test : Row → Bool) (rows : List Row)
      → Bounded l.max_keys rows
      → Bounded l.max_keys (keep test rows)
  keep-Bounded test rows b a = omega (arith, b a, keep-count_rows test a rows)

  insert_row-Bounded :
      (agent key value : String) (ttl : ℕ) (db : Db)
      → has_room l agent key db.rows ≡ true
      → Bounded l.max_keys db.rows
      → Bounded l.max_keys (insert_row env agent key value ttl db).1.rows
  unfolding insert_row insert_or_ignore new_row count_rows
  insert_row-Bounded agent key value ttl db room b a =
      elim (Bool-cases (has_row agent key db.rows)) [
        | inl there ↦ elim (Bool-cases (env.works db.moment)) [
          | inl works ↦ rw (works, there) (b a)
          | inr fails ↦ rw fails (b a)
        ]
        | inr new ↦ elim (Bool-cases (env.works db.moment)) [
          | inl works ↦ rw (works, new) (ground (arith, room, new, b a, eq_iff agent a))
          | inr fails ↦ rw fails (b a)
        ]
      ]

  free_slot-has_room :
      (agent key : String) (db : Db)
      → has_room l agent key db.rows ≡ true
      → Bounded l.max_keys db.rows
      → has_room l agent key (free_slot env agent key db).rows ≡ true
  unfolding free_slot
  free_slot-has_room agent key db room b = elim (Bool-cases (env.works db.moment)) [
    | inl works ↦
        let test = not_expired_at agent key (second_at env db.moment) in
        elim (Bool-cases (has_row agent key (keep test db.rows))) [
          | inl there ↦ rw (works, there) refl
          | inr gone ↦ elim (Bool-cases (has_row agent key db.rows)) [
            | inl had ↦
                rw (works, gone)
                  (ground (arith, b agent, keep-room test agent key db.rows gone had))
            | inr new ↦
                rw (works, gone) (ground (arith, room, new, keep-count_rows test agent db.rows))
          ]
        ]
    | inr fails ↦ rw fails room
  ]

  free_slot-Bounded :
      (agent key : String) (db : Db)
      → Bounded l.max_keys db.rows
      → Bounded l.max_keys (free_slot env agent key db).rows
  unfolding free_slot
  free_slot-Bounded agent key db b a = elim (Bool-cases (env.works db.moment)) [
    | inl works ↦
        rw works (keep-Bounded (not_expired_at agent key (second_at env db.moment)) db.rows b a)
    | inr fails ↦ rw fails (b a)
  ]

  claim_slot-Bounded :
      (agent key value : String) (ttl : ℕ) (db : Db)
      → has_room l agent key db.rows ≡ true
      → Bounded l.max_keys db.rows
      → Bounded l.max_keys (claim_slot env agent key value ttl db).1.rows
  unfolding claim_slot
  claim_slot-Bounded agent key value ttl db room b =
      insert_row-Bounded agent key value ttl (free_slot env agent key db)
        (free_slot-has_room agent key db room b) (free_slot-Bounded agent key db b)

  delete-Bounded :
      (agent key : String) (db : Db)
      → Bounded l.max_keys db.rows
      → Bounded l.max_keys (delete env agent key db).1.rows
  unfolding delete
  delete-Bounded agent key db b a = elim (Bool-cases (env.works db.moment)) [
    | inl works ↦ rw works (keep-Bounded (not_at agent key) db.rows b a)
    | inr fails ↦ rw fails (b a)
  ]

  cleanup-Bounded :
      (db : Db) → Bounded l.max_keys db.rows → Bounded l.max_keys (cleanup env db).1.rows
  unfolding cleanup
  cleanup-Bounded db b a = elim (Bool-cases (env.works db.moment)) [
    | inl works ↦ rw works (keep-Bounded (is_live (second_at env db.moment)) db.rows b a)
    | inr fails ↦ rw fails (b a)
  ]

  module _ (limited : nat_beq l.max_keys 0 ≡ false) where
    set-Bounded :
        (agent key value : String) (ttl : ℕ) (db : Db)
        → Bounded l.max_keys db.rows
        → Bounded l.max_keys (set env l agent key value ttl db).1.rows
    unfolding set
    set-Bounded agent key value ttl db b a = elim (Bool-cases (too_large l value)) [
      | inl large ↦ rw large (b a)
      | inr fits ↦ rw fits (
          after_check-Bounded (write_row env agent key value ttl) agent key db
            (write_row-Bounded agent key value ttl) b (check_key_limit env l agent key db)
            (check_key_limit-Checks env l agent key db limited) a)
    ]

    set_nx-Bounded :
        (agent key value : String) (ttl : ℕ) (db : Db)
        → Bounded l.max_keys db.rows
        → Bounded l.max_keys (set_nx env l agent key value ttl db).1.rows
    unfolding set_nx
    set_nx-Bounded agent key value ttl db b a = elim (Bool-cases (too_large l value)) [
      | inl large ↦ rw large (b a)
      | inr fits ↦ rw fits (
          after_check-Bounded (claim_slot env agent key value ttl) agent key db
            (claim_slot-Bounded agent key value ttl) b (check_key_limit env l agent key db)
            (check_key_limit-Checks env l agent key db limited) a)
    ]

    step-Bounded :
        (c : Command) (db : Db)
        → Bounded l.max_keys db.rows
        → Bounded l.max_keys (step env l c db).rows
    unfolding step delete cleanup
    step-Bounded (sets agent key value ttl) db b a = set-Bounded agent key value ttl db b a
    step-Bounded (sets_nx agent key value ttl) db b a = set_nx-Bounded agent key value ttl db b a
    step-Bounded (deletes agent key) db b a = delete-Bounded agent key db b a
    step-Bounded cleans db b a = cleanup-Bounded db b a

    -- Where a limit on keys is set and no agent has more than that many rows, expired ones included, none
    -- ever has, whatever calls are made one after another, and whichever of their statements the driver
    -- refuses.
    pub run_all-Bounded :
        (cs : List Command) (db : Db)
        → Bounded l.max_keys db.rows
        → Bounded l.max_keys (run_all env l cs db).rows
    unfolding run_all
    run_all-Bounded [] db b = b
    run_all-Bounded (c ∷ cs) db b = run_all-Bounded cs (step env l c db) (step-Bounded c db b)
