-- ===== src/Kv/Values.antt =====
-- internal/kv/store.go: the values that are read back.
use denkeeper.Prelude.{
  ℕ, suc, ◌+◌, ◌≤◌, ◌≡◌, refl, sym, ap, ◌∙◌, ltb, ◌/◌, String, true, false, ◌&&◌, Option, none,
  some, List, [], ◌∷◌, if◌then◌else◌, ◌==◌, string_eq, nat_beq, arith, eq_iff, Bool-cases, inl, inr,
}
use mathlib.Core.Option
use denkeeper.Kv.{Row, is_at, is_live, unexpired, select_row, has_row, upsert}
use denkeeper.Kv.Store.{
  Env, Limits, Db, Result, done, value_too_large, too_many_keys, query_failed, new_row, expiry,
  too_large, check_count, check_key_limit, write_row, after_check, set,
}

-- The value and the expiry of a key that has not expired at a time.
unfoldable pub value_at : String → String → ℕ → List Row → Option (String × Option ℕ)
unfolding select_row
value_at agent key now rows =
    Option.map (λ r. (r.value, r.expires_at)) (select_row agent key now rows)

-- How many rows a key has: at most one, by the primary key.
unfoldable pub copies : String → String → List Row → ℕ
copies agent key [] = 0
copies agent key (r ∷ rows) =
    let rest = copies agent key rows in if is_at agent key r then suc rest else rest

no_copies-value_at :
    (agent key : String) (now : ℕ) (rows : List Row)
    → copies agent key rows ≡ 0
    → value_at agent key now rows ≡ none
unfolding value_at copies
no_copies-value_at agent key now [] = λ h. refl
no_copies-value_at agent key now (r ∷ rows) = elim (Bool-cases (is_at agent key r)) [
  | inl here ↦ rw here (λ h. absurd (omega (arith, h)))
  | inr there ↦ rw there (λ h. no_copies-value_at agent key now rows h)
]

-- What a written row shows.
abbrev pub shown : ℕ → String → Option ℕ → Option (String × Option ℕ)
shown now value expires = if unexpired expires now then some (value, expires) else none

upsert_same :
    (new r : Row) (a k : String) (now : ℕ) (rows : List Row)
    → is_at new.agent new.key r ≡ true
    → is_at a k new ≡ is_at a k r
upsert_same new r a k now rows same =
    let e : r.agent ≡ new.agent = (eq_iff r.agent new.agent).0 (ground (arith, same)) in
    let f : r.key ≡ new.key = (eq_iff r.key new.key).0 (ground (arith, same)) in rw (e, f) refl

at_same :
    (new r : Row) (a k : String) → is_at a k new ≡ true → is_at a k r ≡ is_at new.agent new.key r
at_same new r a k same =
    let e : new.agent ≡ a = (eq_iff new.agent a).0 (ground (arith, same)) in
    let f : new.key ≡ k = (eq_iff new.key k).0 (ground (arith, same)) in rw (e, f) refl

at_copies :
    (new : Row) (a k : String) (rows : List Row)
    → is_at a k new ≡ true
    → copies a k rows ≡ copies new.agent new.key rows
at_copies new a k rows same =
    let e : new.agent ≡ a = (eq_iff new.agent a).0 (ground (arith, same)) in
    let f : new.key ≡ k = (eq_iff new.key k).0 (ground (arith, same)) in rw (e, f) refl

upsert-value_at :
    (new : Row) (a k : String) (now : ℕ) (rows : List Row)
    → copies new.agent new.key rows ≤ 1
    → value_at a k now (upsert new rows)
      ≡ (if is_at a k new then shown now new.value new.expires_at else value_at a k now rows)
unfolding value_at upsert copies
upsert-value_at new a k now [] = λ u. elim (Bool-cases (is_at a k new)) [
  | inl here ↦ elim (Bool-cases (unexpired new.expires_at now)) [
    | inl live ↦ rw (here, live) refl
    | inr old ↦ rw (here, old) refl
  ]
  | inr there ↦ rw there refl
]
upsert-value_at new a k now (r ∷ rows) = elim (Bool-cases (is_at new.agent new.key r)) [
  | inl same ↦ rw same (λ u. elim (Bool-cases (is_at a k new)) [
    | inl here ↦
        let at : is_at a k r ≡ true = sym (upsert_same new r a k now rows same) ∙ here in
        let none_left =
          no_copies-value_at a k now rows (at_copies new a k rows here ∙ omega (arith, u)) in
        elim (Bool-cases (unexpired new.expires_at now)) [
          | inl live ↦ rw (here, at, live) refl
          | inr old ↦ rw (here, at, old) none_left
        ]
    | inr there ↦
        let at : is_at a k r ≡ false = sym (upsert_same new r a k now rows same) ∙ there in
        rw (there, at) refl
  ])
  | inr differ ↦ rw differ (λ u. elim (Bool-cases (is_at a k new)) [
    | inl here ↦
        let at : is_at a k r ≡ false = at_same new r a k here ∙ differ in
        rw (here, at) (upsert-value_at new a k now rows u ∙ rw here refl)
    | inr there ↦ elim (Bool-cases (is_at a k r && is_live now r)) [
      | inl found ↦ rw (there, found) refl
      | inr passed ↦ rw (there, passed) (upsert-value_at new a k now rows u ∙ rw there refl)
    ]
  ])
]

pub check_key_limit-rows :
    (env : Env) (l : Limits) (agent key : String) (db : Db)
    → (check_key_limit env l agent key db).1.rows ≡ db.rows
unfolding check_key_limit check_count
check_key_limit-rows env l agent key db = elim (Bool-cases (nat_beq l.max_keys 0)) [
  | inl free ↦ rw free refl
  | inr limited ↦ elim (Bool-cases (env.works db.moment && has_row agent key db.rows)) [
    | inl there ↦ rw (limited, there) refl
    | inr new ↦ elim (Bool-cases (env.works (db.moment + 1))) [
      | inl works ↦ rw (limited, new, works) refl
      | inr fails ↦ rw (limited, new, fails) refl
    ]
  ]
]

-- What a key reads as in a second, that has a value until the second in which it ends, or for good.
abbrev pub reads_as : ℕ → String → Option ℕ → Option (String × Option ℕ)
reads_as now value none = some (value, none)
reads_as now value (some end) = if ltb now end then some (value, some end) else none

reads_as-shown :
    (now : ℕ) (value : String) (expires : Option ℕ)
    → shown now value expires ≡ reads_as now value expires
reads_as-shown now value none = refl
reads_as-shown now value (some end) = refl

module _ (env : Env) (agent key value : String) (ttl : ℕ) where
  -- The second in which a lifetime ends that begins at a moment; none for no lifetime.
  abbrev pub ends : ℕ → Option ℕ
  ends t = if ltb 0 ttl then some ((env.clock t + ttl) / 1000000000) else none

  -- What is read after a write, which is the last statement of its call, at any second: the value of
  -- the key until the lifetime that began at the moment of that statement is over, and what was there
  -- of the other keys. A write with an error changes no row.
  abbrev pub Wrote : Db → Result Unit × Db → Type 0
  Wrote db (done u, db') =
      (t : ℕ) × (db'.moment ≡ t + 1)
      × ((a k : String) (now : ℕ)
          → value_at a k now db'.rows ≡ (
              if agent == a && key == k
              then reads_as now value (ends t)
              else value_at a k now db.rows))
  Wrote db (value_too_large, db') = db'.rows ≡ db.rows
  Wrote db (too_many_keys, db') = db'.rows ≡ db.rows
  Wrote db (query_failed, db') = db'.rows ≡ db.rows

  write_row-Wrote :
      (db db' : Db)
      → copies agent key db.rows ≤ 1
      → db'.rows ≡ db.rows
      → Wrote db (write_row env agent key value ttl db')
  unfolding write_row new_row expiry
  write_row-Wrote db db' u e = elim (Bool-cases (env.works db'.moment)) [
    | inl works ↦
        rw (works, e)
          (
            db'.moment,
            refl,
            λ a k now.
                upsert-value_at (new_row env agent key value ttl db'.moment) a k now db.rows u
                ∙ ap (λ x. if agent == a && key == k then x else value_at a k now db.rows)
                    (reads_as-shown now value (ends db'.moment)),
          )
    | inr fails ↦ rw fails e
  ]

  after_check-Wrote :
      (db : Db)
      → copies agent key db.rows ≤ 1
      → (r : Result Unit × Db) → r.1.rows ≡ db.rows
      → Wrote db (after_check (write_row env agent key value ttl) r)
  after_check-Wrote db u (done d, db') e = write_row-Wrote db db' u e
  after_check-Wrote db u (value_too_large, db') e = e
  after_check-Wrote db u (too_many_keys, db') e = e
  after_check-Wrote db u (query_failed, db') e = e

  -- After a Set that returns no error, on a table in which the key has at most one row, the key reads
  -- as the value until the second in which its lifetime, counted from the clock at the call's last
  -- statement, ends; and every other key as before, at any second. A Set that returns an error has
  -- changed no row.
  pub set-Wrote :
      (l : Limits) (db : Db)
      → copies agent key db.rows ≤ 1
      → Wrote db (set env l agent key value ttl db)
  unfolding set
  set-Wrote l db u = elim (Bool-cases (too_large l value)) [
    | inl large ↦ rw large refl
    | inr fits ↦ rw fits (
        after_check-Wrote db u (check_key_limit env l agent key db)
          (check_key_limit-rows env l agent key db))
  ]
