-- ===== src/Kv/Store.antt =====
-- internal/kv/store.go: the methods of SQLiteStore. Each of their statements is a moment; whether the
-- driver carries it out, and what the clock shows, in nanoseconds, are parameters. The commands are
-- not in a transaction: here no other call stands between two statements of one.
use denkeeper.Prelude.{
  ℕ, ◌+◌, ◌/◌, String, Bool, not, ◌&&◌, Option, none, some, List, [], ◌∷◌, if◌then◌else◌, ltb, leb,
  nat_beq,
}
use denkeeper.Kv.{
  Row, byte_length, is_at, is_live, select_row, has_row, count_rows, upsert, insert_or_ignore, keep,
}

pub record Env : Type 0 where
  pub works : ℕ → Bool
  pub clock : ℕ → ℕ

-- maxKeysPerAgent and maxValueBytes, with zero for any that is not positive.
pub record Limits : Type 0 where
  pub max_keys : ℕ
  pub max_value_bytes : ℕ

pub record Db : Type 0 where
  pub rows : List Row
  pub moment : ℕ

pub data Result (A : Type 0) : Type 0 where
  done : A → Result A
  value_too_large too_many_keys query_failed : Result A

abbrev pub with_rows : List Row → Db → Db
with_rows rows db = record db { rows = rows; moment = db.moment + 1 }

abbrev pub later : Db → Db
later db = record db { moment = db.moment + 1 }

-- datetime('now')
abbrev pub second_at : Env → ℕ → ℕ
second_at env t = env.clock t / 1000000000

-- A text with a time in seconds, of the clock with the lifetime added; none for no lifetime.
unfoldable pub expiry : Env → ℕ → ℕ → Option ℕ
expiry env ttl t = if ltb 0 ttl then some ((env.clock t + ttl) / 1000000000) else none

unfoldable pub new_row : Env → String → String → String → ℕ → ℕ → Row
unfolding expiry
new_row env agent key value ttl t = record {
  agent = agent;
  key = key;
  value = value;
  created_at = second_at env t;
  updated_at = second_at env t;
  expires_at = expiry env ttl t;
}

-- GetEntry, of which Get returns the value.
unfoldable pub get_entry : Env → String → String → Db → Result (Option Row) × Db
unfolding select_row
get_entry env agent key db =
    if env.works db.moment
    then (done (select_row agent key (second_at env db.moment) db.rows), later db)
    else (query_failed, later db)

-- `s.maxValueBytes > 0 && len(value) > s.maxValueBytes`
unfoldable pub too_large : Limits → String → Bool
unfolding byte_length
too_large l value = ltb 0 l.max_value_bytes && ltb l.max_value_bytes (byte_length value)

-- The COUNT of checkKeyLimit; a result that is not `done` is its error.
unfoldable pub check_count : Env → Limits → String → Db → Result Unit × Db
unfolding count_rows
check_count env l agent db =
    if env.works db.moment
    then (if leb l.max_keys (count_rows agent db.rows) then too_many_keys else done tt, later db)
    else (query_failed, later db)

unfoldable pub check_key_limit : Env → Limits → String → String → Db → Result Unit × Db
unfolding check_count has_row
check_key_limit env l agent key db =
    if nat_beq l.max_keys 0
    then (done tt, db)
    else (if env.works db.moment && has_row agent key db.rows
        then (done tt, later db)
        else check_count env l agent (later db))

unfoldable pub write_row : Env → String → String → String → ℕ → Db → Result Unit × Db
unfolding upsert new_row
write_row env agent key value ttl db =
    if env.works db.moment
    then (done tt, with_rows (upsert (new_row env agent key value ttl db.moment) db.rows) db)
    else (query_failed, later db)

abbrev pub after_check : {A : Type 0} → (Db → Result A × Db) → Result Unit × Db → Result A × Db
after_check f (done u, db) = f db
after_check f (value_too_large, db) = (value_too_large, db)
after_check f (too_many_keys, db) = (too_many_keys, db)
after_check f (query_failed, db) = (query_failed, db)

unfoldable pub set : Env → Limits → String → String → String → ℕ → Db → Result Unit × Db
unfolding too_large check_key_limit write_row
set env l agent key value ttl db =
    if too_large l value
    then (value_too_large, db)
    else after_check (write_row env agent key value ttl) (check_key_limit env l agent key db)

abbrev pub not_at : String → String → Row → Bool
not_at agent key r = not (is_at agent key r)

unfoldable pub delete : Env → String → String → Db → Result Unit × Db
unfolding keep
delete env agent key db =
    if env.works db.moment
    then (done tt, with_rows (keep (not_at agent key) db.rows) db)
    else (query_failed, later db)

abbrev pub not_expired_at : String → String → ℕ → Row → Bool
not_expired_at agent key now r = not (is_at agent key r && not (is_live now r))

-- The DELETE of SetNX, whose error is ignored.
unfoldable pub free_slot : Env → String → String → Db → Db
unfolding keep
free_slot env agent key db =
    if env.works db.moment
    then with_rows (keep (not_expired_at agent key (second_at env db.moment)) db.rows) db
    else later db

unfoldable pub insert_row : Env → String → String → String → ℕ → Db → Result Bool × Db
unfolding insert_or_ignore new_row
insert_row env agent key value ttl db =
    let (n, rows) = insert_or_ignore (new_row env agent key value ttl db.moment) db.rows in
    if env.works db.moment then (done (ltb 0 n), with_rows rows db) else (query_failed, later db)

unfoldable pub claim_slot : Env → String → String → String → ℕ → Db → Result Bool × Db
unfolding free_slot insert_row
claim_slot env agent key value ttl db =
    insert_row env agent key value ttl (free_slot env agent key db)

unfoldable pub set_nx : Env → Limits → String → String → String → ℕ → Db → Result Bool × Db
unfolding too_large check_key_limit claim_slot
set_nx env l agent key value ttl db =
    if too_large l value
    then (value_too_large, db)
    else after_check (claim_slot env agent key value ttl) (check_key_limit env l agent key db)

unfoldable pub cleanup : Env → Db → Result Unit × Db
unfolding keep
cleanup env db =
    if env.works db.moment
    then (done tt, with_rows (keep (is_live (second_at env db.moment)) db.rows) db)
    else (query_failed, later db)

pub data Command : Type 0 where
  sets sets_nx : (agent key value : String) → (ttl : ℕ) → Command
  deletes : (agent key : String) → Command
  cleans : Command

unfoldable pub step : Env → Limits → Command → Db → Db
unfolding set set_nx delete cleanup
step env l (sets agent key value ttl) db = (set env l agent key value ttl db).1
step env l (sets_nx agent key value ttl) db = (set_nx env l agent key value ttl db).1
step env l (deletes agent key) db = (delete env agent key db).1
step env l cleans db = (cleanup env db).1

unfoldable pub run_all : Env → Limits → List Command → Db → Db
unfolding step
run_all env l [] db = db
run_all env l (c ∷ cs) db = run_all env l cs (step env l c db)
