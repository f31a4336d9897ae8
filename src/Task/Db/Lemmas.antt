-- ===== src/Task/Db/Lemmas.antt =====
-- Transactions of internal/task/store.go: what holds after one, and lookups after an update.
use denkeeper.Prelude.{
  ℕ, ◌≡◌, refl, Bool, Bool-cases, true, false, Option, none, some, String, arith, inl, inr, ◌⊎◌,
  Option-cases,
}
use denkeeper.Task.{Task, EventKind, Payload}
use denkeeper.Task.Rules.{Refusal}
use denkeeper.Task.Db.{
  Env, Db, Stmt, Tx, ◌>>=◌, ◌>>◌, Result, ok, err, Error, Loaded, load, in_tx, finish_tx, then_get,
  mutate, find_task, read_task, get_task, select_task, begin_tx, commit_tx, refuse_if, allow, exec,
  perform, push_event, update_rows, update_task, update_task_row, add_event, insert_event, written,
}

finish_tx_after :
    {A : Type 0} (P : Db → Type 0) (env : Env) (db : Db) (r : Result (A × Db))
    → P db
    → ((a : A) (db' : Db) → r ≡ ok (a, db') → P db')
    → P (finish_tx env db r).1
finish_tx_after P env db (err e) before after = before
finish_tx_after P env db (ok (a, db')) before after = elim (Bool-cases (env.runs commit_tx)) [
  | inl on ↦ rw on (after a db' refl)
  | inr off ↦ rw off before
]

-- What holds before a transaction, and after each run of its body that succeeds, holds after it.
pub in_tx_after :
    {A : Type 0} (P : Db → Type 0) (env : Env) (m : Tx A) (db : Db)
    → P db
    → ((a : A) (db' : Db) → m db ≡ ok (a, db') → P db')
    → P (in_tx env m db).1
unfolding in_tx
in_tx_after P env m db before after = elim (Bool-cases (env.runs begin_tx)) [
  | inr off ↦ rw off before
  | inl on ↦ rw on (finish_tx_after P env db (m db) before after)
]

pub then_get-db : (env : Env) (id : ℕ) (r : Result (Unit {0}) × Db) → (then_get env id r).1 ≡ r.1
then_get-db env id (err e, db) = refl
then_get-db env id (ok _, db) = refl

pub get_task-eq-ok :
    (env : Env) (s : Stmt) (id : ℕ) (db db' : Db) (t : Loaded)
    → get_task env s id db ≡ ok (t, db')
    → (row : Task) × (find_task id db.tasks ≡ some row) × (t ≡ load db row) × (db' ≡ db)
unfolding get_task read_task
get_task-eq-ok env s id db db' t h = elim (Option-cases (find_task id db.tasks)) [
  | inl missing ↦ absurd (ground arith)
  | inr (row, found) ↦ (row, found, ground arith, ground arith)
]

pub Result-cases {ℓ} :
    {A : Type ℓ} (r : Result A) → ((e : Error) × (r ≡ err e)) ⊎ ((a : A) × (r ≡ ok a))
Result-cases (err e) = inl (e, refl)
Result-cases (ok a) = inr (a, refl)

pub bind-eq-ok :
    {A B : Type 0} (m : Tx A) (f : A → Tx B) (db : Db) (r : B × Db)
    → (m >>= f) db ≡ ok r
    → (a : A) × (db' : Db) × (m db ≡ ok (a, db')) × (f a db' ≡ ok r)
bind-eq-ok m f db r h = elim (Result-cases (m db)) [
  | inl (e, p) ↦ absurd (cc (rw (p, ◌>>=◌) at h))
  | inr ((a, db'), p) ↦ (a, db', p, rw (p, ◌>>=◌) at h)
]

-- The same for `mutate`: the body is run on the task that was found.
pub mutate_after :
    (P : Db → Type 0) (env : Env) (id : ℕ) (fn : Loaded → Tx (Unit {0})) (db : Db)
    → P db
    → ((t : Task) (db' : Db)
        → find_task id db.tasks ≡ some t
        → fn (load db t) db ≡ ok (tt, db')
        → P db')
    → P (mutate env id fn db).1
unfolding mutate
mutate_after P env id fn db before after = rw (then_get-db env id _) (
    in_tx_after P env (get_task env select_task id >>= fn) db before (λ _ db' h.
      let (t, db1, got, ran) = bind-eq-ok (get_task env select_task id) fn db _ h in
      let (row, found, loaded, same) = get_task-eq-ok env select_task id db db1 t got in
      after row db' found (rw (← loaded, ← same) ran)))

-- A guard that was passed.
pub refuse_if-eq-ok :
    {B : Type 0} (b : Bool) (r : Refusal) (m : Tx B) (db : Db) (x : B × Db)
    → (refuse_if b r >> m) db ≡ ok x
    → (b ≡ false) × (m db ≡ ok x)
refuse_if-eq-ok true r m db x h = absurd (cc)
refuse_if-eq-ok false r m db x h = (refl, h)

pub allow-eq-ok :
    {B : Type 0} (o : Option Refusal) (m : Tx B) (db : Db) (x : B × Db)
    → (allow o >> m) db ≡ ok x
    → (o ≡ none) × (m db ≡ ok x)
allow-eq-ok (some r) m db x h = absurd (cc)
allow-eq-ok none m db x h = (refl, h)

perform-eq-ok :
    (b : Bool) (s : Stmt) (d d' : Db) (a : Unit {0}) → perform b s d ≡ ok (a, d') → d' ≡ d
perform-eq-ok true s d d' a h = ground arith
perform-eq-ok false s d d' a h = absurd (cc)

pub exec-eq-ok :
    {B : Type 0} (env : Env) (s : Stmt) (f : Db → Db) (m : Tx B) (db : Db) (x : B × Db)
    → (exec env s f >> m) db ≡ ok x
    → m (f db) ≡ ok x
exec-eq-ok env s f m db x h =
    let (a, db1, did, rest) = bind-eq-ok (exec env s f) (λ _. m) db x h in
    rw (perform-eq-ok (env.runs s) s (f db) db1 a did) at rest

pub add_event-eq-ok :
    {B : Type 0} (env : Env) (s : Stmt) (id : ℕ) (actor : String) (kind : EventKind) (body : String)
    (payload : Payload) (m : Tx B) (db : Db) (x : B × Db)
    → (add_event env s id actor kind body payload >> m) db ≡ ok x
    → m (push_event (env.clock s) id actor kind body payload db) ≡ ok x
unfolding add_event
add_event-eq-ok env s id actor kind body payload m db x h =
    exec-eq-ok env s (push_event (env.clock s) id actor kind body payload) m db x h

pub add_event-eq-ok_last :
    (env : Env) (s : Stmt) (id : ℕ) (actor : String) (kind : EventKind) (body : String)
    (payload : Payload) (db db' : Db)
    → add_event env s id actor kind body payload db ≡ ok (tt, db')
    → db' ≡ push_event (env.clock s) id actor kind body payload db
unfolding add_event
add_event-eq-ok_last env s id actor kind body payload db db' h =
    perform-eq-ok (env.runs s) s _ db' tt h

pub update_task_row-eq-ok :
    {B : Type 0} (env : Env) (id : ℕ) (f : Task → Task) (m : Tx B) (db : Db) (x : B × Db)
    → (update_task_row env id f >> m) db ≡ ok x
    → m (record db { tasks = update_rows id f db.tasks }) ≡ ok x
unfolding update_task_row
update_task_row-eq-ok env id f m db x h =
    exec-eq-ok env update_task (λ d. record d { tasks = update_rows id f d.tasks }) m db x h

-- The end of an operation: one row is updated and its thread is told.
pub write_and_tell-eq-ok :
    (env : Env) (id : ℕ) (f : Task → Task) (actor : String) (kind : EventKind) (body : String)
    (payload : Payload) (db db' : Db)
    → (update_task_row env id f >> add_event env insert_event id actor kind body payload) db
      ≡ ok (tt, db')
    → db' ≡ written (env.clock insert_event) id f actor kind body payload db
write_and_tell-eq-ok env id f actor kind body payload db db' h =
    add_event-eq-ok_last env insert_event id actor kind body payload _ db' (
      update_task_row-eq-ok env id f (add_event env insert_event id actor kind body payload) db _ h)
