-- ===== src/Task/Db/Outcomes.antt =====
-- Results of the transactions of internal/task/store.go: what a success tells, and what a driver
-- that carries out every statement gives.
use denkeeper.Prelude.{
  ℕ, ◌≡◌, inl, inr, refl, ◌∙◌, String, Bool, true, Bool-cases, some, arith, nat_eq, string_eq,
  Option-cases,
}
use denkeeper.Task.{Task, status_eq}
use denkeeper.Task.Db.Lemmas.{bind-eq-ok, get_task-eq-ok}
use denkeeper.Task.{EventKind, Payload}
use denkeeper.Task.Db.{
  ◌>>◌, exec, perform, written, push_event, update_task_row, add_event, insert_event, Tx,
  update_rows, Env, Db, Stmt, Result, ok, err, Error, Loaded, load, find_task, read_task, get_task,
  mutate, in_tx, finish_tx, then_get, ◌>>=◌, begin_tx, commit_tx, select_task, select_after,
  update_task,
}

-- A driver that carries out every statement.
pub record IsHealthy (env : Env) : Type 0 where
  pub all_run : (s : Stmt) → env.runs s ≡ true

-- A transaction whose body fails, on a healthy driver.
pub in_tx-eq-err :
    {A : Type 0} (env : Env) (m : Db → Result (A × Db)) (db : Db) (e : Error)
    → IsHealthy env
    → m db ≡ err e
    → in_tx env m db ≡ (err e, db)
unfolding in_tx
in_tx-eq-err env m db e h p = rw (h.all_run begin_tx, p) refl

pub read_task_of_runs :
    (env : Env) (s : Stmt) (id : ℕ) (db : Db) (t : Task)
    → env.runs s ≡ true
    → find_task id db.tasks ≡ some t
    → read_task env s id db ≡ ok (load db t)
unfolding read_task
read_task_of_runs env s id db t on found = rw (on, found) refl

pub read_task-eq-some :
    (env : Env) (s : Stmt) (id : ℕ) (db : Db) (t : Task)
    → IsHealthy env
    → find_task id db.tasks ≡ some t
    → read_task env s id db ≡ ok (load db t)
read_task-eq-some env s id db t h found = read_task_of_runs env s id db t (h.all_run s) found

pub get_task-eq-some :
    (env : Env) (s : Stmt) (id : ℕ) (db : Db) (t : Task)
    → IsHealthy env
    → find_task id db.tasks ≡ some t
    → get_task env s id db ≡ ok (load db t, db)
unfolding get_task
get_task-eq-some env s id db t h found = rw (read_task-eq-some env s id db t h found, get_task) refl

pub mutate-eq-err :
    (env : Env) (id : ℕ) (fn : Loaded → Db → Result (Unit {0} × Db)) (db : Db) (t : Task)
    (e : Error)
    → IsHealthy env
    → find_task id db.tasks ≡ some t
    → fn (load db t) db ≡ err e
    → mutate env id fn db ≡ (err e, db)
unfolding mutate
mutate-eq-err env id fn db t e h found failed =
    rw
      (in_tx-eq-err env (get_task env select_task id >>= fn) db e h
        (rw (get_task-eq-some env select_task id db t h found, ◌>>=◌) failed))
      refl

then_get-eq-ok :
    (env : Env) (id : ℕ) (r : Result (Unit {0}) × Db) (l : Loaded) (db' : Db)
    → then_get env id r ≡ (ok l, db')
    → (r ≡ (ok tt, db')) × (read_task env select_after id db' ≡ ok l)
then_get-eq-ok env id (err e, d) l db' h = absurd (ground arith)
then_get-eq-ok env id (ok u, d) l db' h = (ground arith, ground arith)

finish_tx-eq-ok :
    {A : Type 0} (env : Env) (db : Db) (r : Result (A × Db)) (a : A) (db' : Db)
    → finish_tx env db r ≡ (ok a, db')
    → r ≡ ok (a, db')
finish_tx-eq-ok env db (err e) a db' h = absurd (ground arith)
finish_tx-eq-ok env db (ok (b, d)) a db' h = ground arith

in_tx-eq-ok :
    {A : Type 0} (env : Env) (m : Tx A) (db : Db) (a : A) (db' : Db)
    → in_tx env m db ≡ (ok a, db')
    → m db ≡ ok (a, db')
unfolding in_tx
in_tx-eq-ok env m db a db' h = elim (Bool-cases (env.runs begin_tx)) [
  | inl on ↦ finish_tx-eq-ok env db (m db) a db' (rw on at h)
  | inr off ↦ absurd (ground arith)
]

pub mutate-eq-ok :
    (env : Env) (id : ℕ) (fn : Loaded → Db → Result (Unit {0} × Db)) (db db' : Db) (l : Loaded)
    → mutate env id fn db ≡ (ok l, db')
    → (t : Task) × (find_task id db.tasks ≡ some t)
      × (fn (load db t) db ≡ ok (tt, db'))
      × (read_task env select_after id db' ≡ ok l)
unfolding mutate
mutate-eq-ok env id fn db db' l h =
    let (committed, back) =
      then_get-eq-ok env id (in_tx env (get_task env select_task id >>= fn) db) l db' h in
    let ran = in_tx-eq-ok env (get_task env select_task id >>= fn) db tt db' committed in
    let (t, d, got, did) = bind-eq-ok (get_task env select_task id) fn db _ ran in
    let (row, found, loaded, same) = get_task-eq-ok env select_task id db d t got in
    (row, found, rw (← loaded, ← same) did, back)

pub read_task-eq-ok :
    (env : Env) (s : Stmt) (id : ℕ) (db : Db) (l : Loaded)
    → read_task env s id db ≡ ok l
    → (find_task id db.tasks ≡ some l.row)
unfolding read_task load
read_task-eq-ok env s id db l h = elim (Option-cases (find_task id db.tasks)) [
  | inl missing ↦ absurd (ground arith)
  | inr (t, found) ↦ ground arith
]

-- A transaction whose body succeeds, on a driver that carries out every statement.
pub mutate-eq-some :
    (env : Env) (id : ℕ) (fn : Loaded → Tx (Unit {0})) (db db' : Db) (t u : Task)
    → IsHealthy env
    → find_task id db.tasks ≡ some t
    → fn (load db t) db ≡ ok (tt, db')
    → find_task id db'.tasks ≡ some u
    → mutate env id fn db ≡ (ok (load db' u), db')
unfolding mutate in_tx
mutate-eq-some env id fn db db' t u h found ran found' =
    rw (h.all_run begin_tx, get_task-eq-some env select_task id db t h found, ◌>>=◌)
      (rw ran
        (rw (h.all_run commit_tx) (rw (read_task-eq-some env select_after id db' u h found'))))

bind-ok :
    {A B : Type 0} (m : Tx A) (f : A → Tx B) (db db' : Db) (a : A)
    → m db ≡ ok (a, db')
    → (m >>= f) db ≡ f a db'
bind-ok m f db db' a h = rw (h, ◌>>=◌) refl

perform-true : (b : Bool) (s : Stmt) (db : Db) → b ≡ true → perform b s db ≡ ok (tt, db)
perform-true b s db h = rw h refl

-- One row is updated and its thread is told, on a driver that carries out every statement.
pub write_and_tell-eq-some :
    (env : Env) (id : ℕ) (f : Task → Task) (actor : String) (kind : EventKind) (body : String)
    (payload : Payload) (db : Db)
    → IsHealthy env
    → (update_task_row env id f >> add_event env insert_event id actor kind body payload) db
      ≡ ok (tt, written (env.clock insert_event) id f actor kind body payload db)
unfolding update_task_row add_event
write_and_tell-eq-some env id f actor kind body payload db h =
    bind-ok (exec env update_task (λ d. record d { tasks = update_rows id f d.tasks }))
      (λ _. exec env insert_event (push_event (env.clock insert_event) id actor kind body payload))
      db _ tt (perform-true (env.runs update_task) update_task _ (h.all_run update_task))
    ∙ perform-true (env.runs insert_event) insert_event _ (h.all_run insert_event)
