-- ===== src/Task/Db.antt =====
-- internal/task/store.go: the two tables, the SQL statements of the package as operations on them,
-- and transactions.
--
-- The SQL driver is a parameter, `Env`: whether it carries out each statement of a call, and what
-- the clock shows when the statement's arguments are made. A statement that the driver refuses
-- gives `driver`. A transaction that returns an error leaves the tables as they were (Rollback),
-- and so does a Commit that fails.
pub mod Lemmas
pub mod Rows
pub mod Outcomes
use denkeeper.Prelude.{
  ℕ, ◌+◌, String, Bool, true, false, ◌&&◌, Option, none, some, List, [], ◌∷◌, ◌++◌, if◌then◌else◌,
  ◌==◌, nat_eq,
}
use denkeeper.Task.{EventKind, Payload, Task, Event, done, status_eq}
use denkeeper.Task.Rules.{Refusal}

-- The statements that one call sends to the driver.
pub data Stmt : Type 0 where
  begin_tx select_task select_parent insert_task update_task insert_event : Stmt
  insert_parent_event select_event commit_tx select_after : Stmt

pub record Env : Type 0 where
  pub runs : Stmt → Bool
  pub clock : Stmt → ℕ

pub record Db : Type 0 where
  pub tasks : List Task
  pub events : List Event
  pub next_task : ℕ
  pub next_event : ℕ

-- Why a claim is refused: the three cases of checkoutConflict.
pub data Conflict : Type 0 where
  held_elsewhere assigned_elsewhere not_claimable : Conflict

pub data Error : Type 0 where
  not_found : ℕ → Error
  conflict : (task_id : ℕ) (holder : String) → Conflict → Error
  rule : Refusal → Error
  driver : Stmt → Error
  directory_failed : Error

pub data Result {ℓ} (A : Type ℓ) : Type ℓ where
  ok : A → Result A
  err : Error → Result A

-- Code inside a transaction: it reads and writes the tables, or stops with an error.
abbrev pub Tx : Type 0 → Type 0
Tx A = Db → Result (A × Db)

infixl 5 ◌>>=◌ ◌>>◌
abbrev pub ◌>>=◌ : {A B : Type 0} → Tx A → (A → Tx B) → Tx B
◌>>=◌ m f db = elim (m db) [ err e ↦ err e | ok (a, db') ↦ f a db' ]

abbrev pub ◌>>◌ : {B : Type 0} → Tx (Unit {0}) → Tx B → Tx B
m >> k = m >>= λ _. k

abbrev pub pure : {A : Type 0} → A → Tx A
pure a db = ok (a, db)

abbrev pub fail : {A : Type 0} → Error → Tx A
fail e db = err e

-- `return ruleErr(...)` where the rule refuses.
abbrev pub allow : Option Refusal → Tx (Unit {0})
allow none = pure tt
allow (some r) = fail (rule r)

abbrev pub refuse_if : Bool → Refusal → Tx (Unit {0})
refuse_if true r = fail (rule r)
refuse_if false r = pure tt

abbrev pub perform : Bool → Stmt → Db → Result (Unit {0} × Db)
perform true s db = ok (tt, db)
perform false s db = err (driver s)

abbrev pub exec : Env → Stmt → (Db → Db) → Tx (Unit {0})
exec env s f db = perform (env.runs s) s (f db)

-- SELECT ... WHERE t.id = ?
unfoldable pub find_task : ℕ → List Task → Option Task
find_task id [] = none
find_task id (t ∷ ts) = if t.id == id then some t else find_task id ts

-- UPDATE tasks SET ... WHERE id = ?
unfoldable pub update_rows : ℕ → (Task → Task) → List Task → List Task
update_rows id f [] = []
update_rows id f (t ∷ ts) = (if t.id == id then f t else t) ∷ update_rows id f ts

abbrev pub is_child_of : ℕ → Task → Bool
is_child_of id c = elim c.parent_id [ none ↦ false | some p ↦ p == id ]

-- SELECT COUNT(*) FROM tasks c WHERE ...
unfoldable pub count_rows : (Task → Bool) → List Task → ℕ
count_rows p [] = 0
count_rows p (t ∷ ts) = (if p t then 1 else 0) + count_rows p ts

-- A task as getTask loads it: the row and its subtask counts.
pub record Loaded : Type 0 where
  pub row : Task
  pub open row use *
  pub children_total : ℕ
  pub children_done : ℕ

unfoldable pub load : Db → Task → Loaded
load db t = record {
  row = t;
  children_total = count_rows (is_child_of t.id) db.tasks;
  children_done = count_rows (λ c. is_child_of t.id c && c.status == done) db.tasks;
}

-- getTask, by the statement `s`.
unfoldable pub read_task : Env → Stmt → ℕ → Db → Result Loaded
read_task env s id db =
    if env.runs s
    then elim (find_task id db.tasks) [ none ↦ err (not_found id) | some t ↦ ok (load db t) ]
    else err (driver s)

unfoldable pub get_task : Env → Stmt → ℕ → Tx Loaded
get_task env s id db = elim (read_task env s id db) [ err e ↦ err e | ok t ↦ ok (t, db) ]

-- One row of task_events.
abbrev pub new_event : ℕ → ℕ → String → EventKind → String → Payload → ℕ → Event
new_event now task_id actor kind body payload id = record {
  id = id;
  task_id = task_id;
  at = now;
  actor = actor;
  kind = kind;
  body = body;
  payload = payload;
}

abbrev pub push_event : ℕ → ℕ → String → EventKind → String → Payload → Db → Db
push_event now task_id actor kind body payload db = record db {
  events = db.events ++ new_event now task_id actor kind body payload db.next_event ∷ [];
  next_event = db.next_event + 1;
}

-- addEvent
unfoldable pub add_event : Env → Stmt → ℕ → String → EventKind → String → Payload → Tx (Unit {0})
add_event env s task_id actor kind body payload =
    exec env s (push_event (env.clock s) task_id actor kind body payload)

-- UPDATE of one row by its id.
unfoldable pub update_task_row : Env → ℕ → (Task → Task) → Tx (Unit {0})
update_task_row env id f =
    exec env update_task (λ db. record db { tasks = update_rows id f db.tasks })

-- The tables after one step `f` on the row `id`, told to its thread.
abbrev pub written : ℕ → ℕ → (Task → Task) → String → EventKind → String → Payload → Db → Db
written now id f actor kind body payload db =
    push_event now id actor kind body payload (record db { tasks = update_rows id f db.tasks })

-- The end of inTx: Rollback after an error, Commit otherwise.
abbrev pub finish_tx : {A : Type 0} → Env → Db → Result (A × Db) → Result A × Db
finish_tx env db (err e) = (err e, db)
finish_tx env db (ok (a, db')) =
    if env.runs commit_tx then (ok a, db') else (err (driver commit_tx), db)

-- inTx
unfoldable pub in_tx : {A : Type 0} → Env → Tx A → Db → Result A × Db
in_tx env fn db =
    if env.runs begin_tx then finish_tx env db (fn db) else (err (driver begin_tx), db)

-- The read after a committed transaction: `return s.Get(ctx, id)`.
abbrev pub then_get : Env → ℕ → Result (Unit {0}) × Db → Result Loaded × Db
then_get env id (err e, db) = (err e, db)
then_get env id (ok _, db) = (read_task env select_after id db, db)

-- mutate
unfoldable pub mutate : Env → ℕ → (Loaded → Tx (Unit {0})) → Db → Result Loaded × Db
mutate env id fn db = then_get env id (in_tx env (get_task env select_task id >>= fn) db)
