-- ===== src/Task/Run.antt =====
-- Sequences of calls of internal/task/service.go, by any members, and what each call does to the
-- tables of the store.
pub mod Keeps
use denkeeper.Prelude.{
  ℕ, ◌≡◌, refl, subst, String, true, false, not, ◌||◌, Bool-cases, Option, none, some, List, [],
  ◌∷◌, inl, inr, ◌==◌, string_eq,
}
use denkeeper.Task.{EventKind, Status, status_eq}
use denkeeper.Task.Db.{Env, Db, Result, ok, err, Loaded, read_task, select_task}
use denkeeper.Task.Store
use denkeeper.Task.Effect.{Effect}
use denkeeper.Task.Service
use denkeeper.Task.Service.{
  World, Svc, ◌>>=◌, ◌>>◌, and_then, give, call, on_db, CreateRequest, UpdateRequest, Drivers, emit,
  notify, notify_parent, edit_step, assign_step, move_step, Change, clean_text, edit_field, resolve,
  resolve_optional,
}

-- A call of the service that may write.
pub data Command : Type 0 where
  file_task : Env → CreateRequest → Command
  check_out : Env → ℕ → Command
  let_go : Env → ℕ → Command
  change : Drivers → ℕ → UpdateRequest → Command
  say : Env → ℕ → String → Command

unfoldable pub step : Service.Service → String → Command → World → World
step sv actor (file_task env req) w = (Service.create sv env actor req w).1
step sv actor (check_out env id) w = (Service.checkout sv env actor id w).1
step sv actor (let_go env id) w = (Service.release sv env actor id w).1
step sv actor (change drivers id req) w = (Service.update sv drivers actor id req w).1
step sv actor (say env id body) w = (Service.add_comment sv env actor id body w).1

-- Calls in the order in which their transactions are committed, each with its member.
unfoldable pub run : Service.Service → List (String × Command) → World → World
run sv [] w = w
run sv ((actor, c) ∷ cs) w = run sv cs (step sv actor c w)

-- Effects of one member's call, one after another.
pub data Effects (limits : Store.Limits) (actor : String) (db : Db) : Db → Type 0 where
  done : Effects limits actor db db
  next :
      {d d' : Db}
      → Effects limits actor db d
      → Effect limits actor d d'
      → Effects limits actor db d'
