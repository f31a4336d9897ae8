-- ===== src/Task/History.antt =====
-- The threads of internal/task/store.go: the event table is only appended to.
use denkeeper.Prelude.{◌≡◌, refl, sym, ◌∙◌, ap, String, List, [], ◌∷◌, ◌++◌, All, All-append, arith}
use mathlib.Core.List.{append-nil, append_assoc, append-eq-nil_iff}
use denkeeper.Task.{Event}
use denkeeper.Task.Db.{Db, new_event}
use denkeeper.Task.Store.{Limits}
use denkeeper.Task.Effect.{Effect, nothing, wrote, filed}
use denkeeper.Task.Service.{World, Service}
use denkeeper.Task.Run.Keeps.{step-Effects}
use denkeeper.Task.Run.{Command, step, Effects, done, next}

-- What is added to the event table: events of the actor, and some if a row was changed or added.
pub record IsTold (actor : String) (db db' : Db) : Type 0 where
  pub more : List Event
  pub appended : db'.events ≡ db.events ++ more
  pub signed : All (λ e. e.actor ≡ actor) more
  pub none_silent : more ≡ [] → db'.tasks ≡ db.tasks

Effect-IsTold :
    (limits : Limits) (actor : String) (db db' : Db)
    → Effect limits actor db db'
    → IsTold actor db db'
Effect-IsTold limits actor db db' (nothing same) = record {
  more = [];
  appended = rw same (sym (append-nil db.events));
  signed = tt;
  none_silent = λ _. rw same;
}
Effect-IsTold limits actor db db' (wrote now id t f kind body payload found st same) = record {
  more = new_event now id actor kind body payload db.next_event ∷ [];
  appended = ap (λ (d : Db). d.events) same;
  signed = (refl, tt);
  none_silent = λ h. absurd (ground (arith, h));
}
Effect-IsTold limits actor db db' (filed u e more fresh tasks nx events by) = record {
  more = e ∷ more;
  appended = events;
  signed = by;
  none_silent = λ h. absurd (ground (arith, h));
}

Effects-IsTold :
    (limits : Limits) (actor : String) (db db' : Db)
    → Effects limits actor db db'
    → IsTold actor db db'
Effects-IsTold limits actor db db' done = record {
  more = [];
  appended = sym (append-nil db.events);
  signed = tt;
  none_silent = λ _. refl;
}
Effects-IsTold limits actor db db' (next {d} es e) =
    let a = Effects-IsTold limits actor db d es in
    let b = Effect-IsTold limits actor d db' e in
    record {
      more = a.more ++ b.more;
      appended =
          b.appended ∙ ap (λ l. l ++ b.more) a.appended ∙ append_assoc db.events a.more b.more;
      signed = All-append (λ x. x.actor ≡ actor) a.more b.more a.signed b.signed;
      none_silent = λ h. let (p, q) = append-eq-nil_iff.0 h in b.none_silent q ∙ a.none_silent p;
    }

-- A call of the service only appends to the event table, appends events signed by the caller
-- alone, and appends at least one where it changes or adds a task.
pub step-IsTold :
    (sv : Service) (actor : String) (c : Command) (w : World)
    → IsTold actor w.db (step sv actor c w).db
step-IsTold sv actor c w = Effects-IsTold sv.limits actor w.db _ (step-Effects sv actor c w)
