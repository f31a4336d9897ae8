-- ===== src/Task/Partial.antt =====
-- Service.Update of internal/task/service.go where a later part of it is refused.
use denkeeper.Prelude.{
  trim_space, ℕ, ◌≡◌, ◌≢◌, refl, sym, ◌∙◌, String, true, false, Bool-cases, none, some, [], ◌∷◌,
  ◌++◌, inl, inr, ◌==◌, nat_eq, nat_beq_iff, string_eq, beq-eq-false_of_ne,
}
use denkeeper.Task.{
  EventKind, Status, todo, valid_status, other, Task, human, status_eq, edited, empty,
}
use denkeeper.Task.Lifecycle.{IsSound}
use denkeeper.Task.Rules.{unknown_status}
use denkeeper.Task.Db.{
  Env, Db, ok, err, rule, Loaded, load, read_task, find_task, select_task, update_task,
  insert_event, written,
}
use denkeeper.Task.Db.Rows.{find_task-update_rows, find_task-All}
use denkeeper.Task.Db.Outcomes.{
  IsHealthy, mutate-eq-some, write_and_tell-eq-some, read_task_of_runs,
}
use denkeeper.Task.Store.{edit, rewrite, edit_row, set_status}
use denkeeper.Task.Invariant.{IsWellFormed}
use denkeeper.Task.Service.{
  World, Service, Svc, Drivers, update, edit_step, assign_step, move_step, emit, notify, clean_text,
  and_then, Change, ◌>>=◌, call, on_db,
}

-- Fanning out a change, or recording an event, succeeds and leaves the tables.
notify_lem :
    (sv : Service) (c : Change) (w : World)
    → (w' : World) × (notify sv c w ≡ (ok tt, w')) × (w'.db ≡ w.db)
unfolding notify
notify_lem sv c w = elim (Bool-cases sv.has_hook) [
  | inl e ↦ (record w { changes = w.changes ++ c ∷ [] }, rw e refl, refl)
  | inr e ↦ (w, rw e refl, refl)
]

emit_lem :
    (sv : Service) (actor : String) (id : ℕ) (kind : EventKind) (w : World)
    → (w' : World) × (emit sv actor id kind w ≡ (ok tt, w')) × (w'.db ≡ w.db)
unfolding emit
emit_lem sv actor id kind w = elim (Bool-cases sv.has_auditor) [
  | inl e ↦ rw e (notify_lem sv _ _)
  | inr e ↦ rw e (notify_lem sv _ w)
]

rewrite_by_operator :
    (env : Env) (id : ℕ) (title : String) (db : Db) (t : Task)
    → IsHealthy env
    → title ≢ t.title
    → rewrite env human id title t.body (load db t) db
      ≡ ok (
        tt,
        written
            (env.clock insert_event)
            id
            (edit_row title t.body (env.clock update_task))
            human
            edited
            ""
            empty
            db,
      )
unfolding rewrite load
rewrite_by_operator env id title db t h differs =
    rw (beq-eq-false_of_ne t.title title (λ e. differs (sym e))) (
      write_and_tell-eq-some env id (edit_row title t.body (env.clock update_task)) human edited ""
        empty db h)

empty_reason : clean_text "reason" "" 500 false ≡ ok ""
unfolding clean_text trim_space
empty_reason = refl

unknown_differs : (st : String) (s : Status) → valid_status s ≡ true → (other st == s) ≡ false
unknown_differs st (other s) v = absurd (cc)
unknown_differs st todo v = refl
unknown_differs st s v = refl

-- A move to an unknown status is refused before any statement.
move_step_unknown :
    (sv : Service) (env : Env) (id : ℕ) (st : String) (l : Loaded) (w : World)
    → valid_status l.status ≡ true
    → move_step sv env human id (some (other st)) "" l w ≡ (err (rule unknown_status), w)
unfolding move_step set_status
move_step_unknown sv env id st l w v = rw (unknown_differs st l.status v) refl

bind_ok :
    {A B : Type 0} (m : Svc A) (f : A → Svc B) (w w' : World) (a : A)
    → m w ≡ (ok a, w')
    → (m >>= f) w ≡ f a w'
bind_ok m f w w' a h = rw (h, ◌>>=◌) refl

-- Update, from what its steps give.
update_of_steps :
    (sv : Service) (drivers : Drivers) (id : ℕ) (w w' : World) (s title st : String)
    (cur l : Loaded)
    → read_task drivers.get select_task id w.db ≡ ok cur
    → clean_text "title" s 200 true ≡ ok title
    → edit_step sv drivers.edit human id title cur.body cur w ≡ (ok l, w')
    → move_step sv drivers.move human id (some (other st)) "" l w' ≡ (err (rule unknown_status), w')
    → update sv drivers human id
        (record {
          title = some s;
          body = none;
          assignee = none;
          status = some (other st);
          reason = "";
        })
        w
      ≡ (err (rule unknown_status), w')
unfolding update assign_step
update_of_steps sv drivers id w w' s title st cur l read clean stepped stopped =
    rw (read, ◌>>=◌, call, on_db, and_then)
      (rw (clean) (
        rw empty_reason (
          bind_ok (edit_step sv drivers.edit human id title cur.body cur) _ w w' l stepped
          ∙ stopped)))

module _ (sv : Service) (drivers : Drivers) (id : ℕ) (w : World) (t : Task) (s title st : String)
    (get_ok : IsHealthy drivers.get) (edit_ok : IsHealthy drivers.edit)
    (well : IsWellFormed sv.limits w.db) (found : find_task id w.db.tasks ≡ some t)
    (clean : clean_text "title" s 200 true ≡ ok title) (differs : title ≢ t.title) where
  abbrev edit_row_of : Task
  edit_row_of = edit_row title t.body (drivers.edit.clock update_task) t

  edit_by_operator :
      (db' : Db) × (edit drivers.edit human id title t.body w.db ≡ (ok (load db' edit_row_of), db'))
      × (find_task id db'.tasks ≡ some edit_row_of)
  unfolding edit
  edit_by_operator =
      let f = edit_row title t.body (drivers.edit.clock update_task) in
      let same_id : (f t).id ≡ t.id = unfold edit_row in refl in
      let after =
        find_task-update_rows id id 0 f w.db.tasks t well.ordered found same_id
        ∙ rw ((nat_beq_iff id id).1 refl) refl in
      (
        written (drivers.edit.clock insert_event) id f human edited "" empty w.db,
        mutate-eq-some drivers.edit id (rewrite drivers.edit human id title t.body) w.db _ t (f t)
            edit_ok found (rewrite_by_operator drivers.edit id title w.db t edit_ok differs) after,
        after,
      )

  edit_step_by_operator :
      (db' : Db) × (w' : World) × (edit_step sv drivers.edit human id title t.body (load w.db t) w
        ≡ (ok (load db' edit_row_of), w'))
      × (find_task id w'.db.tasks ≡ some edit_row_of)
  unfolding edit_step load
  edit_step_by_operator =
      let (db', edited_ok, after) = edit_by_operator in
      let (w', told, same) = emit_lem sv human id edited (record w { db = db' }) in
      (
        db',
        w',
        rw (beq-eq-false_of_ne title t.title differs) (rw (edited_ok, told) refl),
        rw same after,
      )

  -- An update by the operator that asks for a new title and an unknown status is answered with the
  -- refusal of the status, and the new title is in the table all the same.
  pub update_keeps_edit :
      let r =
        update sv drivers human id
          (record {
            title = some s;
            body = none;
            assignee = none;
            status = some (other st);
            reason = "";
          })
          w in
      (r.0 ≡ err (rule unknown_status))
      × (u : Task) × (find_task id r.1.db.tasks ≡ some u)
      × (u.title ≡ title)
      × (t.title ≢ title)
  unfolding update
  update_keeps_edit =
      let (db', w', stepped, after) = edit_step_by_operator in
      let sound = find_task-All IsSound id w.db.tasks t found well.sound in
      let stopped =
        move_step_unknown sv drivers.move id st (load db' edit_row_of) w'
          (unfold edit_row load in sound.known) in
      let read =
        read_task_of_runs drivers.get select_task id w.db t (get_ok.all_run select_task) found in
      let all =
        update_of_steps sv drivers id w w' s title st (load w.db t) (load db' edit_row_of) read
          clean (unfold load in stepped) stopped in
      (rw all refl, edit_row_of, rw all after, unfold edit_row in refl, λ e. differs (sym e))
