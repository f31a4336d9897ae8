-- ===== src/Task/Effect/Updates.antt =====
-- The effects of the operations of internal/task/store.go that change one row.
use denkeeper.Prelude.{
  ap, ◌∙◌, ne_of_beq-eq-false, not, ◌&&◌, ℕ, ◌≡◌, refl, inl, inr, String, true, Bool-cases, some,
  arith, eq_iff, ◌==◌, string_eq,
}
use denkeeper.Task.{
  Status, Task, Event, human, is_closed, claimed, released, status, assigned, edited, comment,
  empty, held_by, moved, reassigned, valid_status, status_eq, in_progress,
}
use denkeeper.Task.Rules.{check_status_rule}
use denkeeper.Task.Lifecycle.{claims, releases, moves, reassigns, edits, touches}
use denkeeper.Task.Db.{
  Env, Db, written, ok, load, find_task, update_task, insert_event, get_task, select_task,
}
use denkeeper.Task.Db.Lemmas.{
  mutate_after, in_tx_after, bind-eq-ok, get_task-eq-ok, refuse_if-eq-ok, allow-eq-ok,
  add_event-eq-ok, update_task_row-eq-ok, write_and_tell-eq-ok,
}
use denkeeper.Task.Store.{
  Limits, claim, claim_row, checkout, release_held, release_row, release, move, status_row,
  set_status, reassign, assign_row, assign, rewrite, edit_row, edit, touch_row, comment_tx,
  add_comment, select_last_event,
}
use denkeeper.Task.Effect.{Effect, nothing, wrote}

module _ (limits : Limits) (env : Env) (actor : String) (id : ℕ) (db : Db) where
  release_held-Effect :
      (t : Task) (db' : Db)
      → find_task id db.tasks ≡ some t
      → release_held env actor id (load db t) db ≡ ok (tt, db')
      → Effect limits actor db db'
  unfolding release_held load
  release_held-Effect t db' found ran =
      let (held, ran1) = refuse_if-eq-ok (t.holder == "") _ _ db _ ran in
      let (allowed, ran2) =
        refuse_if-eq-ok (not (actor == human) && not (actor == t.holder)) _ _ db _ ran1 in
      wrote (env.clock insert_event) id t (release_row (env.clock update_task)) released ""
        (held_by t.holder) found
        (releases _ (ne_of_beq-eq-false t.holder "" held)
          (ground (arith, eq_iff actor human, eq_iff actor t.holder)))
        (write_and_tell-eq-ok env id _ actor _ _ _ db db' ran2)

  pub release-Effect : Effect limits actor db (release env actor id db).1
  unfolding release
  release-Effect =
      mutate_after (Effect limits actor db) env id (release_held env actor id) db (nothing refl)
        release_held-Effect

  claim-Effect :
      (t : Task) (db' : Db)
      → find_task id db.tasks ≡ some t
      → claim env actor id (load db t) db ≡ ok (tt, db')
      → Effect limits actor db db'
  unfolding claim load
  claim-Effect t db' found ran = elim (Bool-cases (t.holder == actor && t.status == in_progress)) [
    | inl again ↦ nothing (ground arith)
    | inr first ↦
        wrote (env.clock insert_event) id t (claim_row actor (env.clock update_task)) claimed ""
          empty found (claims _ (ground arith)) (ground arith)
  ]

  pub checkout-Effect : Effect limits actor db (checkout env actor id db).1
  unfolding checkout
  checkout-Effect =
      mutate_after (Effect limits actor db) env id (claim env actor id) db (nothing refl)
        claim-Effect

  module _ (s : Status) (reason : String) where
    move-Effect :
        (t : Task) (db' : Db)
        → valid_status s ≡ true
        → find_task id db.tasks ≡ some t
        → move env actor id s reason (load db t) db ≡ ok (tt, db')
        → Effect limits actor db db'
    unfolding move load
    move-Effect t db' v found ran = elim (Bool-cases (t.status == s)) [
      | inl there ↦ nothing (ground arith)
      | inr away ↦
          let (allowed, ran1) =
            allow-eq-ok (check_status_rule actor t s reason) _ db _ (rw away at ran) in
          wrote (env.clock insert_event) id t (status_row s reason (env.clock update_task)) status
            reason (moved t.status s) found (moves _ s reason v allowed)
            (write_and_tell-eq-ok env id _ actor _ _ _ db db' ran1)
    ]

    pub set_status-Effect : Effect limits actor db (set_status env actor id s reason db).1
    unfolding set_status
    set_status-Effect = elim (Bool-cases (valid_status s)) [
      | inr unknown ↦ rw unknown (nothing refl)
      | inl known ↦ rw known (
          mutate_after (Effect limits actor db) env id (move env actor id s reason) db
            (nothing refl) (λ t db'. move-Effect t db' known))
    ]

  module _ (assignee : String) where
    reassign-Effect :
        (t : Task) (db' : Db)
        → find_task id db.tasks ≡ some t
        → reassign env actor id assignee (load db t) db ≡ ok (tt, db')
        → Effect limits actor db db'
    unfolding reassign load
    reassign-Effect t db' found ran = elim (Bool-cases (t.assignee == assignee)) [
      | inl same ↦ nothing (ground arith)
      | inr differs ↦
          let (open_task, ran1) =
            refuse_if-eq-ok (is_closed t.status) _ _ db _ (rw differs at ran) in
          let (allowed, ran2) =
            refuse_if-eq-ok
              (not (actor == human) && not (actor == t.created_by) && not (actor == t.assignee)) _ _
              db _ ran1 in
          wrote (env.clock insert_event) id t (assign_row assignee (env.clock update_task)) assigned
            "" (reassigned t.assignee assignee) found
            (reassigns _ assignee open_task (
              ground
                (arith, eq_iff actor human, eq_iff actor t.created_by, eq_iff actor t.assignee)))
            (write_and_tell-eq-ok env id _ actor _ _ _ db db' ran2)
    ]

    pub assign-Effect : Effect limits actor db (assign env actor id assignee db).1
    unfolding assign
    assign-Effect =
        mutate_after (Effect limits actor db) env id (reassign env actor id assignee) db
          (nothing refl) reassign-Effect

  module _ (title body : String) where
    rewrite-Effect :
        (t : Task) (db' : Db)
        → find_task id db.tasks ≡ some t
        → rewrite env actor id title body (load db t) db ≡ ok (tt, db')
        → Effect limits actor db db'
    unfolding rewrite load
    rewrite-Effect t db' found ran = elim (Bool-cases (t.title == title && t.body == body)) [
      | inl same ↦ nothing (ground arith)
      | inr differs ↦
          let (allowed, ran1) =
            refuse_if-eq-ok (not (actor == human) && not (actor == t.created_by)) _ _ db _
              (rw differs at ran) in
          wrote (env.clock insert_event) id t (edit_row title body (env.clock update_task)) edited
            "" empty found
            (edits _ title body (ground (arith, eq_iff actor human, eq_iff actor t.created_by)))
            (write_and_tell-eq-ok env id _ actor _ _ _ db db' ran1)
    ]

    pub edit-Effect : Effect limits actor db (edit env actor id title body db).1
    unfolding edit
    edit-Effect =
        mutate_after (Effect limits actor db) env id (rewrite env actor id title body) db
          (nothing refl) rewrite-Effect

  module _ (body : String) where
    select_last_event-db :
        (d d' : Db) (e : Event) → select_last_event env id d ≡ ok (e, d') → d' ≡ d
    unfolding select_last_event
    select_last_event-db d d' e h = ground arith

    comment_tx-Effect :
        (e : Event) (db' : Db)
        → comment_tx env actor id body db ≡ ok (e, db')
        → Effect limits actor db db'
    unfolding comment_tx
    comment_tx-Effect e db' ran =
        let (t, db1, got, ran1) = bind-eq-ok (get_task env select_task id) _ db _ ran in
        let (row, found, _, same) = get_task-eq-ok env select_task id db db1 t got in
        let ran2 = add_event-eq-ok env insert_event _ _ _ _ _ _ db1 _ ran1 in
        let ran3 = update_task_row-eq-ok env id _ _ _ _ ran2 in
        wrote (env.clock insert_event) id row (touch_row (env.clock update_task)) comment body empty
          found (touches _)
          (select_last_event-db _ db' e ran3
            ∙ ap
                (written (env.clock insert_event) id (touch_row (env.clock update_task)) actor
                  comment body empty)
                same)

    pub add_comment-Effect : Effect limits actor db (add_comment env actor id body db).1
    unfolding add_comment
    add_comment-Effect =
        in_tx_after (Effect limits actor db) env (comment_tx env actor id body) db (nothing refl)
          comment_tx-Effect
