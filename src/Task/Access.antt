-- ===== src/Task/Access.antt =====
-- What becomes of one row of internal/task/store.go over any calls of the service, and which
-- members may change its status and its hold.
use denkeeper.Prelude.{
  ℕ, ◌≡◌, ◌≢◌, ◌⊎◌, inl, inr, refl, ◌∙◌, String, true, none, some, List, All, arith, eq_iff, nat_eq,
  string_eq,
}
use denkeeper.Task.{
  Status, Task, done, in_progress, human, is_closed, same_status_iff, status_eq, valid_status,
  other,
}
use denkeeper.Task.Rules.{check_status_rule, check_done_rule}
use denkeeper.Task.Lifecycle.{
  RowStep, claims, releases, moves, reassigns, edits, touches, IsSound, RowStep-IsSameOrigin,
}
use denkeeper.Task.Db.{find_task}
use denkeeper.Task.Store.{claim_row, release_row, status_row, assign_row, edit_row, touch_row}
use denkeeper.Task.Invariant.{IsWellFormed}
use denkeeper.Task.Service.{World, Service}
use denkeeper.Task.Run.{Command, run}
use denkeeper.Task.Track.{run_keeps, run-IsWellFormed}
use denkeeper.Task.Db.Rows.{find_task-All}

-- A step by a member other than the operator leaves a closed task closed, with its closing time.
RowStep-closed :
    {actor : String} {t u : Task}
    → RowStep actor t u
    → actor ≢ human
    → is_closed t.status ≡ true
    → (u.status ≡ t.status) × (u.closed_at ≡ t.closed_at)
unfolding claim_row release_row status_row assign_row edit_row touch_row check_status_rule
RowStep-closed {actor} {t} (claims now h) not_op c = absurd (ground arith)
RowStep-closed {actor} {t} (releases now h a) not_op c =
    (ground (arith, same_status_iff t.status in_progress), refl)
RowStep-closed {actor} {t} (moves now s reason v h) not_op c =
    absurd (ground (arith, eq_iff actor human))
RowStep-closed {actor} {t} (reassigns now assignee h a) not_op c = absurd (ground arith)
RowStep-closed (edits now title body a) not_op c = (refl, refl)
RowStep-closed (touches now) not_op c = (refl, refl)

done_allowed :
    (actor : String) (t : Task) (reason : String)
    → check_status_rule actor t done reason ≡ none
    → t.reviewer ≢ ""
    → (actor ≡ human) ⊎ (actor ≡ t.reviewer)
unfolding check_status_rule check_done_rule
done_allowed actor t reason h r =
    ground (arith, eq_iff t.reviewer "", eq_iff actor human, eq_iff actor t.reviewer)

-- Whoever may move a task stands in one of its roles.
move_allowed :
    (actor : String) (t : Task) (s : Status) (reason : String)
    → valid_status s ≡ true
    → check_status_rule actor t s reason ≡ none
    → actor ≢ human
    → actor ≢ t.created_by
    → actor ≢ t.reviewer
    → (actor ≡ t.holder) ⊎ (actor ≡ t.assignee)
unfolding check_status_rule check_done_rule
move_allowed actor t in_progress reason v h a c d = absurd (ground (arith, eq_iff actor human))
move_allowed actor t (other s) reason v h a c d = absurd (cc)
move_allowed actor t s reason v h a c d = ground (
  arith,
  eq_iff actor human,
  eq_iff actor t.holder,
  eq_iff actor t.assignee,
  eq_iff actor t.created_by,
  eq_iff actor t.reviewer,
)

-- A task with a reviewer is closed as done by its reviewer or the operator alone.
RowStep-done :
    {actor : String} {t u : Task}
    → RowStep actor t u
    → t.reviewer ≢ ""
    → t.status ≢ done
    → u.status ≡ done
    → (actor ≡ human) ⊎ (actor ≡ t.reviewer)
unfolding claim_row release_row status_row assign_row edit_row touch_row
RowStep-done {actor} {t} (claims now h) r n d = absurd (cc)
RowStep-done {actor} {t} (releases now h a) r n d =
    absurd (ground (arith, same_status_iff t.status in_progress))
RowStep-done {actor} {t} (moves now s reason v h) r n d = done_allowed actor t reason (rw d at h) r
RowStep-done {actor} {t} (reassigns now assignee h a) r n d =
    absurd (ground (arith, same_status_iff t.status in_progress))
RowStep-done (edits now title body a) r n d = absurd (n d)
RowStep-done (touches now) r n d = absurd (n d)

-- A hold is taken away by the operator, the holder, the filer or the reviewer alone.
RowStep-holder :
    {actor : String} {t u : Task}
    → RowStep actor t u
    → IsSound t
    → t.holder ≢ ""
    → actor ≢ human
    → actor ≢ t.holder
    → actor ≢ t.created_by
    → actor ≢ t.reviewer
    → u.holder ≡ t.holder
unfolding claim_row release_row assign_row edit_row touch_row
RowStep-holder {actor} {t} (claims now h) ok held a b c d =
    absurd (ground (arith, eq_iff t.holder "", eq_iff t.holder actor))
RowStep-holder {actor} {t} (releases now h by) ok held a b c d = absurd (ground arith)
RowStep-holder {actor} {t} (moves now s reason v h) ok held a b c d =
    absurd (ground (arith, move_allowed actor t s reason v h a c d))
RowStep-holder {actor} {t} (reassigns now assignee h by) ok held a b c d = absurd (ground arith)
RowStep-holder (edits now title body by) ok held a b c d = refl
RowStep-holder (touches now) ok held a b c d = refl

-- A closed task stays closed, with its status and closing time, under all calls by members other
-- than the operator.
pub closed_stays :
    (sv : Service) (cs : List (String × Command)) (w : World) (j : ℕ) (t : Task)
    → IsWellFormed sv.limits w.db
    → All (λ c. c.0 ≢ human) cs
    → find_task j w.db.tasks ≡ some t
    → is_closed t.status ≡ true
    → (u : Task) × (find_task j (run sv cs w).db.tasks ≡ some u)
      × ((u.status ≡ t.status) × (u.closed_at ≡ t.closed_at))
closed_stays sv cs w j t ok others found c =
    run_keeps (λ a. a ≢ human) (λ u. (u.status ≡ t.status) × (u.closed_at ≡ t.closed_at))
      (λ actor v u q _ st p. let (s, at) = RowStep-closed st q (rw p.0 c) in (s ∙ p.0, at ∙ p.1)) sv
      cs w j t ok others found (refl, refl)

-- A task that has a reviewer and is not done is not done after any calls by members other than its
-- reviewer and the operator, and its reviewer is still the same.
pub review_enforced :
    (sv : Service) (cs : List (String × Command)) (w : World) (j : ℕ) (t : Task)
    → IsWellFormed sv.limits w.db
    → All (λ c. (c.0 ≢ human) × (c.0 ≢ t.reviewer)) cs
    → find_task j w.db.tasks ≡ some t
    → t.reviewer ≢ ""
    → t.status ≢ done
    → (u : Task) × (find_task j (run sv cs w).db.tasks ≡ some u)
      × ((u.reviewer ≡ t.reviewer) × (u.status ≢ done))
review_enforced sv cs w j t ok others found r open_task =
    run_keeps (λ a. (a ≢ human) × (a ≢ t.reviewer))
      (λ u. (u.reviewer ≡ t.reviewer) × (u.status ≢ done))
      (λ actor v u q _ st p. (
        (RowStep-IsSameOrigin st).reviewer ∙ p.0,
        λ d. elim (RowStep-done st (rw p.0 r) p.1 d) [ inl e ↦ q.0 e | inr e ↦ q.1 (e ∙ p.0) ],
      ))
      sv cs w j t ok others found (refl, open_task)

-- A hold survives all calls by members other than the operator, the holder, the filer and the
-- reviewer: the task is found with the same holder, in progress and assigned to the holder.
pub hold_kept :
    (sv : Service) (cs : List (String × Command)) (w : World) (j : ℕ) (t : Task)
    → IsWellFormed sv.limits w.db
    → All (λ c. (c.0 ≢ human) × (c.0 ≢ t.holder) × (c.0 ≢ t.created_by) × (c.0 ≢ t.reviewer)) cs
    → find_task j w.db.tasks ≡ some t
    → t.holder ≢ ""
    → (u : Task) × (find_task j (run sv cs w).db.tasks ≡ some u)
      × ((u.holder ≡ t.holder) × (u.status ≡ in_progress) × (u.assignee ≡ t.holder))
hold_kept sv cs w j t ok others found held =
    let (u, found_u, p) =
      run_keeps (λ a. (a ≢ human) × (a ≢ t.holder) × (a ≢ t.created_by) × (a ≢ t.reviewer))
        (λ u. (u.holder ≡ t.holder) × (u.created_by ≡ t.created_by) × (u.reviewer ≡ t.reviewer))
        (λ actor v u q sound st p. (
          RowStep-holder st sound (rw p.0 held) q.0 (rw p.0 q.1) (rw p.1 q.2) (rw p.2 q.3) ∙ p.0,
          (RowStep-IsSameOrigin st).created_by ∙ p.1,
          (RowStep-IsSameOrigin st).reviewer ∙ p.2,
        ))
        sv cs w j t ok others found (refl, refl, refl) in
    let after = run-IsWellFormed sv cs w ok in
    let sound = find_task-All IsSound j (run sv cs w).db.tasks u found_u after.sound in
    let held_u : u.holder ≢ "" = rw p.0 held in
    (u, found_u, (p.0, sound.held_is_working held_u, sound.held_by_assignee held_u ∙ p.0))
