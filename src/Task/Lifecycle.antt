-- ===== src/Task/Lifecycle.antt =====
-- What may become of one row of the tasks table, and by whom: the steps that the operations of
-- internal/task/store.go take on a row, and the well-formedness of a row.
use denkeeper.Prelude.{ℕ, ◌≡◌, ◌≢◌, ◌⊎◌, String, true, false, none, arith, eq_iff}
use denkeeper.Task.{
  Status, in_progress, blocked, Task, human, is_closed, valid_status, same_status_iff,
}
use denkeeper.Task.Rules.{check_status_rule}
use denkeeper.Task.Store.{
  claimable, claim_row, release_row, status_row, assign_row, edit_row, touch_row,
}

-- A step of `actor` on the row `t`.
pub data RowStep (actor : String) (t : Task) : Task → Type 0 where
  claims : (now : ℕ) → claimable actor t ≡ true → RowStep actor t (claim_row actor now t)
  releases :
      (now : ℕ)
      → t.holder ≢ ""
      → (actor ≡ human) ⊎ (actor ≡ t.holder)
      → RowStep actor t (release_row now t)
  moves :
      (now : ℕ) (s : Status) (reason : String)
      → valid_status s ≡ true
      → check_status_rule actor t s reason ≡ none
      → RowStep actor t (status_row s reason now t)
  reassigns :
      (now : ℕ) (assignee : String)
      → is_closed t.status ≡ false
      → (actor ≡ human) ⊎ ((actor ≡ t.created_by) ⊎ (actor ≡ t.assignee))
      → RowStep actor t (assign_row assignee now t)
  edits :
      (now : ℕ) (title body : String)
      → (actor ≡ human) ⊎ (actor ≡ t.created_by)
      → RowStep actor t (edit_row title body now t)
  touches : (now : ℕ) → RowStep actor t (touch_row now t)

-- A row is well formed: its hold, its closing time and its blocked reason agree with its status.
pub record IsSound (t : Task) : Type 0 where
  pub known : valid_status t.status ≡ true
  pub held_is_working : t.holder ≢ "" → t.status ≡ in_progress
  pub held_by_assignee : t.holder ≢ "" → t.assignee ≡ t.holder
  pub held_since : t.holder ≢ "" → t.held_at ≢ none
  pub closed_stamped : is_closed t.status ≡ true → t.closed_at ≢ none
  pub open_unstamped : is_closed t.status ≡ false → t.closed_at ≡ none
  pub blocked_says_why : t.status ≡ blocked → t.blocked_reason ≢ ""
  pub unblocked_is_silent : t.status ≢ blocked → t.blocked_reason ≡ ""

-- What no step changes.
pub record IsSameOrigin (t u : Task) : Type 0 where
  pub id : u.id ≡ t.id
  pub parent_id : u.parent_id ≡ t.parent_id
  pub depth : u.depth ≡ t.depth
  pub created_by : u.created_by ≡ t.created_by
  pub reviewer : u.reviewer ≡ t.reviewer
  pub created_at : u.created_at ≡ t.created_at

pub RowStep-IsSameOrigin : {actor : String} {t u : Task} → RowStep actor t u → IsSameOrigin t u
unfolding claim_row release_row status_row assign_row edit_row touch_row
RowStep-IsSameOrigin {t = t} (claims now h) = ground arith
RowStep-IsSameOrigin {t = t} (releases now h a) = ground arith
RowStep-IsSameOrigin {t = t} (moves now s reason v h) = ground arith
RowStep-IsSameOrigin {t = t} (reassigns now assignee h a) = ground arith
RowStep-IsSameOrigin {t = t} (edits now title body a) = ground arith
RowStep-IsSameOrigin {t = t} (touches now) = ground arith

claim_row-IsSound :
    (actor : String) (t : Task) (now : ℕ)
    → claimable actor t ≡ true
    → IsSound t
    → IsSound (claim_row actor now t)
unfolding claim_row
claim_row-IsSound actor t now h ok =
    ground (arith, eq_iff t.holder "", eq_iff t.assignee "", eq_iff t.assignee actor)

release_row-IsSound : (t : Task) (now : ℕ) → IsSound t → IsSound (release_row now t)
unfolding release_row
release_row-IsSound t now ok = ground (arith, same_status_iff t.status in_progress)

assign_row-IsSound :
    (t : Task) (assignee : String) (now : ℕ) → IsSound t → IsSound (assign_row assignee now t)
unfolding assign_row
assign_row-IsSound t assignee now ok = ground (arith, same_status_iff t.status in_progress)

blocked-has_reason :
    (actor : String) (t : Task) (reason : String)
    → check_status_rule actor t blocked reason ≡ none
    → reason ≢ ""
unfolding check_status_rule
blocked-has_reason actor t reason h e = ground (arith, eq_iff reason "")

status_row-IsSound :
    (actor : String) (t : Task) (s : Status) (reason : String) (now : ℕ)
    → valid_status s ≡ true
    → check_status_rule actor t s reason ≡ none
    → IsSound t
    → IsSound (status_row s reason now t)
unfolding status_row
status_row-IsSound actor t in_progress reason now v h ok = ground arith
status_row-IsSound actor t blocked reason now v h ok =
    ground (arith, blocked-has_reason actor t reason h)
status_row-IsSound actor t s reason now v h ok = ground arith

pub RowStep-IsSound : {actor : String} {t u : Task} → RowStep actor t u → IsSound t → IsSound u
RowStep-IsSound {actor} {t} (claims now h) ok = claim_row-IsSound actor t now h ok
RowStep-IsSound {t = t} (releases now h a) ok = release_row-IsSound t now ok
RowStep-IsSound {actor} {t} (moves now s reason v h) ok =
    status_row-IsSound actor t s reason now v h ok
RowStep-IsSound {t = t} (reassigns now assignee h a) ok = assign_row-IsSound t assignee now ok
RowStep-IsSound {t = t} (edits now title body a) ok = unfold edit_row in ground arith
RowStep-IsSound {t = t} (touches now) ok = unfold touch_row in ground arith
