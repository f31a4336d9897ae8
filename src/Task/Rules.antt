-- ===== src/Task/Rules.antt =====
-- internal/task/rules.go: who may move a task to which status, and the refusals of the package.
use denkeeper.Prelude.{
  String, Bool, ◌||◌, not, ◌&&◌, Option, none, some, if◌then◌else◌, ◌==◌, string_eq,
}
use denkeeper.Task.{
  Status, todo, in_progress, review, blocked, done, cancelled, other, Task, human, is_closed,
  status_eq,
}

-- One constructor for each place that builds a RuleError.
pub data Refusal : Type 0 where
  say_why only_operator_reopens claim_instead only_assignee_moves only_worker_or_reviewer : Refusal
  only_assignee_or_filer_closes needs_review only_reviewer_closes only_filer_cancels : Refusal
  not_held only_holder_releases unknown_status reopen_before_reassigning : Refusal
  only_filer_or_assignee_reassigns only_filer_edits : Refusal
  parent_closed too_deep too_many_children : Refusal
  required too_long : String → Refusal
  no_member ambiguous_member : String → Refusal

unfoldable pub check_done_rule : String → Task → Bool → Option Refusal
check_done_rule actor t worker =
    if t.reviewer == ""
    then (if worker || actor == t.created_by then none else some only_assignee_or_filer_closes)
    else (if actor == t.reviewer
        then none
        else if worker
        then some needs_review
        else some only_reviewer_closes)

-- The `switch` on the status asked for.
status_switch : String → Task → Bool → Status → Option Refusal
unfolding check_done_rule
status_switch actor t worker in_progress = some claim_instead
status_switch actor t worker blocked = if not worker then some only_assignee_moves else none
status_switch actor t worker review = if not worker then some only_assignee_moves else none
status_switch actor t worker todo =
    if not worker && not (actor == t.reviewer) then some only_worker_or_reviewer else none
status_switch actor t worker done = check_done_rule actor t worker
status_switch actor t worker cancelled =
    if not (actor == t.created_by) then some only_filer_cancels else none
status_switch actor t worker (other s) = none

abbrev pub is_worker : String → Task → Bool
is_worker actor t = actor == t.holder || actor == t.assignee

unfoldable pub check_status_rule : String → Task → Status → String → Option Refusal
unfolding status_switch
check_status_rule actor t s reason =
    if s == blocked && reason == ""
    then some say_why
    else if actor == human
    then none
    else if is_closed t.status
    then some only_operator_reopens
    else status_switch actor t (is_worker actor t) s
