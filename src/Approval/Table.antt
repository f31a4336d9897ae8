-- ===== src/Approval/Table.antt =====
-- internal/approval/sqlite.go: the statements on the tables approvals and auto_approve_rules.
-- An id is a primary key. The driver refuses a statement where the oracle says so, and an INSERT
-- of an id that the table has.
use denkeeper.Prelude.{
  ℕ, zero, suc, ◌+◌, String, Bool, true, false, not, ◌&&◌, ◌||◌, Option, none, some, List, [], ◌∷◌,
  map, filter, length, if◌then◌else◌, ◌==◌, string_eq, leb,
}
use denkeeper.Approval.{
  Status, pending, expired, other, Request, Rule, Scope, permanent, Result, ok, err, not_found,
  already_resolved, driver, Oracle, World, approval_status_eq,
}

abbrev pub Op : Type 0 → Type 0
Op A = World → Result A × World

unfoldable pub advance : World → World
advance w = record w { moment = w.moment + 1 }

-- A statement, which the driver carries out or refuses.
unfoldable pub attempt : {A : Type 0} → Bool → Op A → Op A
attempt true f w = f w
attempt false f w = (err driver, w)

unfoldable pub statement : {A : Type 0} → Oracle → Op A → Op A
unfolding attempt advance
statement o f w = attempt (o.runs w.moment) f (advance w)

-- if err != nil { return err }
unfoldable pub and_then : {A B : Type 0} → Result A × World → (A → Op B) → Result B × World
and_then (err e, w) f = (err e, w)
and_then (ok a, w) f = f a w

unfoldable pub find_request : (Request → Bool) → List Request → Option Request
find_request test [] = none
find_request test (r ∷ rs) = let rest = find_request test rs in if test r then some r else rest

abbrev pub has_id : String → Request → Bool
has_id id r = r.id == id

-- The row that Create inserts: the columns that it does not name have the schema's defaults.
abbrev pub new_row : Request → ℕ → Request
new_row req now = record req {
  status = pending;
  created_at = now;
  resolved_at = none;
  resolved_by = "";
}

unfoldable pub insert_unless : Option Request → Request → ℕ → Op String
insert_unless (some _) req now w = (err driver, w)
insert_unless none req now w = (ok req.id, record w { requests = new_row req now ∷ w.requests })

unfoldable pub insert_row : Request → ℕ → Op String
unfolding find_request insert_unless
insert_row req now w = insert_unless (find_request (has_id req.id) w.requests) req now w

-- SQLiteStore.Create
unfoldable pub create : Oracle → Request → Op String
unfolding statement insert_row
create o req w = statement o (insert_row req (o.clock w.moment)) w

unfoldable pub found : Option Request → Op Request
found none w = (err not_found, w)
found (some r) w = (ok r, w)

unfoldable pub select_row : (Request → Bool) → Op Request
unfolding find_request found
select_row test w = found (find_request test w.requests) w

-- SQLiteStore.Get
unfoldable pub get : Oracle → String → Op Request
unfolding statement select_row
get o id w = statement o (select_row (has_id id)) w

unfoldable pub first : List Request → Option Request
first [] = none
first (r ∷ rs) = some r

unfoldable pub newest : Oracle → String → Op Request
unfolding found first
newest o callback_data w =
    found (first (o.newest_first (filter (λ r. r.callback_data == callback_data) w.requests))) w

-- SQLiteStore.GetByCallbackData
unfoldable pub get_by_callback_data : Oracle → String → Op Request
unfolding statement newest
get_by_callback_data o callback_data w = statement o (newest o callback_data) w

-- The empty status asks for every row.
abbrev pub listed : Status → Request → Bool
listed s r = s == other "" || r.status == s

unfoldable pub select_rows : Oracle → Status → Op (List Request)
select_rows o s w = (ok (o.newest_first (filter (listed s) w.requests)), w)

-- SQLiteStore.List
unfoldable pub list : Oracle → Status → Op (List Request)
unfolding statement select_rows
list o s w = statement o (select_rows o s) w

unfoldable pub resolve_row : Status → ℕ → String → Request → Request
resolve_row s now by r = record r { status = s; resolved_at = some now; resolved_by = by }

abbrev pub hit : (Request → Bool) → Request → Bool
hit test r = r.status == pending && test r

-- `UPDATE approvals SET status, resolved_at, resolved_by WHERE status = 'pending' AND ...`
unfoldable pub update_pending : (Request → Bool) → Status → ℕ → String → List Request → List Request
unfolding resolve_row
update_pending test s now by = map (λ r. if hit test r then resolve_row s now by r else r)

-- The number of rows that the UPDATE affects.
abbrev pub affected : (Request → Bool) → World → ℕ
affected test w = length (filter (hit test) w.requests)

-- Either the id is unknown or its request is resolved.
unfoldable pub why_unresolved : Result Request × World → Result (Unit {0}) × World
why_unresolved (err e, w) = (err not_found, w)
why_unresolved (ok r, w) = (err already_resolved, w)

unfoldable pub resolved_rows : Oracle → String → ℕ → World → Op (Unit {0})
unfolding why_unresolved get
resolved_rows o id zero w' w = why_unresolved (get o id w)
resolved_rows o id (suc n) w' w = (ok tt, w')

unfoldable pub resolve_rows : Oracle → String → Status → ℕ → String → Op (Unit {0})
unfolding resolved_rows update_pending
resolve_rows o id s now by w =
    resolved_rows o id (affected (has_id id) w)
      (record w { requests = update_pending (has_id id) s now by w.requests }) w

-- SQLiteStore.Resolve
unfoldable pub resolve : Oracle → String → Status → String → Op (Unit {0})
unfolding statement resolve_rows
resolve o id s by w = statement o (resolve_rows o id s (o.clock w.moment) by) w

-- Resolve the row that was found, and read it again.
unfoldable pub resolve_found : Oracle → Status → String → Request → Op Request
unfolding resolve get and_then
resolve_found o s by req w = and_then (resolve o req.id s by w) (λ _. get o req.id)

abbrev pub with_prefix : String → Request → Bool
with_prefix prefix = hit (λ r. r.callback_data == prefix)

-- SQLiteStore.ResolveByCallbackPrefix
unfoldable pub resolve_by_callback_prefix : Oracle → String → Status → String → Op Request
unfolding statement select_row resolve_found and_then
resolve_by_callback_prefix o prefix s by w =
    and_then (statement o (select_row (with_prefix prefix)) w) (resolve_found o s by)

unfoldable pub expire_rows : (Request → Bool) → ℕ → Op ℕ
unfolding update_pending
expire_rows test now w = (
  ok (affected test w),
  record w { requests = update_pending test expired now "expired" w.requests },
)

-- SQLiteStore.ExpirePending
unfoldable pub expire_pending : Oracle → Op ℕ
unfolding statement expire_rows
expire_pending o w = statement o (expire_rows (λ _. true) (o.clock w.moment)) w

-- `expires_at IS NOT NULL AND expires_at <= ?`
abbrev pub is_due : ℕ → Option ℕ → Bool
is_due deadline none = false
is_due deadline (some at) = leb at deadline

-- SQLiteStore.ExpireBefore
unfoldable pub expire_before : Oracle → ℕ → Op ℕ
unfolding statement expire_rows
expire_before o deadline w =
    statement o (expire_rows (λ r. is_due deadline r.expires_at) deadline) w

unfoldable pub has_rule : String → List Rule → Bool
has_rule id [] = false
has_rule id (r ∷ rs) = let rest = has_rule id rs in r.rule_id == id || rest

unfoldable pub insert_rule : Bool → Rule → Op String
insert_rule true r w = (err driver, w)
insert_rule false r w = (ok r.rule_id, record w { rules = r ∷ w.rules })

-- CreateAutoApproveRule
unfoldable pub create_rule : Oracle → Rule → Op String
unfolding statement has_rule insert_rule
create_rule o rule w = statement o (insert_rule (has_rule rule.rule_id w.rules) rule) w

unfoldable pub delete_rows : Bool → String → Op (Unit {0})
delete_rows false id w = (err not_found, w)
delete_rows true id w = (ok tt, record w { rules = filter (λ r. not (r.rule_id == id)) w.rules })

-- DeleteAutoApproveRule
unfoldable pub delete_rule : Oracle → String → Op (Unit {0})
unfolding statement has_rule delete_rows
delete_rule o id w = statement o (delete_rows (has_rule id w.rules) id) w

abbrev pub is_permanent : Scope → Bool
is_permanent permanent = true
is_permanent s = false

unfoldable pub matches : String → String → List Rule → Bool
matches agent tool [] = false
matches agent tool (r ∷ rs) =
    let rest = matches agent tool rs in
    r.rule_agent == agent && r.tool_name == tool && is_permanent r.scope || rest

-- MatchAutoApproveRule, of which the manager uses only whether it returns an error.
unfoldable pub match_rule : Oracle → String → String → Op (Unit {0})
unfolding statement
match_rule o agent tool w =
    statement o (λ w'. (if matches agent tool w'.rules then ok tt else err not_found, w')) w
