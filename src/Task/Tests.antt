-- ===== src/Task/Tests.antt =====
-- Runs of the task store and service on small tables, and the theorems at concrete inputs.
use denkeeper.Prelude.{
  ℕ, ◌≡◌, ◌≢◌, ◌≤◌, refl, String, true, false, none, some, List, [], ◌∷◌, All, arith, ◌==◌,
  string_eq, ne_of_beq-eq-false, trim_space, ◌⊎◌,
}
use denkeeper.Task.{Status, todo, in_progress, done, other, claimed, empty, Task, human}
use denkeeper.Task.Rules.{unknown_status}
use Prim.Native.String.{count}
use denkeeper.Task.Db.{
  written, load, mutate, in_tx, get_task, read_task, update_rows, insert_event, driver, Env, Db,
  Result, ok, err, rule, conflict, held_elsewhere, Loaded, find_task, count_rows,
}
use denkeeper.Task.Db.Outcomes.{IsHealthy}
use denkeeper.Task.Store
use denkeeper.Task.Store.{Limits}
use denkeeper.Task.Service
use denkeeper.Task.Service.{
  World, Drivers, Folding, nobody, listing, CreateRequest, UpdateRequest, clean_text, member_name,
}
use denkeeper.Task.Invariant.{IsWellFormed, root}
use denkeeper.Task.Run.{Command, check_out, let_go, say, step, run}
use denkeeper.Task.Track.{run-IsWellFormed}
use denkeeper.Task.Access.{closed_stays, review_enforced, hold_kept}
use denkeeper.Task.Claims.{checkout_holds, second_claim_loses}
use denkeeper.Task.Members.{
  member_name-id, member_ids_distinct, clean_text_lem, agent_id, external_id,
}
use denkeeper.Task.History.{IsTold, step-IsTold}
use denkeeper.Task.Rollback.{store_rolls_back}
use denkeeper.Task.Partial.{update_keeps_edit}

abbrev healthy : Env
healthy = record { runs = λ s. true; clock = λ s. 7 }

healthy-IsHealthy : IsHealthy healthy
healthy-IsHealthy = record { all_run = λ s. refl }

abbrev plain : Folding
plain = record { to_lower = λ s. s; equal_fold = λ s t. s == t }

abbrev service : Service.Service
service = record {
  limits = record { max_depth = 3; max_children = 20 };
  dir = listing (record { id = "agent:ada"; name = "ada" } ∷ []);
  folding = plain;
  has_auditor = true;
  has_hook = true;
}

abbrev row : ℕ → Status → String → Task
row id s holder = record {
  id = id;
  title = "fix";
  body = "";
  status = s;
  assignee = holder;
  created_by = "agent:bob";
  reviewer = "agent:bob";
  parent_id = none;
  depth = 0;
  holder = holder;
  held_at = some 5;
  blocked_reason = "";
  created_at = 1;
  updated_at = 1;
  closed_at = none;
}

abbrev held_row : Task
held_row = row 1 in_progress "agent:ada"

abbrev closed_row : Task
closed_row = record (row 2 done "") { closed_at = some 6 }

abbrev free_row : Task
free_row = row 3 todo ""

abbrev table : Db
table = record {
  tasks = held_row ∷ closed_row ∷ free_row ∷ [];
  events = [];
  next_task = 4;
  next_event = 1;
}

abbrev world : World
world = record { db = table; audits = []; changes = [] }

table-IsWellFormed : IsWellFormed service.limits table
unfolding count_rows
table-IsWellFormed = record {
  sound = ground arith;
  ordered = omega arith;
  issued = omega arith;
  in_tree = (root refl refl, (root refl refl, (root refl refl, tt)));
  uncrowded = λ p. omega arith;
}

abbrev calls : List (String × Command)
calls =
    ("agent:cy", check_out healthy 1)
    ∷ ("agent:cy", let_go healthy 1)
    ∷ ("agent:cy", say healthy 3 " hello ")
    ∷ []

run-IsWellFormed_example : IsWellFormed service.limits (run service calls world).db
run-IsWellFormed_example = run-IsWellFormed service calls world table-IsWellFormed

-- `cy` has no part in the tasks of the table.
cy_ne : (s : String) → ("agent:cy" == s) ≡ false → "agent:cy" ≢ s
cy_ne s h = ne_of_beq-eq-false "agent:cy" s h

named : (s : String) → (s == "") ≡ false → s ≢ ""
named s h = ne_of_beq-eq-false s "" h

abbrev IsStranger : String × Command → Type 0
IsStranger c = (c.0 ≢ human) × (c.0 ≢ "agent:ada") × (c.0 ≢ "agent:bob") × (c.0 ≢ "agent:bob")

strangers : All IsStranger calls
strangers =
    let cy : IsStranger ("agent:cy", let_go healthy 1) =
      (cy_ne human refl, cy_ne "agent:ada" refl, cy_ne "agent:bob" refl, cy_ne "agent:bob" refl) in
    (cy, (cy, (cy, tt)))

hold_kept_example :
    (u : Task) × (find_task 1 (run service calls world).db.tasks ≡ some u)
    × ((u.holder ≡ "agent:ada") × (u.status ≡ in_progress) × (u.assignee ≡ "agent:ada"))
unfolding find_task
hold_kept_example =
    hold_kept service calls world 1 held_row table-IsWellFormed strangers refl
      (named "agent:ada" refl)

closed_stays_example :
    (u : Task) × (find_task 2 (run service calls world).db.tasks ≡ some u)
    × ((u.status ≡ done) × (u.closed_at ≡ some 6))
unfolding find_task
closed_stays_example =
    closed_stays service calls world 2 closed_row table-IsWellFormed
      (cy_ne human refl, (cy_ne human refl, (cy_ne human refl, tt))) refl refl

review_enforced_example :
    (u : Task) × (find_task 3 (run service calls world).db.tasks ≡ some u)
    × ((u.reviewer ≡ "agent:bob") × (u.status ≢ done))
unfolding find_task
review_enforced_example =
    review_enforced service calls world 3 free_row table-IsWellFormed
      (
        (cy_ne human refl, cy_ne "agent:bob" refl),
        (
          (cy_ne human refl, cy_ne "agent:bob" refl),
          ((cy_ne human refl, cy_ne "agent:bob" refl), tt),
        ),
      )
      refl (named "agent:bob" refl) (λ e. cc)

step-IsTold_example :
    IsTold "agent:cy" table (step service "agent:cy" (say healthy 3 "hi") world).db
step-IsTold_example = step-IsTold service "agent:cy" (say healthy 3 "hi") world

abbrev claimed_db : Db
claimed_db = written 7 3 (Store.claim_row "agent:ada" 7) "agent:ada" claimed "" empty table

abbrev claimed_task : Loaded
claimed_task = load claimed_db (Store.claim_row "agent:ada" 7 free_row)

claim_of_free : Store.checkout healthy "agent:ada" 3 table ≡ (ok claimed_task, claimed_db)
unfolding Store.checkout Store.claim Store.claim_row mutate in_tx get_task read_task find_task
    update_rows count_rows load
claim_of_free = refl

checkout_holds_example :
    (find_task 3 claimed_db.tasks ≡ some claimed_task.row)
    × (claimed_task.holder ≡ "agent:ada")
    × (claimed_task.status ≡ in_progress)
    × (claimed_task.assignee ≡ "agent:ada")
checkout_holds_example =
    checkout_holds healthy service.limits "agent:ada" 3 table claimed_db claimed_task
      table-IsWellFormed (named "agent:ada" refl) claim_of_free

second_claim_loses_example :
    Store.checkout healthy "agent:cy" 3 claimed_db
    ≡ (err (conflict 3 "agent:ada" held_elsewhere), claimed_db)
second_claim_loses_example =
    second_claim_loses healthy healthy service.limits "agent:ada" "agent:cy" 3 table claimed_db
      claimed_task table-IsWellFormed healthy-IsHealthy (named "agent:ada" refl)
      (ne_of_beq-eq-false "agent:ada" "agent:cy" refl) claim_of_free

-- A driver that refuses to write events: the claim's update is rolled back.
abbrev mute : Env
mute = record { runs = λ s. elim s [ insert_event ↦ false | _ ↦ true ]; clock = λ s. 7 }

rolled_back : (Store.checkout mute "agent:ada" 3 table).0 ≡ err (driver insert_event)
unfolding Store.checkout Store.claim Store.claim_row mutate in_tx get_task read_task find_task
    update_rows count_rows load
rolled_back = refl

store_rolls_back_example :
    let e = driver insert_event in
    ((Store.checkout mute "agent:ada" 3 table).0 ≡ err e
      → (Store.checkout mute "agent:ada" 3 table).1 ≡ table)
    × ((Store.release mute "agent:ada" 3 table).0 ≡ err e
        → (Store.release mute "agent:ada" 3 table).1 ≡ table)
    × ((s : Status) (reason : String)
        → (Store.set_status mute "agent:ada" 3 s reason table).0 ≡ err e
        → (Store.set_status mute "agent:ada" 3 s reason table).1 ≡ table)
    × ((assignee : String)
        → (Store.assign mute "agent:ada" 3 assignee table).0 ≡ err e
        → (Store.assign mute "agent:ada" 3 assignee table).1 ≡ table)
    × ((title body : String)
        → (Store.edit mute "agent:ada" 3 title body table).0 ≡ err e
        → (Store.edit mute "agent:ada" 3 title body table).1 ≡ table)
    × ((body : String)
        → (Store.add_comment mute "agent:ada" 3 body table).0 ≡ err e
        → (Store.add_comment mute "agent:ada" 3 body table).1 ≡ table)
unfolding find_task
store_rolls_back_example =
    store_rolls_back mute service.limits "agent:ada" 3 table free_row (driver insert_event)
      table-IsWellFormed refl refl

member_name-id_example :
    (member_name (agent_id "ada") ≡ "ada") × (member_name (external_id "ada") ≡ "ada")
member_name-id_example = member_name-id "ada"

member_ids_distinct_example :
    (agent_id "ada" ≢ external_id "ada")
    × (agent_id "ada" ≢ human)
    × (external_id "ada" ≢ human)
    × (agent_id "ada" ≡ agent_id "ada" → ◌≡◌ {A = String} "ada" "ada")
    × (external_id "ada" ≡ external_id "ada" → ◌≡◌ {A = String} "ada" "ada")
member_ids_distinct_example = member_ids_distinct "ada" "ada"

cleaned : clean_text "title" "  new title " 200 true ≡ ok "new title"
unfolding clean_text trim_space
cleaned = refl

clean_text_lem_example :
    (trim_space "new title" ≡ "new title")
    × (count "new title" ≤ 200)
    × ((true ≡ false) ⊎ (◌≢◌ {A = String} "new title" ""))
    × (clean_text "title" "new title" 200 true ≡ ok "new title")
clean_text_lem_example = clean_text_lem "title" "  new title " "new title" 200 true cleaned

abbrev drivers : Drivers
drivers = record { get = healthy; edit = healthy; assign = healthy; move = healthy }

abbrev half_way : Result Loaded × World
half_way =
    Service.update service drivers human 3
      (record {
        title = some "  new title ";
        body = none;
        assignee = none;
        status = some (other "finished");
        reason = "";
      })
      world

update_keeps_edit_example :
    (half_way.0 ≡ err (rule unknown_status))
    × (u : Task) × (find_task 3 half_way.1.db.tasks ≡ some u)
    × (u.title ≡ "new title")
    × (◌≢◌ {A = String} "fix" "new title")
unfolding find_task
update_keeps_edit_example =
    update_keeps_edit service drivers 3 world free_row "  new title " "new title" "finished"
      healthy-IsHealthy healthy-IsHealthy table-IsWellFormed refl cleaned
      (ne_of_beq-eq-false "new title" "fix" refl)
