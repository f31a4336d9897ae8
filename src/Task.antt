-- ===== src/Task.antt =====
-- internal/task/task.go: the data of a task, its thread and its errors.
--
-- A task status is a text in the source. Here the six constants are constructors, and `other s`
-- stands for any further text s. Instants are numbers. A refusal's message is replaced by a
-- constructor for the place that writes it, with the values that the message is built from.
pub mod Rules
pub mod Db
pub mod Store
pub mod Lifecycle
pub mod Effect
pub mod Invariant
pub mod Service
pub mod Run
pub mod Track
pub mod Access
pub mod Claims
pub mod Members
pub mod History
pub mod Rollback
pub mod Partial
mod Tests
use denkeeper.Prelude.{
  ℕ, ◌≡◌, ◌↔◌, String, Bool, true, false, ◌||◌, Option, Eq, ◌==◌, nat_beq, string_eq, eq_iff, arith,
}

pub data Status : Type 0 where
  todo in_progress review blocked done cancelled : Status
  other : String → Status

pub data EventKind : Type 0 where
  created comment claimed released status assigned subtask edited : EventKind

-- The JSON object of an event's `data` column, `empty` for the empty text.
pub data Payload : Type 0 where
  empty : Payload
  filed : (assignee reviewer : String) → Payload
  child : (child_id : ℕ) (assignee : String) → Payload
  held_by : (holder : String) → Payload
  moved : (from to : Status) → Payload
  reassigned : (from to : String) → Payload

pub record Task : Type 0 where
  pub id : ℕ
  pub title : String
  pub body : String
  pub status : Status
  pub assignee : String
  pub created_by : String
  pub reviewer : String
  pub parent_id : Option ℕ
  pub depth : ℕ
  pub holder : String
  pub held_at : Option ℕ
  pub blocked_reason : String
  pub created_at : ℕ
  pub updated_at : ℕ
  pub closed_at : Option ℕ

pub record Event : Type 0 where
  pub id : ℕ
  pub task_id : ℕ
  pub at : ℕ
  pub actor : String
  pub kind : EventKind
  pub body : String
  pub payload : Payload

abbrev pub human : String
human = "human"

abbrev tag : Status → ℕ
tag todo = 0
tag in_progress = 1
tag review = 2
tag blocked = 3
tag done = 4
tag cancelled = 5
tag (other _) = 6

abbrev pub same_status : Status → Status → Bool
same_status (other s) (other t) = s == t
same_status s t = nat_beq (tag s) (tag t)

pub same_status_iff : (s t : Status) → (same_status s t ≡ true) ↔ (s ≡ t)
same_status_iff (other s) (other t) = ground (arith, eq_iff s t)
same_status_iff todo t = ground arith
same_status_iff s t = ground arith

instance abbrev pub status_eq : Eq Status
status_eq = record { equals = same_status; equals_iff = same_status_iff }

-- IsClosed
abbrev pub is_closed : Status → Bool
is_closed s = s == done || s == cancelled

-- ValidStatus
abbrev pub valid_status : Status → Bool
valid_status (other _) = false
valid_status _ = true
