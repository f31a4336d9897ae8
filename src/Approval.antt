-- ===== src/Approval.antt =====
-- internal/approval: approval.go and autoapprove.go, the data of approval requests and of the
-- rules that answer them, and the state that the manager of manager.go keeps.
pub mod Table
pub mod Manager
pub mod Callback
pub mod Auto
pub mod Config
pub mod Handler
pub mod Effect
pub mod Settle
pub mod Run
pub mod Calls
pub mod Presses
pub mod Invariant
pub mod Track
pub mod Outcomes
pub mod Resolve
pub mod Parse
pub mod Blessing
pub mod Expiry
mod Tests
use denkeeper.Prelude.{
  ℕ, ◌≡◌, ◌↔◌, String, Bool, true, false, Option, List, Eq, ◌==◌, string_eq, nat_beq, eq_iff, arith,
}

-- `other` is a text that is none of the five, which a column or a query may hold.
pub data Status : Type 0 where
  pending approved denied expired aborted : Status
  other : String → Status

abbrev tag : Status → ℕ
tag pending = 0
tag approved = 1
tag denied = 2
tag expired = 3
tag aborted = 4
tag (other s) = 5

abbrev pub same_status : Status → Status → Bool
same_status (other s) (other t) = s == t
same_status s t = nat_beq (tag s) (tag t)

pub same_status_iff : (s t : Status) → (same_status s t ≡ true) ↔ (s ≡ t)
same_status_iff (other s) (other t) = ground (arith, eq_iff s t)
same_status_iff pending t = ground arith
same_status_iff s t = ground arith

instance abbrev pub approval_status_eq : Eq Status
approval_status_eq = record { equals = same_status; equals_iff = same_status_iff }

-- ValidStatus: the empty text means every status.
abbrev pub valid_status : Status → Bool
valid_status (other s) = s == ""
valid_status s = true

pub data ActionKind : Type 0 where
  user_update soul_update identity_update create_skill update_skill delete_skill : ActionKind
  modify_schedule install_tool modify_config browser_profile tool_call : ActionKind

abbrev pub is_tool_call : ActionKind → Bool
is_tool_call tool_call = true
is_tool_call kind = false

pub record Request : Type 0 where
  pub id : String
  pub agent_name : String
  pub kind : ActionKind
  pub status : Status
  pub summary : String
  pub payload : String
  pub callback_data : String
  pub external_id : String
  pub adapter_name : String
  pub conversation_id : String
  pub created_at : ℕ
  pub expires_at : Option ℕ
  pub resolved_at : Option ℕ
  pub resolved_by : String

pub data Scope : Type 0 where
  session permanent config : Scope

-- A row of auto_approve_rules: the manager stores permanent rules there.
pub record Rule : Type 0 where
  pub rule_id : String
  pub rule_agent : String
  pub tool_name : String
  pub scope : Scope
  pub created_by : String

-- waiterResult
pub record Waited : Type 0 where
  pub status : Status
  pub action_error : Option String

-- The audit events of the manager.
pub data Audited : Type 0 where
  resolution : (id : String) → Status → (by : String) → (action_error : Option String) → Audited
  abort_event : (id reason : String) → Audited
  rule_created : (agent tool : String) → Scope → (conversation_id by : String) → Audited

pub data Error : Type 0 where
  not_found already_resolved stale_callback driver unsupported : Error
  action_failed : String → Error

pub data Result (A : Type 0) : Type 0 where
  ok : A → Result A
  err : Error → Result A

-- What surrounds the manager: whether the driver carries out the statement of a moment, the clock,
-- random identifiers, the closures that callers submit (an action is a number that names its
-- closure, and gives the error that it returns), and the order that SQLite gives to rows under
-- `ORDER BY created_at DESC`.
pub record Oracle : Type 0 where
  pub runs : ℕ → Bool
  pub clock : ℕ → ℕ
  pub new_id : ℕ → String
  pub perform : ℕ → ℕ → String → Option String
  pub newest_first : List Request → List Request
  pub has_auditor : Bool

-- The two tables, and the manager's fields: the registry's actions by id, the waiters' channels of
-- one place by id, the session rules by key with their expiry, and the configured rules. `ran`
-- records the id and the payload of each action that ran, the latest first, and `moment` counts
-- what the surroundings were asked.
pub record World : Type 0 where
  pub requests : List Request
  pub rules : List Rule
  pub actions : List (String × ℕ)
  pub waiters : List (String × Option Waited)
  pub session_rules : List (String × ℕ)
  pub config_rules : List (String × List String)
  pub ran : List (String × String)
  pub audit : List Audited
  pub moment : ℕ
