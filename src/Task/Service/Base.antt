-- ===== src/Task/Service/Base.antt =====
-- internal/task/service.go: the state behind the service, members, texts, and what is recorded.
use Prim.Native.String.{count}
use denkeeper.Prelude.{
  ℕ, String, Bool, ◌&&◌, ◌||◌, Option, none, some, List, [], ◌∷◌, ◌++◌, if◌then◌else◌, ◌==◌, ltb,
  string_eq, trim_space, cut_prefix,
}
use denkeeper.Task.{EventKind, human, status_eq}
use denkeeper.Task.Rules.{required, too_long, no_member, ambiguous_member}
use denkeeper.Task.Db.{Db, Result, ok, err, rule, directory_failed}
use denkeeper.Task.Store

abbrev pub agent_prefix : String
agent_prefix = "agent:"

abbrev pub external_prefix : String
external_prefix = "ext:"

-- MemberName
unfoldable pub member_name : String → String
unfolding cut_prefix
member_name id = elim (cut_prefix agent_prefix id) [
  | some n ↦ n
  | none ↦ elim (cut_prefix external_prefix id) [ some n ↦ n | none ↦ id ]
]

pub record Member : Type 0 where
  pub id : String
  pub name : String

-- The Directory of a service: `nil`, one whose Members fails, or one that lists members.
pub data Directory : Type 0 where
  nobody broken : Directory
  listing : List Member → Directory

pub record Folding : Type 0 where
  pub to_lower : String → String
  pub equal_fold : String → String → Bool

pub record AuditEvent : Type 0 where
  pub action : EventKind
  pub agent : String
  pub task_id : ℕ
  pub actor : String

pub record Change : Type 0 where
  pub task_id : ℕ
  pub kind : EventKind
  pub actor : String

-- A service as NewService and SetOnChange leave it.
pub record Service : Type 0 where
  pub limits : Store.Limits
  pub dir : Directory
  pub folding : Folding
  pub has_auditor : Bool
  pub has_hook : Bool

pub record World : Type 0 where
  pub db : Db
  pub audits : List AuditEvent
  pub changes : List Change

-- A computation of the service.
abbrev pub Svc : Type 0 → Type 0
Svc A = World → Result A × World

abbrev pub and_then : {A B : Type 0} → Result A × World → (A → Svc B) → Result B × World
and_then (err e, w) f = (err e, w)
and_then (ok a, w) f = f a w

infixl 5 ◌>>=◌ ◌>>◌
abbrev pub ◌>>=◌ : {A B : Type 0} → Svc A → (A → Svc B) → Svc B
◌>>=◌ m f w = and_then (m w) f

abbrev pub ◌>>◌ : {B : Type 0} → Svc (Unit {0}) → Svc B → Svc B
m >> k = m >>= λ _. k

abbrev pub give : {A : Type 0} → Result A → Svc A
give r w = (r, w)

abbrev pub on_db : {A : Type 0} → World → Result A × Db → Result A × World
on_db w (r, db) = (r, record w { db = db })

-- A call of the store.
abbrev pub call : {A : Type 0} → (Db → Result A × Db) → Svc A
call f w = on_db w (f w.db)

-- cleanText
unfoldable pub clean_text : String → String → ℕ → Bool → Result String
clean_text field s limit is_required =
    let t = trim_space s in
    if is_required && t == ""
    then err (rule (required field))
    else if ltb limit (count t)
    then err (rule (too_long field))
    else ok t

-- Service.Members
unfoldable pub members : Directory → Result (List Member)
members nobody = ok (record { id = human; name = "you" } ∷ [])
members broken = err directory_failed
members (listing ms) = ok (record { id = human; name = "you" } ∷ ms)

pick : String → List String → Result String
pick name [] = err (rule (no_member name))
pick name (id ∷ []) = ok id
pick name (_ ∷ _ ∷ _) = err (rule (ambiguous_member name))

-- The loop of Resolve: an exact ID wins, even after names that match.
unfoldable pub scan : Folding → String → List Member → List String → Result String
unfolding pick
scan fold name [] matches = pick name matches
scan fold name (m ∷ ms) matches =
    let rest =
      scan fold name ms (if fold.equal_fold m.name name then matches ++ m.id ∷ [] else matches) in
    if m.id == name then ok m.id else rest

abbrev scan_all : Folding → String → Result (List Member) → Result String
scan_all fold name (err e) = err e
scan_all fold name (ok ms) = scan fold name ms []

-- Service.Resolve
unfoldable pub resolve : Service → String → String → Result String
unfolding scan members
resolve sv name actor =
    let t = trim_space name in
    let low = sv.folding.to_lower t in
    if low == ""
    then ok ""
    else if low == "me"
    then ok actor
    else if low == "you" || low == human || low == "operator"
    then ok human
    else scan_all sv.folding t (members sv.dir)

-- The agent that an audit event names.
abbrev audit_agent : String → Option String → String
audit_agent actor none = ""
audit_agent actor (some _) = member_name actor

unfoldable pub notify : Service → Change → Svc (Unit {0})
notify sv c w = (ok tt, if sv.has_hook then record w { changes = w.changes ++ c ∷ [] } else w)

-- Service.record
unfoldable pub emit : Service → String → ℕ → EventKind → Svc (Unit {0})
unfolding notify
emit sv actor id kind w =
    notify sv (record { task_id = id; kind = kind; actor = actor })
      (if sv.has_auditor
        then record w {
          audits =
              w.audits
              ++ record {
                action = kind;
                agent = audit_agent actor (cut_prefix agent_prefix actor);
                task_id = id;
                actor = actor;
              }
                ∷ [];
        }
        else w)
