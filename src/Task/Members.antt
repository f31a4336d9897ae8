-- ===== src/Task/Members.antt =====
-- Member IDs of internal/task/task.go, names and texts as internal/task/service.go reads them.
use Prim.Native.Char.{code}
use Prim.Native.String
use Prim.Native.String.{count}
use text.Mathlib.TextLemmas.{append_cancel_left}
use denkeeper.Prelude.{
  ℕ, ◌≤◌, ◌≡◌, ◌≢◌, ◌⊎◌, inl, inr, refl, ◌∙◌, ap, String, Bool, false, Bool-cases, none, arith,
  eq_iff, string_eq, is_space, is_empty, trim_left, trim_right, trim_space, cut_prefix,
  cut_prefix-append, cut_prefix_other,
}
use denkeeper.Task.{human}
use denkeeper.Task.Db.{ok}
use denkeeper.Task.Service.{member_name, agent_prefix, external_prefix, clean_text}

-- AgentID and ExternalID
abbrev pub agent_id : String → String
agent_id name = String.◌++◌ agent_prefix name

abbrev pub external_id : String → String
external_id key_name = String.◌++◌ external_prefix key_name

cut_agent-external : (n : String) → cut_prefix agent_prefix (external_id n) ≡ none
cut_agent-external n = cut_prefix_other _ _ "gent:" "xt:" n refl

-- A member's name is got back from the ID of an agent and from that of a key, whatever the name.
pub member_name-id :
    (n : String) → (member_name (agent_id n) ≡ n) × (member_name (external_id n) ≡ n)
unfolding member_name
member_name-id n = (
  rw (cut_prefix-append agent_prefix n, member_name) refl,
  rw (cut_agent-external n, cut_prefix-append external_prefix n, member_name) refl,
)

-- No agent has the ID of an API key or of the operator, no key has that of the operator, and the
-- IDs of two agents, or of two keys, differ where the names do.
pub member_ids_distinct :
    (a b : String)
    → (agent_id a ≢ external_id b)
      × (agent_id a ≢ human)
      × (external_id a ≢ human)
      × (agent_id a ≡ agent_id b → a ≡ b)
      × (external_id a ≡ external_id b → a ≡ b)
unfolding cut_prefix
member_ids_distinct a b = (
  λ e. cc (ap (cut_prefix agent_prefix) e, cut_prefix-append agent_prefix a, cut_agent-external b),
  λ e. cc (ap (cut_prefix agent_prefix) e, cut_prefix-append agent_prefix a),
  λ e. cc (ap (cut_prefix external_prefix) e, cut_prefix-append external_prefix a),
  λ e. append_cancel_left agent_prefix a b e,
  λ e. append_cancel_left external_prefix a b e,
)

-- The first character of a text is no space.
abbrev StartsInked : String → Type 0
StartsInked String.[] = Unit
StartsInked (String.◌∷◌ c s) = is_space (code c) ≡ false

trim_left-StartsInked : (s : String) → StartsInked (trim_left s)
unfolding trim_left
trim_left-StartsInked String.[] = tt
trim_left-StartsInked (String.◌∷◌ c s) = elim (Bool-cases (is_space (code c))) [
  | inl space ↦ rw space (trim_left-StartsInked s)
  | inr ink ↦ rw ink ink
]

trim_right-StartsInked : (s : String) → StartsInked s → StartsInked (trim_right s)
unfolding trim_right
trim_right-StartsInked String.[] h = tt
trim_right-StartsInked (String.◌∷◌ c s) h = elim (Bool-cases (is_empty (trim_right s))) [
  | inl bare ↦ rw (bare, h) h
  | inr more ↦ rw more h
]

trim_left_of_StartsInked : (s : String) → StartsInked s → trim_left s ≡ s
unfolding trim_left
trim_left_of_StartsInked String.[] h = refl
trim_left_of_StartsInked (String.◌∷◌ c s) h = rw h

trim_right_idem : (s : String) → trim_right (trim_right s) ≡ trim_right s
unfolding trim_right
trim_right_idem String.[] = refl
trim_right_idem (String.◌∷◌ c s) = ground (arith, trim_right_idem s)

pub trim_space_idem : (s : String) → trim_space (trim_space s) ≡ trim_space s
unfolding trim_space
trim_space_idem s =
    ap trim_right (
      trim_left_of_StartsInked (trim_right (trim_left s))
        (trim_right-StartsInked (trim_left s) (trim_left-StartsInked s)))
    ∙ trim_right_idem (trim_left s)

-- A text that was cleaned is trimmed, not longer than the limit and, where it is required, not
-- empty; and cleaning it again gives it back.
pub clean_text_lem :
    (field s t : String) (limit : ℕ) (is_required : Bool)
    → clean_text field s limit is_required ≡ ok t
    → (trim_space t ≡ t)
      × (count t ≤ limit)
      × ((is_required ≡ false) ⊎ (t ≢ ""))
      × (clean_text field t limit is_required ≡ ok t)
unfolding clean_text
clean_text_lem field s t limit is_required h =
    let same : trim_space s ≡ t = ground arith in
    let trimmed : trim_space t ≡ t = rw (← same) (trim_space_idem s) in
    (trimmed, ground arith, ground (arith, eq_iff t ""), rw trimmed (rw same at h))
