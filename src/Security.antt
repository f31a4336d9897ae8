-- ===== src/Security.antt =====
-- internal/security/permissions.go: permission tiers and what each allows.
use denkeeper.Prelude.{
  ℕ, String, Bool, true, false, not, ◌&&◌, ◌||◌, Option, none, some, List, [], ◌∷◌, if◌then◌else◌,
  ◌==◌, string_eq, ltb, lookup,
}
pub mod Tiers
mod Tests

abbrev pub tier_allowlists : List (String × List String)
tier_allowlists =
    (
      "autonomous",
      "chat" ∷ "read_memory" ∷ "write_memory" ∷ "read_user_file" ∷ "write_user_file" ∷ "use_tools"
          ∷ "use_read_only_tools" ∷ "create_skill" ∷ "modify_schedule" ∷ "change_fallback"
          ∷ "execute_shell" ∷ "access_filesystem" ∷ [],
    )
    ∷ (
      "supervised",
      "chat" ∷ "read_memory" ∷ "write_memory" ∷ "read_user_file" ∷ "write_user_file" ∷ "use_tools"
          ∷ "use_read_only_tools" ∷ [],
    )
    ∷ ("restricted", "chat" ∷ "read_memory" ∷ "write_memory" ∷ "use_read_only_tools" ∷ [])
    ∷ []

pub record PermissionEngine : Type 0 where
  pub tier : String
  pub allowlist : List String

abbrev pub engine_of : String → Option (List String) → Option PermissionEngine
engine_of tier none = none
engine_of tier (some actions) = some (record { tier = tier; allowlist = actions })

-- NewPermissionEngine, with `none` for its error.
unfoldable pub new_permission_engine : String → Option PermissionEngine
unfolding lookup
new_permission_engine tier = engine_of tier (lookup tier tier_allowlists)

-- NewDenyAll
abbrev pub deny_all : PermissionEngine
deny_all = record { tier = "none"; allowlist = [] }

unfoldable pub is_listed : String → List String → Bool
is_listed action [] = false
is_listed action (a ∷ l) = a == action || is_listed action l

-- CanExecute
unfoldable pub can_execute : PermissionEngine → String → Bool
unfolding is_listed
can_execute p action = is_listed action p.allowlist

abbrev pub tier_rank : List (String × ℕ)
tier_rank = ("restricted", 0) ∷ ("supervised", 1) ∷ ("autonomous", 2) ∷ []

abbrev pub rank_exceeds : Option ℕ → Option ℕ → Bool
rank_exceeds none c = true
rank_exceeds (some t) none = true
rank_exceeds (some t) (some c) = ltb c t

unfoldable pub tier_exceeds : String → String → Bool
unfolding lookup
tier_exceeds tier ceiling = rank_exceeds (lookup tier tier_rank) (lookup ceiling tier_rank)
