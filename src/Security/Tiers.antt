-- ===== src/Security/Tiers.antt =====
-- internal/security/permissions.go: the rank of a tier against what it allows.
use denkeeper.Prelude.{
  ℕ, ◌≡◌, refl, sym, String, Bool, true, false, not, ◌&&◌, Option, none, some, List, [], ◌∷◌, ◌==◌,
  string_eq, eq_iff, lookup, ◌⊎◌, inl, inr, Bool-cases,
}
use denkeeper.Security.{
  PermissionEngine, new_permission_engine, can_execute, tier_rank, rank_exceeds, tier_exceeds,
}

-- Every action of a list can be executed by an engine.
unfoldable pub can_all : PermissionEngine → List String → Bool
unfolding can_execute
can_all p [] = true
can_all p (a ∷ l) = can_execute p a && can_all p l

-- Both tiers have an engine, and what the first engine allows, the second allows, too.
abbrev pub grants_within : Option PermissionEngine → Option PermissionEngine → Bool
grants_within none q = false
grants_within (some p) none = false
grants_within (some p) (some q) = can_all q p.allowlist

-- One of the three tiers, or one that has neither a rank nor an engine.
abbrev pub TierCase : String → Type 0
TierCase tier =
    (tier ≡ "restricted")
    ⊎ ((tier ≡ "supervised")
        ⊎ ((tier ≡ "autonomous")
            ⊎ ((lookup tier tier_rank ≡ none) × (new_permission_engine tier ≡ none))))

Tier-cases : (tier : String) → TierCase tier
unfolding new_permission_engine lookup
Tier-cases tier = elim (Bool-cases ("restricted" == tier)) [
  | inl r ↦ inl (sym ((eq_iff "restricted" tier).0 r))
  | inr not_r ↦ elim (Bool-cases ("supervised" == tier)) [
    | inl s ↦ inr (inl (sym ((eq_iff "supervised" tier).0 s)))
    | inr not_s ↦ elim (Bool-cases ("autonomous" == tier)) [
      | inl a ↦ inr (inr (inl (sym ((eq_iff "autonomous" tier).0 a))))
      | inr not_a ↦ inr (inr (inr (rw (not_r, not_s, not_a) refl, rw (not_r, not_s, not_a) refl)))
    ]
  ]
]

none-exceeds : (o : Option ℕ) → rank_exceeds o none ≡ true
none-exceeds none = refl
none-exceeds (some k) = refl

none-grants : (o : Option PermissionEngine) → grants_within o none ≡ false
none-grants none = refl
none-grants (some p) = refl

-- For a known tier.
known_lem :
    (tier ceiling : String)
    → TierCase ceiling
    → (tier ≡ "restricted") ⊎ ((tier ≡ "supervised") ⊎ (tier ≡ "autonomous"))
    → tier_exceeds tier ceiling
      ≡ not (grants_within (new_permission_engine tier) (new_permission_engine ceiling))
unfolding tier_exceeds new_permission_engine can_all
known_lem tier ceiling (inr (inr (inr (no_rank, no_engine)))) known =
    rw (no_rank, no_engine, none-exceeds, none-grants) refl
known_lem tier ceiling (inl c) (inl t) = rw (c, t) refl
known_lem tier ceiling (inl c) (inr (inl t)) = rw (c, t) refl
known_lem tier ceiling (inl c) (inr (inr t)) = rw (c, t) refl
known_lem tier ceiling (inr (inl c)) (inl t) = rw (c, t) refl
known_lem tier ceiling (inr (inl c)) (inr (inl t)) = rw (c, t) refl
known_lem tier ceiling (inr (inl c)) (inr (inr t)) = rw (c, t) refl
known_lem tier ceiling (inr (inr (inl c))) (inl t) = rw (c, t) refl
known_lem tier ceiling (inr (inr (inl c))) (inr (inl t)) = rw (c, t) refl
known_lem tier ceiling (inr (inr (inl c))) (inr (inr t)) = rw (c, t) refl

-- A tier exceeds a ceiling exactly where one of the two is no tier, or the tier allows an action that
-- the ceiling does not: the ranks order the tiers as their allowlists do.
pub tier_exceeds_lem :
    (tier ceiling : String)
    → tier_exceeds tier ceiling
      ≡ not (grants_within (new_permission_engine tier) (new_permission_engine ceiling))
unfolding tier_exceeds
tier_exceeds_lem tier ceiling = elim (Tier-cases tier) [
  | inl r ↦ known_lem tier ceiling (Tier-cases ceiling) (inl r)
  | inr (inl s) ↦ known_lem tier ceiling (Tier-cases ceiling) (inr (inl s))
  | inr (inr (inl a)) ↦ known_lem tier ceiling (Tier-cases ceiling) (inr (inr a))
  | inr (inr (inr (no_rank, no_engine))) ↦ rw (no_rank, no_engine) refl
]
