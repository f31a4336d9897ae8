-- ===== src/Skill/Merged.antt =====
-- internal/skill: which skills a message of an agent gets, from the global ones and its own.
use denkeeper.Prelude.{
  ◌≡◌, refl, ap, eq_iff, ◌∙◌, String, false, ◌||◌, List, [], ◌∷◌, ◌++◌, if◌then◌else◌, ◌==◌,
  string_eq, filter, Bool-cases, inl, inr, arith,
}
use mathlib.Core.List.{append-nil}
use denkeeper.Skill.{
  Skill, Cases, MatchContext, has_no_triggers, skill_matches, match_skills, has_skill,
  not_overridden, merge_skills,
}

-- The skills of a name, in order.
unfoldable pub named : String → List Skill → List Skill
named name [] = []
named name (s ∷ skills) = let rest = named name skills in if s.name == name then s ∷ rest else rest

named-append :
    (name : String) (xs ys : List Skill) → named name (xs ++ ys) ≡ named name xs ++ named name ys
unfolding named
named-append name [] ys = refl
named-append name (s ∷ xs) ys = elim (Bool-cases (s.name == name)) [
  | inl same ↦ rw (same, named-append name xs ys) refl
  | inr other ↦ rw (other, named-append name xs ys) refl
]

match_skills-append :
    (g : Cases) (ctx : MatchContext) (xs ys : List Skill)
    → match_skills g ctx (xs ++ ys) ≡ match_skills g ctx xs ++ match_skills g ctx ys
unfolding match_skills
match_skills-append g ctx [] ys = refl
match_skills-append g ctx (s ∷ xs) ys =
    elim (Bool-cases (has_no_triggers s.parsed_triggers || skill_matches g ctx s)) [
      | inl yes_it ↦ rw (yes_it, match_skills-append g ctx xs ys) refl
      | inr not_it ↦ rw (not_it, match_skills-append g ctx xs ys) refl
    ]

filter_all : (skills : List Skill) → filter (not_overridden []) skills ≡ skills
unfolding filter has_skill
filter_all [] = refl
filter_all (s ∷ skills) = rw (filter_all skills) refl

merge_any :
    (global agent_specific : List Skill)
    → merge_skills global agent_specific
      ≡ filter (not_overridden agent_specific) global ++ agent_specific
unfolding merge_skills filter
merge_any global [] = rw (filter_all global, append-nil global) refl
merge_any [] (a ∷ agent_specific) = refl
merge_any (s ∷ global) (a ∷ agent_specific) = refl

-- A skill is matched for itself alone.
matched_named :
    (g : Cases) (ctx : MatchContext) (name : String) (skills : List Skill)
    → has_skill name skills ≡ false
    → named name (match_skills g ctx skills) ≡ []
unfolding named match_skills has_skill
matched_named g ctx name [] h = refl
matched_named g ctx name (s ∷ skills) h =
    let other : (s.name == name) ≡ false = ground (arith, h) in
    let rest = matched_named g ctx name skills (ground (arith, h)) in
    elim (Bool-cases (has_no_triggers s.parsed_triggers || skill_matches g ctx s)) [
      | inl yes_it ↦ rw (yes_it, other) rest
      | inr not_it ↦ rw not_it rest
    ]

filtered_named :
    (g : Cases) (ctx : MatchContext) (name : String) (own global : List Skill)
    → named name (match_skills g ctx (filter (not_overridden own) global))
      ≡ (if has_skill name own then [] else named name (match_skills g ctx global))
unfolding named match_skills filter
filtered_named g ctx name own [] = elim (Bool-cases (has_skill name own)) [
  | inl has ↦ rw has refl
  | inr has_not ↦ rw has_not refl
]
filtered_named g ctx name own (s ∷ global) =
    let rest = filtered_named g ctx name own global in
    elim (Bool-cases (has_no_triggers s.parsed_triggers || skill_matches g ctx s)) [
      | inl yes_it ↦ elim (Bool-cases (s.name == name)) [
        | inl same ↦
            let e : has_skill s.name own ≡ has_skill name own =
              ap (λ n. has_skill n own) ((eq_iff s.name name).0 same) in
            elim (Bool-cases (has_skill name own)) [
              | inl has ↦ rw (e ∙ has, has) (rest ∙ rw has refl)
              | inr has_not ↦
                  rw (e ∙ has_not, has_not, yes_it, same) (ap (λ l. s ∷ l) (rest ∙ rw has_not refl))
            ]
        | inr other ↦ elim (Bool-cases (has_skill s.name own)) [
          | inl over ↦ rw (over, yes_it, other) rest
          | inr kept ↦ rw (kept, yes_it, other) rest
        ]
      ]
      | inr not_it ↦ elim (Bool-cases (has_skill s.name own)) [
        | inl over ↦ rw (over, not_it) rest
        | inr kept ↦ rw (kept, not_it) rest
      ]
    ]

-- Of the skills that a message gets from the merged ones, those of a name are those that it gets from
-- the agent's own skills, if the agent has a skill of the name, matched or not; and those that it
-- gets from the global ones, if it has none.
pub match_skills-merge_skills :
    (g : Cases) (ctx : MatchContext) (name : String) (global own : List Skill)
    → named name (match_skills g ctx (merge_skills global own)) ≡ (
        if has_skill name own
        then named name (match_skills g ctx own)
        else named name (match_skills g ctx global))
match_skills-merge_skills g ctx name global own =
    let kept = filter (not_overridden own) global in
    rw
      (
        merge_any global own,
        match_skills-append g ctx kept own,
        named-append name (match_skills g ctx kept) (match_skills g ctx own),
        filtered_named g ctx name own global,
      )
      (elim (Bool-cases (has_skill name own)) [
        | inl has ↦ rw has refl
        | inr has_not ↦
            rw (has_not, matched_named g ctx name own has_not)
              (append-nil (named name (match_skills g ctx global)))
      ])
