-- ===== src/Scheduler/Each.antt =====
-- internal/scheduler/scheduler.go: what holds of each entry.
use denkeeper.Prelude.{
  String, Option, none, some, List, [], ◌∷◌, ◌==◌, string_eq, Bool-cases, inl, inr, All, lookup,
  put, drop,
}
use denkeeper.Scheduler.Entries.{Entry, map_entries}

module _ (P : Entry → Type 0) where
  abbrev pub AllEntries : List (String × Entry) → Type 0
  AllEntries l = All (λ p. P p.1) l

  pub AllEntries-drop :
      (name : String) (l : List (String × Entry)) → AllEntries l → AllEntries (drop name l)
  unfolding drop
  AllEntries-drop name [] h = tt
  AllEntries-drop name ((k, e) ∷ l) h = elim (Bool-cases (k == name)) [
    | inl same ↦ rw same (AllEntries-drop name l h.1)
    | inr other ↦ rw other (h.0, AllEntries-drop name l h.1)
  ]

  pub AllEntries-put :
      (name : String) (e : Entry) (l : List (String × Entry))
      → P e
      → AllEntries l
      → AllEntries (put name e l)
  unfolding put
  AllEntries-put name e l p h = (p, AllEntries-drop name l h)

  -- A value that is found.
  abbrev pub Found : Option Entry → Type 0
  Found none = Unit
  Found (some e) = P e

  pub lookup-Found :
      (name : String) (l : List (String × Entry)) → AllEntries l → Found (lookup name l)
  unfolding lookup
  lookup-Found name [] h = tt
  lookup-Found name ((k, e) ∷ l) h = elim (Bool-cases (k == name)) [
    | inl same ↦ rw same h.0
    | inr other ↦ rw other (lookup-Found name l h.1)
  ]

pub AllEntries-map :
    (P Q : Entry → Type 0) (f : Entry → Entry)
    → ((e : Entry) → P e → Q (f e))
    → (l : List (String × Entry)) → AllEntries P l
    → AllEntries Q (map_entries f l)
unfolding map_entries
AllEntries-map P Q f step [] h = tt
AllEntries-map P Q f step ((k, e) ∷ l) h = (step e h.0, AllEntries-map P Q f step l h.1)
