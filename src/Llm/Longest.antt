-- ===== src/Llm/Longest.antt =====
-- internal/llm/pricing/registry.go: which price a lookup by prefix finds.
use denkeeper.Prelude.{
  ℕ, ◌≤◌, ◌≡◌, refl, sym, ap, ◌∙◌, String, Bool, true, false, ◌&&◌, Option, none, some, List, [],
  ◌∷◌, arith, Bool-cases, inl, inr, ◌==◌, string_eq, eq_iff, eq_refl, if◌then◌else◌, ltb, lookup,
  All,
}
use denkeeper.Llm.Pricing.{
  ModelPrice, Prices, text_length, is_prefix_of, register_model, has_prefix_entry, set_price,
  insert_longest, register_prefix, first_prefix, or_next,
}

-- What the program registers, in order.
pub data Registration (A : Type 0) : Type 0 where
  of_model of_prefix : String → ModelPrice A → Registration A

abbrev pub Entries : Type 0 → Type 0
Entries A = List (String × ModelPrice A)

abbrev pub is_longer_match : String → ℕ → String → Bool
is_longer_match model k p = is_prefix_of p model && ltb k (text_length p)

-- A key that is a prefix of the model is not one that is none.
differ :
    (model p q : String)
    → is_prefix_of p model ≡ false
    → is_prefix_of q model ≡ true
    → (p == q) ≡ false
differ model p q h matches = elim (Bool-cases (p == q)) [
  | inl same ↦ absurd (cc (sym h ∙ ap (λ x. is_prefix_of x model) ((eq_iff p q).0 same) ∙ matches))
  | inr other ↦ other
]

module _ {A : Type 0} where
  unfoldable pub register_all : List (Registration A) → Prices A → Prices A
  unfolding register_model register_prefix
  register_all [] r = r
  register_all (of_model model price ∷ l) r = register_all l (register_model model price r)
  register_all (of_prefix prefix price ∷ l) r = register_all l (register_prefix prefix price r)

  -- The price that is registered last for a model, and for a prefix.
  unfoldable pub latest_model : String → List (Registration A) → Option (ModelPrice A)
  latest_model model [] = none
  latest_model model (of_prefix p price ∷ l) = latest_model model l
  latest_model model (of_model m price ∷ l) =
      or_next (latest_model model l) (if m == model then some price else none)

  unfoldable pub latest_prefix : String → List (Registration A) → Option (ModelPrice A)
  latest_prefix prefix [] = none
  latest_prefix prefix (of_model m price ∷ l) = latest_prefix prefix l
  latest_prefix prefix (of_prefix p price ∷ l) =
      or_next (latest_prefix prefix l) (if p == prefix then some price else none)

  -- No entry of the list is longer than a number.
  abbrev pub NoLonger : ℕ → Entries A → Type 0
  NoLonger k l = All (λ e. text_length e.0 ≤ k) l

  abbrev pub LongestFirst : Entries A → Type 0
  LongestFirst [] = Unit
  LongestFirst (e ∷ l) = NoLonger (text_length e.0) l × LongestFirst l

  -- No entry has a key that passes the test.
  abbrev pub NoKey : (String → Bool) → Entries A → Type 0
  NoKey test l = All (λ e. test e.0 ≡ false) l

  -- What a list of entries gives: the price of a key that is a prefix of the model, and the longest
  -- such; or nothing, where no key is one.
  abbrev pub Best : String → Entries A → Option (ModelPrice A) → Type 0
  Best model l none = NoKey (λ p. is_prefix_of p model) l
  Best model l (some price) =
      (p : String) × (lookup p l ≡ some price)
      × (is_prefix_of p model ≡ true)
      × NoKey (is_longer_match model (text_length p)) l

  set_price-NoLonger :
      (k : ℕ) (prefix : String) (price : ModelPrice A) (l : Entries A)
      → NoLonger k l
      → NoLonger k (set_price prefix price l)
  unfolding set_price
  set_price-NoLonger k prefix price [] h = tt
  set_price-NoLonger k prefix price ((p, old) ∷ l) h = elim (Bool-cases (p == prefix)) [
    | inl same ↦ rw same h
    | inr other ↦ rw other (h.0, set_price-NoLonger k prefix price l h.1)
  ]

  set_price-LongestFirst :
      (prefix : String) (price : ModelPrice A) (l : Entries A)
      → LongestFirst l
      → LongestFirst (set_price prefix price l)
  unfolding set_price
  set_price-LongestFirst prefix price [] h = tt
  set_price-LongestFirst prefix price ((p, old) ∷ l) h = elim (Bool-cases (p == prefix)) [
    | inl same ↦ rw same h
    | inr other ↦ rw other (
      set_price-NoLonger (text_length p) prefix price l h.0,
      set_price-LongestFirst prefix price l h.1,
    )
  ]

  NoLonger-more : (j k : ℕ) (l : Entries A) → j ≤ k → NoLonger j l → NoLonger k l
  NoLonger-more j k [] le h = tt
  NoLonger-more j k (e ∷ l) le h = (omega (arith, le, h.0), NoLonger-more j k l le h.1)

  insert_longest-NoLonger :
      (k : ℕ) (prefix : String) (price : ModelPrice A) (l : Entries A)
      → text_length prefix ≤ k
      → NoLonger k l
      → NoLonger k (insert_longest prefix price l)
  unfolding insert_longest
  insert_longest-NoLonger k prefix price [] le h = (le, tt)
  insert_longest-NoLonger k prefix price ((p, other) ∷ l) le h =
      elim (Bool-cases (ltb (text_length prefix) (text_length p))) [
        | inl shorter ↦ rw shorter (h.0, insert_longest-NoLonger k prefix price l le h.1)
        | inr longer ↦ rw longer (le, h)
      ]

  insert_longest-LongestFirst :
      (prefix : String) (price : ModelPrice A) (l : Entries A)
      → LongestFirst l
      → LongestFirst (insert_longest prefix price l)
  unfolding insert_longest
  insert_longest-LongestFirst prefix price [] h = (tt, tt)
  insert_longest-LongestFirst prefix price ((p, other) ∷ l) h =
      elim (Bool-cases (ltb (text_length prefix) (text_length p))) [
        | inl shorter ↦ rw shorter (
          insert_longest-NoLonger (text_length p) prefix price l (ground (arith, shorter)) h.0,
          insert_longest-LongestFirst prefix price l h.1,
        )
        | inr longer ↦
            let le : text_length p ≤ text_length prefix = ground (arith, longer) in
            rw longer ((le, NoLonger-more (text_length p) (text_length prefix) l le h.0), h)
      ]

  register_prefix-LongestFirst :
      (prefix : String) (price : ModelPrice A) (r : Prices A)
      → LongestFirst r.prefixes
      → LongestFirst (register_prefix prefix price r).prefixes
  unfolding register_prefix
  register_prefix-LongestFirst prefix price r h =
      elim (Bool-cases (has_prefix_entry prefix r.prefixes)) [
        | inl there ↦ rw there (set_price-LongestFirst prefix price r.prefixes h)
        | inr new ↦ rw new (insert_longest-LongestFirst prefix price r.prefixes h)
      ]

  pub register_all-LongestFirst :
      (l : List (Registration A)) (r : Prices A)
      → LongestFirst r.prefixes
      → LongestFirst (register_all l r).prefixes
  unfolding register_all register_model
  register_all-LongestFirst [] r h = h
  register_all-LongestFirst (of_model model price ∷ l) r h =
      register_all-LongestFirst l (register_model model price r) h
  register_all-LongestFirst (of_prefix prefix price ∷ l) r h =
      register_all-LongestFirst l (register_prefix prefix price r)
        (register_prefix-LongestFirst prefix price r h)

  NoLonger-NoKey :
      (model : String) (k : ℕ) (l : Entries A) → NoLonger k l → NoKey (is_longer_match model k) l
  NoLonger-NoKey model k [] h = tt
  NoLonger-NoKey model k (e ∷ l) h = (ground (arith, h.0), NoLonger-NoKey model k l h.1)

  Best-skip :
      (model p : String) (price : ModelPrice A) (l : Entries A) (o : Option (ModelPrice A))
      → is_prefix_of p model ≡ false
      → Best model l o
      → Best model ((p, price) ∷ l) o
  unfolding lookup
  Best-skip model p price l none h b = (h, b)
  Best-skip model p price l (some found) h (q, at, matches, all) =
      (q, rw (differ model p q h matches) at, matches, (rw h refl, all))

  pub first_prefix-Best :
      (model : String) (l : Entries A) → LongestFirst l → Best model l (first_prefix model l)
  unfolding first_prefix lookup
  first_prefix-Best model [] h = tt
  first_prefix-Best model ((p, price) ∷ l) h = elim (Bool-cases (is_prefix_of p model)) [
    | inl matches ↦ rw matches (
      p,
      rw (eq_refl p) refl,
      matches,
      (ground arith, NoLonger-NoKey model (text_length p) l h.0),
    )
    | inr differs ↦
        rw differs
          (Best-skip model p price l (first_prefix model l) differs (first_prefix-Best model l h.1))
  ]
