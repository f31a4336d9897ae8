-- ===== src/Llm/Registered.antt =====
-- internal/llm/pricing/registry.go: what a lookup finds after registrations.
use denkeeper.Prelude.{
  ◌≡◌, refl, sym, ap, ◌∙◌, subst, inl, inr, String, Bool, true, false, Option, none, some, List, [],
  ◌∷◌, arith, Bool-cases, ◌==◌, string_eq, eq_iff, eq_refl, if◌then◌else◌, lookup, lookup-put, All,
}
use denkeeper.Llm.Pricing.{
  ModelPrice, Prices, text_length, is_prefix_of, register_model, has_prefix_entry, set_price,
  insert_longest, register_prefix, first_prefix, or_next, find_price,
}
use denkeeper.Llm.Longest.{
  Registration, of_model, of_prefix, Entries, register_all, latest_model, latest_prefix, NoKey,
  is_longer_match, Best, first_prefix-Best, register_all-LongestFirst,
}

module _ {A : Type 0} where
  lookup-set_price :
      (prefix p : String) (price : ModelPrice A) (l : Entries A)
      → has_prefix_entry prefix l ≡ true
      → lookup p (set_price prefix price l) ≡ (if prefix == p then some price else lookup p l)
  unfolding set_price has_prefix_entry lookup
  lookup-set_price prefix p price [] h = absurd (cc h)
  lookup-set_price prefix p price ((q, old) ∷ l) h =
      ground
        (arith, h, eq_iff q prefix, eq_iff q p, eq_iff prefix p, lookup-set_price prefix p price l)

  lookup-insert_longest :
      (prefix p : String) (price : ModelPrice A) (l : Entries A)
      → has_prefix_entry prefix l ≡ false
      → lookup p (insert_longest prefix price l) ≡ (if prefix == p then some price else lookup p l)
  unfolding insert_longest has_prefix_entry lookup
  lookup-insert_longest prefix p price [] h = refl
  lookup-insert_longest prefix p price ((q, other) ∷ l) h = ground (
    arith,
    h,
    eq_iff q prefix,
    eq_iff q p,
    eq_iff prefix p,
    lookup-insert_longest prefix p price l,
  )

  lookup-register_prefix :
      (prefix p : String) (price : ModelPrice A) (r : Prices A)
      → lookup p (register_prefix prefix price r).prefixes
        ≡ (if prefix == p then some price else lookup p r.prefixes)
  unfolding register_prefix
  lookup-register_prefix prefix p price r = elim (Bool-cases (has_prefix_entry prefix r.prefixes)) [
    | inl there ↦ rw there (lookup-set_price prefix p price r.prefixes there)
    | inr new ↦ rw new (lookup-insert_longest prefix p price r.prefixes new)
  ]

  -- A price that is given here, or one from later on.
  or_next-if :
      (a c : Option (ModelPrice A)) (b : Bool) (price : ModelPrice A)
      → or_next a (if b then some price else c)
        ≡ or_next (or_next a (if b then some price else none)) c
  or_next-if (some x) c b price = refl
  or_next-if none c true price = refl
  or_next-if none c false price = refl

  -- The list of prefixes holds the price that was registered last.
  lookup-prefixes :
      (p : String) (l : List (Registration A)) (r : Prices A)
      → lookup p (register_all l r).prefixes ≡ or_next (latest_prefix p l) (lookup p r.prefixes)
  unfolding register_all register_model latest_prefix
  lookup-prefixes p [] r = refl
  lookup-prefixes p (of_model m price ∷ l) r = lookup-prefixes p l (register_model m price r)
  lookup-prefixes p (of_prefix q price ∷ l) r =
      lookup-prefixes p l (register_prefix q price r)
      ∙ ap (λ o. or_next (latest_prefix p l) o) (lookup-register_prefix q p price r)
      ∙ or_next-if (latest_prefix p l) (lookup p r.prefixes) (q == p) price

  lookup-exact :
      (m : String) (l : List (Registration A)) (r : Prices A)
      → lookup m (register_all l r).exact ≡ or_next (latest_model m l) (lookup m r.exact)
  unfolding register_all register_model register_prefix latest_model
  lookup-exact m [] r = refl
  lookup-exact m (of_prefix p price ∷ l) r = lookup-exact m l (register_prefix p price r)
  lookup-exact m (of_model q price ∷ l) r =
      lookup-exact m l (register_model q price r)
      ∙ ap (λ o. or_next (latest_model m l) o) (lookup-put q m price r.exact)
      ∙ or_next-if (latest_model m l) (lookup m r.exact) (q == m) price

  -- A key that is in the list does not pass a test that no key passes.
  NoKey-lookup :
      (test : String → Bool) (p : String) (price : ModelPrice A) (l : Entries A)
      → NoKey test l
      → lookup p l ≡ some price
      → test p ≡ false
  unfolding lookup
  NoKey-lookup test p price [] h at = absurd (cc at)
  NoKey-lookup test p price ((q, old) ∷ l) h at = elim (Bool-cases (q == p)) [
    | inl same ↦ subst (λ x. test x ≡ false) ((eq_iff q p).0 same) h.0
    | inr other ↦ NoKey-lookup test p price l h.1 (rw other at at)
  ]

  abbrev pub passes : (String → Bool) → Registration A → Bool
  passes test (of_model m price) = false
  passes test (of_prefix p price) = test p

  -- No prefix is registered that passes the test.
  abbrev pub NoPrefix : (String → Bool) → List (Registration A) → Type 0
  NoPrefix test l = All (λ x. passes test x ≡ false) l

  or_next-price :
      (o : Option (ModelPrice A)) (price : ModelPrice A)
      → (found : ModelPrice A) × (or_next o (some price) ≡ some found)
  or_next-price none price = (price, refl)
  or_next-price (some x) price = (x, refl)

  NoKey-NoPrefix :
      (test : String → Bool) (l : List (Registration A)) (r : Prices A)
      → NoKey test (register_all l r).prefixes
      → NoPrefix test l
  unfolding register_all
  NoKey-NoPrefix test [] r h = tt
  NoKey-NoPrefix test (of_model m price ∷ l) r h =
      (refl, NoKey-NoPrefix test l (register_model m price r) h)
  NoKey-NoPrefix test (of_prefix p price ∷ l) r h =
      let r1 = register_prefix p price r in
      let (found, is) = or_next-price (latest_prefix p l) price in
      let here : lookup p r1.prefixes ≡ some price =
        lookup-register_prefix p p price r
        ∙ ap (λ b. if b then some price else lookup p r.prefixes) (eq_refl p) in
      (
        NoKey-lookup test p found (register_all l r1).prefixes h
            (lookup-prefixes p l r1 ∙ ap (λ o. or_next (latest_prefix p l) o) here ∙ is),
        NoKey-NoPrefix test l r1 h,
      )

  -- The registry after registrations, from an empty one.
  abbrev pub registered : List (Registration A) → A → Prices A
  registered l rate = register_all l (record { exact = []; prefixes = []; fallback_rate = rate })

  or_next-none : (o : Option (ModelPrice A)) → or_next o none ≡ o
  or_next-none none = refl
  or_next-none (some x) = refl

  -- What a lookup by prefix returns: the latest price of a prefix of the model, which no longer
  -- registered one is; or nothing, where no registered one is.
  abbrev pub IsLongest : String → List (Registration A) → Option (ModelPrice A) → Type 0
  IsLongest model l none = NoPrefix (λ p. is_prefix_of p model) l
  IsLongest model l (some price) =
      (p : String) × (latest_prefix p l ≡ some price)
      × (is_prefix_of p model ≡ true)
      × NoPrefix (is_longer_match model (text_length p)) l

  abbrev pub IsFound :
      String → List (Registration A) → Option (ModelPrice A) → Option (ModelPrice A) → Type 0
  IsFound model l (some own) o = o ≡ some own
  IsFound model l none o = IsLongest model l o

  Best-IsLongest :
      (l : List (Registration A)) (rate : A) (model : String) (o : Option (ModelPrice A))
      → Best model (registered l rate).prefixes o
      → IsLongest model l o
  unfolding lookup
  Best-IsLongest l rate model none b = NoKey-NoPrefix _ l _ b
  Best-IsLongest l rate model (some price) (p, at, matches, all) = (
    p,
    sym (or_next-none (latest_prefix p l)) ∙ sym (lookup-prefixes p l _) ∙ at,
    matches,
    NoKey-NoPrefix _ l _ all,
  )

  IsFound-after :
      (l : List (Registration A)) (rate : A) (model : String) (own : Option (ModelPrice A))
      → lookup model (registered l rate).exact ≡ own
      → IsFound model l own (find_price (registered l rate) model)
  unfolding find_price
  IsFound-after l rate model (some own) e = rw e refl
  IsFound-after l rate model none e = rw e (
      Best-IsLongest l rate model (first_prefix model (registered l rate).prefixes)
        (first_prefix-Best model (registered l rate).prefixes (register_all-LongestFirst l _ tt)))

  -- After any registrations, a lookup finds the price that was registered last for the model itself.
  -- Where there is none, it finds the price that was registered last for a prefix of the model, and no
  -- longer prefix of it is registered; and it finds nothing only where no registered prefix is one.
  pub find_price-IsFound :
      (l : List (Registration A)) (rate : A) (model : String)
      → IsFound model l (latest_model model l) (find_price (registered l rate) model)
  unfolding lookup
  find_price-IsFound l rate model =
      IsFound-after l rate model (latest_model model l)
        (lookup-exact model l _ ∙ or_next-none (latest_model model l))
