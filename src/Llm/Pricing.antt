-- ===== src/Llm/Pricing.antt =====
-- internal/llm/pricing/registry.go: prices of models. The sub-registries of providers have none of
-- their own, since only the global registry is asked for one.
use denkeeper.Prelude.{
  ℕ, suc, ◌+◌, String, Bool, true, false, Option, none, some, List, [], ◌∷◌, if◌then◌else◌, ◌==◌,
  string_eq, ltb, lookup, put, cut_prefix,
}
use denkeeper.Llm.{Dollars}

pub record ModelPrice (A : Type 0) : Type 0 where
  pub input_per_mtok : A
  pub output_per_mtok : A
  pub cached_input_per_mtok : A

-- exact, prefixes and fallbackRate of a Registry.
pub record Prices (A : Type 0) : Type 0 where
  pub exact : List (String × ModelPrice A)
  pub prefixes : List (String × ModelPrice A)
  pub fallback_rate : A

pub record Registry (A : Type 0) : Type 0 where
  pub own : Prices A
  pub provider_overrides : List (String × Prices A)

-- The code points of a text, counted. Of two prefixes of one text, the one with more bytes is the
-- one with more code points.
unfoldable pub text_length : String → ℕ
text_length String.[] = 0
text_length (String.◌∷◌ c s) = suc (text_length s)

abbrev pub is_prefix_of : String → String → Bool
is_prefix_of prefix text = elim (cut_prefix prefix text) [ none ↦ false | some rest ↦ true ]

module _ {A : Type 0} where
  -- Registry.Register
  unfoldable pub register_model : String → ModelPrice A → Prices A → Prices A
  register_model model price r = record r { exact = put model price r.exact }

  unfoldable pub has_prefix_entry : String → List (String × ModelPrice A) → Bool
  has_prefix_entry prefix [] = false
  has_prefix_entry prefix ((p, price) ∷ l) =
      let rest = has_prefix_entry prefix l in if p == prefix then true else rest

  unfoldable pub set_price :
      String → ModelPrice A → List (String × ModelPrice A) → List (String × ModelPrice A)
  set_price prefix price [] = []
  set_price prefix price ((p, old) ∷ l) =
      let rest = set_price prefix price l in if p == prefix then (p, price) ∷ l else (p, old) ∷ rest

  -- sort.Slice by length, the longest first. Entries of one length stand in any order there; here a
  -- new entry stands before those of its length.
  unfoldable pub insert_longest :
      String → ModelPrice A → List (String × ModelPrice A) → List (String × ModelPrice A)
  unfolding text_length
  insert_longest prefix price [] = (prefix, price) ∷ []
  insert_longest prefix price ((p, other) ∷ l) =
      let rest = insert_longest prefix price l in
      if ltb (text_length prefix) (text_length p)
      then (p, other) ∷ rest
      else (prefix, price) ∷ (p, other) ∷ l

  -- Registry.RegisterPrefix
  unfoldable pub register_prefix : String → ModelPrice A → Prices A → Prices A
  unfolding has_prefix_entry set_price insert_longest
  register_prefix prefix price r = record r {
    prefixes =
        if has_prefix_entry prefix r.prefixes
        then set_price prefix price r.prefixes
        else insert_longest prefix price r.prefixes;
  }

  unfoldable pub first_prefix : String → List (String × ModelPrice A) → Option (ModelPrice A)
  unfolding cut_prefix
  first_prefix model [] = none
  first_prefix model ((p, price) ∷ l) =
      let rest = first_prefix model l in if is_prefix_of p model then some price else rest

  abbrev pub or_next : Option (ModelPrice A) → Option (ModelPrice A) → Option (ModelPrice A)
  or_next none later = later
  or_next (some price) later = some price

  -- Registry.Lookup
  unfoldable pub find_price : Prices A → String → Option (ModelPrice A)
  unfolding first_prefix
  find_price r model = or_next (lookup model r.exact) (first_prefix model r.prefixes)

  abbrev pub find_override : Option (Prices A) → String → Option (ModelPrice A)
  find_override none model = none
  find_override (some sub) model = find_price sub model

  -- `if providerName != ""`
  abbrev pub sub_registry : Registry A → String → Option (Prices A)
  sub_registry r provider = if provider == "" then none else lookup provider r.provider_overrides

  -- Registry.LookupForProvider
  unfoldable pub find_for_provider : Registry A → String → String → Option (ModelPrice A)
  unfolding find_price
  find_for_provider r provider model =
      or_next (find_override (sub_registry r provider) model) (find_price r.own model)

module _ {A : Type 0} (d : Dollars A) where
  -- providerRegistry, with what is stored under the provider's name.
  abbrev pub override_of : Registry A → String → Prices A
  override_of r provider = elim (lookup provider r.provider_overrides) [
    | some sub ↦ sub
    | none ↦ record { exact = []; prefixes = []; fallback_rate = d.none_of }
  ]

  -- RegisterProviderModel, RegisterProviderPrefix and SetProviderFallbackRate, by the change that
  -- they make to the sub-registry.
  unfoldable pub change_override : String → (Prices A → Prices A) → Registry A → Registry A
  change_override provider change r = record r {
    provider_overrides = put provider (change (override_of r provider)) r.provider_overrides;
  }

  unfoldable pub compute_cost : ModelPrice A → ℕ → ℕ → ℕ → ℕ → A
  compute_cost p input output cached write =
      let million = d.of_count 1000000 in
      let rate =
        if d.same p.cached_input_per_mtok d.none_of
        then p.input_per_mtok
        else p.cached_input_per_mtok in
      d.add
        (d.add
          (d.add (d.mul (d.div (d.of_count input) million) p.input_per_mtok)
            (d.mul (d.mul (d.div (d.of_count write) million) p.input_per_mtok) d.quarter))
          (d.mul (d.div (d.of_count output) million) p.output_per_mtok))
        (d.mul (d.div (d.of_count cached) million) rate)

  -- `float64(total) / 1000.0 * rate`
  abbrev pub by_rate : ℕ → A → A
  by_rate total rate = d.mul (d.div (d.of_count total) (d.of_count 1000)) rate

  abbrev pub override_rate : Option (Prices A) → A
  override_rate none = d.none_of
  override_rate (some sub) = sub.fallback_rate

  unfoldable pub unpriced : Registry A → String → ℕ → A × String
  unpriced r provider total =
      if d.less d.none_of (override_rate (sub_registry r provider))
      then (by_rate total (override_rate (sub_registry r provider)), "fallback")
      else if d.less d.none_of r.own.fallback_rate
      then (by_rate total r.own.fallback_rate, "fallback")
      else (d.none_of, "unknown")

  -- Registry.Cost
  unfoldable pub cost_of : Registry A → String → String → ℕ → ℕ → ℕ → ℕ → A → A × String
  unfolding find_for_provider compute_cost unpriced
  cost_of r provider model input output cached write reported =
      if d.less d.none_of reported
      then (reported, "provider")
      else (elim (find_for_provider r provider model) [
        | some p ↦ (compute_cost p input output cached write, "registry")
        | none ↦ unpriced r provider (input + output + cached)
      ])
