-- ===== src/Llm/Limits.antt =====
-- internal/llm: the hard limit, from the recording of a cost to the next completion.
use denkeeper.Prelude.{◌≡◌, refl, String, Bool, true, false, ◌||◌, string_eq, eq_refl, arith}
use denkeeper.Llm.{Dollars, Usage}
use denkeeper.Llm.Complete.{Call, complete_at, complete}
use denkeeper.Llm.Cost.{
  CostTracker, limits_for_session, session_cost, within_hard, exceeds_hard_limit,
  record_with_provider,
}
use denkeeper.Llm.Retry.{Net, World}
use denkeeper.Llm.Router.{over_hard_limit, has_provider, apply_cost_limit_fallback}

module _ {A : Type 0} (d : Dollars A) where
  -- A hard limit is positive, if it is not the zero that stands for none.
  abbrev pub HasSign : CostTracker A → String → Type 0
  HasSign ct session =
      (d.same (limits_for_session ct session).hard d.none_of
        || d.less d.none_of (limits_for_session ct session).hard)
      ≡ true

  not_within-exceeds :
      (order : (a b : A) → (d.leq a b || d.less b a) ≡ true)
      → (ct : CostTracker A) (session : String) → HasSign ct session
      → within_hard d ct session ≡ false
      → exceeds_hard_limit d ct session ≡ true
  unfolding within_hard exceeds_hard_limit
  not_within-exceeds order ct session sign h =
      ground
        (arith, h, sign, order (session_cost d ct session) (limits_for_session ct session).hard)

  -- What RecordWithProvider reports, and the tracker that it leaves.
  abbrev pub reported : Call A → World A → String → A → Usage → String → Bool × CostTracker A
  reported c w provider cost usage source =
      record_with_provider d c.session provider cost usage source w.tracker

  -- After RecordWithProvider has reported a session over its hard limit, a completion of the session
  -- is refused and asks no provider, unless a cost limit rule moves it off the registered default
  -- provider. The costs are those of a total order, and the limit is not negative.
  pub record_with_provider-complete :
      (order : (a b : A) → (d.leq a b || d.less b a) ≡ true)
      → (n : Net A) (c : Call A) (w : World A)
      → (provider : String) (cost : A) (usage : Usage) (source : String)
      → HasSign (reported c w provider cost usage source).1 c.session
      → (reported c w provider cost usage source).0 ≡ false
      → has_provider c.router c.router.default_provider ≡ true
      → (apply_cost_limit_fallback d c.router
          (reported c w provider cost usage source).1
          c.session
          c.router.fallbacks).0
        ≡ c.router.default_provider
      → complete d n c (record w { tracker = (reported c w provider cost usage source).1 })
        ≡ (over_hard_limit, record w { tracker = (reported c w provider cost usage source).1 })
  unfolding complete complete_at
  record_with_provider-complete order n c w provider cost usage source sign h known stays =
      let ct = (reported c w provider cost usage source).1 in
      let over = not_within-exceeds order ct c.session sign h in
      rw (known, stays, eq_refl c.router.default_provider, over) refl
