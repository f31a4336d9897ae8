-- ===== src/Llm/Billing.antt =====
-- internal/llm/router.go: what a completion adds to the costs.
use denkeeper.Prelude.{
  ◌≡◌, refl, sym, ap, ◌∙◌, subst, inl, inr, String, ◌&&◌, [], ◌∷◌, ◌++◌, Bool-cases, ◌==◌,
  string_eq, if◌then◌else◌,
}
use mathlib.Core.List.{append-nil}
use denkeeper.Llm.{Dollars, Response}
use denkeeper.Llm.Complete.{
  Call, build_req, retry_leaked_tool_call, unless_leaked, primary_completion, settle, fall_back,
  complete_at, complete,
}
use denkeeper.Llm.Cost.{exceeds_hard_limit}
use denkeeper.Llm.Fallbacks.{Free, ask_reset-Free, fall_back-Free}
use denkeeper.Llm.Leak.{looks_leaked}
use denkeeper.Llm.Ledger.{
  Ledger, Adds, Adds-append, Adds-nothing, records_provider, entered, track, track-Adds,
}
use denkeeper.Llm.Retry.{Asked, Reply, answer, failed, Net, World, noting, reset_stream, ask}
use denkeeper.Llm.Router.{
  Outcome, completed, not_registered, over_hard_limit, not_completed, Served, served, not_served,
  has_provider, with_billed, mark_leak_retry, token_cost, apply_cost_limit_fallback, bill,
}

-- The ledger of an outcome: the cost that the response carries, if there is one.
abbrev pub billed_of : {A : Type 0} → String → Outcome A → Ledger A
billed_of session (completed resp) = (session, resp.billed_usd) ∷ []
billed_of session not_registered = []
billed_of session over_hard_limit = []
billed_of session (not_completed e) = []

module _ {A : Type 0} (d : Dollars A) (n : Net A) (c : Call A) where
  bill-Adds :
      (provider : String) (resp : Response A) (w : World A)
      → Adds d
          ((c.session, (token_cost d resp c.router.pricing provider).0) ∷ [])
          w.tracker
          (bill d c.router c.session provider resp w).tracker
  unfolding bill track entered
  bill-Adds provider resp w =
      let (cost, source) = token_cost d resp c.router.pricing provider in
      track-Adds d (records_provider c.session provider cost resp.tokens_used source) w.tracker

  same-Adds : (w w1 : World A) → w1.tracker ≡ w.tracker → Adds d [] w.tracker w1.tracker
  same-Adds w w1 s =
      Adds-nothing d w.tracker w1.tracker (ap (λ ct. ct.session_costs) s)
        (ap (λ ct. ct.session_stats) s) (ap (λ ct. ct.global_cost) s)

  settle-Adds :
      (w : World A) (r : Served A × World A)
      → Free n w r
      → Adds d (billed_of c.session (settle d c r).0) w.tracker (settle d c r).1.tracker
  unfolding settle with_billed token_cost
  settle-Adds w (served resp provider, w1) s =
      let cost = (token_cost d resp c.router.pricing provider).0 in
      subst
        (λ ct.
          Adds d ((c.session, cost) ∷ []) ct
            (bill d c.router c.session provider (with_billed cost resp) w1).tracker)
        s (bill-Adds provider (with_billed cost resp) w1)
  settle-Adds w (not_served e, w1) s = same-Adds w w1 s

  -- What the reply to a request is charged at once: the price of the answer, by the provider that was
  -- asked, if the answer is a tool call leaked as text.
  abbrev pub leaked_of : Asked → Reply A → Ledger A
  leaked_of req (failed e) = []
  leaked_of req (answer resp) =
      if looks_leaked resp
      then (c.session, (token_cost d resp c.router.pricing req.provider).0) ∷ []
      else []

  -- The first request of a completion.
  abbrev pub first_request : World A → Asked
  first_request w =
      let (active, model) =
        apply_cost_limit_fallback d c.router w.tracker c.session c.router.fallbacks in
      build_req n c c.router.stream_idle_timeout active model

  -- All charges of a completion: none where no provider is asked.
  abbrev pub charges_of : World A → Outcome A → Ledger A
  charges_of w not_registered = []
  charges_of w over_hard_limit = []
  charges_of w (completed resp) =
      leaked_of (first_request w) (n.replies w.moment (first_request w))
      ++ (c.session, resp.billed_usd) ∷ []
  charges_of w (not_completed e) =
      leaked_of (first_request w) (n.replies w.moment (first_request w))

  mark_leak_retry-tracker : (r : Reply A × World A) → (mark_leak_retry r).1.tracker ≡ r.1.tracker
  mark_leak_retry-tracker (answer resp, w) = refl
  mark_leak_retry-tracker (failed e, w) = refl

  -- The retry leaves the costs as billing the leaked attempt does.
  retry_leaked-tracker :
      (req : Asked) (leaked : Response A) (w : World A)
      → (retry_leaked_tool_call d n c req leaked w).1.tracker
        ≡ (bill d c.router c.session req.provider leaked w).tracker
  unfolding retry_leaked_tool_call noting
  retry_leaked-tracker req leaked w = elim (Bool-cases (n.reports_faults req.provider)) [
    | inl reports ↦ rw reports (
        mark_leak_retry-tracker (ask n req (reset_stream c.options.streaming _))
        ∙ ask_reset-Free n c.options.streaming req _)
    | inr silent ↦ rw silent (
        mark_leak_retry-tracker (ask n req (reset_stream c.options.streaming _))
        ∙ ask_reset-Free n c.options.streaming req _)
  ]

  unless_leaked-Adds :
      (req : Asked) (w : World A) (r : Reply A × World A)
      → r.1.tracker ≡ w.tracker
      → Adds d (leaked_of req r.0) w.tracker (unless_leaked d n c req r).1.tracker
  unfolding unless_leaked
  unless_leaked-Adds req w (failed e, w1) s = same-Adds w w1 s
  unless_leaked-Adds req w (answer resp, w1) s = elim (Bool-cases (looks_leaked resp)) [
    | inl leaks ↦
        let cost = (token_cost d resp c.router.pricing req.provider).0 in
        let l = (c.session, cost) ∷ [] in
        rw leaks (
          subst (λ ct. Adds d l ct (retry_leaked_tool_call d n c req resp w1).1.tracker) s
            (subst (λ ct. Adds d l w1.tracker ct) (sym (retry_leaked-tracker req resp w1))
              (bill-Adds req.provider resp w1)))
    | inr fine ↦ rw fine (same-Adds w w1 s)
  ]

  -- The outcome after a provider was asked carries what is billed.
  settle-charges :
      (w : World A) (r : Served A × World A)
      → charges_of w (settle d c r).0
        ≡ leaked_of (first_request w) (n.replies w.moment (first_request w))
          ++ billed_of c.session (settle d c r).0
  unfolding settle
  settle-charges w (served resp provider, w1) = refl
  settle-charges w (not_served e, w1) = sym (append-nil _)

  settled-Adds :
      (w : World A) (l : Ledger A) (r : Reply A × World A) (active model : String)
      → Adds d l w.tracker r.1.tracker
      → Adds d
          (l ++ billed_of c.session (settle d c (fall_back n c active model r)).0)
          w.tracker
          (settle d c (fall_back n c active model r)).1.tracker
  settled-Adds w l r active model adds =
      let s = settle d c (fall_back n c active model r) in
      Adds-append d l (billed_of c.session s.0) w.tracker r.1.tracker s.1.tracker adds (
        settle-Adds r.1 (fall_back n c active model r) (fall_back-Free n c active model r.1 r refl))

  -- What a completion adds to the costs, in this order: if the first provider that it asks answers
  -- with a tool call leaked as text, the price of that answer; then the cost that the response
  -- carries, where there is one. Nothing else is charged, and nothing at all where no provider is
  -- asked. These are the sums of the session, of its statistics, and of all.
  pub complete-Adds :
      (w : World A)
      → Adds d (charges_of w (complete d n c w).0) w.tracker (complete d n c w).1.tracker
  unfolding complete complete_at primary_completion ask
  complete-Adds w = elim (Bool-cases (has_provider c.router c.router.default_provider)) [
    | inl known ↦
        let target = apply_cost_limit_fallback d c.router w.tracker c.session c.router.fallbacks in
        elim (Bool-cases
          (target.0 == c.router.default_provider && exceeds_hard_limit d w.tracker c.session)) [
            | inl refused ↦ rw (known, refused) (same-Adds w w refl)
            | inr goes ↦
                let req = first_request w in
                let first = unless_leaked d n c req (ask n req w) in
                rw (known, goes, settle-charges w (fall_back n c target.0 target.1 first))
                  (settled-Adds w (leaked_of req (n.replies w.moment req)) first target.0 target.1
                    (unless_leaked-Adds req w (ask n req w) refl))
          ]
    | inr unknown ↦ rw unknown (same-Adds w w refl)
  ]
