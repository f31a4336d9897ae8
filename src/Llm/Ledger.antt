-- ===== src/Llm/Ledger.antt =====
-- internal/llm/cost.go: the tracker as a refinement of a ledger. A ledger is the list of what was
-- charged to which session, in order; the tracker forgets it and keeps sums.
use denkeeper.Prelude.{
  ℕ, ◌+◌, ◌≡◌, refl, String, List, [], ◌∷◌, ◌++◌, arith, Bool-cases, inl, inr, if◌then◌else◌, ◌==◌,
  string_eq, eq_iff, lookup-put,
}
use denkeeper.Llm.{Dollars, Usage}
use denkeeper.Llm.Cost.{
  SessionLimits, CostTracker, noted, session_cost, stats_of, charge, add_stats, record_cost,
  record_with_tokens, record_with_provider, register_session_agent, set_agent_limits,
  set_provider_limits, set_default_limits,
}

pub data Entry (A : Type 0) : Type 0 where
  records : (session : String) → A → Entry A
  records_tokens : (session : String) → A → (input output : ℕ) → (source : String) → Entry A
  records_provider : (session provider : String) → A → Usage → (source : String) → Entry A
  registers : (session agent : String) → Entry A
  limits_agent limits_provider : String → SessionLimits A → Entry A
  limits_default : SessionLimits A → Entry A

-- The specification.
abbrev pub Ledger : Type 0 → Type 0
Ledger A = List (String × A)

module _ {A : Type 0} where
  unfoldable pub entered : Entry A → Ledger A
  entered (records session cost) = (session, cost) ∷ []
  entered (records_tokens session cost input output source) = (session, cost) ∷ []
  entered (records_provider session provider cost usage source) = (session, cost) ∷ []
  entered entry = []

  unfoldable pub ledger_of : List (Entry A) → Ledger A
  unfolding entered
  ledger_of [] = []
  ledger_of (e ∷ es) = entered e ++ ledger_of es

  unfoldable pub charges : String → Ledger A → ℕ
  charges session [] = 0
  charges session ((s, cost) ∷ l) = (if s == session then 1 else 0) + charges session l

  charges-append : (s : String) (l m : Ledger A) → charges s (l ++ m) ≡ charges s l + charges s m
  unfolding charges
  charges-append s [] m = omega arith
  charges-append s ((k, c) ∷ l) m = omega (arith, charges-append s l m)

module _ {A : Type 0} (d : Dollars A) where
  -- The costs of one session, added to an amount in the order of the ledger, and those of all.
  unfoldable pub total_for : String → A → Ledger A → A
  total_for session acc [] = acc
  total_for session acc ((s, cost) ∷ l) =
      total_for session (if s == session then d.add acc cost else acc) l

  unfoldable pub total : A → Ledger A → A
  total acc [] = acc
  total acc ((s, cost) ∷ l) = total (d.add acc cost) l

  unfoldable pub track : Entry A → CostTracker A → CostTracker A
  unfolding record_cost record_with_tokens record_with_provider register_session_agent
      set_agent_limits set_provider_limits set_default_limits
  track (records session cost) ct = (record_cost d session cost ct).1
  track (records_tokens session cost input output source) ct =
      (record_with_tokens d session cost input output source ct).1
  track (records_provider session provider cost usage source) ct =
      (record_with_provider d session provider cost usage source ct).1
  track (registers session agent) ct = register_session_agent session agent ct
  track (limits_agent agent limits) ct = set_agent_limits agent limits ct
  track (limits_provider provider limits) ct = set_provider_limits provider limits ct
  track (limits_default limits) ct = set_default_limits limits ct

  unfoldable pub track_all : List (Entry A) → CostTracker A → CostTracker A
  unfolding track
  track_all [] ct = ct
  track_all (e ∷ es) ct = track_all es (track e ct)

  -- The sums of `ct'` are those of `ct` with the ledger added.
  pub record Adds (l : Ledger A) (ct ct' : CostTracker A) : Type 0 where
    pub session_is : (s : String) → session_cost d ct' s ≡ total_for s (session_cost d ct s) l
    pub global_is : ct'.global_cost ≡ total ct.global_cost l
    pub stats_cost_is :
        (s : String) → (stats_of d ct' s).cost ≡ total_for s (stats_of d ct s).cost l
    pub messages_are :
        (s : String) → (stats_of d ct' s).messages ≡ (stats_of d ct s).messages + charges s l

  charge-session_cost :
      (k : String) (c : A) (i o h : ℕ) (source : String) (ct : CostTracker A) (s : String)
      → session_cost d (charge d k c i o h source ct) s
        ≡ (if k == s then d.add (session_cost d ct s) c else session_cost d ct s)
  unfolding charge session_cost
  charge-session_cost k c i o h source ct s = elim (Bool-cases (k == s)) [
    | inl same ↦
        let e : k ≡ s = (eq_iff k s).0 same in
        rw (lookup-put k s (d.add (session_cost d ct k) c) ct.session_costs, same, e) refl
    | inr differ ↦ rw (lookup-put k s (d.add (session_cost d ct k) c) ct.session_costs, differ) refl
  ]

  charge-stats_of :
      (k : String) (c : A) (i o h : ℕ) (source : String) (ct : CostTracker A) (s : String)
      → stats_of d (charge d k c i o h source ct) s
        ≡ (if k == s then add_stats d c i o h source (stats_of d ct s) else stats_of d ct s)
  unfolding charge stats_of
  charge-stats_of k c i o h source ct s =
      let stats = add_stats d c i o h source (stats_of d ct k) in
      elim (Bool-cases (k == s)) [
        | inl same ↦
            let e : k ≡ s = (eq_iff k s).0 same in
            rw (lookup-put k s stats ct.session_stats, same, e) refl
        | inr differ ↦ rw (lookup-put k s stats ct.session_stats, differ) refl
      ]

  charge-Adds :
      (k : String) (c : A) (i o h : ℕ) (source : String) (ct : CostTracker A)
      → Adds ((k, c) ∷ []) ct (charge d k c i o h source ct)
  unfolding total_for total charges add_stats
  charge-Adds k c i o h source ct = record {
    session_is = charge-session_cost k c i o h source ct;
    global_is = unfold charge in refl;
    stats_cost_is = λ s. elim (Bool-cases (k == s)) [
      | inl same ↦ rw (charge-stats_of k c i o h source ct s, same) refl
      | inr differ ↦ rw (charge-stats_of k c i o h source ct s, differ) refl
    ];
    messages_are = λ s. elim (Bool-cases (k == s)) [
      | inl same ↦ rw (charge-stats_of k c i o h source ct s, same) (omega arith)
      | inr differ ↦ rw (charge-stats_of k c i o h source ct s, differ) (omega arith)
    ];
  }

  -- A call that charges nothing.
  pub Adds-nothing :
      (ct ct' : CostTracker A)
      → ct'.session_costs ≡ ct.session_costs
      → ct'.session_stats ≡ ct.session_stats
      → ct'.global_cost ≡ ct.global_cost
      → Adds [] ct ct'
  unfolding total_for total charges session_cost stats_of
  Adds-nothing ct ct' a b c = record {
    session_is = λ s. rw a refl;
    global_is = c;
    stats_cost_is = λ s. rw b refl;
    messages_are = λ s. rw b (omega arith);
  }

  total_for-append :
      (s : String) (acc : A) (l m : Ledger A)
      → total_for s acc (l ++ m) ≡ total_for s (total_for s acc l) m
  unfolding total_for
  total_for-append s acc [] m = refl
  total_for-append s acc ((k, c) ∷ l) m =
      total_for-append s (if k == s then d.add acc c else acc) l m

  total-append : (acc : A) (l m : Ledger A) → total acc (l ++ m) ≡ total (total acc l) m
  unfolding total
  total-append acc [] m = refl
  total-append acc ((k, c) ∷ l) m = total-append (d.add acc c) l m

  pub Adds-append :
      (l m : Ledger A) (ct ct1 ct2 : CostTracker A)
      → Adds l ct ct1
      → Adds m ct1 ct2
      → Adds (l ++ m) ct ct2
  Adds-append l m ct ct1 ct2 a b = record {
    session_is =
        λ s. rw (total_for-append s (session_cost d ct s) l m, ← a.session_is s) (b.session_is s);
    global_is = rw (total-append ct.global_cost l m, ← a.global_is) b.global_is;
    stats_cost_is = λ s.
        rw (total_for-append s (stats_of d ct s).cost l m, ← a.stats_cost_is s) (b.stats_cost_is s);
    messages_are = λ s. omega (arith, charges-append s l m, a.messages_are s, b.messages_are s);
  }

  pub track-Adds : (e : Entry A) (ct : CostTracker A) → Adds (entered e) ct (track e ct)
  unfolding track entered record_cost record_with_tokens record_with_provider register_session_agent
      set_agent_limits set_provider_limits set_default_limits session_cost stats_of
  track-Adds (records k c) ct = charge-Adds k c 0 0 0 "" ct
  track-Adds (records_tokens k c i o source) ct = charge-Adds k c i o 0 source ct
  track-Adds (records_provider k p c u source) ct =
      let a = charge-Adds k c u.prompt u.completion u.cached_prompt source (noted k p ct) in
      record {
        session_is = a.session_is;
        global_is = a.global_is;
        stats_cost_is = a.stats_cost_is;
        messages_are = a.messages_are;
      }
  track-Adds (registers k agent) ct = Adds-nothing ct _ refl refl refl
  track-Adds (limits_agent agent limits) ct = Adds-nothing ct _ refl refl refl
  track-Adds (limits_provider provider limits) ct = Adds-nothing ct _ refl refl refl
  track-Adds (limits_default limits) ct = Adds-nothing ct _ refl refl refl

  -- After any calls, the tracker holds for each session the costs that the ledger of those calls has
  -- for it, added in order, as its cost and as that of its statistics, with one message for each; and
  -- as the global cost all the costs of the ledger. What the limits are changes none of it.
  pub track_all-Adds :
      (es : List (Entry A)) (ct : CostTracker A) → Adds (ledger_of es) ct (track_all es ct)
  unfolding track_all ledger_of
  track_all-Adds [] ct = Adds-nothing ct ct refl refl refl
  track_all-Adds (e ∷ es) ct =
      Adds-append (entered e) (ledger_of es) ct (track e ct) (track_all es (track e ct))
        (track-Adds e ct) (track_all-Adds es (track e ct))
