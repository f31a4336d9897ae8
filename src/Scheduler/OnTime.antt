-- ===== src/Scheduler/OnTime.antt =====
-- internal/scheduler: the times of the entries of cron expressions.
use denkeeper.Prelude.{
  ℕ, ◌*◌, ◌/◌, ◌≡◌, refl, String, Bool, true, not, Option, none, some, List, [], ◌∷◌, arith,
  Bool-cases, inl, inr, lookup,
}
use mathlib.Core.Option
use denkeeper.Scheduler.{Calendar, Texts}
use denkeeper.Scheduler.Cron.{
  CronSpec, ParsedExpr, interval, cron, matches, next, parse_schedule_expr,
}
use denkeeper.Scheduler.Earliest.{Earliest, next-Earliest}
use denkeeper.Scheduler.Entries.{
  Config, Entry, Scheduler, new_scheduler, minute_ns, new_entry, add_loop, launch, halt, next_after,
  schedule_next, is_new, add_parsed, add_entry, leave, register, register_and_start, start, stop,
  pause, revive, resume, unregister, loop_fires, fire_time, loop_at, fire, fires_at, tick_entry,
  tick,
}
use denkeeper.Scheduler.Each.{AllEntries, AllEntries-put, AllEntries-drop, AllEntries-map}
use denkeeper.Scheduler.Run.{
  Command, registers, registers_and_starts, starts, stops, pauses, resumes, unregisters, ticks,
  step, run_all,
}

-- A time of a cron entry is the start of a minute that the expression matches.
abbrev pub MatchesAt : Calendar → ParsedExpr → Option ℕ → Type 0
MatchesAt cal (interval d) o = Unit
MatchesAt cal (cron c) none = Unit
MatchesAt cal (cron c) (some t) = (m : ℕ) × (t ≡ m * minute_ns) × (matches cal c m ≡ true)

-- When the entry fires next, and when it fired last.
abbrev pub OnTime : Calendar → Entry → Type 0
OnTime cal e = MatchesAt cal e.expr e.next_run × MatchesAt cal e.expr e.last_run

module _ (cal : Calendar) where
  none-MatchesAt : (expr : ParsedExpr) → MatchesAt cal expr none
  none-MatchesAt (interval d) = tt
  none-MatchesAt (cron c) = tt

  found-MatchesAt :
      (c : CronSpec) (left from : ℕ) (o : Option ℕ)
      → Earliest cal c left from o
      → MatchesAt cal (cron c) (Option.map (λ m. m * minute_ns) o)
  found-MatchesAt c left from none h = tt
  found-MatchesAt c left from (some m) (k, e, lt, before, is) = (m, refl, is)

  next_after-MatchesAt :
      (expr : ParsedExpr) (now : ℕ) → MatchesAt cal expr (next_after cal expr now)
  unfolding next_after
  next_after-MatchesAt (interval d) now = tt
  next_after-MatchesAt (cron c) now =
      found-MatchesAt c _ _ (next cal c (now / minute_ns)) (next-Earliest cal c (now / minute_ns))

  schedule_next-OnTime : (now : ℕ) (e : Entry) → OnTime cal e → OnTime cal (schedule_next cal now e)
  unfolding schedule_next
  schedule_next-OnTime now e h = elim (Bool-cases e.config.enabled) [
    | inl on ↦ rw on (next_after-MatchesAt e.expr now, h.1)
    | inr off ↦ rw off h
  ]

  launch-OnTime : (e : Entry) → OnTime cal e → OnTime cal (launch e)
  unfolding launch add_loop
  launch-OnTime e h = elim (Bool-cases e.config.enabled) [
    | inl on ↦ elim (Bool-cases e.live) [ inl live ↦ rw (on, live) h | inr over ↦ rw (on, over) h ]
    | inr off ↦ rw off h
  ]

  halt-OnTime : (e : Entry) → OnTime cal e → OnTime cal (halt e)
  unfolding halt
  halt-OnTime e h = h

  revive-OnTime :
      (live : Bool) (now : String → ℕ) (e : Entry)
      → OnTime cal e
      → OnTime cal (revive cal live now e)
  unfolding revive
  revive-OnTime live now e h =
      let e1 : Entry = record e { live = live } in
      launch-OnTime (schedule_next cal (now e.config.name) e1)
        (schedule_next-OnTime (now e.config.name) e1 h)

  fire_time-MatchesAt :
      (expr : ParsedExpr) (now : ℕ) (last : Option ℕ)
      → loop_fires cal expr now last ≡ true
      → MatchesAt cal expr (some (fire_time expr now))
  fire_time-MatchesAt (interval d) now last h = tt
  fire_time-MatchesAt (cron c) now none h = (now / minute_ns, refl, h)
  fire_time-MatchesAt (cron c) now (some m) h = (now / minute_ns, refl, ground (arith, h))

  fire-OnTime :
      (k now : ℕ) (e : Entry) (last : Option (Option ℕ))
      → fires_at cal now e last ≡ true
      → OnTime cal (fire cal k now e)
  unfolding fire
  fire-OnTime k now e none h = absurd (ground (arith, h))
  fire-OnTime k now e (some last) h =
      (next_after-MatchesAt e.expr (fire_time e.expr now), fire_time-MatchesAt e.expr now last h)

  abbrev pub EachOnTime : Scheduler → Type 0
  EachOnTime s = AllEntries (OnTime cal) s.entries

  tick_entry-EachOnTime :
      (name : String) (k now : ℕ) (s : Scheduler) (o : Option Entry)
      → EachOnTime s
      → EachOnTime (tick_entry cal name k now s o)
  tick_entry-EachOnTime name k now s none h = h
  tick_entry-EachOnTime name k now s (some e) h =
      elim (Bool-cases (fires_at cal now e (loop_at k e.loops))) [
        | inl fires ↦ rw fires (
            AllEntries-put (OnTime cal) name (fire cal k now e) s.entries
              (fire-OnTime k now e (loop_at k e.loops) fires) h)
        | inr waits ↦ rw waits h
      ]

  add_parsed-EachOnTime :
      (begin : Entry → Entry) (cfg : Config) (now : ℕ) (s : Scheduler) (o : Option ParsedExpr)
      → ((e : Entry) → OnTime cal e → OnTime cal (begin e))
      → EachOnTime s
      → EachOnTime (add_parsed cal begin cfg now s o).1
  add_parsed-EachOnTime begin cfg now s none b h = h
  add_parsed-EachOnTime begin cfg now s (some expr) b h =
      let e : Entry = new_entry cfg expr (not s.stopped) in
      AllEntries-put (OnTime cal) cfg.name (begin (schedule_next cal now e)) s.entries
        (b (schedule_next cal now e)
          (schedule_next-OnTime now e (none-MatchesAt expr, none-MatchesAt expr)))
        h

  add_entry-EachOnTime :
      (g : Texts) (begin : Entry → Entry) (cfg : Config) (now : ℕ) (s : Scheduler)
      → ((e : Entry) → OnTime cal e → OnTime cal (begin e))
      → EachOnTime s
      → EachOnTime (add_entry g cal begin cfg now s).1
  unfolding add_entry
  add_entry-EachOnTime g begin cfg now s b h =
      elim (Bool-cases (is_new (lookup cfg.name s.entries))) [
        | inl new ↦
            rw new (add_parsed-EachOnTime begin cfg now s (parse_schedule_expr g cfg.schedule) b h)
        | inr old ↦ rw old h
      ]

  unregister-EachOnTime :
      (name : String) (s : Scheduler) → EachOnTime s → EachOnTime (unregister name s).1
  unfolding unregister
  unregister-EachOnTime name s h = elim (Bool-cases (is_new (lookup name s.entries))) [
    | inl new ↦ rw new h
    | inr old ↦ rw old (AllEntries-drop (OnTime cal) name s.entries h)
  ]

  step-EachOnTime :
      (g : Texts) (c : Command) (s : Scheduler) → EachOnTime s → EachOnTime (step g cal c s)
  unfolding step register register_and_start start stop pause resume tick
  step-EachOnTime g (registers cfg now) s h = add_entry-EachOnTime g leave cfg now s (λ e t. t) h
  step-EachOnTime g (registers_and_starts cfg now) s h =
      add_entry-EachOnTime g launch cfg now s launch-OnTime h
  step-EachOnTime g starts s h =
      AllEntries-map (OnTime cal) (OnTime cal) launch launch-OnTime s.entries h
  step-EachOnTime g stops s h =
      AllEntries-map (OnTime cal) (OnTime cal) halt halt-OnTime s.entries h
  step-EachOnTime g pauses s h = elim (Bool-cases s.paused) [
    | inl paused ↦ rw paused h
    | inr runs ↦ rw runs (AllEntries-map (OnTime cal) (OnTime cal) halt halt-OnTime s.entries h)
  ]
  step-EachOnTime g (resumes now) s h = elim (Bool-cases s.paused) [
    | inl paused ↦
        let f = revive cal (not s.stopped) now in
        rw paused (
          AllEntries-map (OnTime cal) (OnTime cal) f (revive-OnTime (not s.stopped) now) s.entries
            h)
    | inr runs ↦ rw runs h
  ]
  step-EachOnTime g (unregisters name) s h = unregister-EachOnTime name s h
  step-EachOnTime g (ticks name k now) s h =
      tick_entry-EachOnTime name k now s (lookup name s.entries) h

  run-EachOnTime :
      (g : Texts) (cs : List Command) (s : Scheduler)
      → EachOnTime s
      → EachOnTime (run_all g cal cs s)
  unfolding run_all
  run-EachOnTime g [] s h = h
  run-EachOnTime g (c ∷ cs) s h = run-EachOnTime g cs (step g cal c s) (step-EachOnTime g c s h)

  -- Of a new scheduler, under any calls and ticks, an entry with a cron expression has fired last at
  -- the start of a minute that the expression matches, and shows as its next time such a minute.
  pub run_all-EachOnTime :
      (g : Texts) (cs : List Command) → EachOnTime (run_all g cal cs new_scheduler)
  run_all-EachOnTime g cs = run-EachOnTime g cs new_scheduler tt
