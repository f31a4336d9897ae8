-- ===== src/Scheduler/Loops.antt =====
-- internal/scheduler/scheduler.go: how many loops run for an entry.
use denkeeper.Prelude.{
  ℕ, zero, suc, ◌/◌, ◌≤◌, ◌≡◌, refl, ap, subst, ◌∙◌, String, Bool, true, false, not, ◌&&◌, Option,
  none, some, List, [], ◌∷◌, if◌then◌else◌, string_eq, arith, Bool-cases, inl, inr, length, lookup,
}
use denkeeper.Scheduler.{Calendar, Texts}
use denkeeper.Scheduler.Cron.{ParsedExpr, parse_schedule_expr}
use denkeeper.Scheduler.Each.{
  AllEntries, AllEntries-put, AllEntries-drop, AllEntries-map, Found, lookup-Found,
}
use denkeeper.Scheduler.Entries.{
  Config, Entry, Scheduler, new_scheduler, minute_ns, map_entries, new_entry, add_loop, launch,
  halt, schedule_next, is_new, add_parsed, add_entry, leave, register, register_and_start, start,
  stop, pause, revive, resume, unregister, loop_at, set_loop, fire, fires_at, tick_entry, tick,
}
use denkeeper.Scheduler.Run.{
  Command, registers, registers_and_starts, starts, stops, pauses, resumes, unregisters, ticks,
  step, run_all,
}

-- The loops that may run for an entry.
unfoldable pub allowed : Bool → Entry → ℕ
allowed paused e = if e.config.enabled && not paused then 1 else 0

abbrev pub OneLoop : Bool → Entry → Type 0
OneLoop paused e = length e.loops ≤ allowed paused e

abbrev pub no_loops : Entry → Bool
no_loops e = elim (length e.loops) [ zero ↦ true | suc k ↦ false ]

unfoldable pub idle : List (String × Entry) → Bool
idle [] = true
idle ((k, e) ∷ l) = no_loops e && idle l

-- The calls that the rest of the program makes: Start once, while no loop runs, and RegisterAndStart
-- while the scheduler is not paused.
unfoldable pub calm : Command → Scheduler → Bool
unfolding idle
calm (registers_and_starts cfg now) s = not s.paused
calm starts s = not s.paused && idle s.entries
calm c s = true

unfoldable pub all_calm : Texts → Calendar → List Command → Scheduler → Bool
unfolding calm
all_calm g cal [] s = true
all_calm g cal (c ∷ cs) s = calm c s && all_calm g cal cs (step g cal c s)

launch-OneLoop : (e : Entry) → length e.loops ≡ 0 → OneLoop false (launch e)
unfolding launch add_loop allowed
launch-OneLoop e h = elim (Bool-cases e.config.enabled) [
  | inl on ↦ elim (Bool-cases e.live) [
    | inl live ↦ rw (on, live) (omega (arith, h))
    | inr over ↦ rw (on, over) (omega (arith, h))
  ]
  | inr off ↦ rw off (omega (arith, h))
]

halt-OneLoop : (paused : Bool) (e : Entry) → OneLoop paused (halt e)
unfolding halt
halt-OneLoop paused e = omega arith

schedule_next-loops :
    (cal : Calendar) (now : ℕ) (e : Entry) → (schedule_next cal now e).loops ≡ e.loops
unfolding schedule_next
schedule_next-loops cal now e = elim (Bool-cases e.config.enabled) [
  | inl on ↦ rw on refl
  | inr off ↦ rw off refl
]

revive-OneLoop :
    (cal : Calendar) (live : Bool) (now : String → ℕ) (e : Entry)
    → OneLoop true e
    → OneLoop false (revive cal live now e)
unfolding revive allowed
revive-OneLoop cal live now e h =
    let e1 : Entry = record e { live = live } in
    launch-OneLoop (schedule_next cal (now e.config.name) e1)
      (ap length (schedule_next-loops cal (now e.config.name) e1) ∙ ground (arith, h))

set_loop-length : (m k : ℕ) (l : List (Option ℕ)) → length (set_loop m k l) ≡ length l
unfolding set_loop
set_loop-length m k [] = refl
set_loop-length m zero (last ∷ l) = refl
set_loop-length m (suc k) (last ∷ l) = omega (arith, set_loop-length m k l)

abbrev pub OneLoopEach : Scheduler → Type 0
OneLoopEach s = AllEntries (OneLoop s.paused) s.entries

idle-launch :
    (l : List (String × Entry)) → idle l ≡ true → AllEntries (OneLoop false) (map_entries launch l)
unfolding idle map_entries
idle-launch [] h = tt
idle-launch ((k, e) ∷ l) h =
    (launch-OneLoop e (ground (arith, h)), idle-launch l (ground (arith, h)))

module _ (g : Texts) (cal : Calendar) where
  add_parsed-OneLoopEach :
      (begin : Entry → Entry) (cfg : Config) (now : ℕ) (s : Scheduler) (o : Option ParsedExpr)
      → ((e : Entry) → length e.loops ≡ 0 → OneLoop s.paused (begin e))
      → OneLoopEach s
      → OneLoopEach (add_parsed cal begin cfg now s o).1
  add_parsed-OneLoopEach begin cfg now s none b h = h
  add_parsed-OneLoopEach begin cfg now s (some expr) b h =
      let e : Entry = schedule_next cal now (new_entry cfg expr (not s.stopped)) in
      AllEntries-put (OneLoop s.paused) cfg.name (begin e) s.entries
        (b e (ap length (schedule_next-loops cal now (new_entry cfg expr (not s.stopped))))) h

  add_entry-OneLoopEach :
      (begin : Entry → Entry) (cfg : Config) (now : ℕ) (s : Scheduler)
      → ((e : Entry) → length e.loops ≡ 0 → OneLoop s.paused (begin e))
      → OneLoopEach s
      → OneLoopEach (add_entry g cal begin cfg now s).1
  unfolding add_entry
  add_entry-OneLoopEach begin cfg now s b h =
      elim (Bool-cases (is_new (lookup cfg.name s.entries))) [
        | inl new ↦
            rw new (add_parsed-OneLoopEach begin cfg now s (parse_schedule_expr g cfg.schedule) b h)
        | inr old ↦ rw old h
      ]

  fire-OneLoop :
      (paused : Bool) (k now : ℕ) (e : Entry) → OneLoop paused e → OneLoop paused (fire cal k now e)
  unfolding fire allowed
  fire-OneLoop paused k now e h = rw (set_loop-length (now / minute_ns) k e.loops) h

  tick_entry-OneLoopEach :
      (name : String) (k now : ℕ) (s : Scheduler) (o : Option Entry)
      → Found (OneLoop s.paused) o
      → OneLoopEach s
      → OneLoopEach (tick_entry cal name k now s o)
  tick_entry-OneLoopEach name k now s none f h = h
  tick_entry-OneLoopEach name k now s (some e) f h =
      elim (Bool-cases (fires_at cal now e (loop_at k e.loops))) [
        | inl fires ↦ rw fires (
            AllEntries-put (OneLoop s.paused) name (fire cal k now e) s.entries
              (fire-OneLoop s.paused k now e f) h)
        | inr waits ↦ rw waits h
      ]

  unregister-OneLoopEach :
      (name : String) (s : Scheduler) → OneLoopEach s → OneLoopEach (unregister name s).1
  unfolding unregister
  unregister-OneLoopEach name s h = elim (Bool-cases (is_new (lookup name s.entries))) [
    | inl new ↦ rw new h
    | inr old ↦ rw old (AllEntries-drop (OneLoop s.paused) name s.entries h)
  ]

  step-OneLoopEach :
      (c : Command) (s : Scheduler) → calm c s ≡ true → OneLoopEach s → OneLoopEach (step g cal c s)
  unfolding step calm register register_and_start start stop pause resume unregister tick
  step-OneLoopEach (registers cfg now) s quiet h =
      add_entry-OneLoopEach leave cfg now s (λ e none_runs. ground (arith, none_runs)) h
  step-OneLoopEach (registers_and_starts cfg now) s quiet h =
      let runs : s.paused ≡ false = ground (arith, quiet) in
      add_entry-OneLoopEach launch cfg now s (λ e none_runs. rw runs (launch-OneLoop e none_runs)) h
  step-OneLoopEach starts s quiet h =
      let runs : s.paused ≡ false = ground (arith, quiet) in
      rw runs (idle-launch s.entries (ground (arith, quiet)))
  step-OneLoopEach stops s quiet h =
      AllEntries-map (OneLoop s.paused) (OneLoop s.paused) halt (λ e one. halt-OneLoop s.paused e)
        s.entries h
  step-OneLoopEach pauses s quiet h = elim (Bool-cases s.paused) [
    | inl paused ↦ rw paused (subst (λ b. AllEntries (OneLoop b) s.entries) paused h)
    | inr runs ↦ rw runs (
        AllEntries-map (OneLoop s.paused) (OneLoop true) halt (λ e one. halt-OneLoop true e)
          s.entries h)
  ]
  step-OneLoopEach (resumes now) s quiet h = elim (Bool-cases s.paused) [
    | inl paused ↦
        let live = not s.stopped in
        rw paused (
          AllEntries-map (OneLoop true) (OneLoop false) (revive cal live now)
            (revive-OneLoop cal live now) s.entries
            (subst (λ b. AllEntries (OneLoop b) s.entries) paused h))
    | inr runs ↦ rw runs (subst (λ b. AllEntries (OneLoop b) s.entries) runs h)
  ]
  step-OneLoopEach (unregisters name) s quiet h = unregister-OneLoopEach name s h
  step-OneLoopEach (ticks name k now) s quiet h =
      tick_entry-OneLoopEach name k now s (lookup name s.entries)
        (lookup-Found (OneLoop s.paused) name s.entries h) h

  run-OneLoopEach :
      (cs : List Command) (s : Scheduler)
      → all_calm g cal cs s ≡ true
      → OneLoopEach s
      → OneLoopEach (run_all g cal cs s)
  unfolding run_all all_calm
  run-OneLoopEach [] s quiet h = h
  run-OneLoopEach (c ∷ cs) s quiet h =
      run-OneLoopEach cs (step g cal c s) (ground (arith, quiet))
        (step-OneLoopEach c s (ground (arith, quiet)) h)

  -- Of a new scheduler, whatever is registered, removed, paused, resumed and stopped, and whenever its
  -- loops tick, at most one loop runs for each enabled entry, none for a disabled one, and none at
  -- all while it is paused: if Start is called while it is not paused and no loop runs, and
  -- RegisterAndStart while it is not paused.
  pub run_all-OneLoopEach :
      (cs : List Command)
      → all_calm g cal cs new_scheduler ≡ true
      → OneLoopEach (run_all g cal cs new_scheduler)
  run_all-OneLoopEach cs quiet = run-OneLoopEach cs new_scheduler quiet tt
