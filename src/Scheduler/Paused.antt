-- ===== src/Scheduler/Paused.antt =====
-- internal/scheduler/scheduler.go: an entry that is registered while the scheduler is paused.
use denkeeper.Prelude.{
  ℕ, ◌≡◌, refl, String, true, false, Option, none, some, [], ◌∷◌, ap, ◌∙◌, string_eq, eq_refl,
  lookup-put, length, lookup, if◌then◌else◌, put,
}
use mathlib.Core.Option
use denkeeper.Scheduler.{Calendar, Texts}
use denkeeper.Scheduler.Cron.{ParsedExpr, parse_schedule_expr}
use denkeeper.Scheduler.Entries.{
  Config, Scheduler, map_entries, add_loop, launch, schedule_next, add_entry, register_and_start,
  revive, resume, next_after, Entry, fires_at, loop_fires, fire_time, loop_at, set_loop, fire, tick,
}

-- How many loops run for the entry of a name.
abbrev pub loops_of : String → Scheduler → Option ℕ
loops_of name s = Option.map (λ e. length e.loops) (lookup name s.entries)

-- The scheduler after the loop of a number has run the job of an entry.
abbrev after_fire : Calendar → String → ℕ → ℕ → Scheduler → Entry → Scheduler
after_fire cal name k at s e = record s {
  entries = put name (fire cal k at e) s.entries;
  fired = (e.config.name, fire_time e.expr at) ∷ s.fired;
}

tick-fires :
    (cal : Calendar) (name : String) (k at : ℕ) (s : Scheduler) (e : Entry)
    → lookup name s.entries ≡ some e
    → fires_at cal at e (loop_at k e.loops) ≡ true
    → tick cal name k at s ≡ after_fire cal name k at s e
unfolding tick
tick-fires cal name k at s e found fires = rw (found, fires) refl

-- A schedule that fires runs the job once for each of two loops that have not fired yet.
fired_twice :
    (cal : Calendar) (name : String) (at : ℕ) (s : Scheduler) (e : Entry)
    → lookup name s.entries ≡ some e
    → e.loops ≡ none ∷ none ∷ []
    → loop_fires cal e.expr at none ≡ true
    → (tick cal name 1 at (tick cal name 0 at s)).fired
      ≡ (e.config.name, fire_time e.expr at) ∷ (e.config.name, fire_time e.expr at) ∷ s.fired
unfolding fire loop_at set_loop
fired_twice cal name at s e found fresh fires =
    let s1 = after_fire cal name 0 at s e in
    let e1 = fire cal 0 at e in
    let there : lookup name s1.entries ≡ some e1 =
      lookup-put name name e1 s.entries
      ∙ ap (λ b. if b then some e1 else lookup name s.entries) (eq_refl name) in
    ap (λ x. (tick cal name 1 at x).fired) (tick-fires cal name 0 at s e found (rw fresh fires))
    ∙ ap (λ x. x.fired) (tick-fires cal name 1 at s1 e1 there (rw fresh fires))

-- The entry after RegisterAndStart and Resume.
abbrev entry_of : Calendar → Config → ParsedExpr → ℕ → Entry
entry_of cal cfg expr later = record {
  config = cfg;
  expr = expr;
  last_run = none;
  prev_run = none;
  next_run = next_after cal expr later;
  live = true;
  loops = none ∷ none ∷ [];
}

-- RegisterAndStart on a paused scheduler, that was not stopped, starts a loop for a new name at once,
-- and Resume starts a second one. At a time at which the schedule fires, each of the two loops then
-- runs the job.
pub register_and_start-resume :
    (g : Texts) (cal : Calendar) (cfg : Config) (now : ℕ) (later : String → ℕ) (s : Scheduler)
    → (expr : ParsedExpr) (at : ℕ) → s.paused ≡ true
    → s.stopped ≡ false
    → cfg.enabled ≡ true
    → lookup cfg.name s.entries ≡ none
    → parse_schedule_expr g cfg.schedule ≡ some expr
    → loop_fires cal expr at none ≡ true
    → (loops_of cfg.name (register_and_start g cal cfg now s).1 ≡ some 1)
      × (loops_of cfg.name (resume cal later (register_and_start g cal cfg now s).1) ≡ some 2)
      × ((tick cal cfg.name 1 at (
            tick cal cfg.name 0 at (resume cal later (register_and_start g cal cfg now s).1))).fired
          ≡ (cfg.name, fire_time expr at) ∷ (cfg.name, fire_time expr at) ∷ s.fired)
unfolding register_and_start add_entry launch add_loop schedule_next resume revive map_entries
    lookup put
register_and_start-resume g cal cfg now later s expr at paused running enabled new parses fires = (
  rw (new, parses, running, enabled, eq_refl cfg.name) refl,
  rw (new, parses, running, paused, enabled, eq_refl cfg.name) refl,
  fired_twice cal cfg.name at (resume cal later (register_and_start g cal cfg now s).1)
        (entry_of cal cfg expr (later cfg.name))
        (rw (new, parses, running, paused, enabled, eq_refl cfg.name) refl) refl fires
      ∙ ap (λ l. (cfg.name, fire_time expr at) ∷ (cfg.name, fire_time expr at) ∷ l)
          (rw (new, parses, paused) refl),
)
