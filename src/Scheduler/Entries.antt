-- ===== src/Scheduler/Entries.antt =====
-- internal/scheduler/scheduler.go: the entries of a Scheduler, the loops that run for them, and the
-- calls. Times are in nanoseconds. A call is one step; a loop whose context is over is gone.
use denkeeper.Prelude.{
  ℕ, zero, suc, ◌+◌, ◌*◌, ◌/◌, String, Bool, true, false, not, ◌&&◌, Option, none, some, List, [],
  ◌∷◌, if◌then◌else◌, string_eq, nat_eq, nat_beq, lookup, put, drop,
}
use mathlib.Core.Option
use denkeeper.Scheduler.{Calendar, Texts}
use denkeeper.Scheduler.Cron.{ParsedExpr, interval, cron, matches, next, parse_schedule_expr}

pub record Config : Type 0 where
  pub name : String
  pub kind : String
  pub schedule : String
  pub skill : String
  pub agent : String
  pub session_tier : String
  pub channel : String
  pub session_mode : String
  pub headless : Bool
  pub tags : List String
  pub enabled : Bool

-- An internalEntry, with whether its context is not over, and the loops that run for it: of each, the
-- minute in which it last fired.
pub record Entry : Type 0 where
  pub config : Config
  pub expr : ParsedExpr
  pub last_run : Option ℕ
  pub prev_run : Option ℕ
  pub next_run : Option ℕ
  pub live : Bool
  pub loops : List (Option ℕ)

-- `fired` holds the names and times of the jobs that were run, the latest first.
pub record Scheduler : Type 0 where
  pub entries : List (String × Entry)
  pub paused : Bool
  pub stopped : Bool
  pub fired : List (String × ℕ)

-- New
abbrev pub new_scheduler : Scheduler
new_scheduler = record { entries = []; paused = false; stopped = false; fired = [] }

abbrev pub minute_ns : ℕ
minute_ns = 60000000000

unfoldable pub map_entries : (Entry → Entry) → List (String × Entry) → List (String × Entry)
map_entries f [] = []
map_entries f ((name, e) ∷ l) = (name, f e) ∷ map_entries f l

abbrev pub new_entry : Config → ParsedExpr → Bool → Entry
new_entry cfg expr live = record {
  config = cfg;
  expr = expr;
  last_run = none;
  prev_run = none;
  next_run = none;
  live = live;
  loops = [];
}

-- runEntry: a loop starts, and ends at once where the context is over.
unfoldable pub add_loop : Entry → Entry
add_loop e = if e.live then record e { loops = none ∷ e.loops } else e

unfoldable pub launch : Entry → Entry
unfolding add_loop
launch e = if e.config.enabled then add_loop e else e

-- Pause and Stop end the loops of an entry.
unfoldable pub halt : Entry → Entry
halt e = record e { live = false; loops = [] }

unfoldable pub next_after : Calendar → ParsedExpr → ℕ → Option ℕ
unfolding next
next_after cal (interval d) now = some (now + d)
next_after cal (cron c) now = Option.map (λ m. m * minute_ns) (next cal c (now / minute_ns))

unfoldable pub schedule_next : Calendar → ℕ → Entry → Entry
unfolding next_after
schedule_next cal now e =
    if e.config.enabled then record e { next_run = next_after cal e.expr now } else e

abbrev pub is_new : Option Entry → Bool
is_new none = true
is_new (some e) = false

-- What Register and RegisterAndStart share, up to the start of a loop; with whether there is no
-- error.
abbrev pub add_parsed :
    Calendar → (Entry → Entry) → Config → ℕ → Scheduler → Option ParsedExpr → Bool × Scheduler
add_parsed cal begin cfg now s none = (false, s)
add_parsed cal begin cfg now s (some expr) = (
  true,
  record s {
    entries =
        put cfg.name (begin (schedule_next cal now (new_entry cfg expr (not s.stopped)))) s.entries;
  },
)

unfoldable pub add_entry :
    Texts → Calendar → (Entry → Entry) → Config → ℕ → Scheduler → Bool × Scheduler
unfolding parse_schedule_expr schedule_next lookup put
add_entry g cal begin cfg now s =
    if is_new (lookup cfg.name s.entries)
    then add_parsed cal begin cfg now s (parse_schedule_expr g cfg.schedule)
    else (false, s)

abbrev pub leave : Entry → Entry
leave e = e

unfoldable pub register : Texts → Calendar → Config → ℕ → Scheduler → Bool × Scheduler
unfolding add_entry
register g cal cfg now s = add_entry g cal leave cfg now s

unfoldable pub register_and_start : Texts → Calendar → Config → ℕ → Scheduler → Bool × Scheduler
unfolding add_entry launch
register_and_start g cal cfg now s = add_entry g cal launch cfg now s

unfoldable pub start : Scheduler → Scheduler
unfolding map_entries launch
start s = record s { entries = map_entries launch s.entries }

unfoldable pub stop : Scheduler → Scheduler
unfolding map_entries halt
stop s = record s { entries = map_entries halt s.entries; stopped = true }

unfoldable pub pause : Scheduler → Scheduler
unfolding map_entries halt
pause s = if s.paused then s else record s { entries = map_entries halt s.entries; paused = true }

unfoldable pub revive : Calendar → Bool → (String → ℕ) → Entry → Entry
unfolding schedule_next launch
revive cal live now e = launch (schedule_next cal (now e.config.name) (record e { live = live }))

-- Resume, with the clock at each entry.
unfoldable pub resume : Calendar → (String → ℕ) → Scheduler → Scheduler
unfolding map_entries revive
resume cal now s =
    if s.paused
    then record s {
      entries = map_entries (revive cal (not s.stopped) now) s.entries;
      paused = false;
    }
    else s

-- Unregister, with whether there is no error.
unfoldable pub unregister : String → Scheduler → Bool × Scheduler
unfolding lookup drop
unregister name s =
    if is_new (lookup name s.entries)
    then (false, s)
    else (true, record s { entries = drop name s.entries })

-- One loop at a tick: whether it fires, and the minute in which it last did.
abbrev pub loop_fires : Calendar → ParsedExpr → ℕ → Option ℕ → Bool
loop_fires cal (interval d) now last = true
loop_fires cal (cron c) now none = matches cal c (now / minute_ns)
loop_fires cal (cron c) now (some m) =
    not (nat_beq (now / minute_ns) m) && matches cal c (now / minute_ns)

abbrev pub fire_time : ParsedExpr → ℕ → ℕ
fire_time (interval d) now = now
fire_time (cron c) now = now / minute_ns * minute_ns

-- The loop of a number, and the loops after it has fired in a minute.
unfoldable pub loop_at : ℕ → List (Option ℕ) → Option (Option ℕ)
loop_at k [] = none
loop_at zero (last ∷ l) = some last
loop_at (suc k) (last ∷ l) = loop_at k l

unfoldable pub set_loop : ℕ → ℕ → List (Option ℕ) → List (Option ℕ)
set_loop minute k [] = []
set_loop minute zero (last ∷ l) = some minute ∷ l
set_loop minute (suc k) (last ∷ l) = last ∷ set_loop minute k l

unfoldable pub fire : Calendar → ℕ → ℕ → Entry → Entry
unfolding next_after set_loop
fire cal k now e = record e {
  prev_run = e.last_run;
  last_run = some (fire_time e.expr now);
  next_run = next_after cal e.expr (fire_time e.expr now);
  loops = set_loop (now / minute_ns) k e.loops;
}

abbrev pub fires_at : Calendar → ℕ → Entry → Option (Option ℕ) → Bool
fires_at cal now e none = false
fires_at cal now e (some last) = loop_fires cal e.expr now last

abbrev pub tick_entry : Calendar → String → ℕ → ℕ → Scheduler → Option Entry → Scheduler
tick_entry cal name k now s none = s
tick_entry cal name k now s (some e) =
    if fires_at cal now e (loop_at k e.loops)
    then record s {
      entries = put name (fire cal k now e) s.entries;
      fired = (e.config.name, fire_time e.expr now) ∷ s.fired;
    }
    else s

-- runInterval or runCron: a tick of the loop of a number that runs for an entry.
unfoldable pub tick : Calendar → String → ℕ → ℕ → Scheduler → Scheduler
unfolding fire matches loop_at lookup put
tick cal name k now s = tick_entry cal name k now s (lookup name s.entries)
