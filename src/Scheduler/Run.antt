-- ===== src/Scheduler/Run.antt =====
-- internal/scheduler/scheduler.go: the calls of a Scheduler and the ticks of its loops as commands, and
-- sequences of them.
use denkeeper.Prelude.{ℕ, String, List, [], ◌∷◌}
use denkeeper.Scheduler.{Calendar, Texts}
use denkeeper.Scheduler.Entries.{
  Config, Scheduler, register, register_and_start, start, stop, pause, resume, unregister, tick,
}

pub data Command : Type 0 where
  registers registers_and_starts : Config → (now : ℕ) → Command
  starts stops pauses : Command
  resumes : (now : String → ℕ) → Command
  unregisters : (name : String) → Command
  ticks : (name : String) → (loop now : ℕ) → Command

unfoldable pub step : Texts → Calendar → Command → Scheduler → Scheduler
unfolding register register_and_start start stop pause resume unregister tick
step g cal (registers cfg now) s = (register g cal cfg now s).1
step g cal (registers_and_starts cfg now) s = (register_and_start g cal cfg now s).1
step g cal starts s = start s
step g cal stops s = stop s
step g cal pauses s = pause s
step g cal (resumes now) s = resume cal now s
step g cal (unregisters name) s = (unregister name s).1
step g cal (ticks name k now) s = tick cal name k now s

unfoldable pub run_all : Texts → Calendar → List Command → Scheduler → Scheduler
unfolding step
run_all g cal [] s = s
run_all g cal (c ∷ cs) s = run_all g cal cs (step g cal c s)
