-- ===== src/Scheduler/Tests.antt =====
-- internal/scheduler at concrete inputs: a calendar in which time starts on a Monday, the first of
-- January at midnight, and a schedule that fires each second.
use denkeeper.Prelude.{
  ℕ, ◌+◌, ◌/◌, ◌%◌, ◌≡◌, refl, ◌↔◌, Bool, true, false, Option, none, some, List, [], ◌∷◌, arith,
  nat_beq, lookup,
}
use denkeeper.Scheduler.{Calendar, Texts, Bitset, has, no_bits}
use denkeeper.Scheduler.Bits.{IsStep, fill_lem}
use denkeeper.Scheduler.Cron.{
  CronSpec, interval, parse_cron_spec, parse_schedule_expr, next, year, matches, search,
}
use denkeeper.Scheduler.Earliest.{Earliest, next-Earliest}
use denkeeper.Scheduler.Entries.{Config, Scheduler, new_scheduler, register_and_start, resume, tick}
use denkeeper.Scheduler.Field.{fill, rounds, parse_cron_field}
use denkeeper.Scheduler.Loops.{OneLoopEach, all_calm, run_all-OneLoopEach}
use denkeeper.Scheduler.OnTime.{EachOnTime, run_all-EachOnTime}
use denkeeper.Scheduler.Paused.{loops_of, register_and_start-resume}
use denkeeper.Scheduler.Ranges.{InRanges, parse_cron_spec-InRanges}
use denkeeper.Scheduler.Run.{
  Command, registers, starts, pauses, resumes, ticks, unregisters, step, run_all,
}

abbrev january : Calendar
january = record {
  minute = λ t. t % 60;
  hour = λ t. t / 60 % 24;
  day = λ t. t / 1440 + 1;
  month = λ t. 1;
  weekday = λ t. (t / 1440 + 1) % 7;
}

abbrev go : Texts
go = record { to_lower = λ s. s; parse_duration = λ s. some 1000000000 }

abbrev has_bit : Option CronSpec → ℕ → Bool
has_bit none n = false
has_bit (some c) n = has c.dow n

-- Both 0 and 7 are Sunday.
sunday_test : has_bit (parse_cron_spec "*/15 8-18 * * 1-5,7") 0 ≡ true
unfolding parse_cron_spec has
sunday_test = refl

field_test : parse_cron_field "60" 0 59 ≡ none
unfolding parse_cron_field
field_test = refl

abbrev bit_of : Option Bitset → ℕ → Bool
bit_of none n = false
bit_of (some b) n = has b n

-- A step so large that the addition wraps: minute 3 is not in the range.
wrap_test : bit_of (parse_cron_field "5-59/9223372036854775807" 0 59) 3 ≡ true
unfolding parse_cron_field has
wrap_test = refl

fill_lem_example : (has (fill rounds 0 59 15 no_bits) 45 ≡ true) ↔ IsStep 0 59 15 45
fill_lem_example = fill_lem 0 59 15 45 (omega arith) (omega arith) (omega arith) (omega arith)

parse_cron_spec-InRanges_example : InRanges (parse_cron_spec "*/15 8-18 * * 1-5,7")
parse_cron_spec-InRanges_example = parse_cron_spec-InRanges "*/15 8-18 * * 1-5,7"

-- The first minute after each hour.
abbrev hourly : CronSpec
hourly = record {
  minute = λ n. nat_beq n 1;
  hour = λ n. true;
  dom = λ n. true;
  month = λ n. true;
  dow = λ n. true;
}

search_test : search january hourly 5 60 ≡ some 61
unfolding search matches has
search_test = refl

next-Earliest_example : Earliest january hourly year (59 + 1) (next january hourly 59)
next-Earliest_example = next-Earliest january hourly 59

abbrev each_second : Config
each_second = record {
  name = "s";
  kind = "agent";
  schedule = "@every 1s";
  skill = "check";
  agent = "main";
  session_tier = "";
  channel = "";
  session_mode = "";
  headless = false;
  tags = [];
  enabled = true;
}

abbrev calls : List Command
calls =
    registers each_second 0
    ∷ starts
    ∷ ticks "s" 0 1000000000
    ∷ pauses
    ∷ resumes (λ name. 5000000000)
    ∷ ticks "s" 0 6000000000
    ∷ unregisters "x"
    ∷ []

fired_test :
    (run_all go january calls new_scheduler).fired ≡ ("s", 6000000000) ∷ ("s", 1000000000) ∷ []
unfolding run_all
fired_test = refl

run_all-OneLoopEach_example : OneLoopEach (run_all go january calls new_scheduler)
unfolding all_calm step
run_all-OneLoopEach_example = run_all-OneLoopEach go january calls refl

run_all-EachOnTime_example : EachOnTime january (run_all go january calls new_scheduler)
run_all-EachOnTime_example = run_all-EachOnTime january go calls

abbrev asleep : Scheduler
asleep = record { entries = []; paused = true; stopped = false; fired = [] }

register_and_start-resume_example :
    (loops_of "s" (register_and_start go january each_second 0 asleep).1 ≡ some 1)
    × (loops_of "s"
          (resume january (λ name. 9) (register_and_start go january each_second 0 asleep).1)
        ≡ some 2)
    × ((tick january "s" 1 5 (
          tick january "s" 0 5 (
            resume january
              (λ name. 9)
              (register_and_start go january each_second 0 asleep).1))).fired
        ≡ ("s", 5) ∷ ("s", 5) ∷ [])
unfolding parse_schedule_expr lookup
register_and_start-resume_example =
    register_and_start-resume go january each_second 0 (λ name. 9) asleep (interval 1000000000) 5
      refl refl refl refl refl refl
