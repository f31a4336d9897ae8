-- ===== src/Scheduler.antt =====
-- internal/scheduler: what the package takes from Go's library, and sets of small numbers.
use denkeeper.Prelude.{ℕ, String, Bool, false, ◌&&◌, ◌||◌, Option, ltb, nat_beq}
pub mod Bits
pub mod Each
pub mod Earliest
pub mod Entries
pub mod Field
pub mod Loops
pub mod OnTime
pub mod Paused
pub mod Ranges
pub mod Run
mod Tests
pub mod Cron

-- A time.Time in the location of the scheduler, by the number of its minute, and what it reads as.
-- Sunday is weekday 0.
pub record Calendar : Type 0 where
  pub minute : ℕ → ℕ
  pub hour : ℕ → ℕ
  pub day : ℕ → ℕ
  pub month : ℕ → ℕ
  pub weekday : ℕ → ℕ

-- strings.ToLower, and time.ParseDuration in nanoseconds, with zero for a duration that is not
-- positive.
pub record Texts : Type 0 where
  pub to_lower : String → String
  pub parse_duration : String → Option ℕ

-- bitset, a uint64 by its bits.
abbrev pub Bitset : Type 0
Bitset = ℕ → Bool

abbrev pub no_bits : Bitset
no_bits n = false

-- bitset.has
unfoldable pub has : Bitset → ℕ → Bool
has b n = ltb n 64 && b n

-- `b | c`
abbrev pub union : Bitset → Bitset → Bitset
union b c n = b n || c n

-- `b | 1 << i`
abbrev pub with_bit : ℕ → Bitset → Bitset
with_bit i b n = nat_beq n i || b n
