-- ===== src/Scheduler/Cron.antt =====
-- internal/scheduler/expr.go: schedule expressions, and when a cron expression fires.
use denkeeper.Prelude.{
  ℕ, zero, suc, ◌+◌, String, Bool, not, ◌&&◌, ◌||◌, Option, none, some, List, [], ◌∷◌,
  if◌then◌else◌, string_eq, nat_beq, is_space, is_empty, trim_space, cut_prefix, lookup,
}
use Prim.Native.Char.{code}
use denkeeper.Scheduler.{Calendar, Texts, Bitset, has}
use denkeeper.Scheduler.Field.{parse_cron_field}

pub record CronSpec : Type 0 where
  pub minute : Bitset
  pub hour : Bitset
  pub dom : Bitset
  pub month : Bitset
  pub dow : Bitset

pub data ParsedExpr : Type 0 where
  interval : ℕ → ParsedExpr
  cron : CronSpec → ParsedExpr

-- The characters up to a space, and the fields after it.
unfoldable pub fields_from : String → String × List String
fields_from String.[] = ("", [])
fields_from (String.◌∷◌ c s) =
    let (word, rest) = fields_from s in
    if is_space (code c)
    then ("", if is_empty word then rest else word ∷ rest)
    else (String.◌∷◌ c word, rest)

-- strings.Fields
unfoldable pub fields : String → List String
unfolding fields_from
fields s = let (word, rest) = fields_from s in if is_empty word then rest else word ∷ rest

-- Seven is Sunday, too.
abbrev pub sunday_alias : Bitset → Bitset
sunday_alias dow n = not (nat_beq n 7) && (dow n || nat_beq n 0)

abbrev pub spec_of :
    Option Bitset → Option Bitset → Option Bitset → Option Bitset → Option Bitset → Option CronSpec
spec_of (some minute) (some hour) (some dom) (some month) (some dow) = some (record {
  minute = minute;
  hour = hour;
  dom = dom;
  month = month;
  dow = if has dow 7 then sunday_alias dow else dow;
})
spec_of minute hour dom month dow = none

abbrev pub spec_of_fields : List String → Option CronSpec
spec_of_fields (a ∷ b ∷ c ∷ d ∷ e ∷ []) =
    spec_of (parse_cron_field a 0 59) (parse_cron_field b 0 23) (parse_cron_field c 1 31)
      (parse_cron_field d 1 12) (parse_cron_field e 0 7)
spec_of_fields l = none

-- parseCronSpec
unfoldable pub parse_cron_spec : String → Option CronSpec
unfolding fields parse_cron_field has
parse_cron_spec expr = spec_of_fields (fields expr)

abbrev pub named_schedules : List (String × String)
named_schedules =
    ("@hourly", "0 * * * *")
    ∷ ("@daily", "0 0 * * *")
    ∷ ("@midnight", "0 0 * * *")
    ∷ ("@weekly", "0 0 * * 0")
    ∷ ("@monthly", "0 0 1 * *")
    ∷ ("@yearly", "0 0 1 1 *")
    ∷ ("@annually", "0 0 1 1 *")
    ∷ []

abbrev pub cron_of : Option CronSpec → Option ParsedExpr
cron_of none = none
cron_of (some spec) = some (cron spec)

abbrev pub every : Option ℕ → Option ParsedExpr
every none = none
every (some d) = if nat_beq d 0 then none else some (interval d)

unfoldable pub drop_chars : ℕ → String → String
drop_chars zero s = s
drop_chars (suc k) String.[] = ""
drop_chars (suc k) (String.◌∷◌ c s) = drop_chars k s

-- parseAtExpr, with the name and the prefix that were looked for in the text in lower case.
abbrev pub at_expr : Texts → String → Option String → Option String → Option ParsedExpr
at_expr g s (some expr) after = cron_of (parse_cron_spec expr)
at_expr g s none (some after) = every (g.parse_duration (trim_space (drop_chars 7 s)))
at_expr g s none none = none

unfoldable pub parse_at_expr : Texts → String → Option ParsedExpr
unfolding parse_cron_spec trim_space drop_chars lookup cut_prefix
parse_at_expr g s =
    at_expr g s (lookup (g.to_lower s) named_schedules) (cut_prefix "@every " (g.to_lower s))

-- parseScheduleExpr
unfoldable pub parse_schedule_expr : Texts → String → Option ParsedExpr
unfolding parse_at_expr parse_cron_spec trim_space cut_prefix
parse_schedule_expr g s =
    let t = trim_space s in
    if is_empty t then none else (elim (cut_prefix "@" t) [
      | some rest ↦ parse_at_expr g t
      | none ↦ cron_of (parse_cron_spec t)
    ])

-- cronSpec.matches
unfoldable pub matches : Calendar → CronSpec → ℕ → Bool
unfolding has
matches cal c t =
    has c.minute (cal.minute t)
    && has c.hour (cal.hour t)
    && has c.dom (cal.day t)
    && has c.month (cal.month t)
    && has c.dow (cal.weekday t)

-- The loop of next, with the minutes that are left before the limit.
unfoldable pub search : Calendar → CronSpec → ℕ → ℕ → Option ℕ
unfolding matches
search cal c zero t = none
search cal c (suc left) t =
    let rest = search cal c left (t + 1) in if matches cal c t then some t else rest

-- `366 * 24 * time.Hour`, in minutes.
abbrev pub year : ℕ
year = 527040

-- cronSpec.next, with `none` for the zero time.
unfoldable pub next : Calendar → CronSpec → ℕ → Option ℕ
unfolding search
next cal c after = search cal c year (after + 1)
