-- ===== src/Duration.antt =====
-- src/duration.rs: the ISO 8601 durations of the time-only subset, in nanoseconds.
pub mod Strings
pub mod Digits
pub mod Written
pub mod Roundtrip
pub mod Prohibited
use ahl_mirror.Prelude.{
  ℕ, ◌-◌, Text, Option, none, some, List, [], ◌∷◌, Bool, not, ◌||◌, ◌==◌, ltb, if◌then◌else◌,
  checked_add, checked_mul, length,
}
use ahl_mirror.Error.{
  MirrorError, MirrorResult, ok, err, ok_or, refuse_if, bad_duration, prohibited_duration_component,
  duration_fraction_too_long, non_positive_cadence, ◌>>=◌, ◌>>◌,
}
use Strings.{all_digits, contains, split_once, strip_suffix, parse_u64, pad_zeros}

abbrev pub nanos_per_second : ℕ
nanos_per_second = 1_000_000_000

abbrev pub seconds_per_minute : ℕ
seconds_per_minute = 60

abbrev pub seconds_per_hour : ℕ
seconds_per_hour = 3_600

abbrev pub seconds_per_day : ℕ
seconds_per_day = 86_400

abbrev pub is_empty : Text → Bool
is_empty [] = Bool.true
is_empty (b ∷ bs) = Bool.false

-- A leading `"<digits><unit>"`: its number and what stands behind it.
unfoldable pub take_component : Text → ℕ → MirrorResult (Option (ℕ × Text))
take_component input unit = elim (split_once unit input) [
  | none ↦ ok none
  | some (digits, rest) ↦ (do
    refuse_if (is_empty digits || not (all_digits digits)) (bad_duration input)
    n ← ok_or (bad_duration input) (parse_u64 digits)
    ok (some (n, rest)))
]

-- One unit of the time part, added to the seconds so far.
unfoldable pub add_component :
    (bad : MirrorError) → (unit seconds_per_unit : ℕ) → ℕ × Text → MirrorResult (ℕ × Text)
unfolding take_component
add_component bad unit seconds_per_unit (total_seconds, cursor) = do
  component ← take_component cursor unit
  elim component [
    | none ↦ ok (total_seconds, cursor)
    | some (n, remainder) ↦ (do
      seconds ← ok_or bad (checked_mul n seconds_per_unit)
      total ← ok_or bad (checked_add total_seconds seconds)
      ok (total, remainder))
  ]

-- The seconds with their fraction: whole seconds and nanoseconds.
unfoldable pub parse_seconds : (value seconds_str : Text) → MirrorResult (ℕ × ℕ)
parse_seconds value seconds_str = elim (split_once b'.' seconds_str) [
  | none ↦ (do whole ← ok_or (bad_duration value) (parse_u64 seconds_str); ok (whole, 0))
  | some (w, f) ↦ (do
    refuse_if (is_empty f || not (all_digits f)) (bad_duration value)
    refuse_if (ltb 9 (length f)) (duration_fraction_too_long value)
    frac_nanos ← ok_or (bad_duration value) (parse_u64 (pad_zeros (9 - length f) f))
    whole ← ok_or (bad_duration value) (parse_u64 w)
    ok (whole, frac_nanos))
]

-- The time part: hours, minutes, seconds. The total seconds and the extra nanoseconds.
unfoldable pub parse_time : (value : Text) → ℕ → Text → MirrorResult (ℕ × ℕ)
unfolding add_component parse_seconds
parse_time value total_seconds time_part = do
  refuse_if (is_empty time_part) (bad_duration value)
  hours ← add_component (bad_duration value) b'H' seconds_per_hour (total_seconds, time_part)
  minutes ← add_component (bad_duration value) b'M' seconds_per_minute hours
  elim (strip_suffix b'S' minutes.1) [
    | none ↦ (do refuse_if (not (is_empty minutes.1)) (bad_duration value); ok (minutes.0, 0))
    | some seconds_str ↦ (do
      refuse_if (is_empty seconds_str) (bad_duration value)
      parts ← parse_seconds value seconds_str
      total ← ok_or (bad_duration value) (checked_add minutes.0 parts.0)
      ok (total, parts.1))
  ]

-- The date part: days, and nothing else.
unfoldable pub parse_date : (value date_part : Text) → MirrorResult ℕ
unfolding take_component
parse_date value date_part = do
  refuse_if (contains b'M' date_part) (prohibited_duration_component value b'M')
  component ← take_component date_part b'D'
  elim component [
    | none ↦ (do refuse_if (not (is_empty date_part)) (bad_duration value); ok 0)
    | some (n, remainder) ↦ (do
      total_seconds ← ok_or (bad_duration value) (checked_mul n seconds_per_day)
      refuse_if (not (is_empty remainder)) (bad_duration value)
      ok total_seconds)
  ]

abbrev total_nanos : (value : Text) → ℕ × ℕ → MirrorResult ℕ
total_nanos value (total_seconds, extra_nanos) = do
  nanos ← ok_or (bad_duration value) (checked_mul total_seconds nanos_per_second)
  ok_or (bad_duration value) (checked_add nanos extra_nanos)

abbrev strip_p : Text → Option Text
strip_p [] = none
strip_p (b ∷ bs) = if b == b'P' then some bs else none

unfoldable pub parse_iso8601_duration_nanos : Text → MirrorResult ℕ
unfolding parse_date parse_time
parse_iso8601_duration_nanos value = do
  rest ← ok_or (bad_duration value) (strip_p value)
  refuse_if (is_empty rest) (bad_duration value)
  refuse_if (contains b'Y' rest) (prohibited_duration_component value b'Y')
  elim (split_once b'T' rest) [
    | none ↦ (do total_seconds ← parse_date value rest; total_nanos value (total_seconds, 0))
    | some (date_part, time_part) ↦ (do
      days ← parse_date value date_part
      parts ← parse_time value days time_part
      total_nanos value parts)
  ]

unfoldable pub parse_checkpoint_cadence_nanos : Text → MirrorResult ℕ
parse_checkpoint_cadence_nanos value = do
  nanos ← parse_iso8601_duration_nanos value
  refuse_if (nanos == 0) (non_positive_cadence value)
  ok nanos
