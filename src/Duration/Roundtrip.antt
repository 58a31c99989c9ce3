-- ===== src/Duration/Roundtrip.antt =====
-- src/duration.rs reads a written duration back to the nanoseconds that it stands for.
use ahl_mirror.Prelude.{
  ℕ, ◌+◌, ◌-◌, ◌*◌, ◌^◌, ◌≤◌, Text, none, some, [], ◌∷◌, ◌++◌, Option, true, false, ◌∙◌, ap₂, ◌||◌,
  ◌==◌, if◌then◌else◌, ◌⊎◌, inl, inr, ◌≡◌, ◌≢◌, refl, arith, u64_max, length,
}
use ahl_mirror.Error.{ok, err, bad_duration, non_positive_cadence}
use ahl_mirror.Duration.{
  is_empty, parse_seconds, parse_time, parse_date, parse_iso8601_duration_nanos,
  parse_checkpoint_cadence_nanos,
}
use ahl_mirror.Duration.Strings.{all_digits, contains, strip_suffix}
use ahl_mirror.Duration.Digits.{
  digits_value, IsNumber, contains-append, contains-all_digits, split_once-absent, split_once-first,
  strip_suffix-snoc, parse_u64-IsNumber, parse_u64-pad_zeros,
}
use ahl_mirror.Duration.Written.{
  Seconds, no_seconds, whole_seconds, split_seconds, Written, part, seconds_text, time_text, text,
  IsPart, IsSeconds, IsWritten, part_value, seconds_value, fraction_nanos, nanos_of, contains-part,
  contains-seconds_text, take_component-number, take_component-absent, add_component-part,
}

parse_seconds-whole :
    (value w : Text)
    → IsNumber w
    → digits_value 0 w ≤ u64_max
    → parse_seconds value w ≡ ok (digits_value 0 w, 0)
unfolding parse_seconds
parse_seconds-whole value w h bound = ground (
  arith,
  split_once-absent b'.' w (contains-all_digits b'.' w refl h.0),
  parse_u64-IsNumber w h bound,
)

parse_seconds-split :
    (value w : Text) (b : ℕ) (f : Text)
    → IsNumber w
    → all_digits (b ∷ f) ≡ true
    → length (b ∷ f) ≤ 9
    → digits_value 0 w ≤ u64_max
    → digits_value 0 (b ∷ f) * 10 ^ (9 - length (b ∷ f)) ≤ u64_max
    → parse_seconds value (w ++ b'.' ∷ b ∷ f)
      ≡ ok (digits_value 0 w, digits_value 0 (b ∷ f) * 10 ^ (9 - length (b ∷ f)))
unfolding parse_seconds
parse_seconds-split value w b f h digits short bound fits =
    let split = split_once-first b'.' w (b ∷ f) (contains-all_digits b'.' w refl h.0) in
    ground (
      arith,
      split,
      digits,
      parse_u64-IsNumber w h bound,
      parse_u64-pad_zeros (9 - length (b ∷ f)) b f digits fits,
    )

is_empty-apart : (t : Text) → t ≢ [] → is_empty t ≡ false
is_empty-apart [] apart = absurd (apart refl)
is_empty-apart (b ∷ t) apart = refl

is_empty-append : (t rest : Text) → t ≢ [] → is_empty (t ++ rest) ≡ false
is_empty-append [] rest apart = absurd (apart refl)
is_empty-append (b ∷ t) rest apart = refl

-- The seconds part: there is none, or it ends in `S` and its text parses.
seconds_text-cases :
    (value : Text) (s : Seconds)
    → IsSeconds s
    → seconds_value s ≤ u64_max
    → fraction_nanos s ≤ u64_max
    → ((seconds_text s ≡ [])
        × (strip_suffix b'S' (seconds_text s) ≡ none)
        × (seconds_value s ≡ 0)
        × (fraction_nanos s ≡ 0))
      ⊎ ((str : Text) × (strip_suffix b'S' (seconds_text s) ≡ some str)
          × (is_empty str ≡ false)
          × (parse_seconds value str ≡ ok (seconds_value s, fraction_nanos s)))
unfolding strip_suffix
seconds_text-cases value no_seconds h bound fits = inl (refl, refl, refl, refl)
seconds_text-cases value (whole_seconds w) h bound fits =
    inr (w, strip_suffix-snoc b'S' w, is_empty-apart w h.1, parse_seconds-whole value w h bound)
seconds_text-cases value (split_seconds w []) h bound fits = absurd (h.1.1 refl)
seconds_text-cases value (split_seconds w (b ∷ f)) h bound fits = inr (
  w ++ b'.' ∷ b ∷ f,
  strip_suffix-snoc b'S' (w ++ b'.' ∷ b ∷ f),
  is_empty-append w (b'.' ∷ b ∷ f) h.0.1,
  parse_seconds-split value w b f h.0 h.1.0 h.2 bound fits,
)

is_empty-joined : (t rest : Text) → is_empty (t ++ b'T' ∷ rest) ≡ false
is_empty-joined [] rest = refl
is_empty-joined (b ∷ t) rest = refl

parse_time-text :
    (value : Text) (hours minutes : Option Text) (s : Seconds) (total : ℕ)
    → IsPart hours
    → IsPart minutes
    → IsSeconds s
    → part hours b'H' (part minutes b'M' (seconds_text s)) ≢ []
    → total + part_value hours * 3_600 + part_value minutes * 60 + seconds_value s ≤ u64_max
    → fraction_nanos s ≤ u64_max
    → parse_time value total (part hours b'H' (part minutes b'M' (seconds_text s)))
      ≡ ok (
        total + part_value hours * 3_600 + part_value minutes * 60 + seconds_value s,
        fraction_nanos s,
      )
unfolding parse_time
parse_time-text value hours minutes s total hh hm hs some_time bound fits =
    let rest : Text = part minutes b'M' (seconds_text s) in
    let filled = is_empty-apart (part hours b'H' rest) some_time in
    let without_h : contains b'H' rest ≡ false =
      contains-part b'H' b'M' minutes (seconds_text s) refl refl hm
      ∙ contains-seconds_text b'H' s refl refl refl hs in
    let after_hours =
      add_component-part (bad_duration value) hours rest b'H' 3_600 total refl without_h hh
        (omega arith) (omega arith) in
    let after_minutes =
      add_component-part (bad_duration value) minutes (seconds_text s) b'M' 60
        (total + part_value hours * 3_600) refl (contains-seconds_text b'M' s refl refl refl hs) hm
        (omega arith) (omega arith) in
    elim (seconds_text-cases value s hs (omega arith) fits) [
      | inl (gone, bare, e, f) ↦
          ground (arith, filled, after_hours, after_minutes, gone, bare, e, f)
      | inr (str, stripped, some_text, read) ↦
          ground (arith, filled, after_hours, after_minutes, stripped, some_text, read)
    ]

parse_date-part :
    (value : Text) (days : Option Text)
    → IsPart days
    → part_value days * 86_400 ≤ u64_max
    → parse_date value (part days b'D' []) ≡ ok (part_value days * 86_400)
unfolding parse_date contains
parse_date-part value none h bound = ground (arith, take_component-absent [] b'D' refl)
parse_date-part value (some t) h bound = ground (
  arith,
  take_component-number t [] b'D' refl h (omega arith),
  contains-part b'M' b'D' (some t) [] refl refl h,
)

parse_iso8601_duration_nanos-text :
    (w : Written)
    → IsWritten w
    → nanos_of w ≤ u64_max
    → parse_iso8601_duration_nanos (text w) ≡ ok (nanos_of w)
unfolding parse_iso8601_duration_nanos contains
parse_iso8601_duration_nanos-text w h bound =
    let date : Text = part w.days b'D' [] in
    let rest : Text = date ++ b'T' ∷ time_text w in
    let no_years : contains b'Y' rest ≡ false =
      contains-append b'Y' date (b'T' ∷ time_text w)
      ∙ ap₂ ◌||◌ (contains-part b'Y' b'D' w.days [] refl refl h.days_number) (
          contains-part b'Y' b'H' w.hours _ refl refl h.hours_number
          ∙ contains-part b'Y' b'M' w.minutes _ refl refl h.minutes_number
          ∙ contains-seconds_text b'Y' w.seconds refl refl refl h.seconds_number) in
    let filled : is_empty rest ≡ false = is_empty-joined date (time_text w) in
    let split =
      split_once-first b'T' date (time_text w)
        (contains-part b'T' b'D' w.days [] refl refl h.days_number) in
    let dated = parse_date-part (text w) w.days h.days_number (omega arith) in
    let timed =
      parse_time-text (text w) w.hours w.minutes w.seconds (part_value w.days * 86_400)
        h.hours_number h.minutes_number h.seconds_number h.some_time (omega arith) (omega arith) in
    ground (arith, filled, no_years, split, dated, timed)

-- A written duration, any of its components left out so long as something follows the `T`, is read as
-- the nanoseconds that it stands for, when they fit a `u64`: its days, hours, minutes and seconds at
-- their lengths, and its fraction exactly, whatever the number of its digits up to nine. Read as a
-- checkpoint cadence it is the same, unless it stands for nothing, which is refused.
pub parse_checkpoint_cadence_nanos-text :
    (w : Written)
    → IsWritten w
    → nanos_of w ≤ u64_max
    → (parse_iso8601_duration_nanos (text w) ≡ ok (nanos_of w))
      × (parse_checkpoint_cadence_nanos (text w)
          ≡ (if nanos_of w == 0 then err (non_positive_cadence (text w)) else ok (nanos_of w)))
unfolding parse_checkpoint_cadence_nanos
parse_checkpoint_cadence_nanos-text w h bound =
    let read = parse_iso8601_duration_nanos-text w h bound in (read, ground (arith, read))
