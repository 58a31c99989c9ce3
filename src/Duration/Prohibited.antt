-- ===== src/Duration/Prohibited.antt =====
-- The calendar units that src/duration.rs refuses by name.
use ahl_mirror.Prelude.{ℕ, Text, [], ◌∷◌, ◌++◌, true, false, ◌≡◌, arith, In, inl, inr, refl}
use ahl_mirror.Error.{err, prohibited_duration_component}
use ahl_mirror.Duration.{is_empty, parse_date, parse_iso8601_duration_nanos}
use ahl_mirror.Duration.Strings.{contains}
use ahl_mirror.Duration.Digits.{contains-append, split_once-absent, split_once-first}

contains-In : (x : ℕ) (t : Text) → In x t → contains x t ≡ true
unfolding contains
contains-In x [] h = absurd h
contains-In x (b ∷ t) (inl p) = ground (arith, p)
contains-In x (b ∷ t) (inr h) = ground (arith, contains-In x t h)

filled-In : (x : ℕ) (t rest : Text) → In x t → is_empty (t ++ rest) ≡ false
filled-In x [] rest h = absurd h
filled-In x (b ∷ t) rest h = refl

filled : (x : ℕ) (t : Text) → In x t → is_empty t ≡ false
filled x [] h = absurd h
filled x (b ∷ t) h = refl

-- A duration that names years, wherever the `Y` stands, is refused for its years. One that names
-- months, with the `M` before the `T` or without a `T`, and no years, is refused for its months; an `M`
-- behind the `T` is not among these. Both refusals name the whole value and the unit.
pub parse_iso8601_duration_nanos_prohibits :
    (years date time : Text)
    → In b'Y' years
    → In b'M' date
    → contains b'Y' date ≡ false
    → contains b'T' date ≡ false
    → contains b'Y' time ≡ false
    → (parse_iso8601_duration_nanos (b'P' ∷ years)
        ≡ err (prohibited_duration_component (b'P' ∷ years) b'Y'))
      × (parse_iso8601_duration_nanos (b'P' ∷ date)
          ≡ err (prohibited_duration_component (b'P' ∷ date) b'M'))
      × (parse_iso8601_duration_nanos (b'P' ∷ (date ++ b'T' ∷ time))
          ≡ err (prohibited_duration_component (b'P' ∷ (date ++ b'T' ∷ time)) b'M'))
unfolding parse_iso8601_duration_nanos parse_date contains
parse_iso8601_duration_nanos_prohibits years date time hy hm no_years no_time later =
    let months = contains-In b'M' date hm in
    (
      ground (arith, contains-In b'Y' years hy, filled b'Y' years hy),
      ground (arith, months, filled b'M' date hm, split_once-absent b'T' date no_time),
      ground (
        arith,
        months,
        filled-In b'M' date (b'T' ∷ time) hm,
        contains-append b'Y' date (b'T' ∷ time),
        split_once-first b'T' date time no_time,
      ),
    )
