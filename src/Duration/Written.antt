-- ===== src/Duration/Written.antt =====
-- The durations that src/duration.rs reads, as they are written: `P[n]DT[n]H[n]M[n[.n]]S`.
use ahl_mirror.Prelude.{
  ℕ, ◌+◌, ◌-◌, ◌*◌, ◌^◌, ◌≤◌, Text, Option, none, some, [], ◌∷◌, ◌++◌, false, ◌≡◌, ◌≢◌, refl, arith,
  u64_max, length, ◌==◌,
}
use ahl_mirror.Error.{MirrorError, ok}
use ahl_mirror.Duration.{take_component, add_component}
use ahl_mirror.Duration.Strings.{is_digit, contains}
use ahl_mirror.Duration.Digits.{
  digits_value, IsNumber, contains-append, contains-all_digits, split_once-absent, split_once-first,
  parse_u64-IsNumber,
}

-- The seconds of a duration: none, whole ones, or ones with a fraction.
pub data Seconds : Type 0 where
  no_seconds : Seconds
  whole_seconds : Text → Seconds
  split_seconds : Text → Text → Seconds

pub record Written : Type 0 where
  pub days : Option Text
  pub hours : Option Text
  pub minutes : Option Text
  pub seconds : Seconds

-- A component that may be left out, before what follows it.
abbrev pub part : Option Text → ℕ → Text → Text
part none unit rest = rest
part (some digits) unit rest = digits ++ unit ∷ rest

abbrev pub seconds_text : Seconds → Text
seconds_text no_seconds = []
seconds_text (whole_seconds w) = w ++ b'S' ∷ []
seconds_text (split_seconds w f) = (w ++ b'.' ∷ f) ++ b'S' ∷ []

abbrev pub time_text : Written → Text
time_text w = part w.hours b'H' (part w.minutes b'M' (seconds_text w.seconds))

abbrev pub text : Written → Text
text w = b'P' ∷ (part w.days b'D' [] ++ b'T' ∷ time_text w)

abbrev pub IsPart : Option Text → Type 0
IsPart none = Unit
IsPart (some digits) = IsNumber digits

abbrev pub IsSeconds : Seconds → Type 0
IsSeconds no_seconds = Unit
IsSeconds (whole_seconds w) = IsNumber w
IsSeconds (split_seconds w f) = IsNumber w × IsNumber f × (length f ≤ 9)

-- Every component is a number, the fraction has at most nine digits, and something follows the `T`.
pub record IsWritten (w : Written) : Type 0 where
  pub days_number : IsPart w.days
  pub hours_number : IsPart w.hours
  pub minutes_number : IsPart w.minutes
  pub seconds_number : IsSeconds w.seconds
  pub some_time : time_text w ≢ []

abbrev pub part_value : Option Text → ℕ
part_value none = 0
part_value (some digits) = digits_value 0 digits

abbrev pub seconds_value : Seconds → ℕ
seconds_value no_seconds = 0
seconds_value (whole_seconds w) = digits_value 0 w
seconds_value (split_seconds w f) = digits_value 0 w

-- The nanoseconds of the fraction: its digits are the first of nine.
abbrev pub fraction_nanos : Seconds → ℕ
fraction_nanos (split_seconds w f) = digits_value 0 f * 10 ^ (9 - length f)
fraction_nanos no_seconds = 0
fraction_nanos (whole_seconds w) = 0

-- The nanoseconds that a duration stands for.
abbrev pub nanos_of : Written → ℕ
nanos_of w =
    (part_value w.days * 86_400
        + part_value w.hours * 3_600
        + part_value w.minutes * 60
        + seconds_value w.seconds)
      * 1_000_000_000
    + fraction_nanos w.seconds

pub contains-part :
    (x unit : ℕ) (p : Option Text) (rest : Text)
    → is_digit x ≡ false
    → (unit == x) ≡ false
    → IsPart p
    → contains x (part p unit rest) ≡ contains x rest
unfolding contains
contains-part x unit none rest mark apart h = refl
contains-part x unit (some t) rest mark apart h =
    ground (arith, contains-append x t (unit ∷ rest), contains-all_digits x t mark h.0)

pub contains-seconds_text :
    (x : ℕ) (s : Seconds)
    → is_digit x ≡ false
    → (b'S' == x) ≡ false
    → (b'.' == x) ≡ false
    → IsSeconds s
    → contains x (seconds_text s) ≡ false
unfolding contains
contains-seconds_text x no_seconds mark u v h = refl
contains-seconds_text x (whole_seconds w) mark u v h =
    ground (arith, contains-append x w (b'S' ∷ []), contains-all_digits x w mark h.0)
contains-seconds_text x (split_seconds w f) mark u v h = ground (
  arith,
  contains-append x (w ++ b'.' ∷ f) (b'S' ∷ []),
  contains-append x w (b'.' ∷ f),
  contains-all_digits x w mark h.0.0,
  contains-all_digits x f mark h.1.0,
)

pub take_component-number :
    (digits rest : Text) (unit : ℕ)
    → is_digit unit ≡ false
    → IsNumber digits
    → digits_value 0 digits ≤ u64_max
    → take_component (digits ++ unit ∷ rest) unit ≡ ok (some (digits_value 0 digits, rest))
unfolding take_component
take_component-number [] rest unit mark h bound = absurd (h.1 refl)
take_component-number (b ∷ t) rest unit mark h bound =
    let found = split_once-first unit (b ∷ t) rest (contains-all_digits unit (b ∷ t) mark h.0) in
    ground (arith, found, h.0, parse_u64-IsNumber (b ∷ t) h bound)

pub take_component-absent :
    (input : Text) (unit : ℕ) → contains unit input ≡ false → take_component input unit ≡ ok none
unfolding take_component
take_component-absent input unit h = ground (arith, split_once-absent unit input h)

pub add_component-part :
    (bad : MirrorError) (p : Option Text) (rest : Text) (unit k total : ℕ)
    → is_digit unit ≡ false
    → contains unit rest ≡ false
    → IsPart p
    → part_value p ≤ u64_max
    → total + part_value p * k ≤ u64_max
    → add_component bad unit k (total, part p unit rest) ≡ ok (total + part_value p * k, rest)
unfolding add_component
add_component-part bad none rest unit k total mark absent h fits bound =
    ground (arith, take_component-absent rest unit absent)
add_component-part bad (some t) rest unit k total mark absent h fits bound =
    ground (arith, take_component-number t rest unit mark h fits)
