-- ===== src/Duration/Digits.antt =====
-- What the string operations of src/duration.rs do on decimal numbers and the marks between them.
use ahl_mirror.Prelude.{
  ℕ, zero, suc, ◌+◌, ◌-◌, ◌*◌, ◌^◌, ◌≤◌, Text, none, some, [], ◌∷◌, ◌++◌, true, false, ◌||◌, ◌≡◌,
  ◌≢◌, refl, arith, u64_max, decimal, ltb, ◌<◌, ◌/◌, ◌%◌, Bool-cases, inl, inr,
}
use native.Mathlib.Nat.{pow-suc}
use ahl_mirror.Duration.Strings.{
  is_digit, all_digits, contains, split_once, strip_suffix, parse_digits, parse_u64, pad_zeros,
}

-- The number that decimal digits stand for, behind the number read so far.
abbrev pub digits_value : ℕ → Text → ℕ
digits_value n [] = n
digits_value n (b ∷ bs) = digits_value (n * 10 + (b - 48)) bs

abbrev pub IsNumber : Text → Type 0
IsNumber t = (all_digits t ≡ true) × (t ≢ [])

pub contains-append : (x : ℕ) (a b : Text) → contains x (a ++ b) ≡ (contains x a || contains x b)
unfolding contains
contains-append x [] b = refl
contains-append x (c ∷ a) b = ground (arith, contains-append x a b)

pub contains-all_digits :
    (x : ℕ) (t : Text) → is_digit x ≡ false → all_digits t ≡ true → contains x t ≡ false
unfolding contains all_digits
contains-all_digits x [] mark h = refl
contains-all_digits x (b ∷ t) mark h = ground (arith, contains-all_digits x t mark)

pub split_once-absent : (x : ℕ) (t : Text) → contains x t ≡ false → split_once x t ≡ none
unfolding contains split_once
split_once-absent x [] h = refl
split_once-absent x (b ∷ t) h = ground (arith, split_once-absent x t)

pub split_once-first :
    (x : ℕ) (t rest : Text) → contains x t ≡ false → split_once x (t ++ x ∷ rest) ≡ some (t, rest)
unfolding contains split_once
split_once-first x [] rest h = ground arith
split_once-first x (b ∷ t) rest h = ground (arith, split_once-first x t rest)

pub strip_suffix-snoc : (x : ℕ) (t : Text) → strip_suffix x (t ++ x ∷ []) ≡ some t
unfolding strip_suffix
strip_suffix-snoc x [] = ground arith
strip_suffix-snoc x (b ∷ []) = ground arith
strip_suffix-snoc x (b ∷ c ∷ t) = ground (arith, strip_suffix-snoc x (c ∷ t))

digits_value-grows : (n : ℕ) (t : Text) → n ≤ digits_value n t
digits_value-grows n [] = omega arith
digits_value-grows n (b ∷ t) = let later = digits_value-grows (n * 10 + (b - 48)) t in omega arith

parse_digits-all_digits :
    (n : ℕ) (t : Text)
    → all_digits t ≡ true
    → digits_value n t ≤ u64_max
    → parse_digits n t ≡ some (digits_value n t)
unfolding parse_digits all_digits
parse_digits-all_digits n [] h bound = refl
parse_digits-all_digits n (b ∷ t) h bound =
    let grows = digits_value-grows (n * 10 + (b - 48)) t in
    let digit : is_digit b ≡ true = ground arith in
    let later = parse_digits-all_digits (n * 10 + (b - 48)) t (ground arith) bound in
    ground (arith, digit, later)

-- `str::parse::<u64>` reads the number of a text of digits that fits.
pub parse_u64-IsNumber :
    (t : Text) → IsNumber t → digits_value 0 t ≤ u64_max → parse_u64 t ≡ some (digits_value 0 t)
unfolding parse_u64 all_digits
parse_u64-IsNumber [] h bound = absurd (h.1 refl)
parse_u64-IsNumber (b ∷ []) h bound = ground (arith, h.0)
parse_u64-IsNumber (b ∷ c ∷ t) h bound =
    let read = parse_digits-all_digits 0 (b ∷ c ∷ t) h.0 bound in ground (arith, h.0, read)

digits_value-snoc :
    (n : ℕ) (t : Text) (b : ℕ) → digits_value n (t ++ b ∷ []) ≡ digits_value n t * 10 + (b - 48)
digits_value-snoc n [] b = refl
digits_value-snoc n (a ∷ t) b = digits_value-snoc (n * 10 + (a - 48)) t b

all_digits-snoc :
    (t : Text) (b : ℕ) → all_digits t ≡ true → is_digit b ≡ true → all_digits (t ++ b ∷ []) ≡ true
unfolding all_digits
all_digits-snoc [] b h d = ground arith
all_digits-snoc (a ∷ t) b h d = ground (arith, all_digits-snoc t b)

-- Padding with zeros keeps the digits digits, and multiplies the number by a power of ten.
pad_zeros-all_digits :
    (n : ℕ) (t : Text)
    → all_digits t ≡ true
    → (all_digits (pad_zeros n t) ≡ true)
      × (digits_value 0 (pad_zeros n t) ≡ digits_value 0 t * 10 ^ n)
unfolding pad_zeros
pad_zeros-all_digits zero t h = (h, omega arith)
pad_zeros-all_digits (suc n) t h =
    let (digits, value) = pad_zeros-all_digits n (t ++ b'0' ∷ []) (all_digits-snoc t b'0' h refl) in
    let grown = digits_value-snoc 0 t b'0' in
    (digits, rw (value, grown, pow-suc 10 n) (grind arith))

pad_zeros-filled : (n b : ℕ) (t : Text) → pad_zeros n (b ∷ t) ≢ []
unfolding pad_zeros
pad_zeros-filled zero b t p = cc
pad_zeros-filled (suc n) b t p = pad_zeros-filled n b (t ++ b'0' ∷ []) p

-- A padded fraction reads as the number that it stands for.
pub parse_u64-pad_zeros :
    (n b : ℕ) (t : Text)
    → all_digits (b ∷ t) ≡ true
    → digits_value 0 (b ∷ t) * 10 ^ n ≤ u64_max
    → parse_u64 (pad_zeros n (b ∷ t)) ≡ some (digits_value 0 (b ∷ t) * 10 ^ n)
parse_u64-pad_zeros n b t h bound =
    let (digits, value) = pad_zeros-all_digits n (b ∷ t) h in
    let read =
      parse_u64-IsNumber (pad_zeros n (b ∷ t)) (digits, pad_zeros-filled n b t) (rw value bound) in
    rw value at read

-- Twenty places write out every `u64`: the digits written stand for the number.
digits_value-decimal : (places n : ℕ) → n < 10 ^ places → digits_value 0 (decimal places n) ≡ n
unfolding decimal
digits_value-decimal zero n h = omega arith
digits_value-decimal (suc places) n h = elim (Bool-cases (ltb n 10)) [
  | inl small ↦ rw small (ground (arith, small))
  | inr large ↦
      let whole = digits_value-decimal places (n / 10) (omega (arith, pow-suc 10 places)) in
      let snoc = digits_value-snoc 0 (decimal places (n / 10)) (48 + n % 10) in
      ground (arith, large, whole, snoc)
]
