-- ===== src/Duration/Strings.antt =====
-- The string operations of the standard library that the duration parser uses, on bytes. The
-- characters searched for are ASCII, so a byte position is a character position.
use ahl_mirror.Prelude.{
  ℕ, suc, ◌-◌, Text, Option, none, some, [], ◌∷◌, ◌++◌, Bool, true, false, ◌&&◌, ◌||◌, ◌==◌, leb,
  if◌then◌else◌, checked_add, checked_mul,
}

abbrev pub is_digit : ℕ → Bool
is_digit b = leb b'0' b && leb b b'9'

-- `bytes().all(|b| b.is_ascii_digit())`
unfoldable pub all_digits : Text → Bool
all_digits [] = true
all_digits (b ∷ bs) = is_digit b && all_digits bs

unfoldable pub contains : ℕ → Text → Bool
contains x [] = false
contains x (b ∷ bs) = b == x || contains x bs

-- What stands before and behind the first occurrence: `split_once`, and `find` with its slices.
unfoldable pub split_once : ℕ → Text → Option (Text × Text)
split_once x [] = none
split_once x (b ∷ bs) =
    let rest = split_once x bs in
    if b == x
    then some ([], bs)
    else elim rest [ none ↦ none | some (before, after) ↦ some (b ∷ before, after) ]

unfoldable pub strip_suffix : ℕ → Text → Option Text
strip_suffix x [] = none
strip_suffix x (b ∷ []) = if b == x then some [] else none
strip_suffix x (b ∷ c ∷ bs) = elim (strip_suffix x (c ∷ bs)) [
  | none ↦ none
  | some init ↦ some (b ∷ init)
]

-- The loop of `u64::from_str_radix(_, 10)`.
unfoldable pub parse_digits : ℕ → Text → Option ℕ
parse_digits n [] = some n
parse_digits n (b ∷ bs) = elim (is_digit b) [
  | false ↦ none
  | true ↦ elim (checked_mul n 10) [
    | none ↦ none
    | some tens ↦ elim (checked_add tens (b - 48)) [ none ↦ none | some sum ↦ parse_digits sum bs ]
  ]
]

-- `str::parse::<u64>`: at least one digit, after an optional `+`.
unfoldable pub parse_u64 : Text → Option ℕ
unfolding parse_digits
parse_u64 [] = none
parse_u64 (b ∷ []) = if is_digit b then some (b - 48) else none
parse_u64 (b ∷ c ∷ bs) = if b == b'+' then parse_digits 0 (c ∷ bs) else parse_digits 0 (b ∷ c ∷ bs)

-- `while digits.len() < 9 { digits.push('0') }`, by the places left.
unfoldable pub pad_zeros : ℕ → Text → Text
pad_zeros ℕ.zero digits = digits
pad_zeros (suc n) digits = pad_zeros n (digits ++ b'0' ∷ [])
