-- ===== src/Prelude/ByteStrings.antt =====
-- Byte strings. A Rust `String` or `&str` is its UTF-8 bytes, `Text`; equality and order of strings
-- and of `TEXT` columns (SQLite's default BINARY collation) are those of the bytes.
use Prim.Native.Nat.{ℕ, ◌+◌, ◌/◌, ◌%◌}
use Prim.Native.Char.{code}
use Prim.Native.String.{String}
use mathlib.Core.Path.{◌≡◌, refl, subst}
use mathlib.Core.Logic.{◌↔◌, ◌≢◌}
use mathlib.Core.Bool.{Bool, true, false, ◌&&◌, ◌||◌}
use mathlib.Core.List.{List, [], ◌∷◌, ◌++◌}
use native.Mathlib.Omega.{arith}
use ahl_mirror.Prelude.Tests.{◌==◌, ltb, if◌then◌else◌}

abbrev pub Bytes : Type 0
Bytes = List ℕ

abbrev pub Text : Type 0
Text = List ℕ

-- The bytes of an ASCII literal.
abbrev pub codes : String → Text
codes String.[] = []
codes (String.◌∷◌ c s) = code c ∷ codes s

unfoldable pub eq_bytes : Bytes → Bytes → Bool
eq_bytes [] [] = true
eq_bytes [] (y ∷ ys) = false
eq_bytes (x ∷ xs) [] = false
eq_bytes (x ∷ xs) (y ∷ ys) = x == y && eq_bytes xs ys

-- Bytewise lexicographic order, at most.
unfoldable pub le_bytes : Bytes → Bytes → Bool
le_bytes [] ys = true
le_bytes (x ∷ xs) [] = false
le_bytes (x ∷ xs) (y ∷ ys) = ltb x y || (x == y && le_bytes xs ys)

pub eq_bytes_refl : (xs : Bytes) → eq_bytes xs xs ≡ true
unfolding eq_bytes
eq_bytes_refl [] = refl
eq_bytes_refl (x ∷ xs) = ground (arith, eq_bytes_refl xs)

pub eq_bytes→eq : (xs ys : Bytes) → eq_bytes xs ys ≡ true → xs ≡ ys
unfolding eq_bytes
eq_bytes→eq [] [] h = refl
eq_bytes→eq [] (y ∷ ys) h = cc
eq_bytes→eq (x ∷ xs) [] h = cc
eq_bytes→eq (x ∷ xs) (y ∷ ys) h = ground (arith, eq_bytes→eq xs ys)

pub eq_bytes_iff : (xs ys : Bytes) → (eq_bytes xs ys ≡ true) ↔ (xs ≡ ys)
eq_bytes_iff xs ys =
    (eq_bytes→eq xs ys, λ p. subst (λ zs. eq_bytes xs zs ≡ true) p (eq_bytes_refl xs))

pub eq_bytes_ne : (xs ys : Bytes) → eq_bytes xs ys ≡ false → xs ≢ ys
eq_bytes_ne xs ys h p = cc ((eq_bytes_iff xs ys).1 p)

pub le_bytes_refl : (xs : Bytes) → le_bytes xs xs ≡ true
unfolding le_bytes
le_bytes_refl [] = refl
le_bytes_refl (x ∷ xs) = ground (arith, le_bytes_refl xs)

pub le_bytes_trans :
    (xs ys zs : Bytes) → le_bytes xs ys ≡ true → le_bytes ys zs ≡ true → le_bytes xs zs ≡ true
unfolding le_bytes
le_bytes_trans [] ys zs h k = refl
le_bytes_trans (x ∷ xs) [] zs h k = cc
le_bytes_trans (x ∷ xs) (y ∷ ys) [] h k = cc
le_bytes_trans (x ∷ xs) (y ∷ ys) (z ∷ zs) h k = ground (arith, le_bytes_trans xs ys zs)

pub le_bytes_total : (xs ys : Bytes) → le_bytes xs ys ≡ false → le_bytes ys xs ≡ true
unfolding le_bytes
le_bytes_total [] ys h = cc
le_bytes_total (x ∷ xs) [] h = refl
le_bytes_total (x ∷ xs) (y ∷ ys) h = ground (arith, le_bytes_total xs ys)

pub le_bytes_antisymm : (xs ys : Bytes) → le_bytes xs ys ≡ true → le_bytes ys xs ≡ true → xs ≡ ys
unfolding le_bytes
le_bytes_antisymm [] [] h k = refl
le_bytes_antisymm [] (y ∷ ys) h k = cc
le_bytes_antisymm (x ∷ xs) [] h k = cc
le_bytes_antisymm (x ∷ xs) (y ∷ ys) h k = ground (arith, le_bytes_antisymm xs ys)

-- `to_string` of a number of at most so many decimal digits.
unfoldable pub decimal : ℕ → ℕ → Text
decimal ℕ.zero n = []
decimal (ℕ.suc places) n =
    let before = decimal places (n / 10) in
    if ltb n 10 then (48 + n) ∷ [] else before ++ (48 + n % 10) ∷ []
