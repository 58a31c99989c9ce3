-- ===== src/Range/Cover.antt =====
-- The spans that the proof carries are exactly the leaves outside the window, each once, in order.
use ahl_mirror.Prelude.{
  ℕ, zero, suc, ◌+◌, ◌-◌, ◌≤◌, ◌<◌, List, [], ◌∷◌, ◌++◌, leb, ltb, if◌then◌else◌, ◌&&◌, not,
  u64_max, saturating_add, arith, ◌≡◌, ◌⊎◌, inl, inr, refl,
}
use ahl_mirror.Range.Spans.{Span, outside, inside, straddles, classify, outside_subtrees, whole}

-- In how many of the spans the leaf lies.
abbrev pub hits : ℕ → List (ℕ × ℕ) → ℕ
hits i [] = 0
hits i ((offset, size) ∷ spans) =
    (if leb offset i && ltb i (offset + size) then 1 else 0) + hits i spans

-- The spans are not empty, stand left to right without overlap, and lie between `low` and `high`.
abbrev pub Ordered : (low high : ℕ) → List (ℕ × ℕ) → Type 0
Ordered low high [] = low ≤ high
Ordered low high ((offset, size) ∷ spans) =
    (low ≤ offset) × (0 < size) × Ordered (offset + size) high spans

hits-append : (i : ℕ) (xs ys : List (ℕ × ℕ)) → hits i (xs ++ ys) ≡ hits i xs + hits i ys
hits-append i [] ys = omega arith
hits-append i ((offset, size) ∷ xs) ys = omega (arith, hits-append i xs ys)

Ordered-weaken :
    (low low' high : ℕ) (xs : List (ℕ × ℕ))
    → low ≤ low'
    → Ordered low' high xs
    → Ordered low high xs
Ordered-weaken low low' high [] h o = omega arith
Ordered-weaken low low' high ((offset, size) ∷ xs) h o = (omega arith, o.1, o.2)

Ordered-append :
    (low mid high : ℕ) (xs ys : List (ℕ × ℕ))
    → Ordered low mid xs
    → Ordered mid high ys
    → Ordered low high (xs ++ ys)
Ordered-append low mid high [] ys o p = Ordered-weaken low mid high ys o p
Ordered-append low mid high ((offset, size) ∷ xs) ys o p =
    (o.0, o.1, Ordered-append (offset + size) mid high xs ys o.2 p)

-- What atl-core documents of `largest_power_of_2_less_than`, as far as the walk relies on it.
abbrev pub Splits : (ℕ → ℕ) → Type 0
Splits split = (n : ℕ) → 2 ≤ n → (0 < split n) × (split n < n)

Span-cases : (s : Span) → (s ≡ outside) ⊎ (s ≡ inside) ⊎ (s ≡ straddles)
Span-cases outside = inl refl
Span-cases inside = inr (inl refl)
Span-cases straddles = inr (inr refl)

module _ (from to offset size : ℕ) (bound : offset + size ≤ u64_max) where
  classify-outside : classify offset size from to ≡ outside → (offset + size ≤ from) ⊎ (to ≤ offset)
  unfolding classify
  classify-outside h = ground arith

  classify-inside : classify offset size from to ≡ inside → (from ≤ offset) × (offset + size ≤ to)
  unfolding classify
  classify-inside h = ground arith

  classify-straddles : classify offset size from to ≡ straddles → 2 ≤ size
  unfolding classify
  classify-straddles h = ground arith

  abbrev expected_hits : ℕ → ℕ
  expected_hits i =
      if leb offset i && ltb i (offset + size) && not (leb from i && ltb i to) then 1 else 0

module _ (split : ℕ → ℕ) (splits : Splits split) (from to : ℕ) where
  hits-outside_subtrees :
      (i offset size fuel : ℕ) (bound : offset + size ≤ u64_max)
      → size < fuel
      → hits i (outside_subtrees split from to offset size fuel)
        ≡ expected_hits from to offset size bound i
  unfolding outside_subtrees
  hits-outside_subtrees i offset size zero bound h = absurd (omega arith)
  hits-outside_subtrees i offset size (suc fuel) bound h =
      elim (Span-cases (classify offset size from to)) [
        | inl e ↦ let side = classify-outside from to offset size bound e in ground (arith, e)
        | inr (inl e) ↦
            let within = classify-inside from to offset size bound e in ground (arith, e)
        | inr (inr e) ↦
            let parts = splits size (classify-straddles from to offset size bound e) in
            let k = split size in
            let left = hits-outside_subtrees i offset k fuel (omega arith) (omega arith) in
            let right =
              hits-outside_subtrees i (offset + k) (size - k) fuel (omega arith) (omega arith) in
            let mid : saturating_add offset k ≡ offset + k = omega arith in
            rw (e, outside_subtrees, mid, hits-append, left, right) (ground arith)
      ]

  Ordered-outside_subtrees :
      (offset size fuel : ℕ)
      → offset + size ≤ u64_max
      → 0 < size
      → size < fuel
      → Ordered offset (offset + size) (outside_subtrees split from to offset size fuel)
  unfolding outside_subtrees
  Ordered-outside_subtrees offset size zero bound pos h = absurd (omega arith)
  Ordered-outside_subtrees offset size (suc fuel) bound pos h =
      elim (Span-cases (classify offset size from to)) [
        | inl e ↦ rw (e, outside_subtrees) (omega arith)
        | inr (inl e) ↦ rw (e, outside_subtrees) (omega arith)
        | inr (inr e) ↦
            let parts = splits size (classify-straddles from to offset size bound e) in
            let k = split size in
            let left =
              Ordered-outside_subtrees offset k fuel (omega arith) (omega arith) (omega arith) in
            let right =
              Ordered-outside_subtrees (offset + k) (size - k) fuel (omega arith) (omega arith)
                (omega arith) in
            let mid : saturating_add offset k ≡ offset + k = omega arith in
            let end : offset + k + (size - k) ≡ offset + size = omega arith in
            rw (e, outside_subtrees, mid)
              (Ordered-append offset (offset + k) (offset + size) _ _ left (rw end at right))
      ]

-- For a tree of up to `u64_max` leaves, with a split point strictly inside every subtree of two leaves
-- or more: the spans that the proof carries stand in order, without overlap, inside the tree, and
-- every leaf outside the window lies in exactly one of them, every leaf inside it in none.
pub outside_subtrees_partition :
    (split : ℕ → ℕ)
    → Splits split
    → (from to tree_size : ℕ) → 0 < tree_size
    → tree_size ≤ u64_max
    → Ordered 0 tree_size (outside_subtrees split from to 0 tree_size (whole tree_size))
      × ((i : ℕ)
          → i < tree_size
          → hits i (outside_subtrees split from to 0 tree_size (whole tree_size))
            ≡ (if leb from i && ltb i to then 0 else 1))
outside_subtrees_partition split splits from to tree_size pos bound =
    let here : 0 + tree_size ≡ tree_size = omega arith in
    let fits : 0 + tree_size ≤ u64_max = omega arith in
    (
      rw here at (
          Ordered-outside_subtrees split splits from to 0 tree_size (whole tree_size) fits pos
            (omega arith)),
      λ i inside.
          let counted =
            hits-outside_subtrees split splits from to i 0 tree_size (whole tree_size) fits
              (omega arith) in
          rw counted (ground arith),
    )
