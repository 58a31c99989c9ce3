-- ===== src/Series/Divergence/Complete.antt =====
-- `find_root_divergences` of src/checkpoint.rs finds every size that two roots share.
use ahl_mirror.Prelude.{
  ℕ, some, List, [], ◌∷◌, ◌++◌, ◌≡◌, ◌≢◌, ◌≤◌, arith, refl, inl, inr, min, eq_bytes, eq_bytes→eq,
  eq_bytes_refl, Bool-cases, Option-cases, if◌then◌else◌, In, In-append_left, In-append_right, sym,
  ◌∙◌, ap, subst,
}
use ahl_mirror.Store.Schema.{Checkpoint}
use ahl_mirror.Series.Divergence.{last, diverges, scan, minimum}

-- Sizes do not decrease.
abbrev pub BySize : List Checkpoint → Type 0
BySize [] = Unit
BySize (a ∷ []) = Unit
BySize (a ∷ b ∷ rest) = (a.tree_size ≤ b.tree_size) × BySize (b ∷ rest)

last-In : (xs : List ℕ) (x : ℕ) → last xs ≡ some x → In x xs
unfolding last
last-In [] x h = cc
last-In (y ∷ []) x h = inl (ground arith)
last-In (y ∷ z ∷ xs) x h = inr (last-In (z ∷ xs) x h)

-- The divergences after one window.
abbrev after : List ℕ → Checkpoint → Checkpoint → List ℕ
after found a b = if diverges found a b then found ++ a.tree_size ∷ [] else found

after-In :
    (found : List ℕ) (a b : Checkpoint) (size : ℕ) → In size found → In size (after found a b)
after-In found a b size h = elim (Bool-cases (diverges found a b)) [
  | inl e ↦ rw e (In-append_left size found (a.tree_size ∷ []) h)
  | inr e ↦ rw e h
]

after-here :
    (found : List ℕ) (a b : Checkpoint)
    → a.tree_size ≡ b.tree_size
    → a.root_hash ≢ b.root_hash
    → In a.tree_size (after found a b)
unfolding diverges
after-here found a b same apart = elim (Bool-cases (diverges found a b)) [
  | inl e ↦ rw e (In-append_right a.tree_size found (a.tree_size ∷ []) (inl refl))
  | inr e ↦ elim (Option-cases (last found)) [
    | inl l ↦ absurd (ground (arith, l, eq_bytes→eq a.root_hash b.root_hash))
    | inr (size, l) ↦
        let here : size ≡ a.tree_size = ground (arith, l, eq_bytes→eq a.root_hash b.root_hash) in
        rw e (rw here at (last-In found size l))
  ]
]

scan-In :
    (checkpoints : List Checkpoint) (found : List ℕ) (size : ℕ)
    → In size found
    → In size (scan found checkpoints)
unfolding scan
scan-In [] found size h = h
scan-In (a ∷ []) found size h = h
scan-In (a ∷ b ∷ rest) found size h =
    scan-In (b ∷ rest) (after found a b) size (after-In found a b size h)

BySize-head :
    (a : Checkpoint) (rest : List Checkpoint) (x : Checkpoint)
    → BySize (a ∷ rest)
    → In x rest
    → a.tree_size ≤ x.tree_size
BySize-head a [] x s h = absurd h
BySize-head a (b ∷ rest) x s (inl e) = rw e at s.0
BySize-head a (b ∷ rest) x s (inr h) = let later = BySize-head b rest x s.1 h in omega arith

scan-head :
    (rest : List Checkpoint) (a x : Checkpoint) (found : List ℕ)
    → BySize (a ∷ rest)
    → In x rest
    → a.tree_size ≡ x.tree_size
    → a.root_hash ≢ x.root_hash
    → In a.tree_size (scan found (a ∷ rest))
unfolding scan
scan-head [] a x found s h same apart = absurd h
scan-head (b ∷ rest) a x found s (inl e) same apart =
    scan-In (b ∷ rest) (after found a b) a.tree_size (
      after-here found a b (same ∙ ap (λ r. r.tree_size) (sym e))
        (λ p. apart (p ∙ ap (λ r. r.root_hash) e)))
scan-head (b ∷ rest) a x found s (inr h) same apart =
    let above = BySize-head b rest x s.1 h in
    let level : a.tree_size ≡ b.tree_size = omega arith in
    elim (Bool-cases (eq_bytes a.root_hash b.root_hash)) [
      | inl e ↦
          let alike = eq_bytes→eq a.root_hash b.root_hash e in
          subst (λ size. In size (scan (after found a b) (b ∷ rest))) (sym level)
            (scan-head rest b x (after found a b) s.1 h (sym level ∙ same) (λ p. apart (alike ∙ p)))
      | inr e ↦ scan-In (b ∷ rest) (after found a b) a.tree_size (
          after-here found a b level
            (λ p. absurd (ground (arith, e, p, eq_bytes_refl a.root_hash))))
    ]

pub scan_complete :
    (checkpoints : List Checkpoint) (x y : Checkpoint) (found : List ℕ)
    → BySize checkpoints
    → In x checkpoints
    → In y checkpoints
    → x.tree_size ≡ y.tree_size
    → x.root_hash ≢ y.root_hash
    → In x.tree_size (scan found checkpoints)
unfolding scan
scan_complete [] x y found s hx hy same apart = absurd hx
scan_complete (a ∷ []) x y found s (inl p) (inl q) same apart =
    absurd (apart (ap (λ r. r.root_hash) (sym p ∙ q)))
scan_complete (a ∷ []) x y found s (inl p) (inr h) same apart = absurd h
scan_complete (a ∷ []) x y found s (inr h) hy same apart = absurd h
scan_complete (a ∷ b ∷ rest) x y found s (inl p) (inl q) same apart =
    absurd (apart (ap (λ r. r.root_hash) (sym p ∙ q)))
scan_complete (a ∷ b ∷ rest) x y found s (inl p) (inr h) same apart =
    let size = ap (λ r. r.tree_size) p in
    let root = ap (λ r. r.root_hash) p in
    subst (λ size. In size (scan found (a ∷ b ∷ rest))) size
      (scan-head (b ∷ rest) a y found s h (size ∙ same) (λ q. apart (sym root ∙ q)))
scan_complete (a ∷ b ∷ rest) x y found s (inr h) (inl p) same apart =
    let size = ap (λ r. r.tree_size) p in
    let root = ap (λ r. r.root_hash) p in
    subst (λ size. In size (scan found (a ∷ b ∷ rest))) (size ∙ sym same)
      (scan-head (b ∷ rest) a x found s h (size ∙ sym same) (λ q. apart (sym q ∙ root)))
scan_complete (a ∷ b ∷ rest) x y found s (inr h) (inr k) same apart =
    scan_complete (b ∷ rest) x y (after found a b) s.1 h k same apart

pub minimum_least :
    (sizes : List ℕ) (size : ℕ)
    → In size sizes
    → (least : ℕ) × (minimum sizes ≡ some least) × (least ≤ size)
unfolding minimum
minimum_least [] size h = absurd h
minimum_least (s ∷ sizes) size (inl e) = elim (Option-cases (minimum sizes)) [
  | inl m ↦ (s, ground (arith, m), omega (arith, e))
  | inr (least, m) ↦ (min s least, ground (arith, m), omega (arith, e))
]
minimum_least (s ∷ sizes) size (inr h) =
    let (least, m, below) = minimum_least sizes size h in
    (min s least, ground (arith, m), omega arith)
