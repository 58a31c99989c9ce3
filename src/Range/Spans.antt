-- ===== src/Range/Spans.antt =====
-- src/range.rs: `classify` and `outside_subtrees`, the maximal subtrees that lie outside the window.
use ahl_mirror.Prelude.{
  ℕ, zero, suc, ◌-◌, List, [], ◌∷◌, ◌++◌, leb, if◌then◌else◌, ◌||◌, ◌&&◌, saturating_add,
}

pub data Span : Type 0 where
  outside inside straddles : Span

unfoldable pub classify : (offset size from to : ℕ) → Span
classify offset size from to =
    let end = saturating_add offset size in
    if leb end from || leb to offset
    then outside
    else if leb from offset && leb end to
    then inside
    else straddles

-- The recursion of `outside_subtrees`, by fuel; `out` is what the calls before it have pushed, in
-- order. `split` is atl-core's `largest_power_of_2_less_than`.
unfoldable pub outside_subtrees : (split : ℕ → ℕ) (from to offset size fuel : ℕ) → List (ℕ × ℕ)
outside_subtrees split from to offset size zero = []
outside_subtrees split from to offset size (suc fuel) = elim (classify offset size from to) [
  | outside ↦ (offset, size) ∷ []
  | inside ↦ []
  | straddles ↦
      outside_subtrees split from to offset (split size) fuel
      ++ outside_subtrees split from to (saturating_add offset (split size)) (size - split size)
          fuel
]

-- Enough fuel for a tree of `size` leaves.
abbrev pub whole : ℕ → ℕ
whole size = suc size
