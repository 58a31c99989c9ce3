-- ===== src/Series/Divergence.antt =====
-- src/checkpoint.rs: `find_root_divergences`, and the order of the checkpoints that it reads.
pub mod Complete
use ahl_mirror.Prelude.{
  ℕ, Option, none, some, List, [], ◌∷◌, ◌++◌, Bool, false, not, ◌&&◌, ◌==◌, eq_bytes, if◌then◌else◌,
  min,
}
use ahl_mirror.Store.Schema.{Checkpoint}

unfoldable pub last : List ℕ → Option ℕ
last [] = none
last (x ∷ []) = some x
last (x ∷ y ∷ xs) = last (y ∷ xs)

abbrev is_last : Option ℕ → ℕ → Bool
is_last none size = false
is_last (some l) size = l == size

-- The test of one window of two.
unfoldable pub diverges : List ℕ → Checkpoint → Checkpoint → Bool
unfolding last
diverges divergences a b =
    a.tree_size == b.tree_size
    && (not (eq_bytes a.root_hash b.root_hash) && not (is_last (last divergences) a.tree_size))

-- The loop over `windows(2)`, with the divergences found so far.
unfoldable pub scan : List ℕ → List Checkpoint → List ℕ
scan divergences [] = divergences
scan divergences (a ∷ []) = divergences
scan divergences (a ∷ b ∷ rest) =
    scan (if diverges divergences a b then divergences ++ a.tree_size ∷ [] else divergences)
      (b ∷ rest)

unfoldable pub find_root_divergences : List Checkpoint → List ℕ
unfolding scan
find_root_divergences checkpoints = scan [] checkpoints

-- `iter().min()`
unfoldable pub minimum : List ℕ → Option ℕ
minimum [] = none
minimum (x ∷ xs) = elim (minimum xs) [ none ↦ some x | some m ↦ some (min x m) ]
