-- ===== src/Store/Migration/Fold.antt =====
-- `rebuild_subtree_cache` of src/store.rs, level by level.
use native.Mathlib.Decide.{ℕ_discrete}
use ahl_mirror.Prelude.{
  ℕ, zero, suc, ◌+◌, ◌*◌, ◌^◌, ◌≤◌, ◌<◌, ◌≢◌, none, some, List, [], ◌∷◌, ◌++◌, ◌≡◌, refl, sym, ap,
  ◌∙◌, arith, length, find_row, i64_max,
}
use mathlib.Core.List.{append-nil, append_assoc}
use ahl_mirror.Error.{ok}
use ahl_mirror.Deps.{Deps, Hash}
use ahl_mirror.Store.Schema.{Connection, EntryRow, NodeRow}
use ahl_mirror.Store.Rows.{node_at}
use ahl_mirror.Store.Tree.{subtree}
use ahl_mirror.Store.Migration.{fold_level}

-- Twice `k`, and `b`.
abbrev pub twice : ℕ → ℕ → ℕ
twice zero b = b
twice (suc k) b = suc (suc (twice k b))

pub twice_lem : (k b : ℕ) → twice k b ≡ 2 * k + b
twice_lem zero b = omega arith
twice_lem (suc k) b = omega (arith, twice_lem k b)

pub halve : (m : ℕ) → (k : ℕ) × (b : ℕ) × (m ≡ twice k b) × (b ≤ 1)
halve zero = (0, 0, refl, omega arith)
halve (suc zero) = (0, 1, refl, omega arith)
halve (suc (suc m)) = let (k, b, e, small) = halve m in (suc k, b, ap (λ t. suc (suc t)) e, small)

module _ (d : Deps) (rows : List EntryRow) where
  -- The nodes of a level from an index on, and the rows that hold them.
  abbrev pub nodes : (level start count : ℕ) → List Hash
  nodes level start zero = []
  nodes level start (suc count) = subtree d rows level start ∷ nodes level (suc start) count

  abbrev pub node_row : (level index : ℕ) → NodeRow
  node_row level index = record {
    level = level;
    node_index = index;
    hash = subtree d rows level index;
  }

  abbrev pub level_rows : (level start count : ℕ) → List NodeRow
  level_rows level start zero = []
  level_rows level start (suc count) = node_row level start ∷ level_rows level (suc start) count

  abbrev pub with_rows : Connection → List NodeRow → Connection
  with_rows c more = record c { subtree_roots = c.subtree_roots ++ more }

  pub length-nodes : (level start count : ℕ) → length (nodes level start count) ≡ count
  length-nodes level start zero = refl
  length-nodes level start (suc count) = ap suc (length-nodes level (suc start) count)

  node_hash :
      (p start : ℕ)
      → d.hash_children (subtree d rows p (2 * start)) (subtree d rows p (suc (2 * start)))
        ≡ subtree d rows (suc p) start
  unfolding subtree
  node_hash p start =
      let odd : suc (2 * start) ≡ 2 * start + 1 = omega arith in
      ap (λ at. d.hash_children (subtree d rows p (2 * start)) (subtree d rows p at)) odd

  fold_level_cons :
      (c : Connection) (level start : ℕ) (hash left right : Hash) (rest folded : List Hash)
      (after : Connection)
      → start ≤ i64_max
      → d.hash_children left right ≡ hash
      → fold_level d level
          (suc start)
          rest
          (with_rows c (record { level = level; node_index = start; hash = hash } ∷ []))
        ≡ (ok folded, after)
      → fold_level d level start (left ∷ right ∷ rest) c ≡ (ok (hash ∷ folded), after)
  unfolding fold_level
  fold_level_cons c level start hash left right rest folded after fits e h = ground (arith, e, h)

  pub fold_level_lem :
      (c : Connection) (p start k b : ℕ)
      → b ≤ 1
      → start + k ≤ 2 ^ 62
      → fold_level d (suc p) start (nodes p (2 * start) (twice k b)) c
        ≡ (ok (nodes (suc p) start k), with_rows c (level_rows (suc p) start k))
  unfolding fold_level
  fold_level_lem c p start zero zero small room = rw append-nil refl
  fold_level_lem c p start zero (suc zero) small room = rw append-nil refl
  fold_level_lem c p start zero (suc (suc b)) small room = absurd (omega arith)
  fold_level_lem c p start (suc k) b small room =
      let row = node_row (suc p) start in
      let next = with_rows c (row ∷ []) in
      let rest = fold_level_lem next p (suc start) k b small (omega arith) in
      let further : 2 * suc start ≡ suc (suc (2 * start)) = omega arith in
      let joined : with_rows next (level_rows (suc p) (suc start) k)
          ≡ with_rows c (row ∷ level_rows (suc p) (suc start) k) =
        ap (λ roots. record c { subtree_roots = roots })
          (append_assoc c.subtree_roots (row ∷ []) _) in
      fold_level_cons c (suc p) start row.hash _ _ _ _ _ (omega arith) (node_hash p start) (
        ap (λ at. fold_level d (suc p) (suc start) (nodes p at (twice k b)) next) (sym further)
        ∙ rest
        ∙ ap (λ after. (ok (nodes (suc p) (suc start) k), after)) joined)

  pub level_rows_other :
      (level q start k index : ℕ) → level ≢ q → node_at (level_rows q start k) level index ≡ none
  unfolding node_at find_row
  level_rows_other level q start zero index apart = refl
  level_rows_other level q start (suc k) index apart =
      ground (arith, level_rows_other level q (suc start) k index apart)

  level_rows_before :
      (q start k index : ℕ) → index < start → node_at (level_rows q start k) q index ≡ none
  unfolding node_at find_row
  level_rows_before q start zero index before = refl
  level_rows_before q start (suc k) index before =
      ground (arith, level_rows_before q (suc start) k index)

  pub level_rows_past :
      (q start k index : ℕ) → start + k ≤ index → node_at (level_rows q start k) q index ≡ none
  unfolding node_at find_row
  level_rows_past q start zero index past = refl
  level_rows_past q start (suc k) index past = ground (arith, level_rows_past q (suc start) k index)

  pub level_rows_at :
      (q start k index : ℕ)
      → start ≤ index
      → index < start + k
      → node_at (level_rows q start k) q index ≡ some (node_row q index)
  unfolding node_at find_row
  level_rows_at q start zero index above below = absurd (omega arith)
  level_rows_at q start (suc k) index above below = elim (ℕ_discrete start index) [
    | yes e ↦ rw e (ground arith)
    | no apart ↦ ground (arith, level_rows_at q (suc start) k index)
  ]
