-- ===== src/Store/Tree.antt =====
-- The log tree that the stored material stands for, and what a valid store holds of it.
pub mod Rows
pub mod Climb
use ahl_mirror.Prelude.{
  ℕ, zero, suc, ◌+◌, ◌*◌, ◌^◌, ◌≤◌, ◌<◌, Option, none, some, List, [], ◌∷◌, ◌++◌, ◌≡◌, ap, ap₂,
  length, get_elem?, get_elem?-append_left, get_elem?-lt, arith, two_pow_suc, two_pow_pos, Text,
  eq_bytes, ◌⊎◌,
}
use ahl_mirror.Deps.{Deps, Hash}
use ahl_mirror.Metadata.{log_leaf_hash, length-log_leaf_hash}
use ahl_mirror.Store.Schema.{Connection, EntryRow, NodeRow}
use ahl_mirror.Store.Rows.{node_at}

-- The rows stand at the indices `start`, `start + 1`, …
abbrev pub Numbered : ℕ → List EntryRow → Type 0
Numbered start [] = Unit
Numbered start (row ∷ rows) = (row.entry_index ≡ start) × Numbered (suc start) rows

-- No row has the id.
abbrev pub IdFree : Text → List EntryRow → Type 0
IdFree id [] = Unit
IdFree id (row ∷ rows) = (¬ (row.entry_id ≡ id)) × IdFree id rows

abbrev pub DistinctIds : List EntryRow → Type 0
DistinctIds [] = Unit
DistinctIds (row ∷ rows) = IdFree row.entry_id rows × DistinctIds rows

module _ (d : Deps) where
  -- Every row carries the log leaf hash of its envelope.
  abbrev pub Hashed : List EntryRow → Type 0
  Hashed [] = Unit
  Hashed (row ∷ rows) = (row.leaf_hash ≡ some (log_leaf_hash d row.envelope)) × Hashed rows

  abbrev pub leaf_at : List EntryRow → ℕ → Hash
  leaf_at rows i = elim (get_elem? rows i) [
    | none ↦ d.empty_root
    | some row ↦ log_leaf_hash d row.envelope
  ]

  -- RFC 6962: the root of the leaves `[index * 2 ^ level, (index + 1) * 2 ^ level)`.
  unfoldable pub subtree : List EntryRow → (level index : ℕ) → Hash
  subtree rows zero index = leaf_at rows index
  subtree rows (suc level) index =
      d.hash_children (subtree rows level (2 * index)) (subtree rows level (2 * index + 1))

  -- The cache has every node above the leaves that the rows complete, and no other.
  pub record IsCached (rows : List EntryRow) (roots : List NodeRow) : Type 0 where
    pub have :
        (level index : ℕ)
        → suc index * 2 ^ suc level ≤ length rows
        → node_at roots (suc level) index
          ≡ some (record {
            level = suc level;
            node_index = index;
            hash = subtree rows (suc level) index;
          })
    pub absent :
        (level index : ℕ)
        → length rows < suc index * 2 ^ suc level
        → node_at roots (suc level) index ≡ none

  -- Canonical storage is gap-free from index 0, names every entry once, and carries exactly the
  -- tree material of its entries.
  pub record IsValid (c : Connection) : Type 0 where
    pub numbered : Numbered 0 c.entries
    pub distinct : DistinctIds c.entries
    pub hashed : Hashed c.entries
    pub addressable : length c.entries ≤ 2 ^ 63
    pub cached : IsCached c.entries c.subtree_roots

  pub length-subtree :
      (rows : List EntryRow) (level index : ℕ)
      → suc index * 2 ^ level ≤ length rows
      → length (subtree rows level index) ≡ 32
  unfolding subtree
  length-subtree rows zero index h =
      let (row, e) = get_elem?-lt rows index (omega arith) in
      rw (e, leaf_at) (length-log_leaf_hash d row.envelope)
  length-subtree rows (suc level) index h = d.length-hash_children _ _

  -- A complete subtree does not change when entries are appended.
  pub subtree-append :
      (rows more : List EntryRow) (level index : ℕ)
      → suc index * 2 ^ level ≤ length rows
      → subtree (rows ++ more) level index ≡ subtree rows level index
  unfolding subtree
  subtree-append rows more zero index h =
      rw (get_elem?-append_left rows more index (omega arith), leaf_at)
  subtree-append rows more (suc level) index h =
      let doubled = ap (λ (t : ℕ). suc index * t) (two_pow_suc level) in
      ap₂ d.hash_children (subtree-append rows more level (2 * index) (omega arith))
        (subtree-append rows more level (2 * index + 1) (omega arith))
