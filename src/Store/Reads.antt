-- ===== src/Store/Reads.antt =====
-- src/store.rs: the reads of entries and of tree material, and the proof builders that run over it.
pub mod Nodes
use ahl_mirror.Prelude.{
  ℕ, zero, suc, ◌%◌, ◌/◌, ◌^◌, Bytes, Option, none, some, List, [], ◌∷◌, Bool, false, ◌==◌, leb,
  ltb, if◌then◌else◌, length, checked_add, checked_mul, checked_div, saturating_add, not, map,
}
use ahl_mirror.Error.{
  MirrorResult, MirrorError, ok, err, ok_or, refuse_if, index_overflow, tree_material_missing,
  incomplete_entries, ◌>>=◌, ◌>>◌,
}
use ahl_mirror.Deps.{Deps, Hash, Fallible, from_atl, Walk, returns, asks}
use ahl_mirror.Store.Schema.{Connection, EntryRow, max_subtree_level, to_i64}
use ahl_mirror.Store.Rows.{rows_between}
use ahl_mirror.Store.Nodes.{tree_node_raw, hash_of_blob}

-- COUNT(*); the count is not negative, so `to_u64` keeps it.
unfoldable pub count_entries_raw : Connection → (from_index to_index : ℕ) → MirrorResult ℕ
count_entries_raw c from_index to_index = do
  from_i64 ← to_i64 "from_index" from_index
  to_i64' ← to_i64 "to_index" to_index
  ok (length (rows_between c from_i64 to_i64'))

unfoldable pub get_entries_range_raw :
    Connection → (from_index to_index : ℕ) → MirrorResult (List Bytes)
get_entries_range_raw c from_index to_index = do
  from_i64 ← to_i64 "from_index" from_index
  to_i64' ← to_i64 "to_index" to_index
  ok (map (λ (row : EntryRow). row.envelope) (rows_between c from_i64 to_i64'))

-- The loop of `leaf_hashes_range_raw` over the rows of the query.
unfoldable pub leaf_hashes_of : List EntryRow → MirrorResult (List Hash)
leaf_hashes_of [] = ok []
leaf_hashes_of (row ∷ rows) = do
  blob ← ok_or (tree_material_missing 0 row.entry_index) row.leaf_hash
  hash ← hash_of_blob 0 row.entry_index blob
  hashes ← leaf_hashes_of rows
  ok (hash ∷ hashes)

unfoldable pub leaf_hashes_range_raw :
    Connection → (from_index to_index : ℕ) → MirrorResult (List Hash)
unfolding leaf_hashes_of
leaf_hashes_range_raw c from_index to_index = do
  from_i64 ← to_i64 "from_index" from_index
  to_i64' ← to_i64 "to_index" to_index
  leaf_hashes_of (rows_between c from_i64 to_i64')

pub record TreeReadCost : Type 0 where
  pub tree_nodes : ℕ

-- `1_u64.checked_shl(level)`
abbrev pub checked_shl : ℕ → Option ℕ
checked_shl level = if ltb level 64 then some (2 ^ level) else none

unfoldable pub node_is_complete : (level index bound : ℕ) → Bool
node_is_complete level index bound = elim (checked_shl level) [
  | none ↦ false
  | some width ↦ elim (checked_add index 1) [
    | none ↦ false
    | some next ↦ elim (checked_mul next width) [ none ↦ false | some end ↦ leb end bound ]
  ]
]

-- What `with_tree_nodes` keeps beside the builder: the first failure, and the nodes read.
pub record Reader : Type 0 where
  pub failure : Option MirrorError
  pub reads : ℕ

abbrev record_failure : MirrorError → Reader → Reader
record_failure e r = elim r.failure [ none ↦ record r { failure = some e } | some first ↦ r ]

-- The callback `get_node`: its answer, and the reader after it.
unfoldable pub get_node : Connection → (bound level index : ℕ) → Reader → Option Hash × Reader
get_node c bound level index r = elim (tree_node_raw c level index) [
  | ok found ↦ elim found [
    | some node ↦ (some node, record r { reads = saturating_add r.reads 1 })
    | none ↦ (
      none,
      (if node_is_complete level index bound
          then record_failure (tree_material_missing level index) r
          else r),
    )
  ]
  | err e ↦ (none, record_failure e r)
]

unfoldable pub run_walk : {A : Type 0} → Connection → ℕ → Walk A → Reader → Fallible A × Reader
run_walk c bound (returns a) r = (a, r)
run_walk c bound (asks level index k) r =
    run_walk c bound (k (get_node c bound level index r).0) (get_node c bound level index r).1

abbrev conclude : {A : Type 0} → Fallible A → Reader → MirrorResult (A × TreeReadCost)
conclude computed r = elim r.failure [
  | some e ↦ err e
  | none ↦ (do a ← from_atl computed; ok (a, record { tree_nodes = r.reads }))
]

unfoldable pub with_tree_nodes :
    {A : Type 0} → Connection → (bound : ℕ) → Walk A → MirrorResult (A × TreeReadCost)
unfolding run_walk
with_tree_nodes c bound f =
    let (computed, reader) = run_walk c bound f (record { failure = none; reads = 0 }) in
    conclude computed reader

module _ (d : Deps) where
  open d use {
    InclusionProof, ConsistencyProof, generate_inclusion_proof, generate_consistency_proof,
    compute_subtree_root, empty_root,
  }

  unfoldable pub inclusion_proof_raw :
      Connection → (leaf_index tree_size : ℕ) → MirrorResult InclusionProof
  inclusion_proof_raw c leaf_index tree_size = do
    (proof, cost) ← with_tree_nodes c tree_size (generate_inclusion_proof leaf_index tree_size)
    ok proof

  unfoldable pub subtree_root_raw : Connection → (offset size : ℕ) → MirrorResult Hash
  subtree_root_raw c offset size = do
    let bound = saturating_add offset size
    (root, cost) ← with_tree_nodes c bound (compute_subtree_root offset size)
    ok root

  unfoldable pub log_root_raw : Connection → ℕ → MirrorResult Hash
  log_root_raw c tree_size =
      if tree_size == 0 then ok empty_root else subtree_root_raw c 0 tree_size

  unfoldable pub consistency_proof_measured_raw :
      Connection → (from_size to_size : ℕ) → MirrorResult (ConsistencyProof × TreeReadCost)
  consistency_proof_measured_raw c from_size to_size = do
    have ← count_entries_raw c 0 to_size
    refuse_if (not (have == to_size)) (incomplete_entries have to_size)
    with_tree_nodes c to_size (generate_consistency_proof from_size to_size)

-- The loop of `require_subtree_cache_raw`, from `level` down to 1.
unfoldable pub require_blocks : Connection → (tree_size level offset : ℕ) → MirrorResult (Unit {0})
require_blocks c tree_size zero offset = ok tt
require_blocks c tree_size (suc below) offset =
    let level = suc below in
    let width = 2 ^ level in
    let skip = require_blocks c tree_size below offset in
    if (tree_size / width) % 2 == 0 then skip else do
      node_index ← ok_or (index_overflow "subtree cache block index") (checked_div offset width)
      found ← tree_node_raw c level node_index
      node ← ok_or (tree_material_missing level node_index) found
      next ← ok_or (index_overflow "subtree cache block offset") (checked_add offset width)
      require_blocks c tree_size below next

unfoldable pub require_subtree_cache_raw : Connection → ℕ → MirrorResult (Unit {0})
unfolding require_blocks
require_subtree_cache_raw c tree_size = require_blocks c tree_size max_subtree_level 0
