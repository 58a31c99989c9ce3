-- ===== src/Store/Migration/Migrated.antt =====
-- What the migration of src/store.rs makes of the stores that it meets.
use native.Mathlib.Nat.{le-div_iff_mul-le, div-mul-le_self, mul-le-mul_right}
use native.Mathlib.Decide.{dec_le}
use ahl_mirror.Prelude.{
  ℕ, zero, suc, ◌+◌, ◌*◌, ◌/◌, ◌^◌, ◌≤◌, ◌<◌, none, some, List, [], ◌∷◌, ◌≡◌, refl, sym, ap, ◌∙◌,
  arith, ◌⊎◌, inl, inr, map, length, find_row, Bool-cases, i64_max, u64_max, two_pow_pos,
  two_pow_suc, ◌==◌, ◌&&◌, Text,
}
use ahl_mirror.Error.{ok, is_ok}
use ahl_mirror.Deps.{Deps}
use ahl_mirror.Metadata.{log_leaf_hash}
use ahl_mirror.Store.Schema.{Connection, EntryRow, NodeRow}
use ahl_mirror.Store.Rows.{node_at}
use ahl_mirror.Store.Reads.{require_subtree_cache_raw}
use ahl_mirror.Store.Tree.{Numbered, DistinctIds, IdFree, Hashed, IsCached, IsValid}
use ahl_mirror.Store.Migration.{
  population, rebuild_subtree_cache, rebuild_subtree_cache_if_incomplete, migrate,
}
use ahl_mirror.Store.Migration.Rebuild.{fold_levels_lem}
use ahl_mirror.Store.Migration.Leaves.{leaf_hashes_range_raw-Hashed}
use ahl_mirror.Store.Migration.Backfill.{filled, backfill_leaf_hashes_lem}

half-le : (n w : ℕ) → 0 < w → 2 * (n / (w * 2)) ≤ n / w
half-le n w pos =
    let fits = div-mul-le_self n (w * 2) in
    (le-div_iff_mul-le {k = w} {x = 2 * (n / (w * 2))} {y = n} pos).1 (omega arith)

-- The sum over the levels never overflows, and is positive once a level has a node.
population_lem :
    (rounds w n expected : ℕ)
    → 0 < w
    → n ≤ i64_max
    → expected + 2 * (n / w) ≤ n
    → (total : ℕ) × (population rounds w n expected ≡ ok total)
      × (expected ≤ total)
      × (0 < rounds → w ≤ n → expected < total)
unfolding population
population_lem zero w n expected pos room small =
    (expected, refl, omega arith, λ some_left fits. absurd (omega arith))
population_lem (suc rounds) w n expected pos room small = elim (dec_le w n) [
  | no past ↦ (expected, ground arith, omega arith, λ some_left fits. absurd (omega arith))
  | yes fits ↦
      let least = (le-div_iff_mul-le {k = w} {x = 1} {y = n} pos).1 (omega arith) in
      elim (dec_le (w * 2) u64_max) [
        | no wide ↦ (expected + n / w, ground arith, omega arith, λ some_left fits. omega arith)
        | yes next ↦
            let half = half-le n w pos in
            let (total, run, more, positive) =
              population_lem rounds (w * 2) n (expected + n / w) (omega arith) room (omega arith) in
            (total, ground (arith, run), omega arith, λ some_left fits. omega arith)
      ]
]

module _ (d : Deps) where
  -- On gap-free rows with their leaf hashes, the rebuild succeeds from any cache, changes nothing else,
  -- and leaves the roots of the complete subtrees.
  pub rebuild_subtree_cache_lem :
      (c : Connection)
      → Numbered 0 c.entries
      → Hashed d c.entries
      → length c.entries ≤ i64_max
      → (roots : List NodeRow) × (rebuild_subtree_cache d (length c.entries) c
          ≡ (ok tt, record c { subtree_roots = roots }))
        × IsCached d c.entries roots
  unfolding rebuild_subtree_cache
  rebuild_subtree_cache_lem c n h room =
      let leaves = leaf_hashes_range_raw-Hashed d (record c { subtree_roots = [] }) n h room in
      let (roots, run, cached) =
        fold_levels_lem d c.entries 63 0 (length c.entries) (record c { subtree_roots = [] }) refl
          room (omega arith, omega arith)
          (record {
            have = λ level index below fits. absurd (omega arith);
            absent = λ level index below past. absurd (omega arith);
            above = λ level index beyond. unfold node_at in unfold find_row in refl;
          }) in
      (roots, ground (arith, leaves, run), cached)

  -- A valid cache is what the rebuild computes: node by node, the cache that promotions extended and
  -- the one that is rebuilt from the leaf hashes agree.
  pub rebuild_agrees :
      (c : Connection) (level index : ℕ)
      → IsValid d c
      → length c.entries ≤ i64_max
      → node_at (rebuild_subtree_cache d (length c.entries) c).1.subtree_roots (suc level) index
        ≡ node_at c.subtree_roots (suc level) index
  rebuild_agrees c level index v room =
      let (roots, run, cached) = rebuild_subtree_cache_lem c v.numbered v.hashed room in
      let after = ap (λ r. r.1.subtree_roots) run in
      ap (λ rows. node_at rows (suc level) index) after
      ∙ elim (dec_le (suc index * 2 ^ suc level) (length c.entries)) [
        | yes fits ↦ cached.have level index fits ∙ sym (v.cached.have level index fits)
        | no past ↦
            cached.absent level index (omega arith)
            ∙ sym (v.cached.absent level index (omega arith))
      ]

  -- The rows' leaf hashes, where there are any, are those of their envelopes.
  abbrev pub LeavesRight : List EntryRow → Type 0
  LeavesRight [] = Unit
  LeavesRight (row ∷ rows) =
      ((row.leaf_hash ≡ none) ⊎ (row.leaf_hash ≡ some (log_leaf_hash d row.envelope)))
      × LeavesRight rows

  filled-Hashed : (rows : List EntryRow) → LeavesRight rows → Hashed d (map (filled d) rows)
  filled-Hashed [] h = tt
  filled-Hashed (row ∷ rows) h = (ground (arith, h.0), filled-Hashed rows h.1)

  filled-Numbered :
      (start : ℕ) (rows : List EntryRow)
      → Numbered start rows
      → Numbered start (map (filled d) rows)
  filled-Numbered start [] n = tt
  filled-Numbered start (row ∷ rows) n = (ground (arith, n.0), filled-Numbered (suc start) rows n.1)

  filled-IdFree :
      (id : Text) (rows : List EntryRow) → IdFree id rows → IdFree id (map (filled d) rows)
  filled-IdFree id [] h = tt
  filled-IdFree id (row ∷ rows) h = (λ e. h.0 (ground (arith, e)), filled-IdFree id rows h.1)

  filled-DistinctIds : (rows : List EntryRow) → DistinctIds rows → DistinctIds (map (filled d) rows)
  filled-DistinctIds [] h = tt
  filled-DistinctIds (row ∷ rows) h =
      let same : (filled d row).entry_id ≡ row.entry_id = ground arith in
      (rw same (filled-IdFree row.entry_id rows h.0), filled-DistinctIds rows h.1)

  length-filled : (rows : List EntryRow) → length (map (filled d) rows) ≡ length rows
  length-filled [] = refl
  length-filled (row ∷ rows) = ap suc (length-filled rows)

  small_cache : (rows : List EntryRow) → length rows < 2 → IsCached d rows []
  small_cache rows few = record {
    have = λ level index fits.
        let wide = mul-le-mul_right {m = 1} {n = suc index} (2 ^ suc level) (omega arith) in
        absurd (omega (arith, two_pow_suc level, two_pow_pos level));
    absent = λ level index past. unfold node_at in unfold find_row in refl;
  }

  -- What the cache may be when the store is opened: empty, as before the table existed, or that of
  -- the entries.
  rebuild_if_incomplete_lem :
      (c : Connection)
      → Numbered 0 c.entries
      → Hashed d c.entries
      → length c.entries ≤ i64_max
      → (c.subtree_roots ≡ []) ⊎ IsCached d c.entries c.subtree_roots
      → (roots : List NodeRow) × (rebuild_subtree_cache_if_incomplete d c
          ≡ (ok tt, record c { subtree_roots = roots }))
        × IsCached d c.entries roots
  unfolding rebuild_subtree_cache_if_incomplete
  rebuild_if_incomplete_lem c n h room old =
      let half = div-mul-le_self (length c.entries) 2 in
      let (total, run, more, positive) =
        population_lem 63 2 (length c.entries) 0 (omega arith) room (omega arith) in
      let complete =
        length c.subtree_roots == total && is_ok (require_subtree_cache_raw c (length c.entries)) in
      elim (Bool-cases complete) [
        | inr broken ↦
            let (roots, rebuilt, cached) = rebuild_subtree_cache_lem c n h room in
            (roots, ground (arith, run, broken, rebuilt), cached)
        | inl whole ↦ (
          c.subtree_roots,
          ground (arith, run, whole),
          elim old [
            | inr cached ↦ cached
            | inl nothing ↦ elim (dec_le 2 (length c.entries)) [
              | no few ↦ rw nothing (small_cache c.entries (omega arith))
              | yes many ↦
                  let some_node = positive (omega arith) many in
                  absurd (ground (arith, whole, nothing, some_node))
            ]
          ],
        )
      ]

  -- Opening a store of gap-free entries with distinct ids, whose leaf hashes and cache are either not
  -- there yet or right: the migration returns without an error, the store is then valid, its entries
  -- are those it had with their log leaf hashes, and the other tables are as they were.
  pub migrate-IsValid :
      (c : Connection)
      → Numbered 0 c.entries
      → DistinctIds c.entries
      → LeavesRight c.entries
      → length c.entries ≤ i64_max
      → (c.subtree_roots ≡ []) ⊎ IsCached d (map (filled d) c.entries) c.subtree_roots
      → (roots : List NodeRow) × (migrate d c
          ≡ some (ok tt, record c { entries = map (filled d) c.entries; subtree_roots = roots }))
        × IsValid d (record c { entries = map (filled d) c.entries; subtree_roots = roots })
  unfolding migrate
  migrate-IsValid c n ids leaves room old =
      let c' = record c { entries = map (filled d) c.entries } in
      let numbered = filled-Numbered 0 c.entries n in
      let hashed = filled-Hashed c.entries leaves in
      let long = length-filled c.entries in
      let (roots, run, cached) = rebuild_if_incomplete_lem c' numbered hashed (omega arith) old in
      (
        roots,
        ground (arith, backfill_leaf_hashes_lem d c n, run),
        record {
          numbered = numbered;
          distinct = filled-DistinctIds c.entries ids;
          hashed = hashed;
          addressable = omega arith;
          cached = cached;
        },
      )
