-- ===== src/Series/Frontier.antt =====
-- src/checkpoint.rs: governance for a tree size, and the gap-free frontier of the usable members.
pub mod Reach
use ahl_mirror.Prelude.{
  ℕ, Option, none, some, List, [], ◌∷◌, Bool, true, false, ◌==◌, leb, ltb, length, checked_add,
  checked_sub,
}
use ahl_mirror.Error.{
  MirrorResult, ok, err, ok_or, index_overflow, governance_chain_unresolvable, ◌>>=◌,
}
use ahl_mirror.Deps.{Deps}
use ahl_mirror.Config.{Config}
use ahl_mirror.Store.Schema.{Connection, Checkpoint}
use ahl_mirror.Store.Reads.{get_entries_range_raw}
use ahl_mirror.Manifest.State.{GovernanceState}
use ahl_mirror.Manifest.Walk.{resolve}
use ahl_mirror.Series.Time.{parse_checkpoint_time}

pub data FrontierStop : Type 0 where
  no_valid_start : FrontierStop
  decreasing_time : (after_tree_size : ℕ) → FrontierStop
  cadence_exceeded : (after_tree_size : ℕ) → FrontierStop
  governance_unresolvable : (at_tree_size : ℕ) → FrontierStop
  equivocation : (at_tree_size : ℕ) → FrontierStop

pub record GapFreeResult : Type 0 where
  pub frontier : Option ℕ
  pub stop : Option FrontierStop

module _ (d : Deps) where
  -- An unresolvable chain is `None`, any other failure is passed on.
  unfoldable pub unresolved_as_none :
      MirrorResult (GovernanceState d) → MirrorResult (Option (GovernanceState d))
  unresolved_as_none (ok state) = ok (some state)
  unresolved_as_none (err (governance_chain_unresolvable size)) = ok none
  unresolved_as_none (err other) = err other

  unfoldable pub resolve_governance_for :
      Connection → Config d → ℕ → MirrorResult (Option (GovernanceState d))
  resolve_governance_for c config tree_size = do
    entries ← get_entries_range_raw c 0 tree_size
    elim (length entries == tree_size) [
      | false ↦ ok none
      | true ↦ unresolved_as_none (resolve d entries config)
    ]

  -- At or beyond the lowest divergent size.
  abbrev pub reaches : Option ℕ → ℕ → Bool
  reaches none size = false
  reaches (some floor) size = leb floor size

  abbrev pub equivocation_stop : Option ℕ → Option FrontierStop
  equivocation_stop none = none
  equivocation_stop (some floor) = some (equivocation floor)

  -- The loop over the members after the first; `prev` is the last one that the series reaches.
  unfoldable pub extend :
      Connection
      → Config d
      → Option ℕ
      → Checkpoint
      → ℕ
      → List Checkpoint
      → MirrorResult GapFreeResult
  extend c config floor prev prev_time [] =
      ok (record { frontier = some prev.tree_size; stop = equivocation_stop floor })
  extend c config floor prev prev_time (cp ∷ rest) = elim (reaches floor cp.tree_size) [
    | true ↦ ok (record { frontier = some prev.tree_size; stop = equivocation_stop floor })
    | false ↦ (do
      cp_time ← parse_checkpoint_time d cp.checkpoint_time
      elim (checked_sub cp_time prev_time) [
        | none ↦ ok (record {
          frontier = some prev.tree_size;
          stop = some (decreasing_time prev.tree_size);
        })
        | some delta ↦ (do
          prev_governance ← resolve_governance_for c config prev.tree_size
          elim prev_governance [
            | none ↦ ok (record {
              frontier = some prev.tree_size;
              stop = some (governance_unresolvable prev.tree_size);
            })
            | some governance ↦ elim (ltb governance.cadence_nanos delta) [
              | true ↦ ok (record {
                frontier = some prev.tree_size;
                stop = some (cadence_exceeded prev.tree_size);
              })
              | false ↦ extend c config floor cp cp_time rest
            ]
          ])
      ])
  ]

  abbrev stopped_at : FrontierStop → MirrorResult GapFreeResult
  stopped_at stop = ok (record { frontier = none; stop = some stop })

  abbrev is_some_and_at_most : Option ℕ → ℕ → Bool
  is_some_and_at_most none bound = false
  is_some_and_at_most (some since) bound = leb since bound

  -- The one start of the series: the first member, within the genesis version's window.
  unfoldable pub start_series :
      Connection
      → Config d
      → Option ℕ
      → Checkpoint
      → List Checkpoint
      → GovernanceState d
      → MirrorResult GapFreeResult
  start_series c config floor first rest first_governance = do
    genesis_tree_size ←
        ok_or (index_overflow "genesis_entry_index")
          (checked_add first_governance.genesis_entry_index 1)
    genesis_governance ← resolve_governance_for c config genesis_tree_size
    elim genesis_governance [
      | none ↦ stopped_at (governance_unresolvable genesis_tree_size)
      | some genesis ↦ (do
        first_time ← parse_checkpoint_time d first.checkpoint_time
        elim (is_some_and_at_most (checked_sub first_time genesis.cadence_epoch_nanos)
            genesis.cadence_nanos) [
              | false ↦ stopped_at no_valid_start
              | true ↦ extend c config floor first first_time rest
            ])
    ]

  unfoldable pub compute_gap_free_frontier :
      Connection → Config d → List Checkpoint → Option ℕ → MirrorResult GapFreeResult
  compute_gap_free_frontier c config [] floor =
      ok (record { frontier = none; stop = equivocation_stop floor })
  compute_gap_free_frontier c config (first ∷ rest) floor = elim (reaches floor first.tree_size) [
    | true ↦ ok (record { frontier = none; stop = equivocation_stop floor })
    | false ↦ (do
      first_governance ← resolve_governance_for c config first.tree_size
      elim first_governance [
        | none ↦ stopped_at (governance_unresolvable first.tree_size)
        | some governance ↦ start_series c config floor first rest governance
      ])
  ]
