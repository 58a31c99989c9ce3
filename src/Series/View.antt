-- ===== src/Series/View.antt =====
-- src/checkpoint.rs: the view of the series, and `ITUB`.
pub mod Bound
pub mod Equivocation
use ahl_mirror.Prelude.{
  ℕ, Option, none, some, List, [], ◌∷◌, ◌++◌, Bool, true, false, ◌&&◌, leb, ltb, if◌then◌else◌, map,
  find_row,
}
use ahl_mirror.Error.{MirrorResult, ok, err, ◌>>=◌}
use ahl_mirror.Deps.{Deps}
use ahl_mirror.Config.{Config}
use ahl_mirror.Store.Schema.{Connection, Checkpoint}
use ahl_mirror.Store.Rows.{order_by, at_most}
use ahl_mirror.Store.Checkpoints.{all_checkpoints, all_rotation_checkpoints}
use ahl_mirror.Series.Divergence.{find_root_divergences, minimum}
use ahl_mirror.Series.Usable.{series_usable_stored, is_storage_fault}
use ahl_mirror.Series.Frontier.{FrontierStop, compute_gap_free_frontier}

pub data CheckpointState : Type 0 where
  authenticated series_usable : CheckpointState

pub record ReportedCheckpoint : Type 0 where
  pub checkpoint : Checkpoint
  pub state : CheckpointState

pub record SeriesView : Type 0 where
  pub members : List ReportedCheckpoint
  pub gap_free_frontier : Option ℕ
  pub frontier_stop : Option FrontierStop
  pub root_divergences : List ℕ
  pub equivocation_floor : Option ℕ

-- The verdict on one member: a fault of the store is passed on, any other failure is `false`.
unfoldable pub judge : MirrorResult Bool → MirrorResult Bool
judge (ok usable) = ok usable
judge (err e) = if is_storage_fault e then err e else ok false

abbrev state_of : Bool → CheckpointState
state_of true = series_usable
state_of false = authenticated

abbrev next_usable : Bool → Checkpoint → Option Checkpoint → Option Checkpoint
next_usable true cp last_usable = some cp
next_usable false cp last_usable = last_usable

-- `.filter(|m| m.state == SeriesUsable).map(|m| m.checkpoint)`
unfoldable pub usable_of : List ReportedCheckpoint → List Checkpoint
usable_of [] = []
usable_of (record_of ∷ members) =
    let rest = usable_of members in
    elim record_of.state [ series_usable ↦ record_of.checkpoint ∷ rest | authenticated ↦ rest ]

module _ (d : Deps) where
  -- The loop that labels every member, with the last series-usable one before it.
  unfoldable pub label :
      Connection → Option Checkpoint → List Checkpoint → MirrorResult (List ReportedCheckpoint)
  label c last_usable [] = ok []
  label c last_usable (cp ∷ rest) = do
    usable ← judge (series_usable_stored d c cp last_usable)
    members ← label c (next_usable usable cp last_usable) rest
    ok (record { checkpoint = cp; state = state_of usable } ∷ members)

  -- Series members and rotation-anchoring checkpoints together, in order.
  unfoldable pub authenticated_checkpoints : Connection → List Checkpoint
  authenticated_checkpoints c =
      order_by at_most
        (all_checkpoints c ++ map (λ (row : ℕ × Checkpoint). row.1) (all_rotation_checkpoints c))

  unfoldable pub series_view : Connection → Config d → MirrorResult SeriesView
  series_view c config = do
    members ← label c none (all_checkpoints c)
    let root_divergences = find_root_divergences (authenticated_checkpoints c)
    let equivocation_floor = minimum root_divergences
    result ← compute_gap_free_frontier d c config (usable_of members) equivocation_floor
    ok (record {
      members = members;
      gap_free_frontier = result.frontier;
      frontier_stop = result.stop;
      root_divergences = root_divergences;
      equivocation_floor = equivocation_floor;
    })

unfoldable pub itub : SeriesView → ℕ → Option Checkpoint
itub view index = elim view.gap_free_frontier [
  | none ↦ none
  | some frontier ↦
      find_row (λ cp. ltb index cp.tree_size && leb cp.tree_size frontier) (usable_of view.members)
]
