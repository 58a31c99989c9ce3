-- ===== src/Http/Series.antt =====
-- src/http.rs: range enumeration, and the routes of the checkpoint series.
use ahl_mirror.Prelude.{
  ℕ, Bytes, Text, Option, none, some, List, [], ◌∷◌, Bool, true, false, ◌==◌, leb, le_bytes,
  if◌then◌else◌, find_row, select,
}
use ahl_mirror.Error.{
  MirrorResult, ok, err, ok_or, refuse_if, unknown_checkpoint, checkpoint_not_series_usable,
  series_equivocated, ◌>>◌,
}
use ahl_mirror.Error
use ahl_mirror.Deps.{Deps}
use ahl_mirror.Config.{Config}
use ahl_mirror.Store.Schema.{Connection, Checkpoint}
use ahl_mirror.Store.Exec.{Exec, pure, lift, query, ◌>>=◌}
use ahl_mirror.Range.{RangeProofs, build_range_response}
use ahl_mirror.Series.Admit.{PendingPromotion, Admission, ingest_checkpoint}
use ahl_mirror.Series.View.{
  CheckpointState, series_usable, authenticated, ReportedCheckpoint, series_view,
}
use ahl_mirror.Http.Wire
use ahl_mirror.Http.Wire.{
  status_ok, status_created, Web, Response, AdmissionResponse, decode_base64_field,
}

pub record RangeRequest : Type 0 where
  pub tree_size : ℕ
  pub from_index : ℕ
  pub to_index : ℕ

pub record CheckpointIngestRequest : Type 0 where
  pub checkpoint : Checkpoint
  pub raw : Option Text
  pub entries_to_promote : List PendingPromotion
  pub rotation_for : Option ℕ

-- `if let Some(floor) = view.equivocation_floor { if tree_size >= floor { return Err(..) } }`
unfoldable pub below_floor : Option ℕ → ℕ → MirrorResult (Unit {0})
below_floor none tree_size = ok tt
below_floor (some floor) tree_size =
    refuse_if (leb floor tree_size) (series_equivocated tree_size floor)

-- `filter(|m| m.checkpoint.tree_size == tree_size)`
abbrev pub members_at : ℕ → List ReportedCheckpoint → List ReportedCheckpoint
members_at tree_size members = select (λ m. m.checkpoint.tree_size == tree_size) members

abbrev pub is_series_usable : CheckpointState → Bool
is_series_usable series_usable = true
is_series_usable authenticated = false

-- The choice among the candidates: there is none, one is usable, or none is.
unfoldable pub usable_candidate : ℕ → List ReportedCheckpoint → MirrorResult Checkpoint
usable_candidate tree_size [] = err (unknown_checkpoint tree_size)
usable_candidate tree_size (m ∷ ms) =
    elim (find_row (λ (r : ReportedCheckpoint). is_series_usable r.state) (m ∷ ms)) [
      | none ↦ err (checkpoint_not_series_usable tree_size)
      | some usable ↦ ok usable.checkpoint
    ]

-- `max_by` on `checkpoint_time`: the last of the greatest.
abbrev keep_later : ReportedCheckpoint → Option ReportedCheckpoint → ReportedCheckpoint
keep_later m none = m
keep_later m (some later) =
    if le_bytes m.checkpoint.checkpoint_time later.checkpoint.checkpoint_time then later else m

unfoldable pub latest : List ReportedCheckpoint → Option ReportedCheckpoint
latest [] = none
latest (m ∷ ms) = some (keep_later m (latest ms))

module _ (d : Deps) where
  unfoldable pub series_usable_checkpoint : Connection → Config d → ℕ → MirrorResult Checkpoint
  series_usable_checkpoint c config tree_size = Error.◌>>=◌ (series_view d c config) (λ view.
      below_floor view.equivocation_floor tree_size
      >> usable_candidate tree_size (members_at tree_size view.members))

  -- The closure of `get_checkpoint_handler`.
  unfoldable pub reported_checkpoint : Connection → Config d → ℕ → MirrorResult ReportedCheckpoint
  reported_checkpoint c config tree_size = Error.◌>>=◌ (series_view d c config) (λ view.
      below_floor view.equivocation_floor tree_size
      >> ok_or (unknown_checkpoint tree_size) (latest (members_at tree_size view.members)))

module _ (d : Deps) (proofs : RangeProofs) (web : Web d) (config : Config d) where
  unfoldable pub range_handler : RangeRequest → Exec (Response d proofs)
  range_handler req = do
    checkpoint ← query (λ c. series_usable_checkpoint d c config req.tree_size)
    response ← query (λ c. build_range_response d proofs c checkpoint req.from_index req.to_index)
    pure (record { status = status_ok; body = Wire.range response })

  -- `.map(..).transpose()`
  unfoldable pub raw_bytes : Option Text → MirrorResult (Option Bytes)
  raw_bytes none = ok none
  raw_bytes (some value) =
      Error.◌>>=◌ (decode_base64_field d web value "raw must be `base64:...`")
        (λ bytes. ok (some bytes))

  abbrev admission_response : Admission → AdmissionResponse d proofs
  admission_response value = record {
    series_member = value.series_member;
    rotation_anchors = value.rotation_anchors;
  }

  unfoldable pub checkpoint_ingest_handler : CheckpointIngestRequest → Exec (Response d proofs)
  checkpoint_ingest_handler req = do
    raw ← lift (raw_bytes req.raw)
    admission ←
        ingest_checkpoint d config req.checkpoint raw req.entries_to_promote req.rotation_for
    pure (record { status = status_created; body = Wire.admission (admission_response admission) })

  unfoldable pub list_checkpoints_handler : Exec (Response d proofs)
  list_checkpoints_handler = do
    view ← query (λ c. series_view d c config)
    pure (record { status = status_ok; body = Wire.checkpoints view.members })

  unfoldable pub get_checkpoint_handler : ℕ → Exec (Response d proofs)
  get_checkpoint_handler tree_size = do
    reported ← query (λ c. reported_checkpoint d c config tree_size)
    pure (record { status = status_ok; body = Wire.checkpoint reported })
