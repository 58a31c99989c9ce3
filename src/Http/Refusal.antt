-- ===== src/Http/Refusal.antt =====
-- src/http.rs after an equivocation: what the routes refuse.
use ahl_mirror.Prelude.{
  ℕ, Text, sym, ap, ◌∙◌, none, some, ◌≡◌, ◌≢◌, ◌≤◌, ◌<◌, arith, inl, inr, Option, Option-cases,
}
use ahl_mirror.Error.{ok, Result-cases, ok-injective}
use ahl_mirror.Deps.{Deps}
use ahl_mirror.Config.{Config}
use ahl_mirror.Store.Schema.{Connection, Checkpoint}
use ahl_mirror.Store.Checkpoints.{get_rotation_checkpoint}
use ahl_mirror.Series.View.{ReportedCheckpoint, SeriesView, series_view}
use ahl_mirror.Series.View
use ahl_mirror.Series.View.Equivocation.{OnRecord, series_view_avoids_equivocation}
use ahl_mirror.Range.{RangeProofs}
use ahl_mirror.Http.Wire
use ahl_mirror.Http.Wire.{Web, Response, RotationProofElement, into_response, status_ok, status_of}
use ahl_mirror.Http.Series.{
  RangeRequest, series_usable_checkpoint, reported_checkpoint, range_handler,
  get_checkpoint_handler,
}
use ahl_mirror.Http.Proofs.{
  ConsistencyQuery, rotation_proof_element, rotation_proof_handler, itub_response, itub_handler,
  consistency_ends, consistency_handler,
}
use ahl_mirror.Http.Usable.{series_usable_checkpoint_sound}
use ahl_mirror.Http.Latest.{reported_checkpoint_sound}
use ahl_mirror.Http.Rotations.{rotation_proof_element_sound}
use ahl_mirror.Http.Router.{
  Request, range, get_checkpoint, consistency, rotation_proof, itub, handler, respond,
}

some-injective : {A : Type 0} {a b : A} → some a ≡ some b → a ≡ b
some-injective {a = a} h = ap (λ (o : Option _). elim o [ some v ↦ v | none ↦ a ]) h

module _ (d : Deps) (proofs : RangeProofs) (web : Web d) (config : Config d) where
  -- The status of the answer to a request.
  abbrev status_at : Connection → Request d → ℕ
  status_at c request = (respond d proofs web config request c).0.status

  range_served :
      (c : Connection) (req : RangeRequest)
      → status_at c (range req) ≡ status_ok
      → (cp : Checkpoint) × (series_usable_checkpoint d c config req.tree_size ≡ ok cp)
  unfolding respond handler range_handler into_response status_of
  range_served c req h = elim (Result-cases (series_usable_checkpoint d c config req.tree_size)) [
    | inr (e, failed) ↦ absurd (ground (arith, failed))
    | inl found ↦ found
  ]

  get_checkpoint_served :
      (c : Connection) (size : ℕ)
      → status_at c (get_checkpoint size) ≡ status_ok
      → (r : ReportedCheckpoint) × (reported_checkpoint d c config size ≡ ok r)
  unfolding respond handler get_checkpoint_handler into_response status_of
  get_checkpoint_served c size h = elim (Result-cases (reported_checkpoint d c config size)) [
    | inr (e, failed) ↦ absurd (ground (arith, failed))
    | inl found ↦ found
  ]

  consistency_served :
      (c : Connection) (q : ConsistencyQuery)
      → status_at c (consistency q) ≡ status_ok
      → (cp : Checkpoint) × (series_usable_checkpoint d c config q.to ≡ ok cp)
  unfolding respond handler consistency_handler consistency_ends into_response status_of
  consistency_served c q h = elim (Result-cases (series_usable_checkpoint d c config q.to)) [
    | inl found ↦ found
    | inr (e, failed) ↦ elim (Result-cases (series_usable_checkpoint d c config q.from)) [
      | inr (e, failed) ↦ absurd (ground (arith, failed))
      | inl (from, found) ↦ absurd (ground (arith, failed, found))
    ]
  ]

  rotation_proof_served :
      (c : Connection) (index : ℕ)
      → status_at c (rotation_proof index) ≡ status_ok
      → (element : RotationProofElement d proofs) × (rotation_proof_element d proofs config c index
          ≡ ok element)
  unfolding respond handler rotation_proof_handler into_response status_of
  rotation_proof_served c index h =
      elim (Result-cases (rotation_proof_element d proofs config c index)) [
        | inr (e, failed) ↦ absurd (ground (arith, failed))
        | inl served ↦ served
      ]

  itub_served :
      (c : Connection) (index : ℕ) (time : Text) (cp : Checkpoint)
      → (respond d proofs web config (itub index) c).0
        ≡ record { status = status_ok; body = Wire.itub index time cp }
      → (view : SeriesView) × (series_view d c config ≡ ok view) × (View.itub view index ≡ some cp)
  unfolding respond handler itub_handler itub_response into_response status_of
  itub_served c index time cp h = elim (Result-cases (series_view d c config)) [
    | inr (e, failed) ↦ absurd (ground (arith, failed))
    | inl (view, viewed) ↦ elim (Option-cases (View.itub view index)) [
      | inl undefined ↦ absurd (ground (arith, viewed, undefined))
      | inr (bound, defined) ↦ (view, viewed, defined ∙ ground (arith, viewed, defined))
    ]
  ]

  -- After an equivocation, two checkpoints on record with one size and different roots, no proof or
  -- checkpoint is served at or beyond that size: a range, a checkpoint, a consistency proof up to such
  -- a size, and a rotation proof under a checkpoint of such a size never get the status 200, and a
  -- bound that is served lies below it.
  pub equivocation_refused :
      (c : Connection) (x y : Checkpoint)
      → OnRecord c x
      → OnRecord c y
      → x.tree_size ≡ y.tree_size
      → x.root_hash ≢ y.root_hash
      → ((req : RangeRequest) → x.tree_size ≤ req.tree_size → status_at c (range req) ≢ status_ok)
        × ((size : ℕ) → x.tree_size ≤ size → status_at c (get_checkpoint size) ≢ status_ok)
        × ((q : ConsistencyQuery) → x.tree_size ≤ q.to → status_at c (consistency q) ≢ status_ok)
        × ((index : ℕ) (cp : Checkpoint)
            → get_rotation_checkpoint c index ≡ ok (some cp)
            → x.tree_size ≤ cp.tree_size
            → status_at c (rotation_proof index) ≢ status_ok)
        × ((index : ℕ) (time : Text) (cp : Checkpoint)
            → (respond d proofs web config (itub index) c).0
              ≡ record { status = status_ok; body = Wire.itub index time cp }
            → cp.tree_size < x.tree_size)
  equivocation_refused c x y hx hy same apart =
      let floored : (view : SeriesView)
          → series_view d c config ≡ ok view
          → (size : ℕ) → ((floor : ℕ) → view.equivocation_floor ≡ some floor → size < floor)
          → size < x.tree_size =
        λ view viewed size below.
          let ((floor, lowest, under), frontier, bounds) =
            series_view_avoids_equivocation d c config view x y viewed hx hy same apart in
          let least = below floor lowest in omega arith in
      (
        λ req wide h.
            let (cp, usable) = range_served c req h in
            let (in_series, size, held, matches, view, viewed, below) =
              series_usable_checkpoint_sound d c config req.tree_size cp usable in
            let under = floored view viewed req.tree_size below in omega arith,
        λ size wide h.
            let (r, reported) = get_checkpoint_served c size h in
            let (view, viewed, among, sized, newest, below) =
              reported_checkpoint_sound d c config size r reported in
            let under = floored view viewed size below in omega arith,
        λ q wide h.
            let (cp, usable) = consistency_served c q h in
            let (in_series, size, held, matches, view, viewed, below) =
              series_usable_checkpoint_sound d c config q.to cp usable in
            let under = floored view viewed q.to below in omega arith,
        λ index cp held wide h.
            let (element, served) = rotation_proof_served c index h in
            let (at_index, cp_held, whole, opens, view, viewed, below) =
              rotation_proof_element_sound d proofs config c index element served in
            let one : element.checkpoint ≡ cp =
              some-injective (ok-injective (sym cp_held ∙ held)) in
            let under = floored view viewed element.checkpoint.tree_size below in
            let sized : element.checkpoint.tree_size ≡ cp.tree_size = ap (λ k. k.tree_size) one in
            omega arith,
        λ index time cp h.
            let (view, viewed, bound) = itub_served c index time cp h in
            (series_view_avoids_equivocation d c config view x y viewed hx hy same apart).2 index cp
              bound,
      )
