-- ===== src/Http/Usable.antt =====
-- src/http.rs: what `series_usable_checkpoint` vouches for before a proof is served.
use ahl_mirror.Prelude.{
  ℕ, Option, none, some, List, [], ◌∷◌, Bool, true, false, ◌≡◌, ◌<◌, refl, ap, arith, inl, inr, In,
  In-select, find_row-In, find_row, Option-cases, ◌==◌,
}
use ahl_mirror.Error.{MirrorResult, ok, err, Result-cases}
use ahl_mirror.Deps.{Deps}
use ahl_mirror.Config.{Config}
use ahl_mirror.Store.Schema.{Connection, Checkpoint}
use ahl_mirror.Store.Checkpoints.{all_checkpoints}
use ahl_mirror.Series.Usable.{holds_prefix, root_matches_stored, series_usable_stored}
use ahl_mirror.Series.Frontier.{compute_gap_free_frontier}
use ahl_mirror.Series.View.{
  CheckpointState, series_usable, authenticated, ReportedCheckpoint, SeriesView, judge, label,
  series_view, usable_of, authenticated_checkpoints,
}
use ahl_mirror.Series.Divergence.{find_root_divergences, minimum}
use ahl_mirror.Http.Series.{
  below_floor, members_at, is_series_usable, usable_candidate, series_usable_checkpoint,
}

is_series_usable_lem : (s : CheckpointState) → is_series_usable s ≡ true → s ≡ series_usable
is_series_usable_lem series_usable h = refl
is_series_usable_lem authenticated h = cc

module _ (d : Deps) where
  series_usable_stored_lem :
      (c : Connection) (cp : Checkpoint) (pred : Option Checkpoint)
      → series_usable_stored d c cp pred ≡ ok true
      → (holds_prefix c cp.tree_size ≡ ok true) × (root_matches_stored d c cp ≡ ok true)
  unfolding series_usable_stored
  series_usable_stored_lem c cp pred h = elim (Result-cases (holds_prefix c cp.tree_size)) [
    | inr (e, failed) ↦ absurd (ground (arith, failed))
    | inl (false, held) ↦ absurd (ground (arith, held))
    | inl (true, held) ↦ elim (Result-cases (root_matches_stored d c cp)) [
      | inr (e, failed) ↦ absurd (ground (arith, held, failed))
      | inl (false, matches) ↦ absurd (ground (arith, held, matches))
      | inl (true, matches) ↦ (held, matches)
    ]
  ]

  judge_lem : (r : MirrorResult Bool) → judge r ≡ ok true → r ≡ ok true
  unfolding judge
  judge_lem (ok usable) h = h
  judge_lem (err e) h = absurd (ground arith)

  -- A member labelled series-usable stands in the list, its prefix is held, and its root is the log's.
  label_sound :
      (c : Connection) (last : Option Checkpoint) (cps : List Checkpoint)
      (members : List ReportedCheckpoint) (m : ReportedCheckpoint)
      → label d c last cps ≡ ok members
      → In m members
      → m.state ≡ series_usable
      → In m.checkpoint cps
        × (holds_prefix c m.checkpoint.tree_size ≡ ok true)
        × (root_matches_stored d c m.checkpoint ≡ ok true)
  unfolding label judge
  label_sound c last [] members m h here usable =
      let none_held : members ≡ [] = cc in absurd (rw none_held at here)
  label_sound c last (cp ∷ cps) members m h here usable =
      elim (Result-cases (judge (series_usable_stored d c cp last))) [
        | inr (e, failed) ↦ absurd (ground (arith, failed))
        | inl (true, judged) ↦ elim (Result-cases (label d c (some cp) cps)) [
          | inr (e, failed) ↦ absurd (ground (arith, judged, failed))
          | inl (rest, labelled) ↦
              let all : members ≡ record { checkpoint = cp; state = series_usable } ∷ rest =
                ground (arith, judged, labelled) in
              elim (rw all at here) [
                | inl e ↦
                    let same : cp ≡ m.checkpoint = ap (λ r. r.checkpoint) e in
                    let (held, matches) = series_usable_stored_lem c cp last (judge_lem _ judged) in
                    (inl same, rw same at held, rw same at matches)
                | inr there ↦
                    let (found, held, matches) =
                      label_sound c (some cp) cps rest m labelled there usable in
                    (inr found, held, matches)
              ]
        ]
        | inl (false, judged) ↦ elim (Result-cases (label d c last cps)) [
          | inr (e, failed) ↦ absurd (ground (arith, judged, failed))
          | inl (rest, labelled) ↦
              let all : members ≡ record { checkpoint = cp; state = authenticated } ∷ rest =
                ground (arith, judged, labelled) in
              elim (rw all at here) [
                | inl e ↦ absurd (let clash : authenticated ≡ m.state = ap (λ r. r.state) e in cc)
                | inr there ↦
                    let (found, held, matches) =
                      label_sound c last cps rest m labelled there usable in
                    (inr found, held, matches)
              ]
        ]
      ]

  -- The floor of the view, and where its series-usable members come from.
  series_view_lem :
      (c : Connection) (config : Config d) (view : SeriesView)
      → series_view d c config ≡ ok view
      → label d c none (all_checkpoints c) ≡ ok view.members
  unfolding series_view
  series_view_lem c config view h = elim (Result-cases (label d c none (all_checkpoints c))) [
    | inr (e, failed) ↦ absurd (ground (arith, failed))
    | inl (members, labelled) ↦
        let lowest = minimum (find_root_divergences (authenticated_checkpoints d c)) in
        elim (Result-cases (compute_gap_free_frontier d c config (usable_of members) lowest)) [
          | inr (e, failed) ↦ absurd (ground (arith, labelled, failed))
          | inl (result, computed) ↦ ground (arith, labelled, computed)
        ]
  ]

  pub below_floor_lem :
      (equivocation_floor : Option ℕ) (size : ℕ)
      → below_floor equivocation_floor size ≡ ok tt
      → (floor : ℕ) → equivocation_floor ≡ some floor
      → size < floor
  unfolding below_floor
  below_floor_lem none size h floor e = cc
  below_floor_lem (some f) size h floor e = ground arith

  usable_candidate_lem :
      (size : ℕ) (members : List ReportedCheckpoint) (cp : Checkpoint)
      → usable_candidate size members ≡ ok cp
      → (m : ReportedCheckpoint) × In m members × (m.checkpoint ≡ cp) × (m.state ≡ series_usable)
  unfolding usable_candidate
  usable_candidate_lem size [] cp h = absurd (ground arith)
  usable_candidate_lem size (n ∷ ns) cp h =
      let usable : ReportedCheckpoint → Bool = λ r. is_series_usable r.state in
      elim (Option-cases (find_row usable (n ∷ ns))) [
        | inl e ↦ absurd (ground (arith, e))
        | inr (m, e) ↦
            let (here, passes) = find_row-In usable m (n ∷ ns) e in
            (m, here, ground (arith, e), is_series_usable_lem m.state passes)
      ]

  -- The checkpoint that the range and consistency routes work from is a member of the series, of the
  -- size asked for; all its entries are held, and its root is that of the stored tree; and the size
  -- lies below the equivocation floor of the view, when there is one.
  pub series_usable_checkpoint_sound :
      (c : Connection) (config : Config d) (size : ℕ) (cp : Checkpoint)
      → series_usable_checkpoint d c config size ≡ ok cp
      → In cp (all_checkpoints c)
        × (cp.tree_size ≡ size)
        × (holds_prefix c size ≡ ok true)
        × (root_matches_stored d c cp ≡ ok true)
        × (view : SeriesView) × (series_view d c config ≡ ok view)
        × ((floor : ℕ) → view.equivocation_floor ≡ some floor → size < floor)
  unfolding series_usable_checkpoint
  series_usable_checkpoint_sound c config size cp h = elim (Result-cases (series_view d c config)) [
    | inr (e, failed) ↦ absurd (ground (arith, failed))
    | inl (view, viewed) ↦ elim (Result-cases (below_floor view.equivocation_floor size)) [
      | inr (e, failed) ↦ absurd (ground (arith, viewed, failed))
      | inl (passed, below) ↦
          let chosen : usable_candidate size (members_at size view.members) ≡ ok cp =
            ground (arith, viewed, below) in
          let (m, among, same, usable) = usable_candidate_lem size _ cp chosen in
          let (here, sized) =
            In-select (λ r. r.checkpoint.tree_size == size) m view.members among in
          let (found, held, matches) =
            label_sound c none _ view.members m (series_view_lem c config view viewed) here
              usable in
          let e : m.checkpoint.tree_size ≡ size = ground arith in
          (
            rw same at found,
            rw same at e,
            rw e at held,
            rw same at matches,
            view,
            viewed,
            below_floor_lem view.equivocation_floor size below,
          )
    ]
  ]
