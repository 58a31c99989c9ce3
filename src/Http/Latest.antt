-- ===== src/Http/Latest.antt =====
-- src/http.rs: the checkpoint that `get_checkpoint_handler` picks.
use ahl_mirror.Prelude.{
  ℕ, some, List, [], ◌∷◌, Bool, true, ◌==◌, ◌≡◌, ◌<◌, subst, sym, ◌⊎◌, arith, inl, inr, In,
  In-select, select-In, le_bytes, le_bytes_refl, le_bytes_trans, le_bytes_total, Option-cases,
  Bool-cases,
}
use ahl_mirror.Error.{ok, succeeds, ok_or-some, unknown_checkpoint}
use ahl_mirror.Deps.{Deps}
use ahl_mirror.Config.{Config}
use ahl_mirror.Store.Schema.{Connection}
use ahl_mirror.Series.View.{ReportedCheckpoint, SeriesView, series_view}
use ahl_mirror.Http.Series.{below_floor, members_at, latest, reported_checkpoint}
use ahl_mirror.Http.Usable.{below_floor_lem}

-- The times of two members, in order.
abbrev IsNotLater : ReportedCheckpoint → ReportedCheckpoint → Type 0
IsNotLater m r = le_bytes m.checkpoint.checkpoint_time r.checkpoint.checkpoint_time ≡ true

latest_cons :
    (n k l r : ReportedCheckpoint) (ns : List ReportedCheckpoint)
    → latest (n ∷ k ∷ ns) ≡ some r
    → latest (k ∷ ns) ≡ some l
    → (IsNotLater n r × (l ≡ r)) ⊎ (IsNotLater l r × (n ≡ r))
unfolding latest
latest_cons n k l r ns h e =
    elim (Bool-cases (le_bytes n.checkpoint.checkpoint_time l.checkpoint.checkpoint_time)) [
      | inl later ↦ let same : l ≡ r = ground (arith, e, later) in inl (rw same at later, same)
      | inr earlier ↦
          let same : n ≡ r = ground (arith, e, earlier) in
          let total =
            le_bytes_total n.checkpoint.checkpoint_time l.checkpoint.checkpoint_time earlier in
          inr (rw same at total, same)
    ]

latest_lem :
    (members : List ReportedCheckpoint) (r m : ReportedCheckpoint)
    → latest members ≡ some r
    → In m members
    → IsNotLater m r
unfolding latest
latest_lem [] r m h here = absurd here
latest_lem (n ∷ []) r m h (inl e) =
    let same : n ≡ r = cc in rw (sym e, same) (le_bytes_refl r.checkpoint.checkpoint_time)
latest_lem (n ∷ []) r m h (inr there) = absurd there
latest_lem (n ∷ k ∷ ns) r m h here = elim (Option-cases (latest (k ∷ ns))) [
  | inl e ↦ absurd (ground (arith, e))
  | inr (l, e) ↦ elim here [
    | inl same ↦ elim (latest_cons n k l r ns h e) [
      | inl (before, last) ↦ rw same at before
      | inr (before, first) ↦ rw (sym same, first) (le_bytes_refl r.checkpoint.checkpoint_time)
    ]
    | inr there ↦
        let older = latest_lem (k ∷ ns) l m e there in
        elim (latest_cons n k l r ns h e) [
          | inl (before, last) ↦ rw last at older
          | inr (before, first) ↦
              le_bytes_trans m.checkpoint.checkpoint_time l.checkpoint.checkpoint_time
                r.checkpoint.checkpoint_time older before
        ]
  ]
]

latest-In :
    (members : List ReportedCheckpoint) (r : ReportedCheckpoint)
    → latest members ≡ some r
    → In r members
unfolding latest
latest-In [] r h = cc
latest-In (n ∷ []) r h = inl cc
latest-In (n ∷ k ∷ ns) r h = elim (Option-cases (latest (k ∷ ns))) [
  | inl e ↦ absurd (ground (arith, e))
  | inr (l, e) ↦ elim (latest_cons n k l r ns h e) [
    | inl (before, last) ↦ inr (subst (λ t. In t (k ∷ ns)) last (latest-In (k ∷ ns) l e))
    | inr (before, first) ↦ inl first
  ]
]

module _ (d : Deps) where
  -- The checkpoint that the mirror reports for a size is a member of the view of that size, the latest
  -- of them, and the size lies below the equivocation floor, when there is one.
  pub reported_checkpoint_sound :
      (c : Connection) (config : Config d) (size : ℕ) (r : ReportedCheckpoint)
      → reported_checkpoint d c config size ≡ ok r
      → (view : SeriesView) × (series_view d c config ≡ ok view)
        × In r view.members
        × (r.checkpoint.tree_size ≡ size)
        × ((m : ReportedCheckpoint)
            → In m view.members
            → m.checkpoint.tree_size ≡ size
            → le_bytes m.checkpoint.checkpoint_time r.checkpoint.checkpoint_time ≡ true)
        × ((floor : ℕ) → view.equivocation_floor ≡ some floor → size < floor)
  unfolding reported_checkpoint
  reported_checkpoint_sound c config size r h =
      let (view, viewed, h) = succeeds (series_view d c config) h in
      let (passed, below, h) = succeeds (below_floor view.equivocation_floor size) h in
      let chosen = ok_or-some (unknown_checkpoint size) (latest (members_at size view.members)) h in
      let at_size : ReportedCheckpoint → Bool = λ m. m.checkpoint.tree_size == size in
      let (among, sized) = In-select at_size r view.members (latest-In _ r chosen) in
      (
        view,
        viewed,
        among,
        ground (arith, sized),
        λ m here same.
            latest_lem _ r m chosen (select-In at_size m view.members here (ground (arith, same))),
        below_floor_lem d view.equivocation_floor size below,
      )
