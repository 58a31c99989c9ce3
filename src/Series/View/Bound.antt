-- ===== src/Series/View/Bound.antt =====
-- What `itub` of src/checkpoint.rs promises of the bound that it returns.
use ahl_mirror.Prelude.{
  ℕ, none, some, List, [], ◌∷◌, Bool, true, false, ◌&&◌, ◌≡◌, ◌≤◌, ◌<◌, leb, ltb, arith, refl, ◌⊎◌,
  inl, inr, Option-cases, find_row, Bool-cases, map, Option, sym,
}
use ahl_mirror.Error.{ok, ok-injective, succeeds}
use ahl_mirror.Deps.{Deps}
use ahl_mirror.Config.{Config}
use ahl_mirror.Store.Schema.{Connection, Checkpoint}
use ahl_mirror.Store.Rows.{at_most}
use ahl_mirror.Store.Checkpoints.{all_checkpoints}
use ahl_mirror.Store.Checkpoints.Order.{InOrder, order_by-InOrder, at_most_refl, at_most_trans}
use ahl_mirror.Series.Divergence.{find_root_divergences, minimum}
use ahl_mirror.Series.Usable.{series_usable_stored}
use ahl_mirror.Series.Frontier.{compute_gap_free_frontier}
use ahl_mirror.Series.View.{
  judge, label, authenticated_checkpoints, next_usable, series_view, CheckpointState, series_usable,
  authenticated, ReportedCheckpoint, SeriesView, usable_of, itub,
}

-- The checkpoint is a member of the view that is labelled series-usable.
abbrev pub UsableIn : Checkpoint → List ReportedCheckpoint → Type 0
UsableIn cp [] = ⊥
UsableIn cp (member ∷ members) =
    ((member.checkpoint ≡ cp) × (member.state ≡ series_usable)) ⊎ UsableIn cp members

State-cases : (s : CheckpointState) → (s ≡ series_usable) ⊎ (s ≡ authenticated)
State-cases series_usable = inl refl
State-cases authenticated = inr refl

usable_lem :
    (p : Checkpoint → Bool) (members : List ReportedCheckpoint) (cp : Checkpoint)
    → find_row p (usable_of members) ≡ some cp
    → (p cp ≡ true) × UsableIn cp members
unfolding usable_of find_row
usable_lem p [] cp h = cc
usable_lem p (member ∷ members) cp h = elim (State-cases member.state) [
  | inr e ↦ let rest = usable_lem p members cp (ground (arith, e)) in (rest.0, inr rest.1)
  | inl e ↦ elim (Bool-cases (p member.checkpoint)) [
    | inl here ↦
        let same : member.checkpoint ≡ cp = ground (arith, e, here) in
        (rw same at here, inl (same, e))
    | inr past ↦
        let rest = usable_lem p members cp (ground (arith, e, past)) in (rest.0, inr rest.1)
  ]
]

usable_none :
    (p : Checkpoint → Bool) (members : List ReportedCheckpoint) (cp : Checkpoint)
    → find_row p (usable_of members) ≡ none
    → UsableIn cp members
    → p cp ≡ false
unfolding usable_of find_row
usable_none p [] cp h u = absurd u
usable_none p (member ∷ members) cp h (inl (same, usable)) =
    let fails : p member.checkpoint ≡ false = ground (arith, usable) in rw same at fails
usable_none p (member ∷ members) cp h (inr u) =
    usable_none p members cp
      (elim (State-cases member.state) [ inr e ↦ ground (arith, e) | inl e ↦ ground (arith, e) ]) u

-- A view in order: of two members, the one that stands first is at most the other.
head_least :
    (member : ReportedCheckpoint) (members : List ReportedCheckpoint) (other : Checkpoint)
    → InOrder (map (λ (m : ReportedCheckpoint). m.checkpoint) (member ∷ members))
    → UsableIn other members
    → at_most member.checkpoint other ≡ true
head_least member [] other s u = absurd u
head_least member (next ∷ members) other s (inl (same, usable)) = rw same at s.0
head_least member (next ∷ members) other s (inr u) =
    at_most_trans member.checkpoint next.checkpoint other s.0 (head_least next members other s.1 u)

InOrder-tail :
    (member : ReportedCheckpoint) (members : List ReportedCheckpoint)
    → InOrder (map (λ (m : ReportedCheckpoint). m.checkpoint) (member ∷ members))
    → InOrder (map (λ (m : ReportedCheckpoint). m.checkpoint) members)
InOrder-tail member [] s = tt
InOrder-tail member (next ∷ members) s = s.1

-- The first usable member that meets a test is at most every usable member that meets it.
usable_least :
    (p : Checkpoint → Bool) (members : List ReportedCheckpoint) (cp other : Checkpoint)
    → InOrder (map (λ (m : ReportedCheckpoint). m.checkpoint) members)
    → find_row p (usable_of members) ≡ some cp
    → UsableIn other members
    → p other ≡ true
    → at_most cp other ≡ true
unfolding usable_of find_row
usable_least p [] cp other s h u q = absurd u
usable_least p (member ∷ members) cp other s h (inl (same, usable)) q =
    let here : p member.checkpoint ≡ true = rw same q in
    let found : member.checkpoint ≡ cp = ground (arith, usable, here) in
    rw (sym found, same) (at_most_refl other)
usable_least p (member ∷ members) cp other s h (inr u) q =
    let later = usable_least p members cp other (InOrder-tail member members s) in
    elim (State-cases member.state) [
      | inr e ↦ later (ground (arith, e)) u q
      | inl e ↦ elim (Bool-cases (p member.checkpoint)) [
        | inl here ↦
            let found : member.checkpoint ≡ cp = ground (arith, e, here) in
            rw (sym found) (head_least member members other s u)
        | inr past ↦ later (ground (arith, e, past)) u q
      ]
    ]

-- A bound that `itub` returns is sound: it is a series-usable member of the view, its tree contains
-- the entry, and the gap-free frontier covers it. When the view has a frontier and there is no bound,
-- no series-usable member covered by the frontier contains the entry.
pub itub_lem :
    (view : SeriesView) (index : ℕ)
    → ((cp : Checkpoint)
        → itub view index ≡ some cp
        → (frontier : ℕ) × (view.gap_free_frontier ≡ some frontier)
          × (index < cp.tree_size)
          × (cp.tree_size ≤ frontier)
          × UsableIn cp view.members)
      × ((frontier : ℕ) (cp : Checkpoint)
          → itub view index ≡ none
          → view.gap_free_frontier ≡ some frontier
          → UsableIn cp view.members
          → cp.tree_size ≤ frontier
          → cp.tree_size ≤ index)
unfolding itub
itub_lem view index = (
  λ cp h. elim (Option-cases view.gap_free_frontier) [
    | inl e ↦ absurd (ground (arith, e))
    | inr (frontier, e) ↦
        let test : Checkpoint → Bool = λ cp. ltb index cp.tree_size && leb cp.tree_size frontier in
        let (holds, usable) = usable_lem test view.members cp (ground (arith, e)) in
        (frontier, e, ground (arith, holds), ground (arith, holds), usable)
  ],
  λ frontier cp h e usable covered.
      let test : Checkpoint → Bool = λ cp. ltb index cp.tree_size && leb cp.tree_size frontier in
      let fails = usable_none test view.members cp (ground (arith, e)) usable in
      ground (arith, fails),
)

itub_least :
    (view : SeriesView) (index frontier : ℕ) (cp other : Checkpoint)
    → InOrder (map (λ (m : ReportedCheckpoint). m.checkpoint) view.members)
    → view.gap_free_frontier ≡ some frontier
    → itub view index ≡ some cp
    → UsableIn other view.members
    → index < other.tree_size
    → other.tree_size ≤ frontier
    → at_most cp other ≡ true
unfolding itub
itub_least view index frontier cp other ordered e found u above below =
    let test : Checkpoint → Bool = λ cp. ltb index cp.tree_size && leb cp.tree_size frontier in
    usable_least test view.members cp other ordered (ground (arith, e)) u (ground arith)

module _ (d : Deps) where
  label-checkpoints :
      (c : Connection) (cps : List Checkpoint) (last_usable : Option Checkpoint)
      (members : List ReportedCheckpoint)
      → label d c last_usable cps ≡ ok members
      → map (λ (m : ReportedCheckpoint). m.checkpoint) members ≡ cps
  unfolding label
  label-checkpoints c [] last_usable members h =
      let same : members ≡ [] = ground arith in rw same refl
  label-checkpoints c (cp ∷ cps) last_usable members h =
      let (usable, judged, h1) = succeeds (judge (series_usable_stored d c cp last_usable)) h in
      let (rest, labelled, h2) = succeeds (label d c (next_usable usable cp last_usable) cps) h1 in
      let same = ok-injective h2 in
      rw (sym same, label-checkpoints c cps (next_usable usable cp last_usable) rest labelled) refl

  series_view-checkpoints :
      (c : Connection) (config : Config d) (view : SeriesView)
      → series_view d c config ≡ ok view
      → map (λ (m : ReportedCheckpoint). m.checkpoint) view.members ≡ all_checkpoints c
  unfolding series_view
  series_view-checkpoints c config view h =
      let (members, labelled, h1) = succeeds (label d c none (all_checkpoints c)) h in
      let lowest = minimum (find_root_divergences (authenticated_checkpoints d c)) in
      let (result, computed, h2) =
        succeeds (compute_gap_free_frontier d c config (usable_of members) lowest) h1 in
      let same = ok-injective h2 in
      rw (sym same) (label-checkpoints c (all_checkpoints c) none members labelled)

  -- The bound that `itub` returns in the view of a store is the one that governs: a series-usable
  -- member of the view whose tree contains the entry and that the frontier covers, and the first of
  -- those in the order of the series, so that every other one has a larger size, or the same size and
  -- a time at least as late. When there is such a member, there is a bound. The members of the view
  -- are the stored series in that order.
  pub itub-series_view :
      (c : Connection) (config : Config d) (view : SeriesView) (index : ℕ)
      → series_view d c config ≡ ok view
      → (map (λ (m : ReportedCheckpoint). m.checkpoint) view.members ≡ all_checkpoints c)
        × ((cp : Checkpoint)
            → itub view index ≡ some cp
            → (frontier : ℕ) × (view.gap_free_frontier ≡ some frontier)
              × (index < cp.tree_size)
              × (cp.tree_size ≤ frontier)
              × UsableIn cp view.members
              × ((other : Checkpoint)
                  → UsableIn other view.members
                  → index < other.tree_size
                  → other.tree_size ≤ frontier
                  → at_most cp other ≡ true))
        × ((frontier : ℕ) (other : Checkpoint)
            → view.gap_free_frontier ≡ some frontier
            → UsableIn other view.members
            → index < other.tree_size
            → other.tree_size ≤ frontier
            → (cp : Checkpoint) × (itub view index ≡ some cp))
  itub-series_view c config view index h =
      let stored = series_view-checkpoints c config view h in
      let ordered : InOrder (all_checkpoints c) = unfold all_checkpoints in order_by-InOrder _ in
      let (sound, complete) = itub_lem view index in
      (
        stored,
        λ cp found.
            let (frontier, e, inside, covered, usable) = sound cp found in
            (
              frontier,
              e,
              inside,
              covered,
              usable,
              λ other u above below.
                  itub_least view index frontier cp other (rw (sym stored) at ordered) e found u
                    above below,
            ),
        λ frontier other e u above below. elim (Option-cases (itub view index)) [
          | inr (cp, found) ↦ (cp, found)
          | inl nothing ↦
              let short = complete frontier other nothing e u below in absurd (omega arith)
        ],
      )
