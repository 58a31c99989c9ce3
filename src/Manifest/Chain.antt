-- ===== src/Manifest/Chain.antt =====
-- The versions that the walk of src/manifest.rs collects form one chain.
use ahl_mirror.Prelude.{
  ◌∙◌, sym, ℕ, suc, ◌<◌, Bytes, none, some, List, [], ◌∷◌, ◌++◌, ++-nil, List-cases, ◌≡◌, arith,
  refl, ◌⊎◌, inl, inr,
}
use ahl_mirror.Error.{ok, Result-cases}
use ahl_mirror.Deps.{Deps}
use ahl_mirror.Config.{Config}
use ahl_mirror.Manifest.State.{GovernanceState}
use ahl_mirror.Manifest.Statements.{
  try_apply_genesis_lem, try_apply_manifest_lem, try_apply_key_lem, step_cases,
}
use ahl_mirror.Manifest.Walk.{
  try_apply_genesis, try_apply_manifest, try_apply_key, Progress, step, walk, start, versions,
  apply_manifest_entry, apply_key_entry, snapshot,
}

module _ (d : Deps) where
  abbrev Succeeds : GovernanceState d → GovernanceState d → Type 0
  Succeeds v w =
      (v.governing_manifest_entry_index < w.governing_manifest_entry_index)
      × (w.genesis_entry_index ≡ v.genesis_entry_index)
      × (w.cadence_epoch_nanos ≡ v.cadence_epoch_nanos)

  -- The versions stand in order, each after its predecessor, and the running state is the last of them
  -- up to its producer keys; all of them come from entries before `bound`.
  abbrev Chain : List (GovernanceState d) → GovernanceState d → (bound : ℕ) → Type 0
  Chain [] state bound = ⊥
  Chain (v ∷ []) state bound =
      (state.governing_manifest_entry_index ≡ v.governing_manifest_entry_index)
      × (state.genesis_entry_index ≡ v.genesis_entry_index)
      × (state.cadence_epoch_nanos ≡ v.cadence_epoch_nanos)
      × (v.governing_manifest_entry_index < bound)
  Chain (v ∷ w ∷ rest) state bound = Succeeds v w × Chain (w ∷ rest) state bound

  -- Each version succeeds the one before it.
  abbrev pub Linked : List (GovernanceState d) → Type 0
  Linked [] = Unit
  Linked (v ∷ []) = Unit
  Linked (v ∷ w ∷ rest) = Succeeds v w × Linked (w ∷ rest)

  Chain-below :
      (history : List (GovernanceState d)) (state : GovernanceState d) (bound : ℕ)
      → Chain history state bound
      → state.governing_manifest_entry_index < bound
  Chain-below [] state bound h = absurd h
  Chain-below (v ∷ []) state bound h = omega (arith, h)
  Chain-below (v ∷ w ∷ rest) state bound h = Chain-below (w ∷ rest) state bound h.1

  Chain-Linked :
      (history : List (GovernanceState d)) (state : GovernanceState d) (bound : ℕ)
      → Chain history state bound
      → Linked history
  Chain-Linked [] state bound h = absurd h
  Chain-Linked (v ∷ []) state bound h = tt
  Chain-Linked (v ∷ w ∷ rest) state bound h = (h.0, Chain-Linked (w ∷ rest) state bound h.1)

  Chain-append :
      (history : List (GovernanceState d)) (state next : GovernanceState d) (bound : ℕ)
      → Chain history state bound
      → next.governing_manifest_entry_index ≡ bound
      → next.genesis_entry_index ≡ state.genesis_entry_index
      → next.cadence_epoch_nanos ≡ state.cadence_epoch_nanos
      → Chain (history ++ next ∷ []) next (suc bound)
  Chain-append [] state next bound h i g e = absurd h
  Chain-append (v ∷ []) state next bound h i g e =
      ((omega (arith, h), g ∙ h.1, e ∙ h.2), (refl, refl, refl, omega arith))
  Chain-append (v ∷ w ∷ rest) state next bound h i g e =
      (h.0, Chain-append (w ∷ rest) state next bound h.1 i g e)

  Chain-keep :
      (history : List (GovernanceState d)) (state next : GovernanceState d) (bound : ℕ)
      → Chain history state bound
      → next.governing_manifest_entry_index ≡ state.governing_manifest_entry_index
      → next.genesis_entry_index ≡ state.genesis_entry_index
      → next.cadence_epoch_nanos ≡ state.cadence_epoch_nanos
      → Chain history next (suc bound)
  Chain-keep [] state next bound h i g e = absurd h
  Chain-keep (v ∷ []) state next bound h i g e = (i ∙ h.0, g ∙ h.1, e ∙ h.2, omega (arith, h))
  Chain-keep (v ∷ w ∷ rest) state next bound h i g e =
      (h.0, Chain-keep (w ∷ rest) state next bound h.1 i g e)

  -- What the walk keeps: nothing yet, or a chain that begins at the configured genesis.
  abbrev Begun : Config d → List (GovernanceState d) → Type 0
  Begun config [] = ⊥
  Begun config (v ∷ rest) =
      (v.governing_manifest_entry_id ≡ config.genesis_manifest_entry_id)
      × (v.governing_manifest_entry_index ≡ v.genesis_entry_index)

  Begun-append :
      (config : Config d) (history : List (GovernanceState d)) (next : GovernanceState d)
      → Begun config history
      → Begun config (history ++ next ∷ [])
  Begun-append config [] next h = absurd h
  Begun-append config (v ∷ rest) next h = h

  abbrev Kept : Config d → Progress d → ℕ → Type 0
  Kept config progress bound =
      ((progress.state ≡ none) × (progress.snapshots ≡ []))
      ⊎ ((state : GovernanceState d) × (progress.state ≡ some state)
          × Chain progress.snapshots state bound
          × Begun config progress.snapshots)

  Kept-later :
      (config : Config d) (progress : Progress d) (bound : ℕ)
      → Kept config progress bound
      → Kept config progress (suc bound)
  Kept-later config progress bound (inl k) = inl k
  Kept-later config progress bound (inr (state, running, chain, begun)) =
      inr (
        state,
        running,
        Chain-keep progress.snapshots state state bound chain refl refl refl,
        begun,
      )

  manifest_genesis-Kept :
      (config : Config d) (index : ℕ) (envelope payload : d.Value) (before after : Progress d)
      → apply_manifest_entry d config index envelope payload before ≡ ok after
      → before.state ≡ none
      → before.snapshots ≡ []
      → Kept config after (suc index)
  unfolding apply_manifest_entry snapshot try_apply_manifest
  manifest_genesis-Kept config index envelope payload before after h fresh nothing =
      elim (Result-cases (try_apply_genesis d envelope payload index config)) [
        | inr (e, failed) ↦ absurd (ground (arith, fresh, failed))
        | inl (none, tried) ↦
            inl (ground (arith, fresh, nothing, tried), ground (arith, fresh, nothing, tried))
        | inl (some state, tried) ↦
            let (at, genesis, id) =
              try_apply_genesis_lem d envelope payload index config state tried in
            let kept : after.snapshots ≡ state ∷ [] = ground (arith, fresh, nothing, tried) in
            inr (
              state,
              ground (arith, fresh, nothing, tried),
              rw kept (refl, refl, refl, omega arith),
              rw kept (id, at ∙ sym genesis),
            )
      ]

  manifest_successor-Kept :
      (config : Config d) (index : ℕ) (envelope payload : d.Value) (before after : Progress d)
      (current : GovernanceState d)
      → apply_manifest_entry d config index envelope payload before ≡ ok after
      → before.state ≡ some current
      → Chain before.snapshots current index
      → Begun config before.snapshots
      → Kept config after (suc index)
  unfolding apply_manifest_entry snapshot
  manifest_successor-Kept config index envelope payload before after current h running chain begun =
      elim (Result-cases (try_apply_manifest d (some current) envelope payload index config)) [
        | inr (e, failed) ↦ absurd (ground (arith, running, failed))
        | inl (state, tried) ↦
            elim (try_apply_manifest_lem d current envelope payload index config state tried) [
              | inl same ↦
                  let kept : after.snapshots ≡ before.snapshots ++ [] =
                    ground (arith, running, tried, same) in
                  let all : after.snapshots ≡ before.snapshots = kept ∙ ++-nil before.snapshots in
                  inr (
                    current,
                    ground (arith, running, tried, same),
                    rw all (Chain-keep before.snapshots current current index chain refl refl refl),
                    rw all begun,
                  )
              | inr (next, same, at, genesis, epoch) ↦
                  let below = Chain-below before.snapshots current index chain in
                  let kept : after.snapshots ≡ before.snapshots ++ next ∷ [] =
                    ground (arith, running, tried, same, at, below) in
                  inr (
                    next,
                    ground (arith, running, tried, same),
                    rw kept
                        (Chain-append before.snapshots current next index chain at genesis epoch),
                    rw kept (Begun-append config before.snapshots next begun),
                  )
            ]
      ]

  key-Kept :
      (config : Config d) (index : ℕ) (envelope payload : d.Value) (before after : Progress d)
      → apply_key_entry d index envelope payload before before.state ≡ ok after
      → Kept config before index
      → Kept config after (suc index)
  unfolding apply_key_entry
  key-Kept config index envelope payload before after h (inl (fresh, nothing)) =
      inl (ground (arith, fresh, nothing), ground (arith, fresh, nothing))
  key-Kept config index envelope payload before after h (inr (state, running, chain, begun)) =
      elim (Result-cases (try_apply_key d state envelope payload index)) [
        | inr (e, failed) ↦ absurd (ground (arith, running, failed))
        | inl (next, tried) ↦
            let (at, genesis, epoch) =
              try_apply_key_lem d state next envelope payload index tried in
            let kept : after.snapshots ≡ before.snapshots = ground (arith, running, tried) in
            inr (
              next,
              ground (arith, running, tried),
              rw kept (Chain-keep before.snapshots state next index chain at genesis epoch),
              rw kept begun,
            )
      ]

  step-Kept :
      (config : Config d) (index : ℕ) (bytes : Bytes) (before after : Progress d)
      → step d config index bytes before ≡ ok after
      → Kept config before index
      → Kept config after (suc index)
  step-Kept config index bytes before after h k =
      elim (step_cases d config index bytes before after h) [
        | inl same ↦ rw same (Kept-later config before index k)
        | inr (inl (envelope, payload, run)) ↦ elim k [
          | inl (fresh, nothing) ↦
              manifest_genesis-Kept config index envelope payload before after run fresh nothing
          | inr (state, running, chain, begun) ↦
              manifest_successor-Kept config index envelope payload before after state run running
                chain begun
        ]
        | inr (inr (envelope, payload, run)) ↦
            key-Kept config index envelope payload before after run k
      ]

  walk-Kept :
      (config : Config d) (index : ℕ) (entries : List Bytes) (before after : Progress d)
      → walk d config index entries before ≡ ok after
      → Kept config before index
      → (bound : ℕ) × Kept config after bound
  unfolding walk
  walk-Kept config index [] before after h k =
      let same : before ≡ after = ground arith in (index, rw same at k)
  walk-Kept config index (bytes ∷ entries) before after h k =
      elim (Result-cases (step d config index bytes before)) [
        | inr (e, failed) ↦ absurd (ground (arith, failed))
        | inl (next, stepped) ↦
            walk-Kept config (suc index) entries next after (ground (arith, stepped))
              (step-Kept config index bytes before next stepped k)
      ]

  -- The versions that a prefix of entries proves begin with the configured genesis manifest, which is
  -- its own genesis entry, and each one stands at a later entry than the one before it, with the same
  -- genesis entry and the same cadence epoch.
  pub versions-Linked :
      (entries : List Bytes) (config : Config d) (history : List (GovernanceState d))
      → versions d entries config ≡ ok history
      → Linked history
        × ((first : GovernanceState d) × (rest : List (GovernanceState d)) × (history
              ≡ first ∷ rest)
            × (first.governing_manifest_entry_id ≡ config.genesis_manifest_entry_id)
            × (first.governing_manifest_entry_index ≡ first.genesis_entry_index))
  unfolding versions
  versions-Linked entries config history h =
      elim (Result-cases (walk d config 0 entries (start d))) [
        | inr (e, failed) ↦ absurd (ground (arith, failed))
        | inl (progress, walked) ↦ elim (List-cases progress.snapshots) [
          | inl none_kept ↦ absurd (ground (arith, walked, none_kept))
          | inr (first, rest, kept) ↦
              let same : history ≡ first ∷ rest = ground (arith, walked, kept) in
              elim (walk-Kept config 0 entries (start d) progress walked (inl (refl, refl))).1 [
                | inl (fresh, nothing) ↦ absurd (cc)
                | inr (state, running, chain, begun) ↦
                    let linked = Chain-Linked progress.snapshots state _ chain in
                    let begins = rw kept at begun in
                    (rw (same ∙ sym kept) linked, (first, rest, same, begins.0, begins.1))
              ]
        ]
      ]
