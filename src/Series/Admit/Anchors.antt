-- ===== src/Series/Admit/Anchors.antt =====
-- Which rotations a checkpoint anchors, `rotation_anchors_for` of src/checkpoint.rs.
use ahl_mirror.Prelude.{
  ◌==◌, ◌∙◌, String, ℕ, Bytes, Option, none, some, List, [], ◌∷◌, ◌++◌, true, ◌≡◌, ◌<◌, arith, refl,
  ap, sym, ◌⊎◌, inl, inr, In, Bool-cases,
}
use ahl_mirror.Error.{ok, Result-cases}
use ahl_mirror.Deps.{Deps}
use ahl_mirror.Config.{Config}
use ahl_mirror.Store.Schema.{Checkpoint}
use ahl_mirror.Manifest.State.{GovernanceState, rotates}
use ahl_mirror.Series.Admit.{
  Rotation, rotations_in, verifies_under, disqualified, Anchoring, collect_one, collect_anchors,
  contains_index, report_named, rotation_anchors_for,
}

module _ (d : Deps) where
  -- `outgoing` stands directly before `incoming`.
  abbrev pub Adjacent : GovernanceState d → GovernanceState d → List (GovernanceState d) → Type 0
  Adjacent outgoing incoming [] = ⊥
  Adjacent outgoing incoming (v ∷ []) = ⊥
  Adjacent outgoing incoming (v ∷ w ∷ rest) =
      ((v ≡ outgoing) × (w ≡ incoming)) ⊎ Adjacent outgoing incoming (w ∷ rest)

  rotations_in_lem :
      (history : List (GovernanceState d)) (rotation : Rotation d)
      → In rotation (rotations_in d history)
      → (incoming : GovernanceState d) × Adjacent rotation.outgoing incoming history
        × (rotates d incoming rotation.outgoing ≡ true)
        × (rotation.manifest_entry_index ≡ incoming.governing_manifest_entry_index)
  unfolding rotations_in
  rotations_in_lem [] rotation h = absurd h
  rotations_in_lem (v ∷ []) rotation h = absurd h
  rotations_in_lem (v ∷ w ∷ rest) rotation h = elim (Bool-cases (rotates d w v)) [
    | inr e ↦
        let (incoming, adjacent, rotated, at) =
          rotations_in_lem (w ∷ rest) rotation (rw (rotations_in, e) at h) in
        (incoming, inr adjacent, rotated, at)
    | inl e ↦ elim (rw (rotations_in, e) at h) [
      | inl same ↦
          let before = ap (λ r. r.outgoing) same in
          (w, inl (before, refl), rw before at e, ap (λ r. r.manifest_entry_index) (sym same))
      | inr later ↦
          let (incoming, adjacent, rotated, at) = rotations_in_lem (w ∷ rest) rotation later in
          (incoming, inr adjacent, rotated, at)
    ]
  ]

  -- The rotation is anchored by the checkpoint: the checkpoint's tree contains the rotating manifest,
  -- and it verifies under a log key of the version before it.
  abbrev pub Anchored : Config d → Checkpoint → Option Bytes → List (Rotation d) → ℕ → Type 0
  Anchored config cp raw rotations index =
      (rotation : Rotation d) × In rotation rotations
      × (rotation.manifest_entry_index ≡ index)
      × (index < cp.tree_size)
      × (verifies_under d rotation.outgoing config cp raw ≡ ok tt)

  Anchored-later :
      (config : Config d) (cp : Checkpoint) (raw : Option Bytes) (rotation : Rotation d)
      (rotations : List (Rotation d)) (index : ℕ)
      → Anchored config cp raw rotations index
      → Anchored config cp raw (rotation ∷ rotations) index
  Anchored-later config cp raw rotation rotations index (found, inside, at, below, verifies) =
      (found, inr inside, at, below, verifies)

  qualified_lem :
      (config : Config d) (cp : Checkpoint) (raw : Option Bytes) (rotation : Rotation d)
      → disqualified d rotation config cp raw ≡ none
      → (rotation.manifest_entry_index < cp.tree_size)
        × (verifies_under d rotation.outgoing config cp raw ≡ ok tt)
  unfolding disqualified
  qualified_lem config cp raw rotation h =
      elim (Result-cases (verifies_under d rotation.outgoing config cp raw)) [
        | inl (done, verifies) ↦ (ground (arith, verifies), verifies)
        | inr (e, failed) ↦ absurd (ground (arith, failed))
      ]

  contains_index-In : (x : ℕ) (xs : List ℕ) → contains_index d x xs ≡ true → In x xs
  unfolding contains_index
  contains_index-In x [] h = cc
  contains_index-In x (y ∷ xs) h = elim (Bool-cases (y == x)) [
    | inl e ↦ inl (ground arith)
    | inr e ↦ inr (contains_index-In x xs (ground (arith, e)))
  ]

  In-snoc : (x y : ℕ) (xs : List ℕ) → In x (xs ++ y ∷ []) → In x xs ⊎ (y ≡ x)
  In-snoc x y [] (inl e) = inr e
  In-snoc x y [] (inr h) = absurd h
  In-snoc x y (z ∷ xs) (inl e) = inl (inl e)
  In-snoc x y (z ∷ xs) (inr h) = elim (In-snoc x y xs h) [ inl k ↦ inl (inr k) | inr e ↦ inr e ]

  collect_one_lem :
      (config : Config d) (cp : Checkpoint) (raw : Option Bytes) (named : Option ℕ)
      (rotation : Rotation d) (rotations : List (Rotation d)) (found : Anchoring d) (index : ℕ)
      (verdict : Option String)
      → disqualified d rotation config cp raw ≡ verdict
      → In index (collect_one d named rotation.manifest_entry_index verdict found).anchored
      → In index found.anchored ⊎ Anchored config cp raw (rotation ∷ rotations) index
  collect_one_lem config cp raw named rotation rotations found index none e h =
      let (below, verifies) = qualified_lem config cp raw rotation e in
      elim (In-snoc index rotation.manifest_entry_index found.anchored h) [
        | inl k ↦ inl k
        | inr at ↦ inr (rotation, inl refl, at, rw at at below, verifies)
      ]
  collect_one_lem config cp raw named rotation rotations found index (some reason) e h =
      let same : (collect_one d named rotation.manifest_entry_index (some reason) found).anchored
          ≡ found.anchored =
        ground arith in
      inl (rw same at h)

  collect_lem :
      (config : Config d) (cp : Checkpoint) (raw : Option Bytes) (named : Option ℕ)
      (rotations : List (Rotation d)) (found : Anchoring d) (index : ℕ)
      → In index (collect_anchors d config cp raw named rotations found).anchored
      → In index found.anchored ⊎ Anchored config cp raw rotations index
  unfolding collect_anchors
  collect_lem config cp raw named [] found index h = inl h
  collect_lem config cp raw named (rotation ∷ rotations) found index h =
      let verdict = disqualified d rotation config cp raw in
      elim (collect_lem config cp raw named rotations
        (collect_one d named rotation.manifest_entry_index verdict found) index h) [
          | inl k ↦
              collect_one_lem config cp raw named rotation rotations found index verdict refl k
          | inr anchored ↦ inr (Anchored-later config cp raw rotation rotations index anchored)
        ]

  -- Every rotation that a checkpoint is recorded for is one of the governance history: a version whose
  -- log or witness keys differ from those of the version directly before it. The checkpoint's tree
  -- contains that version's manifest, and the checkpoint verifies under a log key of the version
  -- before it. A rotation that the submission names is among them.
  pub rotation_anchors_for_sound :
      (history : List (GovernanceState d)) (config : Config d) (cp : Checkpoint)
      (raw : Option Bytes) (named : Option ℕ) (anchors : List ℕ)
      → rotation_anchors_for d history config cp raw named ≡ ok anchors
      → ((index : ℕ)
          → In index anchors
          → (outgoing incoming : GovernanceState d) × Adjacent outgoing incoming history
            × (rotates d incoming outgoing ≡ true)
            × (incoming.governing_manifest_entry_index ≡ index)
            × (index < cp.tree_size)
            × (verifies_under d outgoing config cp raw ≡ ok tt))
        × ((index : ℕ) → named ≡ some index → In index anchors)
  unfolding rotation_anchors_for report_named
  rotation_anchors_for_sound history config cp raw named anchors h =
      let rotations = rotations_in d history in
      let first : Anchoring d = record { anchored = []; named_failure = none } in
      let collected = collect_anchors d config cp raw named rotations first in
      let same : collected.anchored ≡ anchors = ground arith in
      (
        λ index inside.
            elim (collect_lem config cp raw named rotations first index (rw (sym same) at inside)) [
              | inl nothing ↦ absurd nothing
              | inr (rotation, among, at, below, verifies) ↦
                  let (incoming, adjacent, rotated, stands) =
                    rotations_in_lem history rotation among in
                  (rotation.outgoing, incoming, adjacent, rotated, sym stands ∙ at, below, verifies)
            ],
        λ index e.
            let listed : contains_index d index anchors ≡ true = ground (arith, e, same) in
            contains_index-In index anchors listed,
      )
