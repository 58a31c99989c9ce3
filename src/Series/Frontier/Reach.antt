-- ===== src/Series/Frontier/Reach.antt =====
-- What a gap-free frontier of src/checkpoint.rs rests on: an unbroken run of members from the start.
use ahl_mirror.Prelude.{
  ℕ, Option, none, some, List, [], ◌∷◌, false, ◌≡◌, ◌≤◌, ◌-◌, ◌+◌, ltb, leb, arith, refl, ◌⊎◌, inl,
  inr, checked_sub, Bool-cases, Option-cases,
}
use ahl_mirror.Error.{ok, Result-cases}
use ahl_mirror.Deps.{Deps}
use ahl_mirror.Config.{Config}
use ahl_mirror.Store.Schema.{Connection, Checkpoint}
use ahl_mirror.Manifest.State.{GovernanceState}
use ahl_mirror.Series.Time.{parse_checkpoint_time}
use ahl_mirror.Series.Frontier.{
  GapFreeResult, reaches, resolve_governance_for, extend, start_series, compute_gap_free_frontier,
}

module _ (d : Deps) (c : Connection) (config : Config d) (floor : Option ℕ) where
  -- `frontier` is the size of `prev`, whose time is `prev_time`, or of a later member that one reaches
  -- from it: each step goes to the next member, which lies below the floor, and whose time is not
  -- earlier and at most the cadence in force at `prev` later.
  abbrev pub Reached :
      (prev : Checkpoint) (prev_time : ℕ) → List Checkpoint → (frontier : ℕ) → Type 0
  Reached prev prev_time [] frontier = frontier ≡ prev.tree_size
  Reached prev prev_time (cp ∷ rest) frontier =
      (frontier ≡ prev.tree_size)
      ⊎ ((cp_time : ℕ) × (governance : GovernanceState d) × (reaches d floor cp.tree_size ≡ false)
          × (parse_checkpoint_time d cp.checkpoint_time ≡ ok cp_time)
          × (resolve_governance_for d c config prev.tree_size ≡ ok (some governance))
          × (prev_time ≤ cp_time)
          × (cp_time - prev_time ≤ governance.cadence_nanos)
          × Reached cp cp_time rest frontier)

  extend_lem :
      (prev : Checkpoint) (prev_time : ℕ) (rest : List Checkpoint) (result : GapFreeResult)
      (frontier : ℕ)
      → extend d c config floor prev prev_time rest ≡ ok result
      → result.frontier ≡ some frontier
      → Reached prev prev_time rest frontier
  unfolding extend
  extend_lem prev prev_time [] result frontier h f = ground arith
  extend_lem prev prev_time (cp ∷ rest) result frontier h f =
      elim (Bool-cases (reaches d floor cp.tree_size)) [
        | inl e ↦ inl (ground (arith, e))
        | inr low ↦ elim (Result-cases (parse_checkpoint_time d cp.checkpoint_time)) [
          | inr (e, failed) ↦ absurd (ground (arith, low, failed))
          | inl (cp_time, timed) ↦ elim (Option-cases (checked_sub cp_time prev_time)) [
            | inl e ↦ inl (ground (arith, low, timed, e))
            | inr (delta, later) ↦
                elim (Result-cases (resolve_governance_for d c config prev.tree_size)) [
                  | inr (e, failed) ↦ absurd (ground (arith, low, timed, later, failed))
                  | inl (none, governed) ↦ inl (ground (arith, low, timed, later, governed))
                  | inl (some governance, governed) ↦
                      elim (Bool-cases (ltb governance.cadence_nanos delta)) [
                        | inl e ↦ inl (ground (arith, low, timed, later, governed, e))
                        | inr within ↦
                            let more : extend d c config floor cp cp_time rest ≡ ok result =
                              ground (arith, low, timed, later, governed, within) in
                            inr (
                              cp_time,
                              governance,
                              low,
                              timed,
                              governed,
                              ground (arith, later),
                              ground (arith, later, within),
                              extend_lem cp cp_time rest result frontier more f,
                            )
                      ]
                ]
          ]
        ]
      ]

  Reached-below :
      (prev : Checkpoint) (prev_time : ℕ) (rest : List Checkpoint) (frontier : ℕ)
      → reaches d floor prev.tree_size ≡ false
      → Reached prev prev_time rest frontier
      → reaches d floor frontier ≡ false
  Reached-below prev prev_time [] frontier low r = rw r low
  Reached-below prev prev_time (cp ∷ rest) frontier low (inl e) = rw e low
  Reached-below prev prev_time (cp ∷ rest) frontier low (inr r) =
      let (cp_time, governance, below, timed, governed, order, within, more) = r in
      Reached-below cp cp_time rest frontier below more

  start_lem :
      (first : Checkpoint) (rest : List Checkpoint) (governance : GovernanceState d)
      (result : GapFreeResult) (frontier : ℕ)
      → start_series d c config floor first rest governance ≡ ok result
      → result.frontier ≡ some frontier
      → (genesis : GovernanceState d) × (first_time : ℕ) × (resolve_governance_for d c config
            (governance.genesis_entry_index + 1)
          ≡ ok (some genesis))
        × (parse_checkpoint_time d first.checkpoint_time ≡ ok first_time)
        × (genesis.cadence_epoch_nanos ≤ first_time)
        × (first_time - genesis.cadence_epoch_nanos ≤ genesis.cadence_nanos)
        × Reached first first_time rest frontier
  unfolding start_series
  start_lem first rest governance result frontier h f =
      let next = governance.genesis_entry_index + 1 in
      elim (Result-cases (resolve_governance_for d c config next)) [
        | inr (e, failed) ↦ absurd (ground (arith, failed))
        | inl (none, resolved) ↦ absurd (ground (arith, resolved))
        | inl (some genesis, resolved) ↦
            elim (Result-cases (parse_checkpoint_time d first.checkpoint_time)) [
              | inr (e, failed) ↦ absurd (ground (arith, resolved, failed))
              | inl (first_time, timed) ↦
                  elim (Option-cases (checked_sub first_time genesis.cadence_epoch_nanos)) [
                    | inl e ↦ absurd (ground (arith, resolved, timed, e))
                    | inr (since, later) ↦ elim (Bool-cases (leb since genesis.cadence_nanos)) [
                      | inr e ↦ absurd (ground (arith, resolved, timed, later, e))
                      | inl within ↦
                          let more : extend d c config floor first first_time rest ≡ ok result =
                            ground (arith, resolved, timed, later, within) in
                          (
                            genesis,
                            first_time,
                            resolved,
                            timed,
                            ground (arith, later),
                            ground (arith, later, within),
                            extend_lem first first_time rest result frontier more f,
                          )
                    ]
                  ]
            ]
      ]

  -- A gap-free frontier is reached from the first member: that member lies below the floor, its time
  -- is within one cadence after the epoch, both as the genesis version of the governance at its size
  -- has them, and the frontier is its size or that of a later member reached from it without a gap. So
  -- the frontier lies below the floor.
  pub compute_gap_free_frontier_sound :
      (members : List Checkpoint) (result : GapFreeResult) (frontier : ℕ)
      → compute_gap_free_frontier d c config members floor ≡ ok result
      → result.frontier ≡ some frontier
      → (reaches d floor frontier ≡ false)
        × ((first : Checkpoint) × (rest : List Checkpoint) × (governance genesis : GovernanceState
              d)
            × (first_time : ℕ) × (members ≡ first ∷ rest)
            × (resolve_governance_for d c config first.tree_size ≡ ok (some governance))
            × (resolve_governance_for d c config (governance.genesis_entry_index + 1)
                ≡ ok (some genesis))
            × (parse_checkpoint_time d first.checkpoint_time ≡ ok first_time)
            × (genesis.cadence_epoch_nanos ≤ first_time)
            × (first_time - genesis.cadence_epoch_nanos ≤ genesis.cadence_nanos)
            × Reached first first_time rest frontier)
  unfolding compute_gap_free_frontier start_series
  compute_gap_free_frontier_sound [] result frontier h f = absurd (ground arith)
  compute_gap_free_frontier_sound (first ∷ rest) result frontier h f =
      elim (Bool-cases (reaches d floor first.tree_size)) [
        | inl e ↦ absurd (ground (arith, e))
        | inr low ↦ elim (Result-cases (resolve_governance_for d c config first.tree_size)) [
          | inr (e, failed) ↦ absurd (ground (arith, low, failed))
          | inl (none, governed) ↦ absurd (ground (arith, low, governed))
          | inl (some governance, governed) ↦
              let (genesis, first_time, resolved, timed, since, within, reached) =
                start_lem first rest governance result frontier (ground (arith, low, governed)) f in
              (
                Reached-below first first_time rest frontier low reached,
                (
                  first, rest, governance, genesis, first_time, refl, governed, resolved, timed,
                  since, within, reached,
                ),
              )
        ]
      ]
