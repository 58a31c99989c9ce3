-- ===== src/Manifest/Statements.antt =====
-- What one statement of src/manifest.rs does to the governance in force.
use ahl_mirror.Prelude.{
  codes, eq_bytes, eq_bytes→eq, ℕ, Bytes, Text, Option, none, some, ◌≡◌, arith, refl, ◌⊎◌, inl, inr,
  Option-cases, Bool-cases,
}
use ahl_mirror.Error.{ok}
use ahl_mirror.Deps.{Deps, Fallible}
use ahl_mirror.Config.{Config}
use ahl_mirror.Manifest.State.{GovernanceState}
use ahl_mirror.Manifest.Parse.{parse_governance}
use ahl_mirror.Manifest.Walk.{
  try_apply_genesis, apply_successor, try_apply_manifest, apply_action, apply_key_content,
  try_apply_key, Progress, step, apply_manifest_entry, apply_key_entry, apply_kind,
}

Parsed-cases : {A : Type 0} (m : Fallible A) → ((e : Text) × (m ≡ inl e)) ⊎ ((a : A) × (m ≡ inr a))
Parsed-cases (inl e) = inl (e, refl)
Parsed-cases (inr a) = inr (a, refl)

module _ (d : Deps) where
  parse_governance_lem :
      (payload : d.Value) (index : ℕ) (id log_id : Text) (genesis : ℕ) (epoch : Option ℕ)
      (state : GovernanceState d)
      → parse_governance d payload index id log_id genesis epoch ≡ some state
      → (state.governing_manifest_entry_index ≡ index)
        × (state.governing_manifest_entry_id ≡ id)
        × (state.genesis_entry_index ≡ genesis)
        × ((e : ℕ) → epoch ≡ some e → state.cadence_epoch_nanos ≡ e)
  unfolding parse_governance
  parse_governance_lem payload index id log_id genesis epoch state h =
      (ground arith, ground arith, ground arith, λ e p. ground arith)

  pub try_apply_key_lem :
      (state state' : GovernanceState d) (envelope payload : d.Value) (index : ℕ)
      → try_apply_key d state envelope payload index ≡ ok state'
      → (state'.governing_manifest_entry_index ≡ state.governing_manifest_entry_index)
        × (state'.genesis_entry_index ≡ state.genesis_entry_index)
        × (state'.cadence_epoch_nanos ≡ state.cadence_epoch_nanos)
  unfolding try_apply_key apply_key_content apply_action
  try_apply_key_lem state state' envelope payload index h =
      (ground arith, ground arith, ground arith)

  pub try_apply_genesis_lem :
      (envelope payload : d.Value) (index : ℕ) (config : Config d) (state : GovernanceState d)
      → try_apply_genesis d envelope payload index config ≡ ok (some state)
      → (state.governing_manifest_entry_index ≡ index)
        × (state.genesis_entry_index ≡ index)
        × (state.governing_manifest_entry_id ≡ config.genesis_manifest_entry_id)
  unfolding try_apply_genesis
  try_apply_genesis_lem envelope payload index config state h =
      let id = d.entry_id envelope in
      let parsed = parse_governance_lem payload index id config.log_id index none state in
      (
        ground (arith, parsed),
        ground (arith, parsed),
        ground (arith, parsed, eq_bytes→eq id config.genesis_manifest_entry_id),
      )

  pub try_apply_manifest_lem :
      (current : GovernanceState d) (envelope payload : d.Value) (index : ℕ) (config : Config d)
      (state : Option (GovernanceState d))
      → try_apply_manifest d (some current) envelope payload index config ≡ ok state
      → (state ≡ some current)
        ⊎ ((next : GovernanceState d) × (state ≡ some next)
            × (next.governing_manifest_entry_index ≡ index)
            × (next.genesis_entry_index ≡ current.genesis_entry_index)
            × (next.cadence_epoch_nanos ≡ current.cadence_epoch_nanos))
  unfolding try_apply_manifest apply_successor
  try_apply_manifest_lem current envelope payload index config state h =
      let id = d.entry_id envelope in
      let genesis = current.genesis_entry_index in
      let epoch = current.cadence_epoch_nanos in
      elim (Option-cases (parse_governance d payload index id config.log_id genesis (some epoch))) [
        | inl e ↦ inl (ground (arith, e))
        | inr (next, e) ↦
            let facts =
              parse_governance_lem payload index id config.log_id genesis (some epoch) next e in
            let same = facts.3 epoch refl in ground (arith, e, facts.0, facts.2, same)
      ]

  pub step_cases :
      (config : Config d) (index : ℕ) (bytes : Bytes) (before after : Progress d)
      → step d config index bytes before ≡ ok after
      → (after ≡ before)
        ⊎ ((envelope payload : d.Value) × (apply_manifest_entry d config index envelope payload
                before
              ≡ ok after))
        ⊎ ((envelope payload : d.Value) × (apply_key_entry d index envelope payload before
                before.state
              ≡ ok after))
  unfolding step apply_kind
  step_cases config index bytes before after h = elim (Parsed-cases (d.from_slice bytes)) [
    | inl (e, failed) ↦ inl (ground (arith, failed))
    | inr (envelope, parsed) ↦ elim (Option-cases (d.get envelope "payload")) [
      | inl e ↦ inl (ground (arith, parsed, e))
      | inr (payload, e) ↦ elim (Option-cases (d.get payload "type")) [
        | inl t ↦ inl (ground (arith, parsed, e, t))
        | inr (kind_value, t) ↦ elim (Option-cases (d.as_str kind_value)) [
          | inl k ↦ inl (ground (arith, parsed, e, t, k))
          | inr (kind, k) ↦ elim (Bool-cases (eq_bytes kind (codes "manifest"))) [
            | inl m ↦ inr (inl (envelope, payload, ground (arith, parsed, e, t, k, m)))
            | inr m ↦ elim (Bool-cases (eq_bytes kind (codes "key"))) [
              | inl n ↦ inr (inr (envelope, payload, ground (arith, parsed, e, t, k, m, n)))
              | inr n ↦ inl (ground (arith, parsed, e, t, k, m, n))
            ]
          ]
        ]
      ]
    ]
  ]
