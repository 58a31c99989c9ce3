-- ===== src/Manifest/Walk.antt =====
-- src/manifest.rs: the walk over an entry prefix that applies `manifest` and `key` statements.
use ahl_mirror.Prelude.{
  ℕ, suc, Bytes, Text, Option, none, some, List, [], ◌∷◌, ◌++◌, Bool, true, false, not, ◌==◌, leb,
  eq_bytes, if◌then◌else◌, length, codes, inl, inr,
}
use ahl_mirror.Error.{MirrorResult, ok, err, governance_chain_unresolvable, ◌>>=◌, ◌>>◌}
use ahl_mirror.Deps.{Deps, KeyObjectSpec, from_ahl}
use ahl_mirror.Config.{ResolvedKeyObject, Config, resolve_key}
use ahl_mirror.Manifest.State.{GovernanceState, key_with_id, remove_key, insert_key}
use ahl_mirror.Manifest.Parse.{parse_governance, check_statement_version}

module _ (d : Deps) where
  open d use {Value, from_slice, get, as_str, key_object, entry_id, verify_envelope}

  abbrev State : Type 0
  State = Option (GovernanceState d)

  abbrev pub_key_at : ℕ → Option (ResolvedKeyObject d) → Option Text
  pub_key_at at_index none = none
  pub_key_at at_index (some key) =
      if leb key.valid_from_index at_index then some key.pubkey else none

  -- `resolver_from_map` and `resolver_from_slice`: both look an id up in the keys in force.
  unfoldable pub resolver_from : List (ResolvedKeyObject d) → ℕ → Text → Option Text
  resolver_from keys at_index key_id = pub_key_at at_index (key_with_id d keys key_id)

  abbrev text_of : Option Value → Option Text
  text_of none = none
  text_of (some value) = as_str value

  abbrev is_some {ℓ} : {A : Type ℓ} → Option A → Bool
  is_some none = false
  is_some (some a) = true

  -- `return Ok(())` with the state as it was, under a test.
  abbrev unless : Bool → State → MirrorResult State → MirrorResult State
  unless true state rest = ok state
  unless false state rest = rest

  unfoldable pub try_apply_genesis : Value → Value → ℕ → Config d → MirrorResult State
  try_apply_genesis envelope payload entry_index config =
      let id = entry_id envelope in
      let semantics =
        unless (is_some (get payload "predecessor")) none
          (ok (parse_governance d payload entry_index id config.log_id entry_index none)) in
      unless (not (eq_bytes id config.genesis_manifest_entry_id)) none (do
        verified ←
            from_ahl
              (verify_envelope envelope (resolver_from config.genesis_producer_keys entry_index))
        unless (not verified) none (check_statement_version d payload entry_index >> semantics))

  -- A parsed successor is installed; anything else leaves the state.
  abbrev install : GovernanceState d → State → State
  install current none = some current
  install current (some next) = some next

  unfoldable pub apply_successor :
      GovernanceState d → Text → Value → ℕ → Config d → Option Text → MirrorResult State
  apply_successor current id payload entry_index config none = ok (some current)
  apply_successor current id payload entry_index config (some predecessor) =
      unless (not (eq_bytes predecessor current.governing_manifest_entry_id)) (some current) (
        ok (
          install current (
            parse_governance d payload entry_index id config.log_id current.genesis_entry_index
              (some current.cadence_epoch_nanos))))

  unfoldable pub try_apply_manifest : State → Value → Value → ℕ → Config d → MirrorResult State
  unfolding try_apply_genesis apply_successor
  try_apply_manifest none envelope payload entry_index config =
      try_apply_genesis envelope payload entry_index config
  try_apply_manifest (some current) envelope payload entry_index config = do
    verified ← from_ahl (verify_envelope envelope (resolver_from current.producer_keys entry_index))
    unless (not verified) (some current) (do
      check_statement_version d payload entry_index
      apply_successor current (entry_id envelope) payload entry_index config
          (text_of (get payload "predecessor")))

  abbrev add_key : GovernanceState d → MirrorResult (ResolvedKeyObject d) → GovernanceState d
  add_key state (ok resolved) = record state {
    producer_keys = insert_key d resolved state.producer_keys;
  }
  add_key state (err e) = state

  -- `match action`
  unfoldable pub apply_action : GovernanceState d → Text → KeyObjectSpec → GovernanceState d
  apply_action state action key_spec =
      if eq_bytes action (codes "add")
      then add_key state (resolve_key d key_spec)
      else if eq_bytes action (codes "retire")
      then record state { producer_keys = remove_key d key_spec.key_id state.producer_keys }
      else state

  abbrev key_of : Option Value → Option KeyObjectSpec
  key_of none = none
  key_of (some value) = key_object value

  unfoldable pub apply_key_content :
      GovernanceState d → Option Text → Option KeyObjectSpec → GovernanceState d
  unfolding apply_action
  apply_key_content state none key = state
  apply_key_content state (some action) none = state
  apply_key_content state (some action) (some key_spec) = apply_action state action key_spec

  unfoldable pub try_apply_key :
      GovernanceState d → Value → Value → ℕ → MirrorResult (GovernanceState d)
  unfolding apply_key_content
  try_apply_key state envelope payload entry_index = do
    verified ← from_ahl (verify_envelope envelope (resolver_from state.producer_keys entry_index))
    elim verified [
      | false ↦ ok state
      | true ↦ (do
        check_statement_version d payload entry_index
        ok (apply_key_content state (text_of (get payload "action")) (key_of (get payload "key"))))
    ]

  -- `before != after` of the governing index, and the snapshot that it lets in.
  abbrev index_of : State → Option ℕ
  index_of none = none
  index_of (some state) = some state.governing_manifest_entry_index

  abbrev moved : Option ℕ → Option ℕ → Bool
  moved none none = false
  moved none (some after) = true
  moved (some before) none = true
  moved (some before) (some after) = not (before == after)

  unfoldable pub snapshot : State → State → List (GovernanceState d)
  snapshot before none = []
  snapshot before (some current) =
      if moved (index_of before) (index_of (some current)) then current ∷ [] else []

  -- What the walk keeps: the running state, and the snapshots so far.
  pub record Progress : Type 0 where
    pub state : State
    pub snapshots : List (GovernanceState d)

  unfoldable pub apply_manifest_entry :
      Config d → ℕ → Value → Value → Progress → MirrorResult Progress
  apply_manifest_entry config index envelope payload progress = do
    state ← try_apply_manifest progress.state envelope payload index config
    ok (record { state = state; snapshots = progress.snapshots ++ snapshot progress.state state })

  unfoldable pub apply_key_entry : ℕ → Value → Value → Progress → State → MirrorResult Progress
  apply_key_entry index envelope payload progress none = ok progress
  apply_key_entry index envelope payload progress (some current) = do
    state ← try_apply_key current envelope payload index
    ok (record progress { state = some state })

  -- `match kind`
  unfoldable pub apply_kind : Config d → ℕ → Value → Value → Text → Progress → MirrorResult Progress
  apply_kind config index envelope payload kind progress =
      if eq_bytes kind (codes "manifest")
      then apply_manifest_entry config index envelope payload progress
      else if eq_bytes kind (codes "key")
      then apply_key_entry index envelope payload progress progress.state
      else ok progress

  abbrev with_kind : Config d → ℕ → Value → Value → Progress → Option Text → MirrorResult Progress
  with_kind config index envelope payload progress none = ok progress
  with_kind config index envelope payload progress (some kind) =
      apply_kind config index envelope payload kind progress

  abbrev with_payload : Config d → ℕ → Value → Progress → Option Value → MirrorResult Progress
  with_payload config index envelope progress none = ok progress
  with_payload config index envelope progress (some payload) =
      with_kind config index envelope payload progress (text_of (get payload "type"))

  -- One entry of the walk; what does not parse as a typed statement is passed over.
  unfoldable pub step : Config d → ℕ → Bytes → Progress → MirrorResult Progress
  step config index bytes progress = elim (from_slice bytes) [
    | inl e ↦ ok progress
    | inr envelope ↦ with_payload config index envelope progress (get envelope "payload")
  ]

  unfoldable pub walk : Config d → ℕ → List Bytes → Progress → MirrorResult Progress
  walk config index [] progress = ok progress
  walk config index (bytes ∷ entries) progress = do
    next ← step config index bytes progress
    walk config (suc index) entries next

  abbrev pub start : Progress
  start = record { state = none; snapshots = [] }

  unfoldable pub resolve : List Bytes → Config d → MirrorResult (GovernanceState d)
  resolve entries_prefix config = do
    progress ← walk config 0 entries_prefix start
    elim progress.state [
      | none ↦ err (governance_chain_unresolvable (length entries_prefix))
      | some state ↦ ok state
    ]

  unfoldable pub versions : List Bytes → Config d → MirrorResult (List (GovernanceState d))
  versions entries_prefix config = do
    progress ← walk config 0 entries_prefix start
    elim progress.snapshots [
      | [] ↦ err (governance_chain_unresolvable (length entries_prefix))
      | version ∷ rest ↦ ok (version ∷ rest)
    ]
