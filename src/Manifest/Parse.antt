-- ===== src/Manifest/Parse.antt =====
-- src/manifest.rs: `parse_governance` and the checks on one statement. `None`, for any defect, is
-- `none`; `.ok()?` drops the error.
use ahl_mirror.Prelude.{
  ℕ, Text, Option, none, some, List, [], ◌∷◌, ◌++◌, Bool, not, ◌==◌, eq_bytes, if◌then◌else◌,
}
use ahl_mirror.Error.{
  MirrorResult, ok, err, ok_or, bad_cadence_epoch, unsupported_statement_version,
}
use ahl_mirror.Deps.{Deps, KeyObjectSpec, WitnessBlock}
use ahl_mirror.Duration.{parse_checkpoint_cadence_nanos, parse_iso8601_duration_nanos}
use ahl_mirror.Config.{ResolvedKeyObject, resolve_key, resolve_keys}
use ahl_mirror.Manifest.State.{GovernanceState, insert_key}

infixl 5 ◌>>=◌
abbrev ◌>>=◌ {ℓ κ} : {A : Type ℓ} {B : Type κ} → Option A → (A → Option B) → Option B
none >>= f = none
some a >>= f = f a

-- `.ok()`
abbrev to_option {ℓ} : {A : Type ℓ} → MirrorResult A → Option A
to_option (ok a) = some a
to_option (err e) = none

-- `if test { return None }`
abbrev unless : Bool → Option (Unit {0})
unless Bool.true = none
unless Bool.false = some tt

module _ (d : Deps) where
  open d use {
    Value, get, as_str, key_objects, log_block, witness_blocks, parse_rfc3339, ahl_version,
  }

  unfoldable pub parse_rfc3339_nanos : Text → MirrorResult ℕ
  parse_rfc3339_nanos value = ok_or (bad_cadence_epoch value) (parse_rfc3339 value)

  -- The loop that fills `producer_keys`.
  unfoldable pub producer_map :
      List (ResolvedKeyObject d) → List KeyObjectSpec → Option (List (ResolvedKeyObject d))
  producer_map keys [] = some keys
  producer_map keys (spec ∷ specs) = do
    resolved ← to_option (resolve_key d spec)
    producer_map (insert_key d resolved keys) specs

  unfoldable pub witness_block_keys :
      Text → List KeyObjectSpec → Option (List (Text × ResolvedKeyObject d))
  witness_block_keys witness_id [] = some []
  witness_block_keys witness_id (spec ∷ specs) = do
    resolved ← to_option (resolve_key d spec)
    rest ← witness_block_keys witness_id specs
    some ((witness_id, resolved) ∷ rest)

  unfoldable pub all_witness_keys : List WitnessBlock → Option (List (Text × ResolvedKeyObject d))
  unfolding witness_block_keys
  all_witness_keys [] = some []
  all_witness_keys (block ∷ blocks) = do
    keys ← witness_block_keys block.witness_id block.keys
    rest ← all_witness_keys blocks
    some (keys ++ rest)

  -- The `witnesses` member is optional, and must parse where it is present.
  unfoldable pub parse_witnesses : Option Value → Option (List (Text × ResolvedKeyObject d))
  unfolding all_witness_keys
  parse_witnesses none = some []
  parse_witnesses (some value) = do blocks ← witness_blocks value; all_witness_keys blocks

  abbrev epoch_differs : Option ℕ → ℕ → Bool
  epoch_differs none epoch = Bool.false
  epoch_differs (some required) epoch = not (epoch == required)

  unfoldable pub parse_governance :
      (payload : Value) (entry_index : ℕ) (entry_id log_id : Text) (genesis_entry_index : ℕ)
      (required_epoch_nanos : Option ℕ)
      → Option (GovernanceState d)
  unfolding producer_map parse_witnesses
  parse_governance payload entry_index entry_id log_id genesis_entry_index required_epoch_nanos = do
    keys_value ← get payload "keys"
    producer_key_specs ← key_objects keys_value
    producer_keys ← producer_map [] producer_key_specs
    log_value ← get payload "log"
    block ← log_block log_value
    same_log ← unless (not (eq_bytes block.log_id log_id))
    cadence_nanos ← to_option (parse_checkpoint_cadence_nanos block.checkpoint_cadence)
    witness_grace_period ← to_option (parse_iso8601_duration_nanos block.witness_grace_period)
    cadence_epoch_nanos ← to_option (parse_rfc3339_nanos block.cadence_epoch)
    same_epoch ← unless (epoch_differs required_epoch_nanos cadence_epoch_nanos)
    log_keys ← to_option (resolve_keys d block.keys)
    witness_keys ← parse_witnesses (get payload "witnesses")
    some (record {
      producer_keys = producer_keys;
      log_keys = log_keys;
      witness_keys = witness_keys;
      cadence_nanos = cadence_nanos;
      cadence_epoch_nanos = cadence_epoch_nanos;
      governing_manifest_entry_index = entry_index;
      governing_manifest_entry_id = entry_id;
      genesis_entry_index = genesis_entry_index;
    })

  abbrev version_matches : Option Text → Bool
  version_matches none = Bool.false
  version_matches (some declared) = eq_bytes declared ahl_version

  abbrev text_of : Option Value → Option Text
  text_of none = none
  text_of (some value) = as_str value

  unfoldable pub check_statement_version : Value → ℕ → MirrorResult (Unit {0})
  check_statement_version payload entry_index =
      let declared = text_of (get payload "ahl_version") in
      if version_matches declared
      then ok tt
      else err (unsupported_statement_version entry_index declared ahl_version)
