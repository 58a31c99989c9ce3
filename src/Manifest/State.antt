-- ===== src/Manifest/State.antt =====
-- src/manifest.rs: a verified governance snapshot and the questions asked of it.
use ahl_mirror.Prelude.{
  ℕ, Text, Option, List, [], ◌∷◌, Bool, true, false, not, ◌&&◌, ◌||◌, ◌==◌, ltb, eq_bytes,
  if◌then◌else◌, find_row, map,
}
use ahl_mirror.Error.{
  MirrorResult, ok, ok_or, refuse_if, unknown_signing_key, key_not_yet_active, ◌>>=◌, ◌>>◌,
}
use ahl_mirror.Deps.{Deps}
use ahl_mirror.Config.{ResolvedKeyObject}

module _ (d : Deps) where
  open d use {VerifyingKey}

  -- `producer_keys` is a map by key id: a list in which each id stands once.
  pub record GovernanceState : Type 0 where
    pub producer_keys : List (ResolvedKeyObject d)
    pub log_keys : List (ResolvedKeyObject d)
    pub witness_keys : List (Text × ResolvedKeyObject d)
    pub cadence_nanos : ℕ
    pub cadence_epoch_nanos : ℕ
    pub governing_manifest_entry_index : ℕ
    pub governing_manifest_entry_id : Text
    pub genesis_entry_index : ℕ

  -- `iter().find(|k| k.key_id == key_id)`, and a map's `get`
  unfoldable pub key_with_id : List (ResolvedKeyObject d) → Text → Option (ResolvedKeyObject d)
  key_with_id keys key_id = find_row (λ key. eq_bytes key.key_id key_id) keys

  -- `HashMap::insert` and `HashMap::remove`
  unfoldable pub remove_key : Text → List (ResolvedKeyObject d) → List (ResolvedKeyObject d)
  remove_key key_id [] = []
  remove_key key_id (key ∷ keys) =
      let rest = remove_key key_id keys in if eq_bytes key.key_id key_id then rest else key ∷ rest

  unfoldable pub insert_key :
      ResolvedKeyObject d → List (ResolvedKeyObject d) → List (ResolvedKeyObject d)
  insert_key key keys = key ∷ remove_key key.key_id keys

  unfoldable pub resolve_log_key : GovernanceState → Text → ℕ → MirrorResult VerifyingKey
  resolve_log_key state key_id tree_size = do
    key ← ok_or (unknown_signing_key key_id) (key_with_id state.log_keys key_id)
    refuse_if (ltb tree_size key.valid_from_index)
        (key_not_yet_active key_id key.valid_from_index tree_size)
    ok key.verifying_key

  -- The tuples that the sets hold; a log key has no witness id.
  pub record KeyTuple : Type 0 where
    pub witness_id : Text
    pub key_id : Text
    pub pubkey : Text
    pub valid_from_index : ℕ

  unfoldable pub eq_tuple : KeyTuple → KeyTuple → Bool
  eq_tuple a b =
      eq_bytes a.witness_id b.witness_id
      && (eq_bytes a.key_id b.key_id
          && (eq_bytes a.pubkey b.pubkey && a.valid_from_index == b.valid_from_index))

  abbrev tuple_of : Text → ResolvedKeyObject d → KeyTuple
  tuple_of witness_id key = record {
    witness_id = witness_id;
    key_id = key.key_id;
    pubkey = key.pubkey;
    valid_from_index = key.valid_from_index;
  }

  unfoldable pub log_key_set : GovernanceState → List KeyTuple
  log_key_set state = map (tuple_of []) state.log_keys

  unfoldable pub witness_key_set : GovernanceState → List KeyTuple
  witness_key_set state =
      map (λ (w : Text × ResolvedKeyObject d). tuple_of w.0 w.1) state.witness_keys

  unfoldable pub has_tuple : KeyTuple → List KeyTuple → Bool
  has_tuple t [] = false
  has_tuple t (u ∷ us) = eq_tuple u t || has_tuple t us

  unfoldable pub all_in : List KeyTuple → List KeyTuple → Bool
  all_in [] us = true
  all_in (t ∷ ts) us = has_tuple t us && all_in ts us

  -- `==` on the sets: each holds all of the other.
  unfoldable pub same_set : List KeyTuple → List KeyTuple → Bool
  same_set ts us = all_in ts us && all_in us ts

  unfoldable pub rotates : (incoming predecessor : GovernanceState) → Bool
  rotates incoming predecessor =
      not (same_set (log_key_set incoming) (log_key_set predecessor))
      || not (same_set (witness_key_set incoming) (witness_key_set predecessor))
