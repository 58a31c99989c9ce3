-- ===== src/Config.antt =====
-- src/config.rs: key objects and the deployment configuration, checked once.
use ahl_mirror.Prelude.{ℕ, Text, List, [], ◌∷◌, ◌++◌, Bool, true, false, not, eq_bytes, codes}
use ahl_mirror.Error.{
  MirrorResult, ok, refuse_if, config_key_id_mismatch, no_genesis_producer_keys, ◌>>=◌, ◌>>◌,
}
use ahl_mirror.Deps.{Deps, KeyObjectSpec, from_ahl}

pub record ConfigSpec : Type 0 where
  pub log_id : Text
  pub genesis_manifest_entry_id : Text
  pub genesis_producer_keys : List KeyObjectSpec
  pub store_path : Text

module _ (d : Deps) where
  open d use {VerifyingKey, decode_pubkey, compute_key_id, hex_encode}

  pub record ResolvedKeyObject : Type 0 where
    pub key_id : Text
    pub verifying_key : VerifyingKey
    pub pubkey : Text
    pub valid_from_index : ℕ

  pub record Config : Type 0 where
    pub log_id : Text
    pub genesis_manifest_entry_id : Text
    pub genesis_producer_keys : List ResolvedKeyObject
    pub store_path : Text

  -- `ResolvedKeyObject::resolve`
  unfoldable pub resolve_key : KeyObjectSpec → MirrorResult ResolvedKeyObject
  resolve_key spec = do
    verifying_key ← from_ahl (decode_pubkey spec.pubkey)
    let computed = codes "sha256:" ++ hex_encode (compute_key_id verifying_key)
    refuse_if (not (eq_bytes computed spec.key_id)) (config_key_id_mismatch spec.key_id computed)
    ok (record {
      key_id = spec.key_id;
      verifying_key = verifying_key;
      pubkey = spec.pubkey;
      valid_from_index = spec.valid_from_index;
    })

  -- `.map(ResolvedKeyObject::resolve).collect()`: the keys in order, or the first failure.
  unfoldable pub resolve_keys : List KeyObjectSpec → MirrorResult (List ResolvedKeyObject)
  resolve_keys [] = ok []
  resolve_keys (spec ∷ specs) = do
    key ← resolve_key spec
    keys ← resolve_keys specs
    ok (key ∷ keys)

  abbrev no_keys : List KeyObjectSpec → Bool
  no_keys [] = true
  no_keys (spec ∷ specs) = false

  -- `Config::resolve`
  unfoldable pub resolve : ConfigSpec → MirrorResult Config
  unfolding resolve_keys
  resolve spec = do
    refuse_if (no_keys spec.genesis_producer_keys) no_genesis_producer_keys
    keys ← resolve_keys spec.genesis_producer_keys
    ok (record {
      log_id = spec.log_id;
      genesis_manifest_entry_id = spec.genesis_manifest_entry_id;
      genesis_producer_keys = keys;
      store_path = spec.store_path;
    })
