-- ===== src/Error.antt =====
-- src/error.rs: `MirrorError`, its constructors and payloads in the source's order, `MirrorResult`,
-- and the `?` operator as `◌>>=◌`. A `&'static str` is a `String`, any other string its bytes; an
-- error of a dependency (`Json`, `Ahl`, `Atl`, `Store`) is kept as its rendered message.
use ahl_mirror.Prelude.{
  ℕ, Text, Option, none, some, String, Bool, true, false, ◌≡◌, ◌⊎◌, inl, inr, refl, ap,
}

pub data MirrorError : Type 0 where
  entry_id_mismatch : (claimed computed : Text) → MirrorError
  malformed_envelope : (reason : String) → MirrorError
  not_canonical : MirrorError
  wrong_adaptor_metadata : (got : Text) → MirrorError
  out_of_order_index : (expected got : ℕ) → MirrorError
  index_conflict : (index : ℕ) (existing_entry_id new_entry_id : Text) → MirrorError
  entry_id_at_different_index : (entry_id : Text) (existing_index requested_index : ℕ) → MirrorError
  not_staged : (entry_id : Text) → MirrorError
  inclusion_proof_invalid : (entry_id : Text) (leaf_index tree_size : ℕ) → MirrorError
  stored_entry_corrupt : (entry_id : Text) → MirrorError
  invalid_range : (from_index to_index tree_size : ℕ) → MirrorError
  consistency_order : (from to : ℕ) → MirrorError
  unknown_checkpoint : (tree_size : ℕ) → MirrorError
  checkpoint_not_series_usable : (tree_size : ℕ) → MirrorError
  series_equivocated : (tree_size floor : ℕ) → MirrorError
  incomplete_entries : (have need : ℕ) → MirrorError
  tree_material_missing : (level node_index : ℕ) → MirrorError
  tree_material_corrupt : (level node_index : ℕ) → MirrorError
  checkpoint_root_mismatch : (tree_size : ℕ) → MirrorError
  tree_size_unrepresentable : (tree_size max : ℕ) → MirrorError
  bad_checkpoint_time : (value : Text) → MirrorError
  wrong_log_id : (expected got : Text) → MirrorError
  unknown_signing_key : (key_id : Text) → MirrorError
  key_not_yet_active : (key_id : Text) (valid_from_index tree_size : ℕ) → MirrorError
  governance_chain_unresolvable : (tree_size : ℕ) → MirrorError
  unsupported_statement_version :
      (entry_index : ℕ) (declared : Option Text) (expected : Text) → MirrorError
  bad_duration : (value : Text) → MirrorError
  prohibited_duration_component : (value : Text) (component : ℕ) → MirrorError
  duration_fraction_too_long : (value : Text) → MirrorError
  non_positive_cadence : (value : Text) → MirrorError
  bad_cadence_epoch : (value : Text) → MirrorError
  no_genesis_producer_keys : MirrorError
  not_rotation_material : (tree_size manifest_entry_index : ℕ) (reason : String) → MirrorError
  unknown_rotation_proof : (manifest_entry_index : ℕ) → MirrorError
  signature_invalid : (key_id : Text) → MirrorError
  raw_blob_mismatch : MirrorError
  series_member_conflict : (tree_size : ℕ) (checkpoint_time : Text) → MirrorError
  inconsistent_with_neighbour : (neighbour_tree_size tree_size : ℕ) → MirrorError
  config_key_id_mismatch : (configured computed : Text) → MirrorError
  index_overflow : (what : String) → MirrorError
  json : (message : Text) → MirrorError
  ahl : (message : Text) → MirrorError
  atl : (message : Text) → MirrorError
  store : (message : Text) → MirrorError
  store_init : (message : Text) → MirrorError

pub data MirrorResult {ℓ} (A : Type ℓ) : Type ℓ where
  ok : A → MirrorResult A
  err : MirrorError → MirrorResult A

-- `return Err(e)` under a test.
abbrev pub refuse_if : Bool → MirrorError → MirrorResult (Unit {0})
refuse_if true why = err why
refuse_if false why = ok tt

-- `ok_or`, `ok_or_else`.
abbrev pub ok_or {ℓ} : {A : Type ℓ} → MirrorError → Option A → MirrorResult A
ok_or why (some value) = ok value
ok_or why none = err why

module _ {ℓ} {A : Type ℓ} where
  abbrev pub is_ok : MirrorResult A → Bool
  is_ok (err why) = false
  is_ok (ok value) = true

  -- A result is a value or an error.
  pub Result-cases :
      (r : MirrorResult A) → ((value : A) × (r ≡ ok value)) ⊎ ((why : MirrorError) × (r ≡ err why))
  Result-cases (ok value) = inl (value, refl)
  Result-cases (err why) = inr (why, refl)

module _ {ℓ κ} {A : Type ℓ} {B : Type κ} where
  infixl 5 ◌>>=◌
  -- `?`
  abbrev pub ◌>>=◌ : MirrorResult A → (A → MirrorResult B) → MirrorResult B
  (err why) >>= next = err why
  (ok value) >>= next = next value

infixl 5 ◌>>◌
-- `?` on a result without a value.
abbrev pub ◌>>◌ {κ} : {B : Type κ} → MirrorResult (Unit {0}) → MirrorResult B → MirrorResult B
checked >> rest = checked >>= λ _. rest

module _ {ℓ κ} {A : Type ℓ} {B : Type κ} where
  -- A chain that succeeds has succeeded at its first part, with the value that the rest works on.
  pub succeeds :
      (m : MirrorResult A) {next : A → MirrorResult B} {b : B}
      → m >>= next ≡ ok b
      → (a : A) × (m ≡ ok a) × (next a ≡ ok b)
  succeeds (ok a) h = (a, refl, h)
  succeeds (err why) h = cc

pub ok_or-some {ℓ} :
    {A : Type ℓ} (why : MirrorError) (held : Option A) {a : A}
    → ok_or why held ≡ ok a
    → held ≡ some a
ok_or-some why (some b) h = cc
ok_or-some why none h = cc

pub refuse_if-false :
    (test : Bool) (why : MirrorError) {u : Unit {0}} → refuse_if test why ≡ ok u → test ≡ false
refuse_if-false true why h = cc
refuse_if-false false why h = refl

pub ok-injective {ℓ} : {A : Type ℓ} {a b : A} → ok a ≡ ok b → a ≡ b
ok-injective {a = a} h = ap (λ (r : MirrorResult _). elim r [ ok v ↦ v | err e ↦ a ]) h
