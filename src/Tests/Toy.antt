-- ===== src/Tests/Toy.antt =====
-- A small concrete instance of the dependencies, for running the model and for the theorems'
-- instances: sums for hashes, a two-constructor `Value`, proofs that are one number.
use ahl_mirror.Prelude.{
  ℕ, zero, suc, ◌+◌, ◌-◌, ◌*◌, ◌==◌, leb, get_elem?, Bytes, Text, Option, none, some, [], ◌∷◌, ◌++◌,
  true, length, refl, inl, inr, eq_bytes, if◌then◌else◌, codes,
}
use ahl_mirror.Deps.{Deps, Hash, Fallible, returns, asks, KeyObjectSpec}

abbrev sum_of : Bytes → ℕ
sum_of [] = 1
sum_of (b ∷ bs) = b + 3 * sum_of bs

abbrev zeros : ℕ → Bytes
zeros zero = []
zeros (suc n) = 0 ∷ zeros n

-- 32 octets, the first of which tells.
abbrev pub hash_of : ℕ → Hash
hash_of n = n ∷ zeros 31

abbrev children : Hash → Hash → Hash
children a b = hash_of (sum_of (a ++ b))

-- An envelope parses if it is not empty; the value is its bytes.
abbrev parse : Bytes → Fallible Bytes
parse [] = inl (codes "EOF")
parse (b ∷ bs) = inr (b ∷ bs)

-- A digest is written as its 32 octets.
abbrev pub parse_digest : Text → Fallible Hash
parse_digest text = if length text == 32 then inr text else inl (codes "length")

abbrev pub log_digest : Hash
log_digest = hash_of 7

abbrev pub log_key_spec : KeyObjectSpec
log_key_spec = record { key_id = codes "sha256:k"; pubkey = codes "k"; valid_from_index = 0 }

-- Instants below ten nanoseconds.
abbrev pub write_time : ℕ → Text
write_time n = codes "2026-01-01T00:00:00.00000000" ++ (48 + n) ∷ codes "Z"

abbrev read_digit : Option ℕ → Option ℕ
read_digit none = none
read_digit (some b) = if leb b 57 then some (b - 48) else none

abbrev read_time : Text → Option ℕ
read_time text = read_digit (get_elem? text 28)

abbrev pub toy : Deps
toy = record {
  hashing = record {
    sha256 = λ bytes. hash_of (sum_of bytes);
    hex_encode = λ bytes. bytes;
    compute_leaf_hash = children;
    hash_children = children;
    empty_root = hash_of 0;
    length-compute_leaf_hash = λ a b. refl;
    length-hash_children = λ a b. refl;
  };
  json_values = record {
    Value = Bytes;
    from_slice = parse;
    is_object = λ v. true;
    get = λ v key. if eq_bytes (codes key) (codes "predecessor") then none else some v;
    as_str = λ v. some v;
    as_array = λ v. some (v ∷ []);
    singleton_object = λ key value. codes value;
    jcs = λ v. v;
    key_object = λ v. some (record { key_id = v; pubkey = v; valid_from_index = 0 });
    key_objects = λ v. some [];
    log_block = λ v. some (record {
      log_id = log_digest;
      checkpoint_cadence = codes "PT1H";
      cadence_epoch = [];
      witness_grace_period = codes "PT1H";
      keys = log_key_spec ∷ [];
    });
    witness_blocks = λ v. some [];
  };
  merkle = record {
    InclusionProof = Hash;
    ConsistencyProof = Hash;
    verify_inclusion = λ leaf proof root. inr (eq_bytes leaf proof);
    verify_consistency = λ proof from to. inr true;
    generate_inclusion_proof = λ index size.
        asks 0 index
          (λ node. elim node [ none ↦ returns (inl (codes "absent")) | some h ↦ returns (inr h) ]);
    generate_consistency_proof = λ from to. returns (inr []);
    compute_subtree_root = λ offset size.
        asks 0 offset
          (λ node. elim node [ none ↦ returns (inl (codes "absent")) | some h ↦ returns (inr h) ]);
    largest_power_of_2_less_than = λ n. 1;
  };
  keys = record {
    VerifyingKey = Text;
    decode_pubkey = λ s. inr s;
    compute_key_id = λ k. k;
    verify_signature = λ k blob sig. inr (eq_bytes k sig);
    parse_rfc3339 = λ s. some (length s);
    parse_profile_time = read_time;
    format_profile_time = λ n. some (write_time n);
  };
  parse_hash_hex = parse_digest;
  proof_from_hex = λ index size path. elim path [ [] ↦ inl (codes "short") | p ∷ rest ↦ inr p ];
  proof_path_hex = λ proof. proof ∷ [];
  entry_id = λ v. v;
  verify_envelope = λ v resolve. inr true;
  ahl_version = codes "manifest";
}
