-- ===== src/Series/Signature/Blob.antt =====
-- What the 98-byte blob of src/checkpoint.rs binds, and what a verified checkpoint has.
use ahl_mirror.Prelude.{
  ℕ, zero, suc, ◌*◌, ◌/◌, ◌%◌, ◌<◌, ◌≤◌, Text, Bytes, Option, some, ◌++◌, true, ◌≡◌, refl, arith,
  inl, inr, length, length-append, append-injective, u64_max, eq_bytes→eq, Option-cases, sym, ◌∙◌,
  ap,
}
use ahl_mirror.Error.{ok, Result-cases}
use ahl_mirror.Deps.{Deps, Hash, Fallible, from_ahl}
use ahl_mirror.Store.Schema.{Checkpoint}
use ahl_mirror.Series.Time.{has_profile_time_shape, render_checkpoint_time, parse_checkpoint_time}
use ahl_mirror.Series.Signature.{
  checkpoint_magic, le_octets, checkpoint_blob, verify_checkpoint_signature,
}

length-le_octets : (n value : ℕ) → length (le_octets n value) ≡ n
unfolding le_octets
length-le_octets zero value = refl
length-le_octets (suc n) value = omega (arith, length-le_octets n (value / 256))

-- `256 ^ n`
abbrev octet_range : ℕ → ℕ
octet_range zero = 1
octet_range (suc n) = 256 * octet_range n

le_octets-injective :
    (n v w : ℕ) → v < octet_range n → w < octet_range n → le_octets n v ≡ le_octets n w → v ≡ w
unfolding le_octets
le_octets-injective zero v w hv hw h = omega arith
le_octets-injective (suc n) v w hv hw h =
    let low : v % 256 ≡ w % 256 = cc in
    let tail : le_octets n (v / 256) ≡ le_octets n (w / 256) = cc in
    let high = le_octets-injective n (v / 256) (w / 256) (omega arith) (omega arith) tail in
    omega arith

module _ (d : Deps) where
  -- A checkpoint time that is accepted has 30 bytes in the profile's shape, and it is the rendering of
  -- the instant that it is read as.
  pub parse_checkpoint_time_canonical :
      (value : Text) (nanos : ℕ)
      → parse_checkpoint_time d value ≡ ok nanos
      → (has_profile_time_shape value ≡ true)
        × (length value ≡ 30)
        × (render_checkpoint_time d nanos ≡ ok value)
  unfolding parse_checkpoint_time has_profile_time_shape
  parse_checkpoint_time_canonical value nanos h = elim (Option-cases (d.parse_profile_time value)) [
    | inl e ↦ absurd (ground (arith, e))
    | inr (n, e) ↦ elim (Result-cases (render_checkpoint_time d n)) [
      | inr (f, failed) ↦ absurd (ground (arith, e, failed))
      | inl (text, rendered) ↦ (
        ground (arith, e, rendered),
        ground (arith, e, rendered),
        ground (arith, e, rendered, eq_bytes→eq text value),
      )
    ]
  ]

  same_instant :
      (a b : Text) (m n : ℕ)
      → parse_checkpoint_time d a ≡ ok m
      → parse_checkpoint_time d b ≡ ok n
      → m ≡ n
      → a ≡ b
  same_instant a b m n ha hb e =
      let (shape, size, ra) = parse_checkpoint_time_canonical a m ha in
      let (shape', size', rb) = parse_checkpoint_time_canonical b n hb in
      let same : render_checkpoint_time d n ≡ ok a = rw e at ra in cc

  from_ahl-ok : {A : Type 0} (m : Fallible A) (a : A) → from_ahl m ≡ ok a → m ≡ inr a
  from_ahl-ok (inl e) a h = cc
  from_ahl-ok (inr b) a h = ground arith

  -- What ahl_core documents of `parse_hash_hex`: a digest has 32 bytes.
  abbrev pub Digests : Type 0
  Digests =
      (text : Text) (hash : Hash) → from_ahl (d.parse_hash_hex text) ≡ ok hash → length hash ≡ 32

  blob_parts :
      (cp : Checkpoint) (blob : Bytes)
      → checkpoint_blob d cp ≡ ok blob
      → (origin root : Hash) × (nanos : ℕ) × (from_ahl (d.parse_hash_hex cp.log_id) ≡ ok origin)
        × (from_ahl (d.parse_hash_hex cp.root_hash) ≡ ok root)
        × (parse_checkpoint_time d cp.checkpoint_time ≡ ok nanos)
        × (blob
            ≡ checkpoint_magic
              ++ (origin ++ (le_octets 8 cp.tree_size ++ (le_octets 8 nanos ++ root))))
  unfolding checkpoint_blob
  blob_parts cp blob h = elim (Result-cases (from_ahl (d.parse_hash_hex cp.log_id))) [
    | inr (e, failed) ↦ absurd (ground (arith, failed))
    | inl (origin, from_log) ↦ elim (Result-cases (from_ahl (d.parse_hash_hex cp.root_hash))) [
      | inr (e, failed) ↦ absurd (ground (arith, from_log, failed))
      | inl (root, from_root) ↦ elim (Result-cases (parse_checkpoint_time d cp.checkpoint_time)) [
        | inr (e, failed) ↦ absurd (ground (arith, from_log, from_root, failed))
        | inl (nanos, timed) ↦ (
          origin,
          root,
          nanos,
          from_log,
          from_root,
          timed,
          ground (arith, from_log, from_root, timed),
        )
      ]
    ]
  ]

  -- Where digests have 32 bytes, and sizes and instants fit a `u64`: the signed blob has 98 bytes and
  -- binds what it is made of, that is, checkpoints with the same blob have the same origin, the same
  -- tree size, the same time, and the same root.
  pub checkpoint_blob_binds :
      Digests
      → (a b : Checkpoint) (blob : Bytes) → checkpoint_blob d a ≡ ok blob
      → checkpoint_blob d b ≡ ok blob
      → a.tree_size ≤ u64_max
      → b.tree_size ≤ u64_max
      → ((text : Text) (nanos : ℕ) → parse_checkpoint_time d text ≡ ok nanos → nanos ≤ u64_max)
      → (length blob ≡ 98)
        × (d.parse_hash_hex a.log_id ≡ d.parse_hash_hex b.log_id)
        × (a.tree_size ≡ b.tree_size)
        × (a.checkpoint_time ≡ b.checkpoint_time)
        × (d.parse_hash_hex a.root_hash ≡ d.parse_hash_hex b.root_hash)
  checkpoint_blob_binds digests a b blob ha hb fits_a fits_b times =
      let (origin, root, nanos, lo, ro, to, ea) = blob_parts a blob ha in
      let (origin', root', nanos', lo', ro', to', eb) = blob_parts b blob hb in
      let same = (append-injective checkpoint_magic checkpoint_magic refl (sym ea ∙ eb)).1 in
      let (origins, r1) =
        append-injective origin origin'
          (digests a.log_id origin lo ∙ sym (digests b.log_id origin' lo')) same in
      let (sizes, r2) =
        append-injective (le_octets 8 a.tree_size) (le_octets 8 b.tree_size)
          (length-le_octets 8 a.tree_size ∙ sym (length-le_octets 8 b.tree_size)) r1 in
      let (stamps, roots) =
        append-injective (le_octets 8 nanos) (le_octets 8 nanos')
          (length-le_octets 8 nanos ∙ sym (length-le_octets 8 nanos')) r2 in
      let size = le_octets-injective 8 a.tree_size b.tree_size (omega arith) (omega arith) sizes in
      let stamp =
        le_octets-injective 8 nanos nanos' (omega (arith, times a.checkpoint_time nanos to))
          (omega (arith, times b.checkpoint_time nanos' to')) stamps in
      (
        rw ea (
            omega (
              arith,
              length-append origin (le_octets 8 a.tree_size ++ (le_octets 8 nanos ++ root)),
              length-append (le_octets 8 a.tree_size) (le_octets 8 nanos ++ root),
              length-append (le_octets 8 nanos) root,
              length-le_octets 8 a.tree_size,
              length-le_octets 8 nanos,
              digests a.log_id origin lo,
              digests a.root_hash root ro,
            )),
        from_ahl-ok (d.parse_hash_hex a.log_id) origin lo
            ∙ ap inr origins
            ∙ sym (from_ahl-ok (d.parse_hash_hex b.log_id) origin' lo'),
        size,
        same_instant a.checkpoint_time b.checkpoint_time nanos nanos' to to' stamp,
        from_ahl-ok (d.parse_hash_hex a.root_hash) root ro
            ∙ ap inr roots
            ∙ sym (from_ahl-ok (d.parse_hash_hex b.root_hash) root' ro'),
      )

  -- A checkpoint whose signature is accepted names the log, its blob can be formed and equals the raw
  -- bytes that came with it, if any came, and the key verifies the signature over that blob.
  pub verify_checkpoint_signature_sound :
      (cp : Checkpoint) (raw : Option Bytes) (log_id : Text) (key : d.VerifyingKey)
      → verify_checkpoint_signature d cp raw log_id key ≡ ok tt
      → (cp.log_id ≡ log_id)
        × ((blob : Bytes) × (checkpoint_blob d cp ≡ ok blob)
            × (from_ahl (d.verify_signature key blob cp.signature) ≡ ok true)
            × ((sent : Bytes) → raw ≡ some sent → sent ≡ blob))
  unfolding verify_checkpoint_signature
  verify_checkpoint_signature_sound cp raw log_id key h =
      elim (Result-cases (checkpoint_blob d cp)) [
        | inr (e, failed) ↦ absurd (ground (arith, failed))
        | inl (blob, formed) ↦
            elim (Result-cases (from_ahl (d.verify_signature key blob cp.signature))) [
              | inr (e, failed) ↦ absurd (ground (arith, formed, failed))
              | inl (verified, checked) ↦ (
                ground (arith, formed, checked, eq_bytes→eq cp.log_id log_id),
                (
                  blob,
                  formed,
                  ground (arith, formed, checked),
                  λ sent e. ground (arith, formed, checked, e, eq_bytes→eq sent blob),
                ),
              )
            ]
      ]
