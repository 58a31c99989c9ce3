-- ===== src/Ingest/Admission.antt =====
-- What staging and promotion establish of the entries that they let in.
use ahl_mirror.Prelude.{
  ℕ, Bytes, Text, some, none, ◌⊎◌, List, [], ◌∷◌, ◌++◌, true, ◌≡◌, ap, sym, ◌∙◌, arith, eq_bytes→eq,
  eq_bytes_refl, find_row-append, find_row, Option-cases, inl, inr,
}
use ahl_mirror.Error.{ok, Result-cases}
use ahl_mirror.Deps.{Deps, Hash, from_ahl, from_json}
use ahl_mirror.Metadata.{sha256_id, adaptor_metadata_bytes}
use ahl_mirror.Store.Schema.{
  Connection, Checkpoint, InsertOutcome, inserted, already_present, StagedRow,
}
use ahl_mirror.Store.Exec.{with_transaction}
use ahl_mirror.Store.Rows.{staged_at}
use ahl_mirror.Store.Entries
use ahl_mirror.Store.Entries.{get_staged_raw, promote_entry_raw, get_entry_by_id}
use ahl_mirror.Ingest.Checks.{check_entry, verify_inclusion_for, is_some_and, non_empty, and_then}
use ahl_mirror.Ingest.{stage_entry, promote_entry_in, promote_entry}

module _ (d : Deps) where
  open d use {Value, from_slice, is_object, get, as_array, jcs, parse_hash_hex}

  -- The bytes are the canonical form of an envelope, under the id that is their hash.
  pub record IsEnvelope (entry_id : Text) (bytes : Bytes) : Type 0 where
    pub addressed : sha256_id d bytes ≡ entry_id
    pub value : Value
    pub parses : from_json (from_slice bytes) ≡ ok value
    pub is_object_value : is_object value ≡ true
    pub payload : is_some_and is_object (get value "payload") ≡ true
    pub signed : is_some_and non_empty (and_then as_array (get value "signatures")) ≡ true
    pub canonical : jcs value ≡ bytes

  pub check_entry_lem :
      (id : Text) (bytes : Bytes) (metadata : Value)
      → check_entry d id bytes metadata ≡ ok tt
      → IsEnvelope id bytes × (jcs metadata ≡ adaptor_metadata_bytes d)
  unfolding check_entry
  check_entry_lem id bytes metadata h = elim (Result-cases (from_json (from_slice bytes))) [
    | inr (e, failed) ↦ absurd (ground (arith, failed))
    | inl (value, parsed) ↦ (
      record {
        addressed = ground (arith, parsed, eq_bytes→eq (sha256_id d bytes) id);
        value = value;
        parses = parsed;
        is_object_value = ground (arith, parsed);
        payload = ground (arith, parsed);
        signed = ground (arith, parsed);
        canonical = ground (arith, parsed, eq_bytes→eq (jcs value) bytes);
      },
      ground (arith, parsed, eq_bytes→eq (jcs metadata) (adaptor_metadata_bytes d)),
    )
  ]

  stored_lem :
      (c : Connection) (id : Text) (bytes : Bytes) (o : InsertOutcome)
      → (Entries.stage_entry id bytes c).0 ≡ ok o
      → get_staged_raw (Entries.stage_entry id bytes c).1 id ≡ ok (some bytes)
  unfolding Entries.stage_entry get_staged_raw staged_at
  stored_lem c id bytes o h = elim (Option-cases (staged_at c id)) [
    | inr (row, e) ↦ ground (arith, e, eq_bytes→eq row.envelope bytes)
    | inl e ↦
        let new : StagedRow = record { entry_id = id; envelope = bytes } in
        let found : staged_at (record c { staged_entries = c.staged_entries ++ new ∷ [] }) id
            ≡ some new =
          rw (find_row-append, e) (unfold find_row in ground (arith, eq_bytes_refl id)) in
        ground (arith, e, found)
  ]

  -- What staging does to the database: one row behind those that are there, or nothing.
  abbrev pub Stages : Connection → Text → Bytes → InsertOutcome → Connection → Type 0
  Stages c id bytes o after =
      ((o ≡ inserted)
        × (staged_at c id ≡ none)
        × (after ≡ record c {
          staged_entries = c.staged_entries ++ record { entry_id = id; envelope = bytes } ∷ [];
        }))
      ⊎ ((o ≡ already_present) × (after ≡ c))

  stage_entry-Stages :
      (c : Connection) (id : Text) (bytes : Bytes) (o : InsertOutcome)
      → (Entries.stage_entry id bytes c).0 ≡ ok o
      → Stages c id bytes o (Entries.stage_entry id bytes c).1
  unfolding Entries.stage_entry
  stage_entry-Stages c id bytes o h = elim (Option-cases (staged_at c id)) [
    | inr (row, e) ↦ inr (ground (arith, e), ground (arith, e))
    | inl e ↦ inl (ground (arith, e), e, ground (arith, e))
  ]

  -- A submission that is staged, newly or again, is a canonical envelope under the id that is its
  -- hash, it came with the fixed adaptor metadata, and its exact bytes are then staged under that id.
  -- When the outcome is `Inserted`, nothing was staged under the id, and one row is added behind the
  -- staged ones; when it is `AlreadyPresent`, the database is as it was. All else that is stored, the
  -- other staged entries included, stays.
  pub stage_entry_sound :
      (c : Connection) (id : Text) (bytes : Bytes) (metadata : Value) (o : InsertOutcome)
      → (stage_entry d id bytes metadata c).0 ≡ ok o
      → IsEnvelope id bytes
        × (jcs metadata ≡ adaptor_metadata_bytes d)
        × (get_staged_raw (stage_entry d id bytes metadata c).1 id ≡ ok (some bytes))
        × Stages c id bytes o (stage_entry d id bytes metadata c).1
  unfolding stage_entry
  stage_entry_sound c id bytes metadata o h =
      elim (Result-cases (check_entry d id bytes metadata)) [
        | inr (e, failed) ↦ absurd (ground (arith, failed))
        | inl (done, passed) ↦
            let (envelope, fixed) = check_entry_lem id bytes metadata passed in
            let run : stage_entry d id bytes metadata c ≡ Entries.stage_entry id bytes c =
              ground (arith, passed, envelope.addressed) in
            let staged = ap (λ r. r.0) (sym run) ∙ h in
            (
              envelope,
              fixed,
              rw run (stored_lem c id bytes o staged),
              rw run (stage_entry-Stages c id bytes o staged),
            )
      ]

  -- Promotion is gated by evidence: when it succeeds, newly or again, the entry is staged, and the
  -- inclusion proof of the staged bytes' log leaf at the claimed index opens the checkpoint's root.
  pub promote_entry_gated :
      (c : Connection) (cp : Checkpoint) (id : Text) (index : ℕ) (path : List Text)
      (o : InsertOutcome)
      → (promote_entry d cp id index path c).0 ≡ ok o
      → (row : StagedRow) × (root : Hash) × (staged_at c id ≡ some row)
        × (from_ahl (parse_hash_hex cp.root_hash) ≡ ok root)
        × (verify_inclusion_for d row.envelope index cp.tree_size path root ≡ ok true)
  unfolding promote_entry promote_entry_in get_staged_raw with_transaction
  promote_entry_gated c cp id index path o h = elim (Option-cases (staged_at c id)) [
    | inl none_staged ↦ absurd (ground (arith, none_staged))
    | inr (row, staged) ↦ elim (Result-cases (from_ahl (parse_hash_hex cp.root_hash))) [
      | inr (e, failed) ↦ absurd (ground (arith, staged, failed))
      | inl (root, parsed) ↦ (row, root, staged, parsed, ground (arith, staged, parsed))
    ]
  ]
