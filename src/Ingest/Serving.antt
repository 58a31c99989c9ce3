-- ===== src/Ingest/Serving.antt =====
-- What retrieval serves, from any store and from those that submissions and promotions lead to.
use ahl_mirror.Prelude.{
  ℕ, Bytes, Text, none, some, List, [], ◌∷◌, true, ◌≡◌, ap, ◌≤◌, arith, length, i64_max,
  eq_bytes→eq, eq_bytes_iff, find_row-append, find_row, Option-cases, ◌⊎◌, inl, inr,
}
use ahl_mirror.Error.{ok}
use ahl_mirror.Deps.{Deps, Hash, from_ahl}
use ahl_mirror.Metadata.{sha256_id}
use ahl_mirror.Store.Schema.{Connection, Checkpoint, StagedRow, EntryRow, inserted}
use ahl_mirror.Store.Exec.{with_transaction}
use ahl_mirror.Store.Rows.{staged_at, entry_by_id}
use ahl_mirror.Store.Entries
use ahl_mirror.Store.Entries.{get_staged_raw, get_entry_by_id}
use ahl_mirror.Store.Promotion.{get_entry_by_id-promote_entry}
use ahl_mirror.Ingest.Checks.{check_entry, verify_inclusion_for}
use ahl_mirror.Ingest.{stage_entry, promote_entry_in, promote_entry}
use ahl_mirror.Ingest.Admission.{check_entry_lem}
use ahl_mirror.Ingest.History.{
  stage, promote, IsSound, canonical_row, stage-IsSound, with_staged, run, handle,
}
use ahl_mirror.Retrieval.{present, absent, retrieve_by_id}

module _ (d : Deps) where
  -- Whatever bytes retrieval serves, from any store, hash to the id that was asked for, and they are
  -- the bytes and the index of the canonical row of that id.
  pub retrieve_by_id_sound :
      (c : Connection) (id : Text) (index : ℕ) (bytes : Bytes)
      → retrieve_by_id d c id ≡ ok (present index bytes)
      → (sha256_id d bytes ≡ id)
        × (get_entry_by_id c id ≡ ok (some (record { entry_index = index; envelope = bytes })))
  unfolding retrieve_by_id get_entry_by_id
  retrieve_by_id_sound c id index bytes h = elim (Option-cases (entry_by_id c.entries id)) [
    | inl e ↦ absurd (ground (arith, e))
    | inr (row, e) ↦ (
      ground (arith, e, eq_bytes→eq (sha256_id d row.envelope) id),
      ground (arith, e, eq_bytes→eq (sha256_id d row.envelope) id),
    )
  ]

  -- On a sound store retrieval never fails: it serves the canonical entry of the id, or says that
  -- there is none exactly when no canonical row has the id.
  pub retrieve_by_id_total :
      (c : Connection) (id : Text)
      → IsSound d c
      → ((retrieve_by_id d c id ≡ ok absent) × (entry_by_id c.entries id ≡ none))
        ⊎ ((row : EntryRow) × (entry_by_id c.entries id ≡ some row)
            × (retrieve_by_id d c id ≡ ok (present row.entry_index row.envelope)))
  unfolding retrieve_by_id get_entry_by_id
  retrieve_by_id_total c id s = elim (Option-cases (entry_by_id c.entries id)) [
    | inl e ↦ inl (ground (arith, e), e)
    | inr (row, e) ↦
        let addressed = canonical_row d c.entries id row s.canonical e in
        inr (row, e, ground (arith, e, addressed, eq_bytes_iff (sha256_id d row.envelope) id))
  ]

  stage_new :
      (c : Connection) (id : Text) (bytes : Bytes) (metadata : d.Value)
      → staged_at c id ≡ none
      → check_entry d id bytes metadata ≡ ok tt
      → sha256_id d bytes ≡ id
      → stage_entry d id bytes metadata c ≡ (ok inserted, with_staged d c bytes)
  unfolding stage_entry Entries.stage_entry
  stage_new c id bytes metadata new checks addressed = ground (arith, new, checks, addressed)

  promote_opens :
      (c : Connection) (cp : Checkpoint) (id : Text) (index : ℕ) (path : List Text)
      (row : StagedRow) (root : Hash)
      → staged_at c id ≡ some row
      → from_ahl (d.parse_hash_hex cp.root_hash) ≡ ok root
      → verify_inclusion_for d row.envelope index cp.tree_size path root ≡ ok true
      → promote_entry d cp id index path c ≡ Entries.promote_entry d index id c
  unfolding promote_entry promote_entry_in get_staged_raw with_transaction Entries.promote_entry
  promote_opens c cp id index path row root staged parsed opens =
      ground (arith, staged, parsed, opens)

  served :
      (c : Connection) (id : Text) (index : ℕ) (bytes : Bytes)
      → get_entry_by_id c id ≡ ok (some (record { entry_index = index; envelope = bytes }))
      → sha256_id d bytes ≡ id
      → retrieve_by_id d c id ≡ ok (present index bytes)
  unfolding retrieve_by_id
  served c id index bytes h e = ground (arith, h, e, eq_bytes_iff (sha256_id d bytes) id)

  staged_at-with_staged :
      (c : Connection) (id : Text) (bytes : Bytes)
      → staged_at c id ≡ none
      → sha256_id d bytes ≡ id
      → staged_at (with_staged d c bytes) id
        ≡ some (record { entry_id = sha256_id d bytes; envelope = bytes })
  unfolding staged_at
  staged_at-with_staged c id bytes new e =
      rw (find_row-append, new)
        (unfold find_row in ground (arith, e, eq_bytes_iff (sha256_id d bytes) id))

  -- The three results along the way.
  pub promotable :
      (c : Connection) (id : Text) (bytes : Bytes) (metadata : d.Value) (cp : Checkpoint)
      (path : List Text) (root : Hash)
      → IsSound d c
      → length c.entries ≤ i64_max
      → staged_at c id ≡ none
      → entry_by_id c.entries id ≡ none
      → check_entry d id bytes metadata ≡ ok tt
      → from_ahl (d.parse_hash_hex cp.root_hash) ≡ ok root
      → verify_inclusion_for d bytes (length c.entries) cp.tree_size path root ≡ ok true
      → (stage_entry d id bytes metadata c ≡ (ok inserted, with_staged d c bytes))
        × ((promote_entry d cp id (length c.entries) path (with_staged d c bytes)).0 ≡ ok inserted)
        × (retrieve_by_id d
              (promote_entry d cp id (length c.entries) path (with_staged d c bytes)).1
              id
            ≡ ok (present (length c.entries) bytes))
  promotable c id bytes metadata cp path root s room new free checks parsed opens =
      let addressed = (check_entry_lem d id bytes metadata checks).0.addressed in
      let more = stage_new c id bytes metadata new checks addressed in
      let c' = with_staged d c bytes in
      let staged = staged_at-with_staged c id bytes new addressed in
      let sound : IsSound d c' =
        rw (ap (λ r. r.1) more) at (stage-IsSound d c id bytes metadata s) in
      let gate = promote_opens c' cp id (length c.entries) path _ root staged parsed opens in
      let got = get_entry_by_id-promote_entry d c' id _ sound.valid room staged free in
      (more, rw gate got.0, rw gate (served _ id (length c.entries) bytes got.1 addressed))

  -- Stage, then promote, then retrieve: on a sound store with room, bytes that pass the format checks
  -- under an id that is not canonical yet, and whose log leaf a checkpoint proves at the next index,
  -- are served byte-exact under that id, at that index.
  pub retrieve-promote-stage :
      (c : Connection) (id : Text) (bytes : Bytes) (metadata : d.Value) (cp : Checkpoint)
      (path : List Text) (root : Hash)
      → IsSound d c
      → length c.entries ≤ i64_max
      → staged_at c id ≡ none
      → entry_by_id c.entries id ≡ none
      → check_entry d id bytes metadata ≡ ok tt
      → from_ahl (d.parse_hash_hex cp.root_hash) ≡ ok root
      → verify_inclusion_for d bytes (length c.entries) cp.tree_size path root ≡ ok true
      → retrieve_by_id d
          (run d c (stage id bytes metadata ∷ promote cp id (length c.entries) path ∷ []))
          id
        ≡ ok (present (length c.entries) bytes)
  unfolding run handle
  retrieve-promote-stage c id bytes metadata cp path root s room new free checks parsed opens =
      let (more, promoted, got) =
        promotable c id bytes metadata cp path root s room new free checks parsed opens in
      rw (ap (λ r. r.1) more) got
