-- ===== src/Store/Promotion.antt =====
-- Promotion: what it appends to a valid store, that it keeps the store valid, and that it leaves any
-- store alone unless it inserts.
use ahl_mirror.Prelude.{
  ℕ, ◌≤◌, none, some, List, [], ◌∷◌, ◌++◌, ◌≡◌, refl, ap, ◌∙◌, length, arith, Text, Bytes, ◌⊎◌,
  true, leb, Bool-cases, Option-cases, length-append, inl, inr, i64_max, get_elem?-ge, ◌≢◌,
}
use native.Mathlib.Decide.{ℕ_discrete}
use ahl_mirror.Error.{MirrorResult, ok, err, Result-cases, out_of_order_index}
use ahl_mirror.Deps.{Deps}
use ahl_mirror.Metadata.{log_leaf_hash}
use ahl_mirror.Store.Schema.{
  Connection, StagedRow, EntryRow, NodeRow, InsertOutcome, inserted, already_present,
}
use ahl_mirror.Store.Rows.{staged_at, entry_at, entry_by_id}
use ahl_mirror.Store.Entries.{append_entry, promote_entry_raw, promote_entry, get_entry_by_id}
use ahl_mirror.Store.Tree.{IsValid, IdFree}
use ahl_mirror.Store.Tree.Rows.{
  entry_at-Numbered, next_index-Numbered, Numbered-append, Hashed-append, DistinctIds-append,
  entry_by_id-IdFree, entry_by_id-append,
}
use ahl_mirror.Store.Tree.Climb.{extend_subtree_cache-Extends}

module _ (d : Deps) where
  -- The canonical row of a staged entry at an index.
  abbrev pub row_for : ℕ → StagedRow → Text → EntryRow
  row_for index staged id = record {
    entry_index = index;
    entry_id = id;
    envelope = staged.envelope;
    leaf_hash = some (log_leaf_hash d staged.envelope);
  }

  -- The database with one more canonical row and the cache that belongs to it.
  abbrev appended : Connection → Text → Bytes → List NodeRow → Connection
  appended c id bytes roots = record c {
    entries =
        c.entries
        ++ record {
          entry_index = length c.entries;
          entry_id = id;
          envelope = bytes;
          leaf_hash = some (log_leaf_hash d bytes);
        }
          ∷ [];
    subtree_roots = roots;
  }

  append_entry_lem :
      (c : Connection) (id : Text) (bytes : Bytes)
      → IsValid d c
      → length c.entries ≤ i64_max
      → IdFree id c.entries
      → (roots : List NodeRow) × (append_entry d (length c.entries) id bytes c
          ≡ (ok inserted, appended c id bytes roots))
        × IsValid d (appended c id bytes roots)
  unfolding append_entry
  append_entry_lem c id bytes v room free =
      let row : EntryRow = record {
        entry_index = length c.entries;
        entry_id = id;
        envelope = bytes;
        leaf_hash = some (log_leaf_hash d bytes);
      } in
      let numbered = Numbered-append c.entries 0 row v.numbered (omega arith) in
      let hashed = Hashed-append d c.entries row v.hashed refl in
      let longer = length-append c.entries (row ∷ []) in
      let (roots, run, cached) =
        extend_subtree_cache-Extends d (record c { entries = c.entries ++ row ∷ [] }) c.entries row
          refl numbered hashed (omega arith) v.cached in
      (
        roots,
        ground (arith, run, next_index-Numbered c v.numbered v.addressable),
        record {
          numbered = numbered;
          distinct = DistinctIds-append c.entries row v.distinct free;
          hashed = hashed;
          addressable = omega arith;
          cached = cached;
        },
      )

  append_entry_refuses :
      (c : Connection) (index : ℕ) (id : Text) (bytes : Bytes)
      → IsValid d c
      → index ≢ length c.entries
      → append_entry d index id bytes c ≡ (err (out_of_order_index (length c.entries) index), c)
  unfolding append_entry
  append_entry_refuses c index id bytes v apart =
      ground (arith, next_index-Numbered c v.numbered v.addressable)

  -- Either nothing is inserted and nothing changes, or the staged entry is appended.
  abbrev Appends : Connection → ℕ → Text → MirrorResult InsertOutcome × Connection → Type 0
  Appends c index id result =
      (row : StagedRow) × (roots : List NodeRow) × (index ≡ length c.entries)
      × (staged_at c id ≡ some row)
      × (entry_by_id c.entries id ≡ none)
      × (result ≡ (ok inserted, appended c id row.envelope roots))
      × IsValid d (appended c id row.envelope roots)

  abbrev Refuses : Connection → MirrorResult InsertOutcome × Connection → Type 0
  Refuses c result = (result.0 ≢ ok inserted) × (result.1 ≡ c)

  promote_free :
      (c : Connection) (index : ℕ) (id : Text) (row : StagedRow)
      → IsValid d c
      → leb index i64_max ≡ true
      → staged_at c id ≡ some row
      → entry_at c.entries index ≡ none
      → entry_by_id c.entries id ≡ none
      → Refuses c (promote_entry d index id c) ⊎ Appends c index id (promote_entry d index id c)
  unfolding promote_entry
  promote_free c index id row v room staged free_index free_id =
      elim (ℕ_discrete index (length c.entries)) [
        | no apart ↦
            let run = append_entry_refuses c index id row.envelope v apart in
            inl (ground (arith, run), ground (arith, run))
        | yes here ↦
            let (roots, run, valid) =
              append_entry_lem c id row.envelope v (ground arith)
                (entry_by_id-IdFree c.entries id free_id) in
            inr (row, roots, here, staged, free_id, ground (arith, run), valid)
      ]

  pub promote_entry_cases :
      (c : Connection) (index : ℕ) (id : Text)
      → IsValid d c
      → Refuses c (promote_entry d index id c) ⊎ Appends c index id (promote_entry d index id c)
  unfolding promote_entry
  promote_entry_cases c index id v = elim (Bool-cases (leb index i64_max)) [
    | inr wide ↦ inl (ground arith, ground arith)
    | inl room ↦ elim (Option-cases (staged_at c id)) [
      | inl absent ↦ inl (ground arith, ground arith)
      | inr (row, staged) ↦ elim (Option-cases (entry_at c.entries index)) [
        | inr (occupant, e) ↦ inl (ground arith, ground arith)
        | inl free_index ↦ elim (Option-cases (entry_by_id c.entries id)) [
          | inr (other, e) ↦ inl (ground arith, ground arith)
          | inl free_id ↦ promote_free c index id row v room staged free_index free_id
        ]
      ]
    ]
  ]

  -- A promotion, whatever its index and id and whatever its result, keeps a valid store valid:
  -- canonical storage stays gap-free with distinct ids, every entry keeps its log leaf hash, and the
  -- cache holds exactly the roots of the complete subtrees of the entries.
  pub promote_entry-IsValid :
      (c : Connection) (index : ℕ) (id : Text)
      → IsValid d c
      → IsValid d (promote_entry d index id c).1
  promote_entry-IsValid c index id v = elim (promote_entry_cases c index id v) [
    | inl (refused, same) ↦ rw same v
    | inr (row, roots, here, staged, free, run, valid) ↦ rw run valid
  ]

  append_entry_outcome :
      (c : Connection) (index : ℕ) (id : Text) (bytes : Bytes) (o : InsertOutcome)
      → (append_entry d index id bytes c).0 ≡ ok o
      → o ≡ inserted
  unfolding append_entry
  append_entry_outcome c index id bytes o h = ground arith

  promote_entry_raw_present :
      (c : Connection) (index : ℕ) (id : Text)
      → (promote_entry_raw d index id c).0 ≡ ok already_present
      → (promote_entry_raw d index id c).1 ≡ c
  unfolding promote_entry_raw
  promote_entry_raw_present c index id h = elim (Option-cases (staged_at c id)) [
    | inl absent ↦ absurd (ground (arith, absent))
    | inr (row, staged) ↦ elim (Option-cases (entry_at c.entries index)) [
      | inr (occupant, e) ↦ ground (arith, staged, e)
      | inl free_index ↦ elim (Option-cases (entry_by_id c.entries id)) [
        | inr (other, e) ↦ ground (arith, staged, free_index, e)
        | inl free_id ↦
            let outcome = append_entry_outcome c index id row.envelope already_present in
            absurd (ground (arith, staged, free_index, free_id, outcome))
      ]
    ]
  ]

  -- On any store, valid or not, a promotion that does not return `Inserted` leaves the database as it
  -- was: when the entry is there already, and when it fails, be it before it writes or after the new
  -- row was written, as it does when a node that the subtree cache builds on is missing or damaged.
  pub promote_entry_leaves_no_trace :
      (c : Connection) (index : ℕ) (id : Text)
      → (promote_entry d index id c).0 ≢ ok inserted
      → (promote_entry d index id c).1 ≡ c
  unfolding promote_entry
  promote_entry_leaves_no_trace c index id h =
      elim (Result-cases (promote_entry_raw d index id c).0) [
        | inr (e, failed) ↦ ground (arith, failed)
        | inl (inserted, done) ↦ absurd (h (ground (arith, done)))
        | inl (already_present, done) ↦
            ground (arith, done, promote_entry_raw_present c index id done)
      ]

  -- On a valid store, a promotion returns `Inserted` only at the next index, for an id that is staged
  -- and not yet canonical; it then appends the staged bytes under that index and id, with their log
  -- leaf hash, and leaves the staged entries and both checkpoint tables alone.
  pub promote_entry_inserts :
      (c : Connection) (index : ℕ) (id : Text)
      → IsValid d c
      → (promote_entry d index id c).0 ≡ ok inserted
      → (row : StagedRow) × (index ≡ length c.entries)
        × (staged_at c id ≡ some row)
        × (entry_by_id c.entries id ≡ none)
        × ((promote_entry d index id c).1.entries ≡ c.entries ++ row_for index row id ∷ [])
        × ((promote_entry d index id c).1.staged_entries ≡ c.staged_entries)
        × ((promote_entry d index id c).1.checkpoints ≡ c.checkpoints)
        × ((promote_entry d index id c).1.rotation_checkpoints ≡ c.rotation_checkpoints)
  promote_entry_inserts c index id v h = elim (promote_entry_cases c index id v) [
    | inl (refused, same) ↦ absurd (refused h)
    | inr (row, roots, here, staged, free, run, valid) ↦
        (row, here, staged, free, rw (run, here), rw run, rw run, rw run)
  ]

  promote_entry_appends :
      (c : Connection) (id : Text) (row : StagedRow)
      → IsValid d c
      → length c.entries ≤ i64_max
      → staged_at c id ≡ some row
      → entry_by_id c.entries id ≡ none
      → (roots : List NodeRow) × (promote_entry d (length c.entries) id c
          ≡ (ok inserted, appended c id row.envelope roots))
  unfolding promote_entry
  promote_entry_appends c id row v room staged free =
      let here : entry_at c.entries (length c.entries) ≡ none =
        entry_at-Numbered c.entries (length c.entries) v.numbered
        ∙ get_elem?-ge c.entries (length c.entries) (omega arith) in
      let (roots, run, valid) =
        append_entry_lem c id row.envelope v room (entry_by_id-IdFree c.entries id free) in
      (roots, ground (arith, run, here))

  -- On a valid store with room for one more index, a staged entry that is not yet canonical is
  -- promoted at the next index: the promotion returns `Inserted`, and retrieval by its id then returns
  -- that index and the staged bytes.
  pub get_entry_by_id-promote_entry :
      (c : Connection) (id : Text) (row : StagedRow)
      → IsValid d c
      → length c.entries ≤ i64_max
      → staged_at c id ≡ some row
      → entry_by_id c.entries id ≡ none
      → ((promote_entry d (length c.entries) id c).0 ≡ ok inserted)
        × (get_entry_by_id (promote_entry d (length c.entries) id c).1 id
            ≡ ok (some (record { entry_index = length c.entries; envelope = row.envelope })))
  unfolding get_entry_by_id
  get_entry_by_id-promote_entry c id row v room staged free =
      let (roots, run) = promote_entry_appends c id row v room staged free in
      let found = entry_by_id-append c.entries (row_for (length c.entries) row id) free in
      (ap (λ r. r.0) run, rw run (ground (arith, found)))
