-- ===== src/Ingest/History.antt =====
-- The stores that submissions and promotions lead to.
use native.Mathlib.Nat.{mul-pos}
use ahl_mirror.Prelude.{
  ℕ, Bytes, Text, some, List, [], ◌∷◌, ◌++◌, eq_bytes, ◌≡◌, suc, two_pow_pos, refl, arith,
  eq_bytes→eq, find_row, Option-cases, Bool-cases, ◌⊎◌, inl, inr,
}
use ahl_mirror.Error.{Result-cases}
use ahl_mirror.Deps.{Deps, from_ahl}
use ahl_mirror.Metadata.{sha256_id}
use ahl_mirror.Store.Schema.{Connection, Checkpoint, StagedRow, EntryRow, empty}
use ahl_mirror.Store.Exec.{with_transaction}
use ahl_mirror.Store.Rows.{staged_at, entry_by_id, node_at}
use ahl_mirror.Store.Entries
use ahl_mirror.Store.Entries.{get_staged_raw, get_entry_by_id}
use ahl_mirror.Store.Tree.{IsValid}
use ahl_mirror.Store.Promotion.{promote_entry_cases}
use ahl_mirror.Ingest.Checks.{check_entry, verify_inclusion_for}
use ahl_mirror.Ingest.{stage_entry, promote_entry_in, promote_entry}

-- What a client asks for: staging bytes, or promoting an entry under a checkpoint.
pub data Request (d : Deps) : Type 0 where
  stage : Text → Bytes → d.Value → Request d
  promote : Checkpoint → Text → ℕ → List Text → Request d

module _ (d : Deps) where
  abbrev pub StagedAddressed : List StagedRow → Type 0
  StagedAddressed [] = Unit
  StagedAddressed (row ∷ rows) = (sha256_id d row.envelope ≡ row.entry_id) × StagedAddressed rows

  abbrev pub Addressed : List EntryRow → Type 0
  Addressed [] = Unit
  Addressed (row ∷ rows) = (sha256_id d row.envelope ≡ row.entry_id) × Addressed rows

  -- A sound store: a valid one whose rows stand under the hashes of their bytes.
  pub record IsSound (c : Connection) : Type 0 where
    pub valid : IsValid d c
    pub staged : StagedAddressed c.staged_entries
    pub canonical : Addressed c.entries

  StagedAddressed-append :
      (rows : List StagedRow) (row : StagedRow)
      → StagedAddressed rows
      → sha256_id d row.envelope ≡ row.entry_id
      → StagedAddressed (rows ++ row ∷ [])
  StagedAddressed-append [] row h e = (e, tt)
  StagedAddressed-append (r ∷ rows) row h e = (h.0, StagedAddressed-append rows row h.1 e)

  Addressed-append :
      (rows : List EntryRow) (row : EntryRow)
      → Addressed rows
      → sha256_id d row.envelope ≡ row.entry_id
      → Addressed (rows ++ row ∷ [])
  Addressed-append [] row h e = (e, tt)
  Addressed-append (r ∷ rows) row h e = (h.0, Addressed-append rows row h.1 e)

  staged_row :
      (rows : List StagedRow) (id : Text) (row : StagedRow)
      → StagedAddressed rows
      → find_row (λ (r : StagedRow). eq_bytes r.entry_id id) rows ≡ some row
      → sha256_id d row.envelope ≡ id
  unfolding find_row
  staged_row [] id row h e = cc
  staged_row (r ∷ rows) id row h e =
      ground (arith, h.0, eq_bytes→eq r.entry_id id, staged_row rows id row h.1)

  pub canonical_row :
      (rows : List EntryRow) (id : Text) (row : EntryRow)
      → Addressed rows
      → entry_by_id rows id ≡ some row
      → sha256_id d row.envelope ≡ id
  unfolding entry_by_id find_row
  canonical_row [] id row h e = cc
  canonical_row (r ∷ rows) id row h e =
      ground (arith, h.0, eq_bytes→eq r.entry_id id, canonical_row rows id row h.1)

  unfoldable pub handle : Connection → Request d → Connection
  handle c (stage id bytes metadata) = (stage_entry d id bytes metadata c).1
  handle c (promote cp id index path) = (promote_entry d cp id index path c).1

  unfoldable pub run : Connection → List (Request d) → Connection
  run c [] = c
  run c (request ∷ requests) = run (handle c request) requests

  abbrev pub with_staged : Connection → Bytes → Connection
  with_staged c bytes = record c {
    staged_entries =
        c.staged_entries ++ record { entry_id = sha256_id d bytes; envelope = bytes } ∷ [];
  }

  pub stage_cases :
      (c : Connection) (id : Text) (bytes : Bytes) (metadata : d.Value)
      → ((stage_entry d id bytes metadata c).1 ≡ c)
        ⊎ ((stage_entry d id bytes metadata c).1 ≡ with_staged c bytes)
  unfolding stage_entry Entries.stage_entry
  stage_cases c id bytes metadata = elim (Result-cases (check_entry d id bytes metadata)) [
    | inr (e, failed) ↦ inl (ground (arith, failed))
    | inl (done, passed) ↦ elim (Option-cases (staged_at c (sha256_id d bytes))) [
      | inl e ↦ inr (ground (arith, passed, e))
      | inr (row, e) ↦ inl (ground (arith, passed, e))
    ]
  ]

  pub stage-IsSound :
      (c : Connection) (id : Text) (bytes : Bytes) (metadata : d.Value)
      → IsSound c
      → IsSound (stage_entry d id bytes metadata c).1
  stage-IsSound c id bytes metadata s = elim (stage_cases c id bytes metadata) [
    | inl same ↦ rw same s
    | inr more ↦ rw more (record {
      valid = record {
        numbered = s.valid.numbered;
        distinct = s.valid.distinct;
        hashed = s.valid.hashed;
        addressable = s.valid.addressable;
        cached = s.valid.cached;
      };
      staged = StagedAddressed-append c.staged_entries _ s.staged refl;
      canonical = s.canonical;
    })
  ]

  -- The gate before promotion: it fails and nothing changes, or promotion decides.
  pub promote_entry_gate :
      (c : Connection) (cp : Checkpoint) (id : Text) (index : ℕ) (path : List Text)
      → ((promote_entry d cp id index path c).1 ≡ c)
        ⊎ (promote_entry d cp id index path c ≡ Entries.promote_entry d index id c)
  unfolding promote_entry promote_entry_in get_staged_raw with_transaction Entries.promote_entry
  promote_entry_gate c cp id index path = elim (Option-cases (staged_at c id)) [
    | inl e ↦ inl (ground (arith, e))
    | inr (row, staged) ↦ elim (Result-cases (from_ahl (d.parse_hash_hex cp.root_hash))) [
      | inr (e, failed) ↦ inl (ground (arith, staged, failed))
      | inl (root, parsed) ↦
          elim (Result-cases (verify_inclusion_for d row.envelope index cp.tree_size path root)) [
            | inr (e, failed) ↦ inl (ground (arith, staged, parsed, failed))
            | inl (opens, checked) ↦ elim (Bool-cases opens) [
              | inl e ↦ inr (ground (arith, staged, parsed, checked))
              | inr e ↦ inl (ground (arith, staged, parsed, checked))
            ]
          ]
    ]
  ]

  pub promote-IsSound :
      (c : Connection) (cp : Checkpoint) (id : Text) (index : ℕ) (path : List Text)
      → IsSound c
      → IsSound (promote_entry d cp id index path c).1
  promote-IsSound c cp id index path s = elim (promote_entry_gate c cp id index path) [
    | inl same ↦ rw same s
    | inr run ↦ elim (promote_entry_cases d c index id s.valid) [
      | inl (refused, same) ↦ rw (run, same) s
      | inr (row, roots, here, staged, free, appends, valid) ↦
          rw (run, appends)
            (record {
              valid = valid;
              staged = s.staged;
              canonical =
                  Addressed-append c.entries _ s.canonical
                    (staged_row c.staged_entries id row s.staged (unfold staged_at in staged));
            })
    ]
  ]

  run-IsSound_from :
      (c : Connection) (requests : List (Request d)) → IsSound c → IsSound (run c requests)
  unfolding run handle
  run-IsSound_from c [] s = s
  run-IsSound_from c (stage id bytes metadata ∷ requests) s =
      run-IsSound_from (stage_entry d id bytes metadata c).1 requests
        (stage-IsSound c id bytes metadata s)
  run-IsSound_from c (promote cp id index path ∷ requests) s =
      run-IsSound_from (promote_entry d cp id index path c).1 requests
        (promote-IsSound c cp id index path s)

  pub IsSound-empty : IsSound empty
  unfolding node_at find_row
  IsSound-empty = record {
    valid = record {
      numbered = tt;
      distinct = tt;
      hashed = tt;
      addressable = omega arith;
      cached = record {
        have = λ level index fits.
            absurd (omega (arith, mul-pos {m = suc index} (omega arith) (two_pow_pos (suc level))));
        absent = λ level index past. refl;
      };
    };
    staged = tt;
    canonical = tt;
  }

  -- Whatever submissions and promotions an empty mirror has been sent, accepted or refused, its store
  -- is sound: canonical storage is gap-free with distinct ids, every staged and canonical entry stands
  -- under the hash of its bytes, and the tree material is exactly that of the canonical entries.
  pub run-IsSound : (requests : List (Request d)) → IsSound (run empty requests)
  run-IsSound requests = run-IsSound_from empty requests IsSound-empty
