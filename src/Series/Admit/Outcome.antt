-- ===== src/Series/Admit/Outcome.antt =====
-- What `ingest_checkpoint` of src/checkpoint.rs does to the store, and what it admits.
use ahl_mirror.Prelude.{
  ℕ, Bytes, Option, some, List, [], ◌∷◌, Bool, true, false, ◌≡◌, ◌≢◌, ◌≤◌, arith, refl, inl, inr,
  Option-cases, i64_max,
}
use ahl_mirror.Error.{MirrorError, ok, err, is_ok, Result-cases}
use ahl_mirror.Deps.{Deps, Hash, from_ahl}
use ahl_mirror.Config.{Config}
use ahl_mirror.Manifest.State.{GovernanceState}
use ahl_mirror.Manifest.Walk.{versions}
use ahl_mirror.Store.Schema.{Connection, Checkpoint, InsertOutcome}
use ahl_mirror.Store.Exec.{with_transaction}
use ahl_mirror.Store.Checkpoints.{insert_checkpoint_raw, insert_rotation_checkpoint_raw}
use ahl_mirror.Ingest.{promote_entry_in, promote_entry}
use ahl_mirror.Ingest.History.{IsSound, promote-IsSound}
use ahl_mirror.Series.Admit.{
  PendingPromotion, Admission, decide_admission, build_visible_prefix, rotation_anchors_for,
  last_version, verifies_under, promote_all, record_member, record_anchors, commit_admission,
  ingest_checkpoint,
}

module _ (d : Deps) where
  promote_entry_in-IsSound :
      (c : Connection) (cp : Checkpoint) (p : PendingPromotion) (o : InsertOutcome)
      → (promote_entry_in d cp p.entry_id p.leaf_index p.inclusion_path c).0 ≡ ok o
      → IsSound d c
      → IsSound d (promote_entry_in d cp p.entry_id p.leaf_index p.inclusion_path c).1
  promote_entry_in-IsSound c cp p o h s =
      let committed : (promote_entry d cp p.entry_id p.leaf_index p.inclusion_path c).1
          ≡ (promote_entry_in d cp p.entry_id p.leaf_index p.inclusion_path c).1 =
        unfold promote_entry in unfold with_transaction in ground (arith, h) in
      rw committed at (promote-IsSound d c cp p.entry_id p.leaf_index p.inclusion_path s)

  promote_all-IsSound :
      (c : Connection) (cp : Checkpoint) (pending : List PendingPromotion)
      → (promote_all d cp pending c).0 ≡ ok tt
      → IsSound d c
      → IsSound d (promote_all d cp pending c).1
  unfolding promote_all
  promote_all-IsSound c cp [] h s = s
  promote_all-IsSound c cp (p ∷ pending) h s =
      elim (Result-cases (promote_entry_in d cp p.entry_id p.leaf_index p.inclusion_path c).0) [
        | inr (e, failed) ↦ absurd (ground (arith, failed))
        | inl (o, done) ↦
            let next = (promote_entry_in d cp p.entry_id p.leaf_index p.inclusion_path c).1 in
            let rest : (promote_all d cp pending next).0 ≡ ok tt = ground (arith, done) in
            let sound =
              promote_all-IsSound next cp pending rest (promote_entry_in-IsSound c cp p o done s) in
            rw (promote_all, done) sound
      ]

  -- When a checkpoint is not admitted, whatever the reason, the store is as it was: none of its
  -- entries is promoted, and no series member or rotation anchor is recorded.
  pub ingest_checkpoint_leaves_no_trace :
      (config : Config d) (cp : Checkpoint) (raw : Option Bytes) (pending : List PendingPromotion)
      (rotation_for : Option ℕ) (c : Connection) (e : MirrorError)
      → (ingest_checkpoint d config cp raw pending rotation_for c).0 ≡ err e
      → (ingest_checkpoint d config cp raw pending rotation_for c).1 ≡ c
  unfolding ingest_checkpoint with_transaction
  ingest_checkpoint_leaves_no_trace config cp raw pending rotation_for c e h =
      elim (Result-cases (decide_admission d c config cp raw pending rotation_for)) [
        | inr (e, failed) ↦ ground (arith, failed)
        | inl (admission, decided) ↦
            elim (Result-cases (from_ahl (d.parse_hash_hex cp.root_hash))) [
              | inr (e, failed) ↦ ground (arith, decided, failed)
              | inl (root, parsed) ↦
                  elim (Result-cases (commit_admission d cp pending root admission c).0) [
                    | inr (e, failed) ↦ ground (arith, decided, parsed, failed)
                    | inl (done, committed) ↦ absurd (ground (arith, decided, parsed, committed))
                  ]
            ]
      ]

  -- An admitted checkpoint verifies under a log key of the last version of the governance that the
  -- entries visible to it prove, or it anchors a rotation; it is a series member exactly when it
  -- verifies so. Its tree size fits the signed columns, and its root is a hash.
  pub decide_admission_sound :
      (c : Connection) (config : Config d) (cp : Checkpoint) (raw : Option Bytes)
      (pending : List PendingPromotion) (rotation_for : Option ℕ) (admission : Admission)
      → decide_admission d c config cp raw pending rotation_for ≡ ok admission
      → (root : Hash) × (prefix : List Bytes) × (history : List (GovernanceState d))
        × (governance : GovernanceState d) × (from_ahl (d.parse_hash_hex cp.root_hash) ≡ ok root)
        × (build_visible_prefix d c pending cp.tree_size root ≡ ok prefix)
        × (versions d prefix config ≡ ok history)
        × (last_version d history ≡ some governance)
        × (rotation_anchors_for d history config cp raw rotation_for
            ≡ ok admission.rotation_anchors)
        × (admission.series_member ≡ is_ok (verifies_under d governance config cp raw))
        × ((admission.series_member ≡ false) → admission.rotation_anchors ≢ [])
        × (cp.tree_size ≤ i64_max)
  unfolding decide_admission
  decide_admission_sound c config cp raw pending rotation_for admission h =
      elim (Result-cases (from_ahl (d.parse_hash_hex cp.root_hash))) [
        | inr (e, failed) ↦ absurd (ground (arith, failed))
        | inl (root, parsed) ↦
            elim (Result-cases (build_visible_prefix d c pending cp.tree_size root)) [
              | inr (e, failed) ↦ absurd (ground (arith, parsed, failed))
              | inl (prefix, visible) ↦ elim (Result-cases (versions d prefix config)) [
                | inr (e, failed) ↦ absurd (ground (arith, parsed, visible, failed))
                | inl (history, resolved) ↦ elim (Option-cases (last_version d history)) [
                  | inl e ↦ absurd (ground (arith, parsed, visible, resolved, e))
                  | inr (governance, last) ↦
                      elim (Result-cases
                        (rotation_anchors_for d history config cp raw rotation_for)) [
                          | inr (e, failed) ↦
                              absurd (ground (arith, parsed, visible, resolved, last, failed))
                          | inl (anchors, anchored) ↦ (
                            root,
                            prefix,
                            history,
                            governance,
                            parsed,
                            visible,
                            resolved,
                            last,
                            ground (arith, parsed, visible, resolved, last, anchored),
                            ground (arith, parsed, visible, resolved, last, anchored),
                            ground (arith, parsed, visible, resolved, last, anchored),
                            ground (arith, parsed, visible, resolved, last, anchored),
                          )
                        ]
                ]
              ]
            ]
      ]

  -- What soundness is about: everything but the two checkpoint tables.
  abbrev pub core : Connection → Connection
  core c = record c { checkpoints = []; rotation_checkpoints = [] }

  IsSound-core : (c : Connection) → IsSound d (core c) → IsSound d c
  IsSound-core c s = record {
    valid = record {
      numbered = s.valid.numbered;
      distinct = s.valid.distinct;
      hashed = s.valid.hashed;
      addressable = s.valid.addressable;
      cached = s.valid.cached;
    };
    staged = s.staged;
    canonical = s.canonical;
  }

  core-IsSound : (c : Connection) → IsSound d c → IsSound d (core c)
  core-IsSound c s = record {
    valid = record {
      numbered = s.valid.numbered;
      distinct = s.valid.distinct;
      hashed = s.valid.hashed;
      addressable = s.valid.addressable;
      cached = s.valid.cached;
    };
    staged = s.staged;
    canonical = s.canonical;
  }

  core-record_member :
      (member : Bool) (cp : Checkpoint) (c : Connection)
      → core (record_member d member cp c).1 ≡ core c
  unfolding record_member insert_checkpoint_raw
  core-record_member false cp c = refl
  core-record_member true cp c = ground arith

  core-insert_rotation :
      (index : ℕ) (cp : Checkpoint) (c : Connection)
      → core (insert_rotation_checkpoint_raw index cp c).1 ≡ core c
  unfolding insert_rotation_checkpoint_raw
  core-insert_rotation index cp c = ground arith

  core-record_anchors :
      (indexes : List ℕ) (cp : Checkpoint) (c : Connection)
      → core (record_anchors d indexes cp c).1 ≡ core c
  unfolding record_anchors
  core-record_anchors [] cp c = refl
  core-record_anchors (index ∷ indexes) cp c =
      let next = (insert_rotation_checkpoint_raw index cp c).1 in
      ground (arith, core-insert_rotation index cp c, core-record_anchors indexes cp next)

  pub commit_admission-core :
      (c : Connection) (cp : Checkpoint) (pending : List PendingPromotion) (root : Hash)
      (admission result : Admission)
      → (commit_admission d cp pending root admission c).0 ≡ ok result
      → ((promote_all d cp pending c).0 ≡ ok tt)
        × (core (commit_admission d cp pending root admission c).1
            ≡ core (promote_all d cp pending c).1)
  unfolding commit_admission
  commit_admission-core c cp pending root admission result h =
      elim (Result-cases (promote_all d cp pending c).0) [
        | inr (e, failed) ↦ absurd (ground (arith, failed))
        | inl (done, promoted) ↦
            let after = (promote_all d cp pending c).1 in
            let recorded = (record_member d admission.series_member cp after).1 in
            (
              ground (arith, promoted),
              ground (
                arith,
                promoted,
                core-record_member admission.series_member cp after,
                core-record_anchors admission.rotation_anchors cp recorded,
              ),
            )
      ]

  pub commit_admission-IsSound :
      (c : Connection) (cp : Checkpoint) (pending : List PendingPromotion) (root : Hash)
      (admission result : Admission)
      → (commit_admission d cp pending root admission c).0 ≡ ok result
      → IsSound d c
      → IsSound d (commit_admission d cp pending root admission c).1
  commit_admission-IsSound c cp pending root admission result committed s =
      let (promoted, same) = commit_admission-core c cp pending root admission result committed in
      let sound = promote_all-IsSound c cp pending promoted s in
      IsSound-core _ (rw same (core-IsSound (promote_all d cp pending c).1 sound))

  -- Checkpoint ingestion, admitted or refused, keeps a sound store sound: canonical storage stays
  -- gap-free with distinct ids, every entry stands under the hash of its bytes, and the tree material
  -- is exactly that of the canonical entries.
  pub ingest_checkpoint-IsSound :
      (config : Config d) (cp : Checkpoint) (raw : Option Bytes) (pending : List PendingPromotion)
      (rotation_for : Option ℕ) (c : Connection)
      → IsSound d c
      → IsSound d (ingest_checkpoint d config cp raw pending rotation_for c).1
  unfolding ingest_checkpoint with_transaction
  ingest_checkpoint-IsSound config cp raw pending rotation_for c s =
      elim (Result-cases (decide_admission d c config cp raw pending rotation_for)) [
        | inr (e, failed) ↦ rw (ingest_checkpoint, failed) s
        | inl (admission, decided) ↦
            elim (Result-cases (from_ahl (d.parse_hash_hex cp.root_hash))) [
              | inr (e, failed) ↦ rw (ingest_checkpoint, decided, failed) s
              | inl (root, parsed) ↦
                  elim (Result-cases (commit_admission d cp pending root admission c).0) [
                    | inr (e, failed) ↦
                        rw (ingest_checkpoint, decided, parsed, with_transaction, failed) s
                    | inl (result, committed) ↦
                        let sound =
                          commit_admission-IsSound c cp pending root admission result committed s in
                        rw (ingest_checkpoint, decided, parsed, with_transaction, committed) sound
                  ]
            ]
      ]
