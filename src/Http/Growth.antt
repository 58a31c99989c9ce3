-- ===== src/Http/Growth.antt =====
-- src/store.rs under the writes of src/http.rs: the rows that a table has stay where they are.
use ahl_mirror.Prelude.{
  ap, subst, length, ℕ, Bytes, Text, List, [], ◌∷◌, ◌++◌, ◌≡◌, sym, refl, arith, true, false, Bool,
  ◌⊎◌, inl, inr,
}
use mathlib.Core.List.{append-nil, append_assoc}
use ahl_mirror.Error.{ok, Result-cases}
use ahl_mirror.Deps.{Deps, Hash}
use ahl_mirror.Store.Schema.{Connection, Checkpoint, InsertOutcome}
use ahl_mirror.Store.Exec.{with_transaction}
use ahl_mirror.Store.Checkpoints.{insert_checkpoint_raw, insert_rotation_checkpoint_raw}
use ahl_mirror.Store.Promotion.{promote_entry_cases, row_for}
use ahl_mirror.Ingest.{stage_entry, promote_entry, promote_entry_in}
use ahl_mirror.Ingest.History.{
  IsSound, with_staged, stage_cases, promote_entry_gate, stage-IsSound, promote-IsSound,
}
use ahl_mirror.Series.Admit.{
  PendingPromotion, Admission, promote_all, record_member, record_anchors, commit_admission,
}
use ahl_mirror.Series.Admit.Outcome.{commit_admission-IsSound, commit_admission-core}
use ahl_mirror.Http.Ledger.{
  Advances, stays, Advances-trans, ledger_of, ledger-staged, ledger-appended,
}

-- The rows of the second list begin with those of the first.
abbrev pub Extends {ℓ} : {A : Type ℓ} → List A → List A → Type ℓ
Extends {A = A} xs ys = (more : List A) × (ys ≡ xs ++ more)

pub Extends-refl {ℓ} : {A : Type ℓ} (xs : List A) → Extends xs xs
Extends-refl xs = ([], sym (append-nil xs))

Extends-trans {ℓ} : {A : Type ℓ} (xs ys zs : List A) → Extends xs ys → Extends ys zs → Extends xs zs
Extends-trans xs ys zs (us, e) (vs, f) = (us ++ vs, rw (f, e) (append_assoc xs us vs))

-- No row of the four tables that clients write is lost, changed or moved.
pub record Grows (c after : Connection) : Type 0 where
  pub staged : Extends c.staged_entries after.staged_entries
  pub entries : Extends c.entries after.entries
  pub checkpoints : Extends c.checkpoints after.checkpoints
  pub rotations : Extends c.rotation_checkpoints after.rotation_checkpoints

pub Grows-refl : (c : Connection) → Grows c c
Grows-refl c = record {
  staged = Extends-refl c.staged_entries;
  entries = Extends-refl c.entries;
  checkpoints = Extends-refl c.checkpoints;
  rotations = Extends-refl c.rotation_checkpoints;
}

pub Grows-trans : (a b c : Connection) → Grows a b → Grows b c → Grows a c
Grows-trans a b c g h = record {
  staged = Extends-trans a.staged_entries b.staged_entries c.staged_entries g.staged h.staged;
  entries = Extends-trans a.entries b.entries c.entries g.entries h.entries;
  checkpoints = Extends-trans a.checkpoints b.checkpoints c.checkpoints g.checkpoints h.checkpoints;
  rotations =
      Extends-trans a.rotation_checkpoints b.rotation_checkpoints c.rotation_checkpoints g.rotations
        h.rotations;
}

-- A write of one checkpoint, to either table, leaves the store or appends one row.
insert_checkpoint_raw_cases :
    (c : Connection) (cp : Checkpoint)
    → ((insert_checkpoint_raw cp c).1 ≡ c)
      ⊎ ((insert_checkpoint_raw cp c).1 ≡ record c { checkpoints = c.checkpoints ++ cp ∷ [] })
unfolding insert_checkpoint_raw
insert_checkpoint_raw_cases c cp = ground arith

insert_rotation_checkpoint_raw_cases :
    (c : Connection) (index : ℕ) (cp : Checkpoint)
    → ((insert_rotation_checkpoint_raw index cp c).1 ≡ c)
      ⊎ ((insert_rotation_checkpoint_raw index cp c).1 ≡ record c {
        rotation_checkpoints =
            c.rotation_checkpoints ++ record { manifest_entry_index = index; checkpoint = cp } ∷ [];
      })
unfolding insert_rotation_checkpoint_raw
insert_rotation_checkpoint_raw_cases c index cp = ground arith

insert_checkpoint_raw-Grows :
    (c : Connection) (cp : Checkpoint) → Grows c (insert_checkpoint_raw cp c).1
insert_checkpoint_raw-Grows c cp = elim (insert_checkpoint_raw_cases c cp) [
  | inl same ↦ rw same (Grows-refl c)
  | inr more ↦ rw more (record {
    staged = Extends-refl c.staged_entries;
    entries = Extends-refl c.entries;
    checkpoints = (cp ∷ [], refl);
    rotations = Extends-refl c.rotation_checkpoints;
  })
]

insert_rotation_checkpoint_raw-Grows :
    (c : Connection) (index : ℕ) (cp : Checkpoint)
    → Grows c (insert_rotation_checkpoint_raw index cp c).1
insert_rotation_checkpoint_raw-Grows c index cp =
    elim (insert_rotation_checkpoint_raw_cases c index cp) [
      | inl same ↦ rw same (Grows-refl c)
      | inr more ↦ rw more (record {
        staged = Extends-refl c.staged_entries;
        entries = Extends-refl c.entries;
        checkpoints = Extends-refl c.checkpoints;
        rotations = (record { manifest_entry_index = index; checkpoint = cp } ∷ [], refl);
      })
    ]

module _ (d : Deps) where
  -- What every write comes down to: a sound store after it, growth, and steps of the ledger.
  pub record Keeps (c after : Connection) : Type 0 where
    pub sound : IsSound d after
    pub grows : Grows c after
    pub advances : Advances d (ledger_of c) (ledger_of after)

  pub Keeps-refl : (c : Connection) → IsSound d c → Keeps c c
  Keeps-refl c s = record { sound = s; grows = Grows-refl c; advances = stays }

  pub Keeps-trans : (a b c : Connection) → Keeps a b → Keeps b c → Keeps a c
  Keeps-trans a b c g h = record {
    sound = h.sound;
    grows = Grows-trans a b c g.grows h.grows;
    advances = Advances-trans g.advances h.advances;
  }

  pub stage_entry-Keeps :
      (c : Connection) (id : Text) (bytes : Bytes) (metadata : d.Value)
      → IsSound d c
      → Keeps c (stage_entry d id bytes metadata c).1
  stage_entry-Keeps c id bytes metadata s =
      let sound = stage-IsSound d c id bytes metadata s in
      elim (stage_cases d c id bytes metadata) [
        | inl same ↦ rw same (Keeps-refl c s)
        | inr more ↦ record {
          sound = sound;
          grows = rw more (record {
            staged = (_, refl);
            entries = Extends-refl c.entries;
            checkpoints = Extends-refl c.checkpoints;
            rotations = Extends-refl c.rotation_checkpoints;
          });
          advances = rw more (ledger-staged d c (with_staged d c bytes) bytes refl refl);
        }
      ]

  pub promote_entry-Keeps :
      (c : Connection) (cp : Checkpoint) (id : Text) (index : ℕ) (path : List Text)
      → IsSound d c
      → Keeps c (promote_entry d cp id index path c).1
  promote_entry-Keeps c cp id index path s =
      let sound = promote-IsSound d c cp id index path s in
      elim (promote_entry_gate d c cp id index path) [
        | inl same ↦ rw same (Keeps-refl c s)
        | inr run ↦ elim (promote_entry_cases d c index id s.valid) [
          | inl (refused, same) ↦ rw (run, same) (Keeps-refl c s)
          | inr (row, roots, here, staged, free, appends, valid) ↦ record {
            sound = sound;
            grows =
                rw (run, appends)
                  (record {
                    staged = Extends-refl c.staged_entries;
                    entries = (_, refl);
                    checkpoints = Extends-refl c.checkpoints;
                    rotations = Extends-refl c.rotation_checkpoints;
                  });
            advances =
                rw (run, appends)
                  (ledger-appended d c
                    (record c { entries = c.entries ++ row_for d (length c.entries) row id ∷ [] })
                    id row (row_for d (length c.entries) row id) staged free refl refl refl refl);
          }
        ]
      ]

  promote_entry_in-Keeps :
      (c : Connection) (cp : Checkpoint) (p : PendingPromotion) (o : InsertOutcome)
      → (promote_entry_in d cp p.entry_id p.leaf_index p.inclusion_path c).0 ≡ ok o
      → IsSound d c
      → Keeps c (promote_entry_in d cp p.entry_id p.leaf_index p.inclusion_path c).1
  promote_entry_in-Keeps c cp p o h s =
      let committed : (promote_entry d cp p.entry_id p.leaf_index p.inclusion_path c).1
          ≡ (promote_entry_in d cp p.entry_id p.leaf_index p.inclusion_path c).1 =
        unfold promote_entry in unfold with_transaction in ground (arith, h) in
      rw committed at (promote_entry-Keeps c cp p.entry_id p.leaf_index p.inclusion_path s)

  promote_all-Keeps :
      (c : Connection) (cp : Checkpoint) (pending : List PendingPromotion)
      → (promote_all d cp pending c).0 ≡ ok tt
      → IsSound d c
      → Keeps c (promote_all d cp pending c).1
  unfolding promote_all
  promote_all-Keeps c cp [] h s = Keeps-refl c s
  promote_all-Keeps c cp (p ∷ pending) h s =
      elim (Result-cases (promote_entry_in d cp p.entry_id p.leaf_index p.inclusion_path c).0) [
        | inr (e, failed) ↦ absurd (ground (arith, failed))
        | inl (o, done) ↦
            let next = (promote_entry_in d cp p.entry_id p.leaf_index p.inclusion_path c).1 in
            let first = promote_entry_in-Keeps c cp p o done s in
            let rest = promote_all-Keeps next cp pending (ground (arith, done)) first.sound in
            rw (promote_all, done) (Keeps-trans c next (promote_all d cp pending next).1 first rest)
      ]

  record_member-Grows :
      (c : Connection) (member : Bool) (cp : Checkpoint) → Grows c (record_member d member cp c).1
  unfolding record_member
  record_member-Grows c false cp = Grows-refl c
  record_member-Grows c true cp = elim (Result-cases (insert_checkpoint_raw cp c).0) [
    | inr (e, failed) ↦ rw (record_member, failed) (insert_checkpoint_raw-Grows c cp)
    | inl (o, done) ↦ rw (record_member, done) (insert_checkpoint_raw-Grows c cp)
  ]

  record_anchors-Grows :
      (c : Connection) (indexes : List ℕ) (cp : Checkpoint)
      → Grows c (record_anchors d indexes cp c).1
  unfolding record_anchors
  record_anchors-Grows c [] cp = Grows-refl c
  record_anchors-Grows c (index ∷ indexes) cp =
      let first = insert_rotation_checkpoint_raw-Grows c index cp in
      let next = (insert_rotation_checkpoint_raw index cp c).1 in
      elim (Result-cases (insert_rotation_checkpoint_raw index cp c).0) [
        | inr (e, failed) ↦ rw (record_anchors, failed) first
        | inl (o, done) ↦
            rw (record_anchors, done)
              (Grows-trans c next (record_anchors d indexes cp next).1 first
                (record_anchors-Grows next indexes cp))
      ]

  committed-Grows :
      (c : Connection) (cp : Checkpoint) (pending : List PendingPromotion) (root : Hash)
      (admission result : Admission)
      → (commit_admission d cp pending root admission c).0 ≡ ok result
      → IsSound d c
      → Grows c (commit_admission d cp pending root admission c).1
  unfolding commit_admission
  committed-Grows c cp pending root admission result h s =
      elim (Result-cases (promote_all d cp pending c).0) [
        | inr (e, failed) ↦ absurd (ground (arith, failed))
        | inl (done, promoted) ↦
            let after = (promote_all d cp pending c).1 in
            let recorded = (record_member d admission.series_member cp after).1 in
            let anchored = (record_anchors d admission.rotation_anchors cp recorded).1 in
            let same : (commit_admission d cp pending root admission c).1 ≡ anchored =
              ground (arith, promoted) in
            rw same (
              Grows-trans c after anchored (promote_all-Keeps c cp pending promoted s).grows (
                Grows-trans after recorded anchored
                  (record_member-Grows after admission.series_member cp)
                  (record_anchors-Grows recorded admission.rotation_anchors cp)))
      ]

  -- The admission's transaction, whatever admission and root it was decided with.
  pub commit_admission-Keeps :
      (c : Connection) (cp : Checkpoint) (pending : List PendingPromotion) (root : Hash)
      (admission : Admission)
      → IsSound d c
      → Keeps c (with_transaction (commit_admission d cp pending root admission) c).1
  unfolding with_transaction
  commit_admission-Keeps c cp pending root admission s =
      elim (Result-cases (commit_admission d cp pending root admission c).0) [
        | inr (e, failed) ↦ rw (with_transaction, failed) (Keeps-refl c s)
        | inl (result, committed) ↦
            let (promoted, same) =
              commit_admission-core d c cp pending root admission result committed in
            rw (with_transaction, committed)
              (record {
                sound = commit_admission-IsSound d c cp pending root admission result committed s;
                grows = committed-Grows c cp pending root admission result committed s;
                advances =
                    subst (Advances d (ledger_of c)) (sym (ap ledger_of same))
                      (promote_all-Keeps c cp pending promoted s).advances;
              })
      ]
