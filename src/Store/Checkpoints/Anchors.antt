-- ===== src/Store/Checkpoints/Anchors.antt =====
-- Which checkpoint anchors a rotation, `insert_rotation_checkpoint_raw` of src/store.rs.
use ahl_mirror.Prelude.{
  ℕ, Option, some, List, [], ◌∷◌, ◌++◌, Bool, true, ◌≡◌, ◌≢◌, ◌==◌, ◌&&◌, arith, refl, eq_bytes,
  ◌⊎◌, inl, inr, leb, i64_max, Option-cases, find_row, Bool-cases,
}
use ahl_mirror.Error.{ok}
use ahl_mirror.Store.Schema.{Connection, Checkpoint, RotationRow, InsertOutcome, eq_checkpoint→eq}
use ahl_mirror.Store.Rows.{at_most}
use ahl_mirror.Store.Checkpoints.{
  anchors_of, earliest, insert_rotation_checkpoint_raw, get_rotation_checkpoint,
}
use ahl_mirror.Store.Checkpoints.Order.{earlier, earliest_snoc, earliest_least}

abbrev pub anchor_row : ℕ → Checkpoint → RotationRow
anchor_row index cp = record { manifest_entry_index = index; checkpoint = cp }

anchors_of-here :
    (index : ℕ) (cp : Checkpoint) (rows : List RotationRow)
    → anchors_of index (rows ++ anchor_row index cp ∷ []) ≡ anchors_of index rows ++ cp ∷ []
unfolding anchors_of
anchors_of-here index cp [] = ground arith
anchors_of-here index cp (row ∷ rows) = ground (arith, anchors_of-here index cp rows)

anchors_of-other :
    (other index : ℕ) (cp : Checkpoint) (rows : List RotationRow)
    → other ≢ index
    → anchors_of other (rows ++ anchor_row index cp ∷ []) ≡ anchors_of other rows
unfolding anchors_of
anchors_of-other other index cp [] h = ground arith
anchors_of-other other index cp (row ∷ rows) h =
    ground (arith, anchors_of-other other index cp rows h)

-- What an insertion under `index` leaves: the table as it was, or one more row.
abbrev with_anchor : Connection → ℕ → Checkpoint → Connection
with_anchor c index cp = record c {
  rotation_checkpoints = c.rotation_checkpoints ++ anchor_row index cp ∷ [];
}

abbrev pub held_for : Connection → ℕ → Option Checkpoint
held_for c index = earliest (anchors_of index c.rotation_checkpoints)

insertion_cases :
    (c : Connection) (index : ℕ) (cp : Checkpoint) (o : InsertOutcome)
    → (insert_rotation_checkpoint_raw index cp c).0 ≡ ok o
    → (leb index i64_max ≡ true)
      × (((insert_rotation_checkpoint_raw index cp c).1 ≡ with_anchor c index cp)
          ⊎ (((insert_rotation_checkpoint_raw index cp c).1 ≡ c)
              × (held_for c index ≡ some (earlier (held_for c index) cp))))
unfolding insert_rotation_checkpoint_raw
insertion_cases c index cp o h =
    let rows = anchors_of index c.rotation_checkpoints in
    let same : Checkpoint → Bool =
      λ held. held.tree_size == cp.tree_size && eq_bytes held.checkpoint_time cp.checkpoint_time in
    (
      ground arith,
      elim (Option-cases (find_row same rows)) [
        | inr (member, found) ↦
            let (held, first, least) = earliest_least same rows member found in
            inr (
              ground (arith, found),
              ground (arith, found, first, least, eq_checkpoint→eq member cp),
            )
        | inl new ↦ elim (Option-cases (earliest rows)) [
          | inl e ↦ inl (ground (arith, new, e))
          | inr (held, e) ↦ elim (Bool-cases (at_most held cp)) [
            | inl sooner ↦ inr (ground (arith, new, e), ground (arith, e, sooner))
            | inr later ↦ inl (ground (arith, new, e, later))
          ]
        ]
      ],
    )

-- When recording a checkpoint for a rotation succeeds, the checkpoint then served for that rotation is
-- the earlier, by size and then by time, of the one served before and the new one; the one served
-- before stays in a tie. Those of every other rotation, and the canonical series, stay as they were.
pub get_rotation_checkpoint-insert :
    (c : Connection) (index : ℕ) (cp : Checkpoint) (o : InsertOutcome)
    → (insert_rotation_checkpoint_raw index cp c).0 ≡ ok o
    → (get_rotation_checkpoint (insert_rotation_checkpoint_raw index cp c).1 index
        ≡ ok (some (earlier (held_for c index) cp)))
      × ((other : ℕ)
          → other ≢ index
          → get_rotation_checkpoint (insert_rotation_checkpoint_raw index cp c).1 other
            ≡ get_rotation_checkpoint c other)
      × ((insert_rotation_checkpoint_raw index cp c).1.checkpoints ≡ c.checkpoints)
unfolding get_rotation_checkpoint
get_rotation_checkpoint-insert c index cp o h =
    let (fits, cases) = insertion_cases c index cp o h in
    elim cases [
      | inr (same, held) ↦
          (rw same (ground (arith, fits, held)), λ other apart. rw same refl, rw same refl)
      | inl more ↦
          let rows = c.rotation_checkpoints in
          let here = anchors_of-here index cp rows in
          let first = earliest_snoc (anchors_of index rows) cp in
          (
            rw more (ground (arith, fits, here, first)),
            λ other apart. rw more (ground (arith, anchors_of-other other index cp rows apart)),
            rw more refl,
          )
    ]
