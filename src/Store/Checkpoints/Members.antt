-- ===== src/Store/Checkpoints/Members.antt =====
-- The canonical series as `insert_checkpoint_raw` of src/store.rs grows it.
use ahl_mirror.Prelude.{
  ℕ, Text, some, [], ◌∷◌, ◌++◌, ◌≡◌, arith, refl, inl, inr, Option-cases, find_row-append,
}
use ahl_mirror.Store.Schema.{Connection, Checkpoint}
use ahl_mirror.Store.Checkpoints.{member_at, insert_checkpoint_raw}

abbrev with_member : Connection → Checkpoint → Connection
with_member c cp = record c { checkpoints = c.checkpoints ++ cp ∷ [] }

member_at-stays :
    (c : Connection) (cp member : Checkpoint) (size : ℕ) (time : Text)
    → member_at c size time ≡ some member
    → member_at (with_member c cp) size time ≡ some member
unfolding member_at
member_at-stays c cp member size time h = rw (find_row-append, h) refl

-- The series only grows: whatever is recorded, and with whatever outcome, the member under a size and
-- a time stays the member under them.
pub insert_checkpoint_keeps_members :
    (c : Connection) (cp member : Checkpoint) (size : ℕ) (time : Text)
    → member_at c size time ≡ some member
    → member_at (insert_checkpoint_raw cp c).1 size time ≡ some member
unfolding insert_checkpoint_raw
insert_checkpoint_keeps_members c cp member size time h =
    elim (Option-cases (member_at c cp.tree_size cp.checkpoint_time)) [
      | inl e ↦ ground (arith, e, h, member_at-stays c cp member size time h)
      | inr (other, e) ↦ ground (arith, e, h)
    ]
