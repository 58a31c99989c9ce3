-- ===== src/Store/Checkpoints.antt =====
-- src/store.rs: the canonical checkpoint series and, apart from it, the rotation-anchoring checkpoints.
pub mod Members
pub mod Order
pub mod Anchors
use ahl_mirror.Prelude.{
  ℕ, Text, Option, none, some, List, [], ◌∷◌, ◌++◌, Bool, ◌&&◌, ◌==◌, eq_bytes, le_bytes,
  if◌then◌else◌, find_row, select, map,
}
use ahl_mirror.Error.{MirrorResult, ok, err, series_member_conflict}
use ahl_mirror.Store.Schema.{
  Connection, Checkpoint, RotationRow, eq_checkpoint, InsertOutcome, inserted, already_present,
  to_i64,
}
use ahl_mirror.Store.Exec.{Exec, pure, lift, query, execute, ◌>>=◌, ◌>>◌}
use ahl_mirror.Store.Rows.{order_by, at_most}

-- The first row, `LIMIT 1`.
abbrev pub first {ℓ} : {A : Type ℓ} → List A → Option A
first [] = none
first (x ∷ xs) = some x

-- A row under the same key: the same checkpoint, or a conflict.
abbrev check_member : Checkpoint → Checkpoint → MirrorResult InsertOutcome
check_member existing cp =
    if eq_checkpoint existing cp
    then ok already_present
    else err (series_member_conflict cp.tree_size cp.checkpoint_time)

-- WHERE tree_size = ?1 AND checkpoint_time = ?2
unfoldable pub member_at : Connection → ℕ → Text → Option Checkpoint
member_at c size time =
    find_row (λ cp. cp.tree_size == size && eq_bytes cp.checkpoint_time time) c.checkpoints

unfoldable pub insert_checkpoint_raw : Checkpoint → Exec InsertOutcome
insert_checkpoint_raw cp = do
  size ← lift (to_i64 "tree_size" cp.tree_size)
  existing ← query (λ c. ok (member_at c size cp.checkpoint_time))
  elim existing [
    | some member ↦ lift (check_member member cp)
    | none ↦ do execute (λ c. record c { checkpoints = c.checkpoints ++ cp ∷ [] }); pure inserted
  ]

-- ORDER BY checkpoint_time DESC
abbrev later_first : Checkpoint → Checkpoint → Bool
later_first a b = le_bytes b.checkpoint_time a.checkpoint_time

-- `Store::get_checkpoint`
unfoldable pub get_checkpoint : Connection → ℕ → MirrorResult (Option Checkpoint)
get_checkpoint c tree_size = elim (to_i64 "tree_size" tree_size) [
  | err e ↦ err e
  | ok size ↦ ok (first (order_by later_first (select (λ cp. cp.tree_size == size) c.checkpoints)))
]

-- `Store::all_checkpoints`
unfoldable pub all_checkpoints : Connection → List Checkpoint
all_checkpoints c = order_by at_most c.checkpoints

-- WHERE manifest_entry_index = ?1
unfoldable pub anchors_of : ℕ → List RotationRow → List Checkpoint
anchors_of index [] = []
anchors_of index (row ∷ rows) =
    let rest = anchors_of index rows in
    if row.manifest_entry_index == index then row.checkpoint ∷ rest else rest

-- ORDER BY tree_size ASC, checkpoint_time ASC LIMIT 1
unfoldable pub earliest : List Checkpoint → Option Checkpoint
earliest rows = first (order_by at_most rows)

unfoldable pub insert_rotation_checkpoint_raw : ℕ → Checkpoint → Exec InsertOutcome
insert_rotation_checkpoint_raw manifest_entry_index cp = do
  index ← lift (to_i64 "manifest_entry_index" manifest_entry_index)
  size ← lift (to_i64 "tree_size" cp.tree_size)
  existing ← query (λ c. ok (
      find_row (λ held. held.tree_size == size && eq_bytes held.checkpoint_time cp.checkpoint_time)
        (anchors_of index c.rotation_checkpoints)))
  elim existing [
    | some member ↦ lift (check_member member cp)
    | none ↦ do
      held ← query (λ c. ok (earliest (anchors_of index c.rotation_checkpoints)))
      elim held [
        | some member ↦ if at_most member cp then pure already_present else do
          execute (λ c. record c {
            rotation_checkpoints =
                c.rotation_checkpoints
                ++ record { manifest_entry_index = index; checkpoint = cp } ∷ [];
          })
          pure inserted
        | none ↦ do
          execute (λ c. record c {
            rotation_checkpoints =
                c.rotation_checkpoints
                ++ record { manifest_entry_index = index; checkpoint = cp } ∷ [];
          })
          pure inserted
      ]
  ]

-- `Store::get_rotation_checkpoint`
unfoldable pub get_rotation_checkpoint : Connection → ℕ → MirrorResult (Option Checkpoint)
get_rotation_checkpoint c manifest_entry_index =
    elim (to_i64 "manifest_entry_index" manifest_entry_index) [
      | err e ↦ err e
      | ok index ↦ ok (earliest (anchors_of index c.rotation_checkpoints))
    ]

abbrev row_at_most : RotationRow → RotationRow → Bool
row_at_most a b = at_most a.checkpoint b.checkpoint

-- `Store::all_rotation_checkpoints`
unfoldable pub all_rotation_checkpoints : Connection → List (ℕ × Checkpoint)
all_rotation_checkpoints c =
    map (λ (row : RotationRow). (row.manifest_entry_index, row.checkpoint))
      (order_by row_at_most c.rotation_checkpoints)
