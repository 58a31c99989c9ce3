-- ===== src/Store/Migration/Backfill.antt =====
-- The backfill of src/store.rs fills every missing leaf hash, and it ends.
use ahl_mirror.Prelude.{
  ℕ, zero, suc, ◌≤◌, ◌<◌, none, some, List, [], ◌∷◌, true, false, ◌==◌, ◌≡◌, ◌≢◌, refl, sym, ap,
  ap₂, subst, ◌∙◌, arith, ◌⊎◌, inl, inr, length, take, map, select, In, In-select, Bool-cases,
}
use ahl_mirror.Deps.{Deps, Hash}
use ahl_mirror.Metadata.{log_leaf_hash}
use ahl_mirror.Store.Schema.{Connection, EntryRow}
use ahl_mirror.Store.Rows.{order_by, insert_ordered, by_index}
use ahl_mirror.Store.Tree.{Numbered}
use ahl_mirror.Store.Migration.{
  backfill_batch, lacks_leaf_hash, next_batch, set_leaf_hash, fill_batch, backfill_rounds,
  backfill_leaf_hashes,
}

-- How many rows lack a leaf hash.
abbrev missing : List EntryRow → ℕ
missing rows = length (select lacks_leaf_hash rows)

List-cases :
    (rows : List EntryRow)
    → (rows ≡ []) ⊎ ((row : EntryRow) × (rest : List EntryRow) × (rows ≡ row ∷ rest))
List-cases [] = inl refl
List-cases (row ∷ rest) = inr (row, rest, refl)

length_zero : (rows : List EntryRow) → length rows ≡ 0 → rows ≡ []
length_zero [] e = refl
length_zero (row ∷ rows) e = absurd (omega arith)

In-insert_ordered :
    (row new : EntryRow) (rows : List EntryRow)
    → In row (insert_ordered by_index new rows)
    → (new ≡ row) ⊎ In row rows
unfolding insert_ordered
In-insert_ordered row new [] h = h
In-insert_ordered row new (other ∷ rows) h = elim (Bool-cases (by_index new other)) [
  | inl first ↦ (rw first at h)
  | inr later ↦ elim (rw later at h) [
    | inl e ↦ inr (inl e)
    | inr rest ↦ elim (In-insert_ordered row new rows rest) [
      | inl e ↦ inl e
      | inr there ↦ inr (inr there)
    ]
  ]
]

pub order_by-In :
    (row : EntryRow) (rows : List EntryRow) → In row (order_by by_index rows) → In row rows
unfolding order_by
order_by-In row [] h = h
order_by-In row (other ∷ rows) h = elim (In-insert_ordered row other (order_by by_index rows) h) [
  | inl e ↦ inl e
  | inr there ↦ inr (order_by-In row rows there)
]

take-In : (n : ℕ) (row : EntryRow) (rows : List EntryRow) → In row (take n rows) → In row rows
take-In zero row rows h = absurd h
take-In (suc n) row [] h = absurd h
take-In (suc n) row (other ∷ rows) (inl e) = inl e
take-In (suc n) row (other ∷ rows) (inr h) = inr (take-In n row rows h)

insert_ordered≢nil : (new : EntryRow) (rows : List EntryRow) → insert_ordered by_index new rows ≢ []
unfolding insert_ordered
insert_ordered≢nil new [] e = cc
insert_ordered≢nil new (row ∷ rows) e = ground arith

next_batch-In :
    (row : EntryRow) (rows : List EntryRow)
    → In row (next_batch rows)
    → In row rows × (lacks_leaf_hash row ≡ true)
unfolding next_batch
next_batch-In row rows h =
    In-select lacks_leaf_hash row rows (order_by-In row _ (take-In backfill_batch row _ h))

take_nil : (n : ℕ) (rows : List EntryRow) → take (suc n) rows ≡ [] → rows ≡ []
take_nil n [] h = refl
take_nil n (row ∷ rows) h = cc

order_by_nil : (rows : List EntryRow) → order_by by_index rows ≡ [] → length rows ≡ 0
unfolding order_by
order_by_nil [] h = refl
order_by_nil (row ∷ rows) h = absurd (insert_ordered≢nil row _ h)

next_batch_nil : (rows : List EntryRow) → next_batch rows ≡ [] → missing rows ≡ 0
unfolding next_batch
next_batch_nil rows h = order_by_nil _ (take_nil 1023 _ h)

missing-set_leaf_hash :
    (hash : Hash) (index : ℕ) (rows : List EntryRow)
    → missing (set_leaf_hash hash index rows) ≤ missing rows
unfolding set_leaf_hash select
missing-set_leaf_hash hash index [] = omega arith
missing-set_leaf_hash hash index (row ∷ rows) =
    ground (arith, missing-set_leaf_hash hash index rows)

set_leaf_hash_fills :
    (hash : Hash) (row : EntryRow) (rows : List EntryRow)
    → In row rows
    → lacks_leaf_hash row ≡ true
    → missing (set_leaf_hash hash row.entry_index rows) < missing rows
unfolding set_leaf_hash select
set_leaf_hash_fills hash row [] h lacks = absurd h
set_leaf_hash_fills hash row (other ∷ rows) (inl e) lacks =
    rw e (ground (arith, lacks, missing-set_leaf_hash hash row.entry_index rows))
set_leaf_hash_fills hash row (other ∷ rows) (inr h) lacks =
    ground (arith, set_leaf_hash_fills hash row rows h lacks)

module _ (d : Deps) where
  -- The row with the leaf hash that it should have.
  abbrev pub with_leaf_hash : EntryRow → EntryRow
  with_leaf_hash row = record row { leaf_hash = some (log_leaf_hash d row.envelope) }

  -- The row after the backfill: what it had, or the log leaf hash of its envelope.
  abbrev pub filled : EntryRow → EntryRow
  filled row = elim row.leaf_hash [ none ↦ with_leaf_hash row | some hash ↦ row ]

  -- The row is the other one, or the other one filled.
  abbrev IsRowOf : EntryRow → EntryRow → Type 0
  IsRowOf b a = (b ≡ a) ⊎ (b ≡ filled a)

  -- Some rows of the first list are filled in the second one, the others are as they were.
  data Between : List EntryRow → List EntryRow → Type 0 where
    none_left : Between [] []
    and_row :
        {a b : EntryRow} {xs ys : List EntryRow}
        → IsRowOf b a
        → Between xs ys
        → Between (a ∷ xs) (b ∷ ys)

  Between-refl : (rows : List EntryRow) → Between rows rows
  Between-refl [] = none_left
  Between-refl (row ∷ rows) = and_row (inl refl) (Between-refl rows)

  IsRowOf-trans : (a b c : EntryRow) → IsRowOf b a → IsRowOf c b → IsRowOf c a
  IsRowOf-trans a b c h k = ground arith

  Between-trans : {xs ys zs : List EntryRow} → Between xs ys → Between ys zs → Between xs zs
  Between-trans none_left none_left = none_left
  Between-trans (and_row {a = a} {b = b} h hs) (and_row {b = c} k ks) =
      and_row (IsRowOf-trans a b c h k) (Between-trans hs ks)

  same_index : (a b : EntryRow) → IsRowOf b a → b.entry_index ≡ a.entry_index
  same_index a b h = ground arith

  Between-Numbered :
      {xs ys : List EntryRow} (start : ℕ) → Between xs ys → Numbered start xs → Numbered start ys
  Between-Numbered start none_left n = tt
  Between-Numbered start (and_row {a = a} {b = b} h hs) n =
      (same_index a b h ∙ n.0, Between-Numbered (suc start) hs n.1)

  -- A row is the only one at its index.
  Numbered-least :
      (start : ℕ) (row : EntryRow) (rows : List EntryRow)
      → Numbered start rows
      → In row rows
      → start ≤ row.entry_index
  Numbered-least start row [] n h = absurd h
  Numbered-least start row (other ∷ rows) n (inl e) =
      omega (arith, n.0, ap (λ (r : EntryRow). r.entry_index) e)
  Numbered-least start row (other ∷ rows) n (inr h) =
      let past = Numbered-least (suc start) row rows n.1 h in omega arith

  set_leaf_hash_before :
      {xs ys : List EntryRow} (hash : Hash) (index start : ℕ)
      → Numbered start xs
      → Between xs ys
      → index < start
      → Between xs (set_leaf_hash hash index ys)
  unfolding set_leaf_hash
  set_leaf_hash_before hash index start n none_left before = none_left
  set_leaf_hash_before hash index start n (and_row {a = a} {b = b} h hs) before =
      let apart : b.entry_index == index ≡ false = ground (arith, n.0, same_index a b h) in
      rw apart (and_row h (set_leaf_hash_before hash index (suc start) n.1 hs (omega arith)))

  filled_now :
      (a b : EntryRow)
      → lacks_leaf_hash a ≡ true
      → IsRowOf b a
      → record b { leaf_hash = some (log_leaf_hash d a.envelope) } ≡ filled a
  filled_now a b lacks h = ground arith

  -- One write of the loop: a row of the original rows that lacks its leaf hash gets it.
  set_leaf_hash-Between :
      {xs ys : List EntryRow} (row : EntryRow) (start : ℕ)
      → Numbered start xs
      → Between xs ys
      → In row xs
      → lacks_leaf_hash row ≡ true
      → Between xs (set_leaf_hash (log_leaf_hash d row.envelope) row.entry_index ys)
  unfolding set_leaf_hash
  set_leaf_hash-Between row start n none_left here lacks = none_left
  set_leaf_hash-Between row start n (and_row {a = a} {b = b} h hs) (inl e) lacks =
      let at_row : b.entry_index == row.entry_index ≡ true =
        ground (arith, same_index a b h, ap (λ (r : EntryRow). r.entry_index) e) in
      rw at_row (
        and_row
          (inr
            (rw (sym e) (filled_now a b (subst (λ r. lacks_leaf_hash r ≡ true) (sym e) lacks) h)))
          (set_leaf_hash_before _ row.entry_index (suc start) n.1 hs
            (omega (arith, n.0, ap (λ (r : EntryRow). r.entry_index) e))))
  set_leaf_hash-Between row start n (and_row {a = a} {b = b} h hs) (inr there) lacks =
      let past = Numbered-least (suc start) row _ n.1 there in
      let apart : b.entry_index == row.entry_index ≡ false =
        ground (arith, n.0, same_index a b h) in
      rw apart (and_row h (set_leaf_hash-Between row (suc start) n.1 hs there lacks))

  fill_batch-Between :
      {xs : List EntryRow} (batch : List EntryRow) {ys : List EntryRow}
      → Numbered 0 xs
      → Between xs ys
      → ((row : EntryRow) → In row batch → In row xs × (lacks_leaf_hash row ≡ true))
      → Between xs (fill_batch d batch ys)
  unfolding fill_batch
  fill_batch-Between [] n h from = h
  fill_batch-Between (row ∷ batch) n h from =
      let (here, lacks) = from row (inl refl) in
      fill_batch-Between batch n (set_leaf_hash-Between row 0 n h here lacks)
        (λ other there. from other (inr there))

  missing-fill_batch :
      (batch rows : List EntryRow) → missing (fill_batch d batch rows) ≤ missing rows
  unfolding fill_batch
  missing-fill_batch [] rows = omega arith
  missing-fill_batch (row ∷ batch) rows =
      let hash = log_leaf_hash d row.envelope in
      omega (
        arith,
        missing-fill_batch batch (set_leaf_hash hash row.entry_index rows),
        missing-set_leaf_hash hash row.entry_index rows,
      )

  fill_batch_fills :
      (row : EntryRow) (batch rows : List EntryRow)
      → In row rows
      → lacks_leaf_hash row ≡ true
      → missing (fill_batch d (row ∷ batch) rows) < missing rows
  unfolding fill_batch
  fill_batch_fills row batch rows here lacks =
      let hash = log_leaf_hash d row.envelope in
      omega (
        arith,
        missing-fill_batch batch (set_leaf_hash hash row.entry_index rows),
        set_leaf_hash_fills hash row rows here lacks,
      )

  -- More rounds than rows without a leaf hash are enough; every round fills one at least.
  backfill_rounds_end :
      (rounds : ℕ) (xs : List EntryRow)
      → missing xs < rounds
      → (ys : List EntryRow) × (backfill_rounds d rounds xs ≡ some ys)
        × (missing ys ≡ 0)
        × (Numbered 0 xs → Between xs ys)
  unfolding backfill_rounds
  backfill_rounds_end zero xs enough = absurd (omega arith)
  backfill_rounds_end (suc rounds) xs enough = elim (List-cases (next_batch xs)) [
    | inl e ↦ (xs, rw (backfill_rounds, e) refl, next_batch_nil xs e, λ n. Between-refl xs)
    | inr (row, batch, e) ↦
        let from : (other : EntryRow)
            → In other (row ∷ batch)
            → In other xs × (lacks_leaf_hash other ≡ true) =
          λ other there. next_batch-In other xs (subst (λ b. In other b) (sym e) there) in
        let (here, lacks) = from row (inl refl) in
        let fewer = fill_batch_fills row batch xs here lacks in
        let (ys, run, none_missing, between) =
          backfill_rounds_end rounds (fill_batch d (row ∷ batch) xs) (omega arith) in
        (
          ys,
          rw (backfill_rounds, e) run,
          none_missing,
          λ n.
              let first = fill_batch-Between (row ∷ batch) n (Between-refl xs) from in
              Between-trans first (between (Between-Numbered 0 first n)),
        )
  ]

  row_filled : (a b : EntryRow) → IsRowOf b a → lacks_leaf_hash b ≡ false → b ≡ filled a
  row_filled a b h kept = ground arith

  all_filled : {xs ys : List EntryRow} → Between xs ys → missing ys ≡ 0 → ys ≡ map filled xs
  unfolding select
  all_filled none_left e = refl
  all_filled (and_row {a = a} {b = b} h hs) e = elim (Bool-cases (lacks_leaf_hash b)) [
    | inl lacks ↦ absurd (ground arith)
    | inr kept ↦ ap₂ (λ x xs. x ∷ xs) (row_filled a b h kept) (all_filled hs (ground arith))
  ]

  missing-le : (rows : List EntryRow) → missing rows ≤ length rows
  unfolding select
  missing-le [] = omega arith
  missing-le (row ∷ rows) = ground (arith, missing-le rows)

  -- The backfill ends, whatever the table holds: with a round more than there are rows it returns, and
  -- no row is left without a leaf hash.
  pub backfill_leaf_hashes_terminates :
      (c : Connection)
      → (after : Connection) × (backfill_leaf_hashes d c ≡ some after)
        × (select lacks_leaf_hash after.entries ≡ [])
  unfolding backfill_leaf_hashes
  backfill_leaf_hashes_terminates c =
      let (rows, run, none_missing, between) =
        backfill_rounds_end (suc (length c.entries)) c.entries
          (omega (arith, missing-le c.entries)) in
      (record c { entries = rows }, rw (backfill_leaf_hashes, run) refl, length_zero _ none_missing)

  -- On gap-free storage the batches come to one pass over the rows: each row that has no leaf hash gets
  -- the log leaf hash of its envelope, and nothing else changes.
  pub backfill_leaf_hashes_lem :
      (c : Connection)
      → Numbered 0 c.entries
      → backfill_leaf_hashes d c ≡ some (record c { entries = map filled c.entries })
  unfolding backfill_leaf_hashes
  backfill_leaf_hashes_lem c n =
      let (rows, run, none_missing, between) =
        backfill_rounds_end (suc (length c.entries)) c.entries
          (omega (arith, missing-le c.entries)) in
      rw (backfill_leaf_hashes, run, all_filled (between n) none_missing) refl
