-- ===== src/Store/Migration/Leaves.antt =====
-- What `leaf_hashes_range_raw` of src/store.rs reads of gap-free rows with their leaf hashes.
use ahl_mirror.Prelude.{
  ℕ, suc, ◌+◌, ◌≤◌, List, [], ◌∷◌, ◌++◌, ◌&&◌, ◌≡◌, refl, ap₂, ◌∙◌, arith, length, leb, ltb, select,
  get_elem?-append_here, i64_max, length-append,
}
use mathlib.Core.List.{append_assoc}
use ahl_mirror.Error.{ok}
use ahl_mirror.Deps.{Deps}
use ahl_mirror.Metadata.{log_leaf_hash, length-log_leaf_hash}
use ahl_mirror.Store.Schema.{Connection, EntryRow}
use ahl_mirror.Store.Rows.{order_by, insert_ordered, by_index, rows_between}
use ahl_mirror.Store.Reads.{leaf_hashes_of, leaf_hashes_range_raw}
use ahl_mirror.Store.Tree.{Numbered, Hashed, leaf_at, subtree}
use ahl_mirror.Store.Migration.Fold.{nodes}

select_all :
    (n start : ℕ) (rows : List EntryRow)
    → Numbered start rows
    → start + length rows ≤ n
    → select (λ (row : EntryRow). leb 0 row.entry_index && ltb row.entry_index n) rows ≡ rows
unfolding select
select_all n start [] numbered room = refl
select_all n start (row ∷ rows) numbered room =
    ground (arith, numbered.0, select_all n (suc start) rows numbered.1)

insert_first :
    (row : EntryRow) (rows : List EntryRow) (start : ℕ)
    → row.entry_index ≡ start
    → Numbered (suc start) rows
    → insert_ordered by_index row rows ≡ row ∷ rows
unfolding insert_ordered
insert_first row [] start e n = refl
insert_first row (other ∷ rows) start e n = ground (arith, n.0)

order_by-Numbered :
    (start : ℕ) (rows : List EntryRow) → Numbered start rows → order_by by_index rows ≡ rows
unfolding order_by
order_by-Numbered start [] n = refl
order_by-Numbered start (row ∷ rows) n =
    rw (order_by-Numbered (suc start) rows n.1) (insert_first row rows start n.0 n.1)

rows_between-Numbered :
    (c : Connection) → Numbered 0 c.entries → rows_between c 0 (length c.entries) ≡ c.entries
unfolding rows_between
rows_between-Numbered c n =
    rw (select_all (length c.entries) 0 c.entries n (omega arith)) (order_by-Numbered 0 c.entries n)

module _ (d : Deps) where
  leaf_node :
      (before rows : List EntryRow) (row : EntryRow)
      → subtree d (before ++ row ∷ rows) 0 (length before) ≡ log_leaf_hash d row.envelope
  unfolding subtree
  leaf_node before rows row = rw (leaf_at, get_elem?-append_here before row rows) refl

  leaf_hashes_of-Hashed :
      (before rows : List EntryRow)
      → Hashed d rows
      → leaf_hashes_of rows ≡ ok (nodes d (before ++ rows) 0 (length before) (length rows))
  unfolding leaf_hashes_of
  leaf_hashes_of-Hashed before [] h = refl
  leaf_hashes_of-Hashed before (row ∷ rows) h =
      let rest = leaf_hashes_of-Hashed (before ++ row ∷ []) rows h.1 in
      let longer : length (before ++ row ∷ []) ≡ suc (length before) =
        omega (arith, length-append before (row ∷ [])) in
      let rest' : leaf_hashes_of rows
          ≡ ok (nodes d (before ++ row ∷ rows) 0 (suc (length before)) (length rows)) =
        rest
        ∙ ap₂ (λ all at. ok (nodes d all 0 at (length rows))) (append_assoc before (row ∷ []) rows)
            longer in
      ground (arith, rest', h.0, length-log_leaf_hash d row.envelope, leaf_node before rows row)

  -- The leaves of the log, level 0 of its tree.
  pub leaf_hashes_range_raw-Hashed :
      (c : Connection)
      → Numbered 0 c.entries
      → Hashed d c.entries
      → length c.entries ≤ i64_max
      → leaf_hashes_range_raw c 0 (length c.entries) ≡ ok (nodes d c.entries 0 0 (length c.entries))
  unfolding leaf_hashes_range_raw
  leaf_hashes_range_raw-Hashed c n h room =
      ground (arith, rows_between-Numbered c n, leaf_hashes_of-Hashed [] c.entries h)
