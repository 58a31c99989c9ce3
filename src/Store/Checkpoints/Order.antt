-- ===== src/Store/Checkpoints/Order.antt =====
-- The order of the checkpoint rows of src/store.rs: `ORDER BY tree_size ASC, checkpoint_time ASC`.
use ahl_mirror.Prelude.{
  Option, none, some, List, [], ◌∷◌, ◌++◌, Bool, true, false, ◌≡◌, arith, if◌then◌else◌, refl, inl,
  inr, le_bytes_refl, le_bytes_trans, le_bytes_total, Option-cases, find_row, Bool-cases, In, subst,
}
use ahl_mirror.Store.Schema.{Checkpoint}
use ahl_mirror.Store.Rows.{order_by, insert_ordered, at_most}
use ahl_mirror.Store.Checkpoints.{first, earliest}

pub at_most_refl : (a : Checkpoint) → at_most a a ≡ true
unfolding at_most
at_most_refl a = ground (arith, le_bytes_refl a.checkpoint_time)

pub at_most_trans :
    (a b c : Checkpoint) → at_most a b ≡ true → at_most b c ≡ true → at_most a c ≡ true
unfolding at_most
at_most_trans a b c h k =
    ground (arith, le_bytes_trans a.checkpoint_time b.checkpoint_time c.checkpoint_time)

pub at_most_total : (a b : Checkpoint) → at_most a b ≡ false → at_most b a ≡ true
unfolding at_most
at_most_total a b h = ground (arith, le_bytes_total a.checkpoint_time b.checkpoint_time)

-- The earlier of what is held and a new checkpoint; what is held wins a tie.
abbrev pub earlier : Option Checkpoint → Checkpoint → Checkpoint
earlier none cp = cp
earlier (some held) cp = if at_most held cp then held else cp

abbrev sooner : Checkpoint → Option Checkpoint → Checkpoint
sooner row none = row
sooner row (some held) = if at_most row held then row else held

first-insert_ordered :
    (row : Checkpoint) (rows : List Checkpoint)
    → first (insert_ordered at_most row rows) ≡ some (sooner row (first rows))
unfolding insert_ordered
first-insert_ordered row [] = refl
first-insert_ordered row (other ∷ rows) = ground arith

pub earliest_cons :
    (row : Checkpoint) (rows : List Checkpoint)
    → earliest (row ∷ rows) ≡ some (sooner row (earliest rows))
unfolding earliest order_by
earliest_cons row rows = first-insert_ordered row (order_by at_most rows)

pub earliest_snoc :
    (rows : List Checkpoint) (cp : Checkpoint)
    → earliest (rows ++ cp ∷ []) ≡ some (earlier (earliest rows) cp)
unfolding earliest order_by insert_ordered
earliest_snoc [] cp = refl
earliest_snoc (row ∷ rows) cp =
    rw (earliest_cons, earliest_cons, earliest_snoc rows cp)
      (elim (Option-cases (earliest rows)) [
        | inl e ↦ rw e refl
        | inr (held, e) ↦
            ground (
              arith,
              e,
              at_most_trans row held cp,
              at_most_trans row cp held,
              at_most_total held cp,
            )
      ])

-- The earliest row is at most any row that a query finds.
pub earliest_least :
    (p : Checkpoint → Bool) (rows : List Checkpoint) (found : Checkpoint)
    → find_row p rows ≡ some found
    → (held : Checkpoint) × (earliest rows ≡ some held) × (at_most held found ≡ true)
unfolding find_row
earliest_least p [] found h = cc
earliest_least p (row ∷ rows) found h =
    let rec = earliest_least p rows found in
    (
      sooner row (earliest rows),
      earliest_cons row rows,
      elim (Option-cases (earliest rows)) [
        | inl e ↦ ground (arith, e, rec, at_most_refl row)
        | inr (held, e) ↦
            ground (
              arith,
              e,
              rec,
              at_most_refl row,
              at_most_trans row held found,
              at_most_total row held,
            )
      ],
    )

-- Rows in the order of the query.
abbrev pub InOrder : List Checkpoint → Type 0
InOrder [] = Unit
InOrder (a ∷ []) = Unit
InOrder (a ∷ b ∷ rest) = (at_most a b ≡ true) × InOrder (b ∷ rest)

insert_ordered-InOrder :
    (row : Checkpoint) (rows : List Checkpoint)
    → InOrder rows
    → InOrder (insert_ordered at_most row rows)
unfolding insert_ordered
insert_ordered-InOrder row [] s = tt
insert_ordered-InOrder row (a ∷ []) s = elim (Bool-cases (at_most row a)) [
  | inl e ↦ rw (insert_ordered, e) (e, tt)
  | inr e ↦ rw (insert_ordered, e) (at_most_total row a e, tt)
]
insert_ordered-InOrder row (a ∷ b ∷ rows) s = elim (Bool-cases (at_most row a)) [
  | inl e ↦ rw (insert_ordered, e) (e, s)
  | inr e ↦
      let later = insert_ordered-InOrder row (b ∷ rows) s.1 in
      elim (Bool-cases (at_most row b)) [
        | inl f ↦ rw (insert_ordered, e, f) (at_most_total row a e, (f, s.1))
        | inr f ↦ rw (insert_ordered, e, f) (s.0, rw f at later)
      ]
]

pub order_by-InOrder : (rows : List Checkpoint) → InOrder (order_by at_most rows)
unfolding order_by
order_by-InOrder [] = tt
order_by-InOrder (row ∷ rows) =
    insert_ordered-InOrder row (order_by at_most rows) (order_by-InOrder rows)

module _ {A : Type 0} (before : A → A → Bool) where
  In-insert_ordered_here : (row : A) (rows : List A) → In row (insert_ordered before row rows)
  unfolding insert_ordered
  In-insert_ordered_here row [] = inl refl
  In-insert_ordered_here row (a ∷ rows) = elim (Bool-cases (before row a)) [
    | inl e ↦ rw e (inl refl)
    | inr e ↦ rw e (inr (In-insert_ordered_here row rows))
  ]

  In-insert_ordered :
      (row x : A) (rows : List A) → In x rows → In x (insert_ordered before row rows)
  unfolding insert_ordered
  In-insert_ordered row x [] h = absurd h
  In-insert_ordered row x (a ∷ rows) (inl p) = elim (Bool-cases (before row a)) [
    | inl e ↦ rw e (inr (inl p))
    | inr e ↦ rw e (inl p)
  ]
  In-insert_ordered row x (a ∷ rows) (inr h) = elim (Bool-cases (before row a)) [
    | inl e ↦ rw e (inr (inr h))
    | inr e ↦ rw e (inr (In-insert_ordered row x rows h))
  ]

  -- Sorting loses no row.
  pub In-order_by : (x : A) (rows : List A) → In x rows → In x (order_by before rows)
  unfolding order_by
  In-order_by x [] h = absurd h
  In-order_by x (row ∷ rows) (inl p) =
      subst (λ y. In y (insert_ordered before row (order_by before rows))) p
        (In-insert_ordered_here row (order_by before rows))
  In-order_by x (row ∷ rows) (inr h) =
      In-insert_ordered row x (order_by before rows) (In-order_by x rows h)
