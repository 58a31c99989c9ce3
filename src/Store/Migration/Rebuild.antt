-- ===== src/Store/Migration/Rebuild.antt =====
-- `rebuild_subtree_cache` of src/store.rs writes the nodes that the entries complete, and no other.
use native.Mathlib.Nat.{mul-le-mul_right}
use native.Mathlib.Decide.{dec_lt, ℕ_discrete}
use ahl_mirror.Prelude.{
  ℕ, zero, suc, ◌+◌, ◌*◌, ◌^◌, ◌≤◌, ◌<◌, none, some, List, ◌++◌, true, ◌≡◌, refl, sym, ap, ap₂,
  subst, ◌∙◌, arith, length, leb, find_row-append, two_pow_suc, two_pow_pos, two_pow_mono, i64_max,
}
use ahl_mirror.Error.{ok}
use ahl_mirror.Deps.{Deps, Hash}
use ahl_mirror.Store.Schema.{Connection, EntryRow, NodeRow}
use ahl_mirror.Store.Rows.{node_at}
use ahl_mirror.Store.Tree.{IsCached}
use ahl_mirror.Store.Migration.{fold_level, fold_levels}
use ahl_mirror.Store.Migration.Fold.{
  twice, twice_lem, halve, nodes, node_row, level_rows, with_rows, length-nodes, fold_level_lem,
  level_rows_other, level_rows_past, level_rows_at,
}

module _ (d : Deps) (rows : List EntryRow) where
  -- The cache has the levels up to `p`, complete, and nothing above.
  pub record IsCachedUpTo (p : ℕ) (roots : List NodeRow) : Type 0 where
    pub have :
        (level index : ℕ)
        → level < p
        → suc index * 2 ^ suc level ≤ length rows
        → node_at roots (suc level) index ≡ some (node_row d rows (suc level) index)
    pub absent :
        (level index : ℕ)
        → level < p
        → length rows < suc index * 2 ^ suc level
        → node_at roots (suc level) index ≡ none
    pub above : (level index : ℕ) → p ≤ level → node_at roots (suc level) index ≡ none

  -- How many nodes a level has.
  abbrev IsCount : (m p : ℕ) → Type 0
  IsCount m p = (m * 2 ^ p ≤ length rows) × (length rows < suc m * 2 ^ p)

  IsCount-halve : (k b p : ℕ) → b ≤ 1 → IsCount (twice k b) p → IsCount k (suc p)
  IsCount-halve k b p small (least, past) =
      let least' : (2 * k + b) * 2 ^ p ≤ length rows = rw (twice_lem k b) at least in
      let past' : length rows < suc (2 * k + b) * 2 ^ p = rw (twice_lem k b) at past in
      let half = ap (λ (t : ℕ). k * t) (two_pow_suc p) in
      let next = ap (λ (t : ℕ). suc k * t) (two_pow_suc p) in
      let odd = mul-le-mul_right {m = b} {n = 1} (2 ^ p) small in (omega arith, omega arith)

  node_at-append :
      (xs ys : List NodeRow) (level index : ℕ)
      → node_at xs level index ≡ none
      → node_at (xs ++ ys) level index ≡ node_at ys level index
  unfolding node_at
  node_at-append xs ys level index h = rw (find_row-append, h) refl

  node_at-append_none :
      (xs ys : List NodeRow) (level index : ℕ)
      → node_at ys level index ≡ none
      → node_at (xs ++ ys) level index ≡ node_at xs level index
  unfolding node_at
  node_at-append_none xs ys level index h = rw find_row-append (ground (arith, h))

  counted : (p k index : ℕ) → IsCount k (suc p) → suc index * 2 ^ suc p ≤ length rows → index < k
  counted p k index (least, past) fits = elim (dec_lt index k) [
    | yes below ↦ below
    | no beyond ↦
        let wide = mul-le-mul_right {m = suc k} {n = suc index} (2 ^ suc p) (omega arith) in
        absurd (omega arith)
  ]

  uncounted : (p k index : ℕ) → IsCount k (suc p) → length rows < suc index * 2 ^ suc p → k ≤ index
  uncounted p k index (least, past) wide = elim (dec_lt index k) [
    | yes below ↦
        let fits = mul-le-mul_right {m = suc index} {n = k} (2 ^ suc p) (omega arith) in
        absurd (omega arith)
    | no beyond ↦ omega arith
  ]

  next_level :
      (p k : ℕ) (roots : List NodeRow)
      → IsCount k (suc p)
      → IsCachedUpTo p roots
      → IsCachedUpTo (suc p) (roots ++ level_rows d rows (suc p) 0 k)
  next_level p k roots count cached = record {
    have = λ level index below fits. elim (ℕ_discrete level p) [
      | yes e ↦
          let fits' : suc index * 2 ^ suc p ≤ length rows =
            subst (λ q. suc index * 2 ^ suc q ≤ length rows) e fits in
          subst
            (λ q.
              node_at (roots ++ level_rows d rows (suc p) 0 k) (suc q) index
              ≡ some (node_row d rows (suc q) index))
            (sym e)
            (node_at-append roots _ (suc p) index (cached.above p index (omega arith))
              ∙ level_rows_at d rows (suc p) 0 k index (omega arith)
                  (let below' = counted p k index count fits' in omega arith))
      | no apart ↦
          node_at-append_none roots _ (suc level) index
            (level_rows_other d rows (suc level) (suc p) 0 k index (omega arith))
          ∙ cached.have level index (omega arith) fits
    ];
    absent = λ level index below past. elim (ℕ_discrete level p) [
      | yes e ↦
          let past' : length rows < suc index * 2 ^ suc p =
            subst (λ q. length rows < suc index * 2 ^ suc q) e past in
          subst (λ q. node_at (roots ++ level_rows d rows (suc p) 0 k) (suc q) index ≡ none) (sym e)
            (node_at-append roots _ (suc p) index (cached.above p index (omega arith))
              ∙ level_rows_past d rows (suc p) 0 k index
                  (let beyond = uncounted p k index count past' in omega arith))
      | no apart ↦
          node_at-append_none roots _ (suc level) index
            (level_rows_other d rows (suc level) (suc p) 0 k index (omega arith))
          ∙ cached.absent level index (omega arith) past
    ];
    above = λ level index beyond.
        node_at-append_none roots _ (suc level) index
          (level_rows_other d rows (suc level) (suc p) 0 k index (omega arith))
        ∙ cached.above level index (omega arith);
  }

  -- No level above is complete: the cache is whole.
  whole :
      (p : ℕ) (roots : List NodeRow)
      → length rows < 2 ^ suc p
      → IsCachedUpTo p roots
      → IsCached d rows roots
  whole p roots few cached = record {
    have = λ level index fits. elim (dec_lt level p) [
      | yes below ↦ cached.have level index below fits
      | no beyond ↦
          let wider = two_pow_mono (suc p) (suc level) (omega arith) in
          let least = mul-le-mul_right {m = 1} {n = suc index} (2 ^ suc level) (omega arith) in
          absurd (omega arith)
    ];
    absent = λ level index past. elim (dec_lt level p) [
      | yes below ↦ cached.absent level index below past
      | no beyond ↦ cached.above level index (omega arith)
    ];
  }

  few_nodes : (p k : ℕ) → IsCount k (suc p) → length rows ≤ i64_max → 0 + k ≤ 2 ^ 62
  few_nodes p k (least, past) room =
      let doubled = ap (λ (t : ℕ). k * t) (two_pow_suc p) in
      let more = mul-le-mul_right {m = 1} {n = 2 ^ p} k (two_pow_pos p) in omega arith

  fold_levels_step :
      (rounds level : ℕ) (current folded : List Hash) (c next : Connection)
      → leb 2 (length current) ≡ true
      → level ≤ 63
      → fold_level d level 0 current c ≡ (ok folded, next)
      → fold_levels d (suc rounds) level current c ≡ fold_levels d rounds (suc level) folded next
  unfolding fold_levels
  fold_levels_step rounds level current folded c next two fits run = ground (arith, two, run)

  -- The loop, from the level above `p` on.
  pub fold_levels_lem :
      (rounds p m : ℕ) (c : Connection)
      → rounds + p ≡ 63
      → length rows ≤ i64_max
      → IsCount m p
      → IsCachedUpTo p c.subtree_roots
      → (roots : List NodeRow) × (fold_levels d rounds (suc p) (nodes d rows p 0 m) c
          ≡ (ok tt, record c { subtree_roots = roots }))
        × IsCached d rows roots
  unfolding fold_levels
  fold_levels_lem zero p m c e room count cached =
      let wide = two_pow_mono 63 (suc p) (omega arith) in
      (c.subtree_roots, refl, whole p c.subtree_roots (omega arith) cached)
  fold_levels_lem (suc rounds) p m c e room count cached = elim (dec_lt m 2) [
    | yes few ↦
        let single = mul-le-mul_right {m = suc m} {n = 2} (2 ^ p) (omega arith) in
        (
          c.subtree_roots,
          ground (arith, length-nodes d rows p 0 m),
          whole p c.subtree_roots (omega (arith, two_pow_suc p)) cached,
        )
    | no more ↦
        let (k, b, halves, small) = halve m in
        let next = with_rows d rows c (level_rows d rows (suc p) 0 k) in
        let count' : IsCount k (suc p) =
          IsCount-halve k b p small (subst (λ t. IsCount t p) halves count) in
        let (roots, run, done) =
          fold_levels_lem rounds (suc p) k next (omega arith) room count'
            (next_level p k c.subtree_roots count' cached) in
        let level = fold_level_lem d rows c p 0 k b small (few_nodes p k count' room) in
        let current : nodes d rows p 0 m ≡ nodes d rows p (2 * 0) (twice k b) =
          ap₂ (nodes d rows p) (omega arith) halves in
        let two : leb 2 (length (nodes d rows p 0 m)) ≡ true =
          ground (arith, length-nodes d rows p 0 m) in
        (
          roots,
          fold_levels_step rounds (suc p) (nodes d rows p 0 m) _ c next two (omega arith)
                (ap (λ hashes. fold_level d (suc p) 0 hashes c) current ∙ level)
              ∙ run,
          done,
        )
  ]
