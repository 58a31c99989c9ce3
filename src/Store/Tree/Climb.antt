-- ===== src/Store/Tree/Climb.antt =====
-- `extend_subtree_cache` writes exactly the nodes that the appended leaf completes.
use ahl_mirror.Prelude.{
  ℕ, zero, suc, ◌+◌, ◌*◌, ◌-◌, ◌/◌, ◌%◌, ◌^◌, ◌≤◌, ◌<◌, ◌≢◌, none, some, List, [], ◌∷◌, ◌++◌, ◌≡◌,
  u64_max, refl, ap, ◌∙◌, length, length-append, arith, ◌⊎◌, ◌==◌, ◌&&◌, true, false, leb, leb→le,
  ==_iff, inl, inr, get_elem?-lt, two_pow_suc, two_pow_pos, two_pow_multiple, Bool-cases,
}
use native.Mathlib.Nat.{
  mul-div_cancel, mod-eq-sub-div-mul, le-div_iff_mul-le, div-mul-le_self, mul-mod_left, one-le-mul,
  mul-le-mul_right, le_of_mul-le-mul_right,
}
use native.Mathlib.Decide.{dec_lt, ℕ_discrete}
use ahl_mirror.Error.{MirrorResult, ok}
use ahl_mirror.Deps.{Deps}
use ahl_mirror.Metadata.{length-log_leaf_hash}
use ahl_mirror.Store.Schema.{Connection, EntryRow, NodeRow}
use ahl_mirror.Store.Rows.{node_at, replace_node}
use ahl_mirror.Store.Nodes.{tree_node_raw, complete_node, climb, extend_subtree_cache}
use ahl_mirror.Store.Tree.{Numbered, Hashed, IsCached, subtree, length-subtree, subtree-append}
use ahl_mirror.Store.Tree.Rows.{entry_at-Numbered, Hashed-get_elem?, node_at-replace_node}

module _ (d : Deps) where
  -- The cache while the loop stands at `level`: below it every complete node, from it on those that
  -- end before the last entry, and no incomplete node.
  pub record IsCachedTo (rows : List EntryRow) (limit : ℕ) (roots : List NodeRow) : Type 0 where
    pub have :
        (level index : ℕ)
        → suc index * 2 ^ suc level ≤ length rows
        → (suc level < limit) ⊎ (suc index * 2 ^ suc level < length rows)
        → node_at roots (suc level) index
          ≡ some (record {
            level = suc level;
            node_index = index;
            hash = subtree d rows (suc level) index;
          })
    pub absent :
        (level index : ℕ)
        → length rows < suc index * 2 ^ suc level
        → node_at roots (suc level) index ≡ none

  index-le : (index level n : ℕ) → suc index * 2 ^ level ≤ n → suc index ≤ n
  index-le index level n h = grind (arith, two_pow_pos level)

  -- A complete node below the limit is read back.
  pub tree_node-IsCachedTo :
      (c : Connection) (limit level index : ℕ)
      → Numbered 0 c.entries
      → Hashed d c.entries
      → length c.entries ≤ 2 ^ 63
      → IsCachedTo c.entries limit c.subtree_roots
      → level < limit
      → suc index * 2 ^ level ≤ length c.entries
      → tree_node_raw c level index ≡ ok (some (subtree d c.entries level index))
  unfolding tree_node_raw
  tree_node-IsCachedTo c limit zero index n h bound cached below fits =
      let (row, e) = get_elem?-lt c.entries index (omega arith) in
      unfold subtree in
      ground (
        arith,
        e,
        entry_at-Numbered c.entries index n,
        Hashed-get_elem? d c.entries index row h e,
        length-log_leaf_hash d row.envelope,
      )
  tree_node-IsCachedTo c limit (suc level) index n h bound cached below fits =
      let small = index-le index (suc level) (length c.entries) fits in
      ground (
        arith,
        cached.have level index fits (inl below),
        length-subtree d c.entries (suc level) index fits,
      )

  abbrev new_node : Connection → (level index : ℕ) → NodeRow
  new_node c level index = record {
    level = level;
    node_index = index;
    hash = subtree d c.entries level index;
  }

  module _ (c : Connection) (n : Numbered 0 c.entries) (h : Hashed d c.entries)
      (bound : length c.entries ≤ 2 ^ 63) where
    complete_node_lem :
        (p j : ℕ)
        → IsCachedTo c.entries (suc p) c.subtree_roots
        → length c.entries ≡ suc j * 2 ^ suc p
        → complete_node d (suc p) (2 ^ suc p) (length c.entries) c ≡ (
          ok tt,
          record c { subtree_roots = replace_node (new_node c (suc p) j) c.subtree_roots },
        )
    unfolding complete_node subtree
    complete_node_lem p j cached e =
        let halves : suc j * 2 ^ p + suc j * 2 ^ p ≡ length c.entries =
          omega (arith, ap (λ (t : ℕ). suc j * t) (two_pow_suc p)) in
        let quotient : length c.entries / 2 ^ suc p ≡ suc j =
          ap (λ t. t / 2 ^ suc p) e ∙ mul-div_cancel (suc j) (two_pow_pos (suc p)) in
        let small : suc j ≤ 2 ^ 62 = index-le j p (2 ^ 62) (omega arith) in
        let left =
          tree_node-IsCachedTo c (suc p) p (2 * j) n h bound cached (omega arith) (omega arith) in
        let right =
          tree_node-IsCachedTo c (suc p) p (2 * j + 1) n h bound cached (omega arith)
            (omega arith) in
        ground (arith, quotient, small, left, right, two_pow_pos (suc p))

  -- No node from `level` on ends with the last entry, once the loop has stopped.
  not_completed :
      (count p level index : ℕ)
      → (count < 2 ^ suc p) ⊎ (count % 2 ^ suc p ≢ 0)
      → p ≤ level
      → suc index * 2 ^ suc level ≢ count
  not_completed count p level index stop le e =
      let (k, multiple, pos) = two_pow_multiple (suc p) (suc level) (omega arith) in
      let e' : count ≡ (suc index * k) * 2 ^ suc p =
        omega (arith, ap (λ (t : ℕ). suc index * t) multiple) in
      elim stop [
        | inl small ↦
            let least : 1 ≤ suc index * k = one-le-mul (omega arith) pos in
            let above = mul-le-mul_right (2 ^ suc p) least in absurd (omega arith)
        | inr uneven ↦
            uneven (ap (λ t. t % 2 ^ suc p) e' ∙ mul-mod_left (suc index * k) (2 ^ suc p))
      ]

  stopped :
      (rows : List EntryRow) (p : ℕ) {roots : List NodeRow}
      → (length rows < 2 ^ suc p) ⊎ (length rows % 2 ^ suc p ≢ 0)
      → IsCachedTo rows (suc p) roots
      → IsCached d rows roots
  stopped rows p stop cached = record {
    have = λ level index fits. elim (dec_lt level p) [
      | yes below ↦ cached.have level index fits (inl (omega arith))
      | no above ↦
          let apart = not_completed (length rows) p level index stop (omega arith) in
          cached.have level index fits (inr (omega arith))
    ];
    absent = cached.absent;
  }

  earlier :
      (p level index count : ℕ)
      → ¬ (p ≡ level)
      → (suc level < suc (suc p)) ⊎ (suc index * 2 ^ suc level < count)
      → (suc level < suc p) ⊎ (suc index * 2 ^ suc level < count)
  earlier p level index count other (inl below) = inl (omega arith)
  earlier p level index count other (inr inside) = inr inside

  strictly :
      (p j level index : ℕ) (c : Connection)
      → length c.entries ≡ suc j * 2 ^ suc p
      → p ≡ level
      → ¬ (j ≡ index)
      → suc index * 2 ^ suc level ≤ length c.entries
      → suc index * 2 ^ suc level < length c.entries
  strictly p j level index c e same other fits =
      let e' : length c.entries ≡ suc j * 2 ^ suc level = rw same at e in
      let le : suc index ≤ suc j = le_of_mul-le-mul_right (omega arith) (two_pow_pos (suc level)) in
      let next = mul-le-mul_right {m = suc (suc index)} {n = suc j} (2 ^ suc level) (omega arith) in
      omega (arith, two_pow_pos (suc level))

  past_ne :
      (p j level index count : ℕ)
      → count ≡ suc j * 2 ^ suc p
      → count < suc index * 2 ^ suc level
      → p ≡ level
      → ¬ (j ≡ index)
  past_ne p j level index count e past same here =
      let e' : count ≡ suc index * 2 ^ suc level = rw (same, here) at e in omega arith

  next_cached :
      (c : Connection) (p j : ℕ)
      → length c.entries ≡ suc j * 2 ^ suc p
      → IsCachedTo c.entries (suc p) c.subtree_roots
      → IsCachedTo c.entries (suc (suc p)) (replace_node (new_node c (suc p) j) c.subtree_roots)
  next_cached c p j e cached = record {
    have = λ level index fits side. rw node_at-replace_node (elim (ℕ_discrete p level) [
      | no other ↦ ground (
        arith,
        cached.have level index fits (earlier p level index (length c.entries) other side),
      )
      | yes same ↦ elim (ℕ_discrete j index) [
        | yes here ↦ ground arith
        | no other ↦ ground (
          arith,
          cached.have level index fits (inr (strictly p j level index c e same other fits)),
        )
      ]
    ]);
    absent = λ level index past. rw node_at-replace_node (
        ground (
          arith,
          cached.absent level index past,
          past_ne p j level index (length c.entries) e past,
        ));
  }

  not_zero :
      (p width count : ℕ) → width ≡ 2 ^ suc p → (count % width == 0) ≡ false → count % 2 ^ suc p ≢ 0
  not_zero p width count e h z = let z' : count % width ≡ 0 = rw e z in ground arith

  exact_multiple :
      (p width count : ℕ)
      → width ≡ 2 ^ suc p
      → (count % width == 0) ≡ true
      → leb width count ≡ true
      → count ≡ suc (count / 2 ^ suc p - 1) * 2 ^ suc p
  exact_multiple p width count e even fits =
      let whole = mod-eq-sub-div-mul count (2 ^ suc p) in
      let least : 1 ≤ count / 2 ^ suc p =
        (le-div_iff_mul-le (two_pow_pos (suc p))).1 (omega (arith, leb→le width count fits)) in
      let q : suc (count / 2 ^ suc p - 1) ≡ count / 2 ^ suc p = omega arith in
      let zero_rest : count % 2 ^ suc p ≡ 0 = rw (← e) ((==_iff _ _).0 even) in
      rw q (omega (arith, div-mul-le_self count (2 ^ suc p)))

  too_wide :
      (p width count : ℕ)
      → width ≡ 2 ^ suc p
      → count ≤ 2 ^ 63
      → leb (width * 2) u64_max ≡ false
      → count < 2 ^ suc (suc p)
  too_wide p width count e bound wide = let q = two_pow_suc (suc p) in ground arith

  -- What the loop leaves behind: the same database with a complete cache.
  abbrev Extends : Connection → MirrorResult (Unit {0}) × Connection → Type 0
  Extends c result =
      (roots : List NodeRow) × (result ≡ (ok tt, record c { subtree_roots = roots }))
      × IsCached d c.entries roots

  climb-Extends :
      (rounds p level width : ℕ) (c : Connection)
      → Numbered 0 c.entries
      → Hashed d c.entries
      → length c.entries ≤ 2 ^ 63
      → 0 < length c.entries
      → level ≡ suc p
      → width ≡ 2 ^ suc p
      → p + rounds ≡ 63
      → IsCachedTo c.entries (suc p) c.subtree_roots
      → Extends c (climb d rounds level width (length c.entries) c)
  unfolding climb
  climb-Extends zero p level width c n h bound pos el ew ep cached =
      let e : 63 ≡ p = omega arith in
      (c.subtree_roots, refl, stopped c.entries p (inl (rw (← e) (omega arith))) cached)
  climb-Extends (suc rounds) p level width c n h bound pos el ew ep cached =
      let wide_enough : 0 < width = omega (arith, two_pow_pos (suc p)) in
      elim (Bool-cases (leb level 63 && leb width (length c.entries))) [
        | inl go ↦ elim (Bool-cases (length c.entries % width == 0)) [
          | inr uneven ↦ (
            c.subtree_roots,
            ground arith,
            stopped c.entries p (inr (not_zero p width (length c.entries) ew uneven)) cached,
          )
          | inl even ↦
              let j = length c.entries / 2 ^ suc p - 1 in
              let e = exact_multiple p width (length c.entries) ew even (ground arith) in
              let c' : Connection = record c {
                subtree_roots = replace_node (new_node c (suc p) j) c.subtree_roots;
              } in
              let step = complete_node_lem c n h bound p j cached e in
              let next = next_cached c p j e cached in
              elim (Bool-cases (leb (width * 2) u64_max)) [
                | inr wide ↦ (
                  c'.subtree_roots,
                  ground (arith, step),
                  stopped c.entries (suc p)
                      (inl (too_wide p width (length c.entries) ew bound wide)) next,
                )
                | inl narrow ↦
                    let (roots, run, done) =
                      climb-Extends rounds (suc p) (level + 1) (width * 2) c' n h bound pos
                        (omega arith) (omega (arith, two_pow_suc (suc p))) (omega arith) next in
                    (roots, ground (arith, step, run), done)
              ]
        ]
        | inr stop ↦
            (c.subtree_roots, ground arith, stopped c.entries p (inl (ground arith)) cached)
      ]

  IsCachedTo-start :
      (rows : List EntryRow) (row : EntryRow) (roots : List NodeRow)
      → IsCached d rows roots
      → IsCachedTo (rows ++ row ∷ []) 1 roots
  IsCachedTo-start rows row roots cached =
      let longer = length-append rows (row ∷ []) in
      record {
        have = λ level index fits side.
            let old : suc index * 2 ^ suc level ≤ length rows = omega arith in
            rw (subtree-append d rows (row ∷ []) (suc level) index old)
              (cached.have level index old);
        absent = λ level index past. cached.absent level index (omega arith);
      }

  -- After the append of a row, `extend_subtree_cache` completes the cache, without an error.
  pub extend_subtree_cache-Extends :
      (c : Connection) (rows : List EntryRow) (row : EntryRow)
      → c.entries ≡ rows ++ row ∷ []
      → Numbered 0 c.entries
      → Hashed d c.entries
      → length c.entries ≤ 2 ^ 63
      → IsCached d rows c.subtree_roots
      → Extends c (extend_subtree_cache d (length rows) c)
  unfolding extend_subtree_cache
  extend_subtree_cache-Extends c rows row e n h bound cached =
      let longer : length c.entries ≡ length rows + 1 =
        ap length e ∙ length-append rows (row ∷ []) in
      let start : IsCachedTo c.entries 1 c.subtree_roots =
        rw e (IsCachedTo-start rows row c.subtree_roots cached) in
      let (roots, run, done) =
        climb-Extends 63 0 1 2 c n h bound (omega arith) (omega arith) (omega arith) (omega arith)
          start in
      (roots, ground (arith, run), done)
