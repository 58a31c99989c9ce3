-- ===== src/Series/Admit.antt =====
-- src/checkpoint.rs: the visible entry prefix, the rotations that a checkpoint anchors, and admission.
pub mod Outcome
pub mod Anchors
use ahl_mirror.Prelude.{
  ℕ, zero, suc, Text, Bytes, Option, none, some, List, [], ◌∷◌, ◌++◌, Bool, true, false, not, ◌&&◌,
  ◌||◌, ◌==◌, leb, ltb, eq_bytes, if◌then◌else◌, length, i64_max, String,
}
use ahl_mirror.Error.{
  MirrorResult, ok, err, ok_or, refuse_if, is_ok, not_staged, inclusion_proof_invalid,
  tree_size_unrepresentable, governance_chain_unresolvable, not_rotation_material,
  checkpoint_root_mismatch, ◌>>=◌, ◌>>◌,
}
use ahl_mirror.Deps.{Deps, Hash, from_ahl}
use ahl_mirror.Config.{Config}
use ahl_mirror.Store.Schema.{Connection, Checkpoint}
use ahl_mirror.Store.Entries.{get_staged_raw}
use ahl_mirror.Store.Exec
use ahl_mirror.Store.Exec.{Exec, pure, lift, query, with_transaction}
use ahl_mirror.Store.Reads.{get_entries_range_raw, log_root_raw}
use ahl_mirror.Store.Checkpoints.{insert_checkpoint_raw, insert_rotation_checkpoint_raw}
use ahl_mirror.Ingest.{promote_entry_in}
use ahl_mirror.Ingest.Checks.{verify_inclusion_for}
use ahl_mirror.Manifest.State.{GovernanceState, resolve_log_key, rotates}
use ahl_mirror.Manifest.Walk.{versions}
use ahl_mirror.Series.Signature.{verify_checkpoint_signature}
use ahl_mirror.Series.Usable.{holds_prefix}

pub record PendingPromotion : Type 0 where
  pub entry_id : Text
  pub leaf_index : ℕ
  pub inclusion_path : List Text

pub record Admission : Type 0 where
  pub series_member : Bool
  pub rotation_anchors : List ℕ

abbrev pub max_tree_size : ℕ
max_tree_size = i64_max

-- The overlay, a map by leaf index: no index stands twice.
abbrev Overlay : Type 0
Overlay = List (ℕ × Bytes)

unfoldable pub overlay_at : ℕ → Overlay → Option Bytes
overlay_at index [] = none
overlay_at index ((i, bytes) ∷ overlay) =
    if i == index then some bytes else overlay_at index overlay

abbrev is_some {ℓ} : {A : Type ℓ} → Option A → Bool
is_some none = false
is_some (some a) = true

-- The walk that extends the canonical run by the overlay, by the entries that the overlay can supply.
-- An index taken once is below the next one, so its entry need not be removed.
unfoldable pub extend_prefix : (rounds target next : ℕ) → Overlay → List Bytes → List Bytes
extend_prefix zero target next overlay prefix = prefix
extend_prefix (suc rounds) target next overlay prefix = elim (ltb next target) [
  | false ↦ prefix
  | true ↦ elim (overlay_at next overlay) [
    | none ↦ prefix
    | some bytes ↦ extend_prefix rounds target (suc next) overlay (prefix ++ bytes ∷ [])
  ]
]

module _ (d : Deps) where
  open d use {VerifyingKey, parse_hash_hex}

  -- The loop over `pending`.
  unfoldable pub fill_overlay :
      Connection
      → (target canonical_len : ℕ) → Hash
      → Overlay
      → List PendingPromotion
      → MirrorResult Overlay
  fill_overlay c target canonical_len root overlay [] = ok overlay
  fill_overlay c target canonical_len root overlay (p ∷ pending) =
      let skip = fill_overlay c target canonical_len root overlay pending in
      if leb target p.leaf_index
        || (ltb p.leaf_index canonical_len || is_some (overlay_at p.leaf_index overlay))
      then skip
      else (do
        staged ← get_staged_raw c p.entry_id
        bytes ← ok_or (not_staged p.entry_id) staged
        opens ← verify_inclusion_for d bytes p.leaf_index target p.inclusion_path root
        refuse_if (not opens) (inclusion_proof_invalid p.entry_id p.leaf_index target)
        fill_overlay c target canonical_len root (overlay ++ (p.leaf_index, bytes) ∷ []) pending)

  unfoldable pub build_visible_prefix :
      Connection → List PendingPromotion → ℕ → Hash → MirrorResult (List Bytes)
  build_visible_prefix c pending target_tree_size claimed_root = do
    prefix ← get_entries_range_raw c 0 target_tree_size
    overlay ← fill_overlay c target_tree_size (length prefix) claimed_root [] pending
    ok (extend_prefix (length overlay) target_tree_size (length prefix) overlay prefix)

  pub record Rotation : Type 0 where
    pub manifest_entry_index : ℕ
    pub outgoing : GovernanceState d

  -- `windows(2)` and `filter_map`
  unfoldable pub rotations_in : List (GovernanceState d) → List Rotation
  rotations_in [] = []
  rotations_in (outgoing ∷ []) = []
  rotations_in (outgoing ∷ incoming ∷ rest) =
      let later = rotations_in (incoming ∷ rest) in
      if rotates d incoming outgoing
      then record {
        manifest_entry_index = incoming.governing_manifest_entry_index;
        outgoing = outgoing;
      }
        ∷ later
      else later

  -- `resolve_log_key(..).and_then(|key| verify_checkpoint_signature(..))`
  unfoldable pub verifies_under :
      GovernanceState d → Config d → Checkpoint → Option Bytes → MirrorResult (Unit {0})
  verifies_under state config cp raw = do
    key ← resolve_log_key d state cp.key_id cp.tree_size
    verify_checkpoint_signature d cp raw config.log_id key

  -- Why a rotation is not anchored, if it is not.
  unfoldable pub disqualified : Rotation → Config d → Checkpoint → Option Bytes → Option String
  disqualified rotation config cp raw =
      if leb cp.tree_size rotation.manifest_entry_index
      then some "the checkpoint's tree_size is not greater than the manifest entry index"
      else if not (is_ok (verifies_under rotation.outgoing config cp raw))
      then some
          "the checkpoint does not verify under a log key of the version preceding the rotating one"
      else none

  abbrev is_named : Option ℕ → ℕ → Bool
  is_named none index = false
  is_named (some named) index = named == index

  -- What the loop of `rotation_anchors_for` collects.
  pub record Anchoring : Type 0 where
    pub anchored : List ℕ
    pub named_failure : Option String

  abbrev pub collect_one : Option ℕ → ℕ → Option String → Anchoring → Anchoring
  collect_one named index none found = record found { anchored = found.anchored ++ index ∷ [] }
  collect_one named index (some reason) found =
      if is_named named index then record found { named_failure = some reason } else found

  unfoldable pub collect_anchors :
      Config d → Checkpoint → Option Bytes → Option ℕ → List Rotation → Anchoring → Anchoring
  unfolding disqualified
  collect_anchors config cp raw named [] found = found
  collect_anchors config cp raw named (rotation ∷ rotations) found =
      collect_anchors config cp raw named rotations (
        collect_one named rotation.manifest_entry_index (disqualified rotation config cp raw) found)

  unfoldable pub contains_index : ℕ → List ℕ → Bool
  contains_index index [] = false
  contains_index index (i ∷ is) = i == index || contains_index index is

  abbrev reason_of : Option String → String
  reason_of none =
      "the manifest version at that entry index is not a governance-key rotation of its predecessor"
  reason_of (some reason) = reason

  -- The check that a named rotation is among those found.
  unfoldable pub report_named : Checkpoint → Option ℕ → Anchoring → MirrorResult (List ℕ)
  report_named cp none found = ok found.anchored
  report_named cp (some named) found =
      if contains_index named found.anchored
      then ok found.anchored
      else err (not_rotation_material cp.tree_size named (reason_of found.named_failure))

  unfoldable pub rotation_anchors_for :
      List (GovernanceState d)
      → Config d
      → Checkpoint
      → Option Bytes
      → Option ℕ
      → MirrorResult (List ℕ)
  unfolding rotations_in collect_anchors report_named
  rotation_anchors_for governance config cp raw named = report_named cp named (
      collect_anchors config cp raw named (rotations_in governance)
        (record { anchored = []; named_failure = none }))

  unfoldable pub last_version : List (GovernanceState d) → Option (GovernanceState d)
  last_version [] = none
  last_version (v ∷ []) = some v
  last_version (v ∷ w ∷ rest) = last_version (w ∷ rest)

  abbrev no_anchors : List ℕ → Bool
  no_anchors [] = true
  no_anchors (i ∷ is) = false

  -- Steps 0 to 2: what the checkpoint is admitted as. Nothing is written.
  unfoldable pub decide_admission :
      Connection
      → Config d
      → Checkpoint
      → Option Bytes
      → List PendingPromotion
      → Option ℕ
      → MirrorResult Admission
  decide_admission c config cp raw entries_to_promote rotation_for = do
    refuse_if (ltb max_tree_size cp.tree_size)
        (tree_size_unrepresentable cp.tree_size max_tree_size)
    claimed_root ← from_ahl (parse_hash_hex cp.root_hash)
    prefix ← build_visible_prefix c entries_to_promote cp.tree_size claimed_root
    governance_versions ← versions d prefix config
    governance ←
        ok_or (governance_chain_unresolvable cp.tree_size) (last_version governance_versions)
    let under_active_version = verifies_under governance config cp raw
    let series_member = is_ok under_active_version
    rotation_anchors ← rotation_anchors_for governance_versions config cp raw rotation_for
    if not series_member && no_anchors rotation_anchors
        then (do under_active_version; ok (record { series_member = true; rotation_anchors = [] }))
        else ok (record { series_member = series_member; rotation_anchors = rotation_anchors })

  -- The loop that promotes every pending entry.
  unfoldable pub promote_all : Checkpoint → List PendingPromotion → Exec (Unit {0})
  promote_all cp [] = pure tt
  promote_all cp (p ∷ pending) =
      Exec.◌>>=◌ (promote_entry_in d cp p.entry_id p.leaf_index p.inclusion_path)
        (λ outcome. promote_all cp pending)

  -- `holds_prefix(..)? && log_root_raw(..)? != claimed_root`
  unfoldable pub check_root : Checkpoint → Hash → Connection → MirrorResult (Unit {0})
  check_root cp claimed_root c = do
    held ← holds_prefix c cp.tree_size
    elim held [
      | false ↦ ok tt
      | true ↦ (do
        root ← log_root_raw d c cp.tree_size
        refuse_if (not (eq_bytes root claimed_root)) (checkpoint_root_mismatch cp.tree_size))
    ]

  unfoldable pub record_member : Bool → Checkpoint → Exec (Unit {0})
  record_member false cp = pure tt
  record_member true cp = Exec.◌>>=◌ (insert_checkpoint_raw cp) (λ outcome. pure tt)

  unfoldable pub record_anchors : List ℕ → Checkpoint → Exec (Unit {0})
  record_anchors [] cp = pure tt
  record_anchors (index ∷ indexes) cp =
      Exec.◌>>=◌ (insert_rotation_checkpoint_raw index cp) (λ outcome. record_anchors indexes cp)

  -- Steps 3 and 4, inside the transaction.
  unfoldable pub commit_admission :
      Checkpoint → List PendingPromotion → Hash → Admission → Exec Admission
  commit_admission cp entries_to_promote claimed_root admission =
      Exec.◌>>=◌ (promote_all cp entries_to_promote) (λ promoted.
        Exec.◌>>=◌ (query (check_root cp claimed_root)) (λ checked.
          Exec.◌>>=◌ (record_member admission.series_member cp) (λ recorded.
            Exec.◌>>=◌ (record_anchors admission.rotation_anchors cp)
              (λ anchored. pure admission))))

  unfoldable pub ingest_checkpoint :
      Config d → Checkpoint → Option Bytes → List PendingPromotion → Option ℕ → Exec Admission
  ingest_checkpoint config cp raw entries_to_promote rotation_for =
      Exec.◌>>=◌ (query (λ c. decide_admission c config cp raw entries_to_promote rotation_for))
        (λ admission. Exec.◌>>=◌ (lift (from_ahl (parse_hash_hex cp.root_hash))) (λ claimed_root.
          with_transaction (commit_admission cp entries_to_promote claimed_root admission)))
