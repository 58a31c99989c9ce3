-- ===== src/Series/Time.antt =====
-- src/checkpoint.rs: the exact rendering of a checkpoint's time, and its reading.
use ahl_mirror.Prelude.{
  ℕ, suc, Text, Bytes, Option, none, some, List, [], ◌∷◌, Bool, true, false, not, ◌&&◌, ◌==◌, leb,
  eq_bytes, decimal, if◌then◌else◌, length,
}
use ahl_mirror.Error.{MirrorResult, ok, ok_or, refuse_if, bad_checkpoint_time, ◌>>=◌, ◌>>◌}
use ahl_mirror.Deps.{Deps}

abbrev pub checkpoint_time_literals : List (ℕ × ℕ)
checkpoint_time_literals =
    (4, b'-') ∷ (7, b'-') ∷ (10, b'T') ∷ (13, b':') ∷ (16, b':') ∷ (19, b'.') ∷ (29, b'Z') ∷ []

abbrev pub checkpoint_time_len : ℕ
checkpoint_time_len = 30

-- `find_map`: the literal that a position must hold, if it must hold one.
unfoldable pub literal_at : ℕ → List (ℕ × ℕ) → Option ℕ
literal_at at [] = none
literal_at at ((position, literal) ∷ literals) =
    if position == at then some literal else literal_at at literals

abbrev fits_at : Option ℕ → ℕ → Bool
fits_at none byte = leb 48 byte && leb byte 57
fits_at (some literal) byte = byte == literal

unfoldable pub all_fit : ℕ → Bytes → Bool
unfolding literal_at
all_fit at [] = true
all_fit at (byte ∷ bytes) =
    fits_at (literal_at at checkpoint_time_literals) byte && all_fit (suc at) bytes

unfoldable pub has_profile_time_shape : Text → Bool
unfolding all_fit
has_profile_time_shape value =
    if not (length value == checkpoint_time_len) then false else all_fit 0 value

module _ (d : Deps) where
  open d use {parse_profile_time, format_profile_time}

  -- The number in the error is written out: a `u64` has at most 20 decimal digits.
  unfoldable pub render_checkpoint_time : ℕ → MirrorResult Text
  render_checkpoint_time nanos =
      ok_or (bad_checkpoint_time (decimal 20 nanos)) (format_profile_time nanos)

  unfoldable pub parse_checkpoint_time : Text → MirrorResult ℕ
  parse_checkpoint_time value = do
    refuse_if (not (has_profile_time_shape value)) (bad_checkpoint_time value)
    nanos ← ok_or (bad_checkpoint_time value) (parse_profile_time value)
    rendered ← render_checkpoint_time nanos
    refuse_if (not (eq_bytes rendered value)) (bad_checkpoint_time value)
    ok nanos
