-- ===== src/Db/Overrides/Apply.antt =====
-- `apply_disc`, `apply_override` and `apply` of phono-junk-db/src/overrides.rs.
use phono_junk.Common.{ℕ, zero, suc, ◌-◌, List, [], ◌∷◌, length, get_elem?, ◌==◌, if◌then◌else◌}
use phono_junk.Common.Outcome.{Outcome, ok, err, ◌>>=◌, ◌>>◌, ok_or, fail_if}
use phono_junk.Common.Hex.{Text}
use phono_junk.Common.Text.{codes, text_eq}
use phono_junk.Catalog.{Album, Release, Disc, Track, Override}
use phono_junk.Db.Overrides.{
  disc_name, OverrideError, unknown_segment, index_out_of_range, Segment, field, indexed,
  segment_display, parse_sub_path,
}
use phono_junk.Db.Overrides.Fields.{
  apply_flat_album, apply_flat_release, apply_flat_disc, apply_flat_track,
}

-- `tracks` stands beside the disc.
pub data OverrideTarget : Type 0 where
  on_album : Album → OverrideTarget
  on_release : Release → OverrideTarget
  on_disc : Disc → List Track → OverrideTarget
  on_track : Track → OverrideTarget

-- The slice with another element at an index within it.
abbrev pub set_elem {ℓ} : {A : Type ℓ} → List A → ℕ → A → List A
set_elem [] k a = []
set_elem (x ∷ xs) zero a = a ∷ xs
set_elem (x ∷ xs) (suc k) a = x ∷ set_elem xs k a

-- The case `track[index]` of `apply_disc`.
unfoldable pub apply_nth_track :
    List Track → ℕ → List Segment → Text → Text → Outcome OverrideError (List Track)
unfolding apply_flat_track segment_display
apply_nth_track tracks index rest name value = do
  let out_of_range : OverrideError =
      index_out_of_range (segment_display (indexed (codes "track") index)) index (length tracks)
  fail_if (index == 0) out_of_range
  t ← ok_or (get_elem? tracks (index - 1)) out_of_range
  changed ← apply_flat_track t rest name value
  ok (set_elem tracks (index - 1) changed)

unfoldable pub apply_disc :
    Disc → List Track → List Segment → Text → Text → Outcome OverrideError OverrideTarget
unfolding apply_flat_disc apply_nth_track
apply_disc d tracks [] name value = do
  changed ← apply_flat_disc d name value
  ok (on_disc changed tracks)
apply_disc d tracks (indexed segment index ∷ rest) name value =
    if text_eq segment (codes "track")
    then (do changed ← apply_nth_track tracks index rest name value; ok (on_disc d changed))
    else err (unknown_segment disc_name (segment_display (indexed segment index)))
apply_disc d tracks (field f ∷ rest) name value =
    err (unknown_segment disc_name (segment_display (field f)))

unfoldable pub apply_override :
    OverrideTarget → List Segment → Text → Text → Outcome OverrideError OverrideTarget
unfolding apply_flat_album apply_flat_release apply_disc apply_flat_track
apply_override (on_album a) path name value = do
  changed ← apply_flat_album a path name value
  ok (on_album changed)
apply_override (on_release r) path name value = do
  changed ← apply_flat_release r path name value
  ok (on_release changed)
apply_override (on_disc d tracks) path name value = apply_disc d tracks path name value
apply_override (on_track t) path name value = do
  changed ← apply_flat_track t path name value
  ok (on_track changed)

unfoldable pub apply : OverrideTarget → Override → Outcome OverrideError OverrideTarget
unfolding apply_override
apply target ovr = do
  path ← parse_sub_path ovr.sub_path
  apply_override target path ovr.field ovr.override_value
