-- ===== src/Toc/Layout.antt =====
-- phono-junk-toc/src/toc_from_layout.rs: from the track layout that junk-libs-disc reads off a CUE
-- sheet or a CHD to a `Toc`. `TrackLayout` and `TrackKind` are types of that library: a layout
-- entry is a parameter, with the observations that the code makes of it.
pub mod Valid
pub mod Shape
use phono_junk.Common.{
  is_empty, ℕ, zero, suc, ◌+◌, ◌-◌, ◌≡◌, Bool, true, false, ◌||◌, Option, none, some,
}
use phono_junk.Common.{List, [], ◌∷◌, map, get_elem?, get_last?, take, drop, any, ltb, leb}
use phono_junk.Common.{if◌then◌else◌}
use phono_junk.Common.Outcome.{Outcome, ok, err, ◌>>=◌, ◌>>◌, expect, ok_or, fail_if}
use phono_junk.Common.Words.{u32_mod, checked_add}
use phono_junk.Toc.{
  Toc, AudioError, no_tracks_in_layout, no_audio_tracks, leading_data, data_below_lead_in,
  empty_offsets, first_after_last, offsets_not_ascending, leadout_not_past_last,
}

-- `t.kind == TrackKind::Data`, `matches!(t.kind, TrackKind::Audio | TrackKind::Unknown)`, and the
-- fields of `TrackLayout` that the code reads. No track is of both kinds.
pub record TrackLayout (L : Type 0) : Type 0 where
  pub is_data : L → Bool
  pub is_audiolike : L → Bool
  pub number : L → ℕ
  pub absolute_offset : L → ℕ
  pub length_sectors : L → ℕ
  pub data_not_audiolike : (t : L) → is_data t ≡ true → is_audiolike t ≡ false

abbrev pub cd_extra_data_offset : ℕ
cd_extra_data_offset = 11400

-- `layout.iter().position(p)`
unfoldable pub position {ℓ} : {A : Type ℓ} → (A → Bool) → List A → Option ℕ
position p [] = none
position p (x ∷ xs) =
    if p x then some 0 else elim (position p xs) [ none ↦ none | some i ↦ some (suc i) ]

-- the loop over `windows(2)`
unfoldable pub any_descent : List ℕ → Bool
any_descent [] = false
any_descent (x ∷ []) = false
any_descent (x ∷ y ∷ xs) = leb y x || any_descent (y ∷ xs)

unfoldable pub validate_toc : Toc → Outcome AudioError (Unit {0})
unfolding any_descent
validate_toc toc = do
  fail_if (is_empty toc.track_offsets) empty_offsets
  fail_if (ltb toc.last_track toc.first_track) first_after_last
  fail_if (any_descent toc.track_offsets) offsets_not_ascending
  last ← expect (get_last? toc.track_offsets)
  fail_if (leb toc.leadout_sector last) leadout_not_past_last

-- `a.checked_sub(b)`
abbrev pub checked_sub_opt : ℕ → ℕ → Option ℕ
checked_sub_opt a b = if leb b a then some (a - b) else none

module _ {L : Type 0} (view : TrackLayout L) where
  open view use {is_data, is_audiolike, number, absolute_offset, length_sectors}

  -- The leading audio run and the trailing data run.
  unfoldable pub split_runs : List L → Outcome AudioError (List L × List L)
  unfolding position
  split_runs layout = elim (position is_data layout) [
    | none ↦ ok (layout, [])
    | some idx ↦
        if any is_audiolike (drop idx layout)
        then err leading_data
        else ok (take idx layout, drop idx layout)
  ]

  unfoldable pub leadout_of : List L → List L → Outcome AudioError ℕ
  leadout_of audio (first_data ∷ rest) =
      ok_or (checked_sub_opt (absolute_offset first_data) cd_extra_data_offset) data_below_lead_in
  leadout_of audio [] = do
    last ← expect (get_last? audio)
    checked_add u32_mod (absolute_offset last) (length_sectors last)

  unfoldable pub toc_of_runs : List L → List L → Outcome AudioError Toc
  unfolding leadout_of validate_toc
  toc_of_runs audio trailing_data = do
    fail_if (is_empty audio) no_audio_tracks
    leadout_sector ← leadout_of audio trailing_data
    first ← expect (get_elem? audio 0)
    last ← expect (get_last? audio)
    let toc : Toc = record {
      first_track = number first;
      last_track = number last;
      leadout_sector = leadout_sector;
      track_offsets = map absolute_offset audio;
    }
    validate_toc toc
    ok toc

  unfoldable pub layout_to_toc : List L → Outcome AudioError Toc
  unfolding split_runs toc_of_runs
  layout_to_toc layout = do
    fail_if (is_empty layout) no_tracks_in_layout
    runs ← split_runs layout
    toc_of_runs runs.0 runs.1
