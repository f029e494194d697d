-- ===== src/AccurateRip/Offset/Shifted.antt =====
-- The shifted checksums of a track are the checksums of the samples that the shift lands on.
use phono_junk.Common.{
  ℕ, suc, ◌+◌, ◌-◌, ◌%◌, ◌^◌, ◌≤◌, ◌<◌, ◌≡◌, refl, ap, ◌∙◌, none, some, List, [], ◌++◌, inl, inr,
  length, length-append, take, drop, ltb, lt→ltb, le→ltb_false, le_or_lt, if◌then◌else◌, arith,
}
use phono_junk.Common.Int.{ℤ}
use phono_junk.Common.Outcome.{ok, ◌>>=◌}
use phono_junk.AccurateRip.Crc.{TrackCrc, skip_bounds, track_crc_samples}
use phono_junk.AccurateRip.Crc.Samples.{window_crc, start_pos, track_crc_samples-eq}
use phono_junk.AccurateRip.Crc.Window.{sum_by, v1_term, v2_term, slice}
use phono_junk.AccurateRip.Offset.{
  TrackWindow, prefix_sums, source_index, shifted_weighted, shifted_v1, shifted_v2, fold_v2,
  or_zero,
}
use phono_junk.AccurateRip.Offset.Prefix.{range, weighted_range-eq}
use phono_junk.AccurateRip.Offset.Landing.{
  Lands, source_index-Lands, range-inside, length-sums_from, end_pos, start_lt, fold_v2-eq,
}

module _ (before mid after : List ℕ) (window : TrackWindow) (shift : ℤ)
    (fits : length (before ++ (mid ++ after)) < 2 ^ 32) (same_len : window.len ≡ length mid)
    (lands : Lands shift window.start (length before)) where
  abbrev disc : List ℕ
  disc = before ++ (mid ++ after)

  length-disc : length disc ≡ length before + (length mid + length after)
  length-disc = omega (arith, length-append before (mid ++ after), length-append mid after)

  length-samples : length (prefix_sums disc).samples ≡ suc (length disc)
  unfolding prefix_sums
  length-samples = length-sums_from 0 disc

  length-prefix : length (prefix_sums disc).samples - 1 ≡ length disc
  length-prefix = omega (arith, length-samples)

  -- The weighted sum of a part of the track.
  shifted_weighted-eq :
      {E : Type 0} (k end multiplier : ℕ)
      → k ≤ end
      → end ≤ length mid
      → multiplier < 2 ^ 32
      → shifted_weighted {E = E} (prefix_sums disc) window shift k end multiplier
        ≡ ok (some (sum_by v1_term multiplier (range k (end - k) mid) % 2 ^ 32))
  unfolding shifted_weighted
  shifted_weighted-eq k end multiplier le inside small =
      let size = length-disc in
      let count = end - k in
      rw (length-prefix, shifted_weighted)
        (rw
          (source_index-Lands shift window.start (length before) k (length disc) lands
            (omega arith))
          (rw (le→ltb_false end k le) (
            rw
              (lt→ltb (length before + k + count) (length (prefix_sums disc).samples)
                (omega (arith, length-samples)))
              (rw
                (weighted_range-eq disc (length before + k) count multiplier fits (omega arith)
                  small)
                (rw (range-inside before mid after k count (omega arith)) refl)))))

  abbrev bounds : ℕ × ℕ
  bounds = skip_bounds window.disc_position (length mid)

  len_fits : length mid < 2 ^ 32
  len_fits = omega (arith, fits, length-disc)

  cast_len : window.len % 2 ^ 32 ≡ length mid
  cast_len = ap (λ (n : ℕ). n % 2 ^ 32) same_len ∙ omega (arith, len_fits)

  start_small : bounds.0 < 2 ^ 32
  start_small = start_lt window.disc_position (length mid)

  -- `shifted_v2` from its bounds on.
  abbrev v2_by : ℕ × ℕ → ℕ
  v2_by (start, end) =
      if ltb end start
      then 0
      else elim (source_index (window.start + start - 1) shift (length disc)) [
        | none ↦ 0
        | some at ↦
            if ltb (length disc) (at + (end - start + 1))
            then 0
            else fold_v2 start 0 (take (end - start + 1) (drop at disc))
      ]

  -- The bodies of the two functions for any bounds within the track.
  module _ (start end : ℕ) (positive : 1 ≤ start) (small : start < 2 ^ 32)
      (inside : end ≤ length mid) where
    -- A window that begins past its end has no samples.
    slice_empty : end < start → slice (start, end) mid ≡ []
    slice_empty h = let none_left : end + 1 - start ≡ 0 = omega (arith, h) in rw none_left refl

    v1_body :
        {E : Type 0}
        → (if ltb end start
            then ok 0
            else shifted_weighted {E = E} (prefix_sums disc) window shift (start - 1) end start
              >>= λ sum. ok (or_zero sum))
          ≡ ok (sum_by v1_term start (slice (start, end) mid) % 2 ^ 32)
    v1_body = elim (le_or_lt start end) [
      | inl le ↦
          let same : end - (start - 1) ≡ end + 1 - start = omega (arith, positive, le) in
          rw (le→ltb_false end start le) (
            rw (shifted_weighted-eq (start - 1) end start (omega (arith, le)) inside small)
              (rw same refl))
      | inr lt ↦ rw (lt→ltb end start lt) (rw (slice_empty lt) refl)
    ]

    v2_body : v2_by (start, end) ≡ sum_by v2_term start (slice (start, end) mid) % 2 ^ 32
    v2_body = elim (le_or_lt start end) [
      | inl le ↦
          let size = length-disc in
          let same : end - start + 1 ≡ end + 1 - start = omega (arith, le) in
          let first_index : window.start + start - 1 ≡ window.start + (start - 1) =
            omega (arith, positive) in
          rw (le→ltb_false end start le) (
            rw first_index (
              rw
                (source_index-Lands shift window.start (length before) (start - 1) (length disc)
                  lands (omega (arith, inside)))
                (rw same (
                  rw
                    (le→ltb_false (length disc) (length before + (start - 1) + (end + 1 - start))
                      (omega (arith, inside)))
                    (rw
                      (range-inside before mid after (start - 1) (end + 1 - start)
                        (omega (arith, inside)))
                      (fold_v2-eq start 0 (slice (start, end) mid) ∙ omega arith))))))
      | inr lt ↦ rw (lt→ltb end start lt) (rw (slice_empty lt) refl)
    ]

  -- For a track whose window, shifted, covers the samples `mid` of the stream of its disc, the search's two
  -- checksums at that shift, by prefix sums and by its fold, are those that `track_crc_samples` gives
  -- for `mid` at the track's place on the disc, if the stream has fewer than 2 ^ 32 samples. Nothing
  -- panics.
  pub shifted_checksums-eq :
      {E : Type 0}
      → (crc : TrackCrc) × (track_crc_samples mid window.disc_position ≡ ok crc)
        × (shifted_v1 {E = E} (prefix_sums disc) window shift ≡ ok crc.v1)
        × (shifted_v2 disc window shift ≡ crc.v2)
  unfolding shifted_v1 shifted_v2
  shifted_checksums-eq =
      let positive = start_pos window.disc_position (length mid) in
      let inside = end_pos window.disc_position (length mid) in
      (
        window_crc bounds mid,
        track_crc_samples-eq mid window.disc_position len_fits,
        rw cast_len (v1_body bounds.0 bounds.1 positive start_small inside),
        ap (λ (n : ℕ). v2_by (skip_bounds window.disc_position n)) cast_len
            ∙ v2_body bounds.0 bounds.1 positive start_small inside,
      )
