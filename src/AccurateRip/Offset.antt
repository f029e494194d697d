-- ===== src/AccurateRip/Offset.antt =====
-- phono-junk-accuraterip/src/offset.rs: the search for the sample shift of a disc. A sample shift
-- (`i32`) is an integer, a `usize` a native number. Indexing out of range panics.
pub mod Prefix
pub mod Search
pub mod Choice
pub mod Best
pub mod Landing
pub mod Shifted
use phono_junk.Common.{
  ℕ, zero, suc, ◌+◌, ◌-◌, ◌*◌, ◌/◌, ◌%◌, ◌^◌, min, max, Bool, true, false, ◌&&◌, ◌||◌, not, Option,
  none, some,
}
use phono_junk.Common.{
  List, [], ◌∷◌, ◌++◌, length, get_elem?, take, drop, ltb, leb, ◌==◌, if◌then◌else◌,
}
use phono_junk.Common.Outcome.{Outcome, ok, ◌>>=◌, expect}
use phono_junk.Common.Words.{u32_mod, wrapping_add, wrapping_sub, wrapping_mul}
use phono_junk.Common.Int.{ℤ, pos, negsuc}
use phono_junk.AccurateRip.Crc.{TrackPosition, first, middle, last, only, TrackCrc, skip_bounds}
use phono_junk.AccurateRip.Dbar.{ExpectedChecksum, DbarFile, entries_for_track}
use phono_junk.AccurateRip.Verify.{
  ChecksumVersion, v1, v2, both, CrcMatch, TrackVerification, TrackVerificationStatus, mismatched,
  verified, max_confidence,
}

abbrev pub default_max_sample_shift : ℕ
default_max_sample_shift = 2939

abbrev pub samples_per_frame : ℕ
samples_per_frame = 588

abbrev pub frame_450_start : ℕ
frame_450_start = 450 * samples_per_frame

pub record DiscTrackSamples : Type 0 where
  pub position : ℕ
  pub samples : List ℕ

pub record OffsetCandidate : Type 0 where
  pub sample_shift : ℤ
  pub full_matches : ℕ
  pub minimum_confidence : ℕ
  pub total_confidence : ℕ
  pub frame_450_matches : ℕ

abbrev pub Rank : Type 0
Rank = ℕ × ℕ × ℕ × ℕ

abbrev pub rank : OffsetCandidate → Rank
rank c = (c.full_matches, c.minimum_confidence, c.total_confidence, c.frame_450_matches)

pub record PrefixSums : Type 0 where
  pub samples : List ℕ
  pub weighted : List ℕ

-- The loop of `PrefixSums::new` on its two lists, each from its last sum.
unfoldable pub sums_from : ℕ → List ℕ → List ℕ
sums_from s [] = s ∷ []
sums_from s (sample ∷ samples) = s ∷ sums_from (wrapping_add s sample) samples

unfoldable pub weighted_from : ℕ → ℕ → List ℕ → List ℕ
weighted_from index w [] = w ∷ []
weighted_from index w (sample ∷ samples) =
    w ∷ weighted_from (index + 1) (wrapping_add w (wrapping_mul (index % u32_mod) sample)) samples

unfoldable pub prefix_sums : List ℕ → PrefixSums
unfolding sums_from weighted_from
prefix_sums samples = record { samples = sums_from 0 samples; weighted = weighted_from 0 0 samples }

unfoldable pub weighted_range : {E : Type 0} → PrefixSums → ℕ → ℕ → ℕ → Outcome E ℕ
weighted_range prefix start end first_multiplier = do
  sum_end ← expect (get_elem? prefix.samples end)
  sum_start ← expect (get_elem? prefix.samples start)
  weighted_end ← expect (get_elem? prefix.weighted end)
  weighted_start ← expect (get_elem? prefix.weighted start)
  let sample_sum : ℕ = wrapping_sub sum_end sum_start
  let global_weighted : ℕ = wrapping_sub weighted_end weighted_start
  let adjustment : ℕ = wrapping_sub first_multiplier (start % u32_mod)
  ok (wrapping_add global_weighted (wrapping_mul adjustment sample_sum))

pub record TrackWindow : Type 0 where
  pub position : ℕ
  pub disc_position : TrackPosition
  pub start : ℕ
  pub len : ℕ

unfoldable pub disc_position : ℕ → ℕ → TrackPosition
disc_position index len =
    if len == 1
    then only
    else if index == 0
    then first
    else if index + 1 == len
    then last
    else middle

-- The loop of `verify_with_offsets` that joins the tracks: the windows, and the samples.
unfoldable pub windows_from : ℕ → ℕ → ℕ → List DiscTrackSamples → List TrackWindow
unfolding disc_position
windows_from index count start [] = []
windows_from index count start (t ∷ ts) =
    record {
      position = t.position;
      disc_position = disc_position index count;
      start = start;
      len = length t.samples;
    }
    ∷ windows_from (index + 1) count (start + length t.samples) ts

unfoldable pub disc_samples : List DiscTrackSamples → List ℕ
disc_samples [] = []
disc_samples (t ∷ ts) = t.samples ++ disc_samples ts

abbrev pub in_disc : ℕ → ℕ → Option ℕ
in_disc shifted disc_len = if leb shifted disc_len then some shifted else none

unfoldable pub source_index : ℕ → ℤ → ℕ → Option ℕ
source_index base (pos n) disc_len = in_disc (base + n) disc_len
source_index base (negsuc n) disc_len =
    if ltb n base then in_disc (base - (n + 1)) disc_len else none

unfoldable pub shifted_weighted :
    {E : Type 0} → PrefixSums → TrackWindow → ℤ → ℕ → ℕ → ℕ → Outcome E (Option ℕ)
unfolding weighted_range source_index
shifted_weighted prefix window shift local_start local_end first_multiplier =
    elim (source_index (window.start + local_start) shift (length prefix.samples - 1)) [
      | none ↦ ok none
      | some start ↦
          let end : ℕ = start + (local_end - local_start) in
          if ltb local_end local_start || not (ltb end (length prefix.samples))
          then ok none
          else (do range ← weighted_range prefix start end first_multiplier; ok (some range))
    ]

-- `unwrap_or(0)`
abbrev pub or_zero : Option ℕ → ℕ
or_zero none = 0
or_zero (some n) = n

unfoldable pub shifted_v1 : {E : Type 0} → PrefixSums → TrackWindow → ℤ → Outcome E ℕ
unfolding shifted_weighted
shifted_v1 prefix window shift =
    let bounds : ℕ × ℕ = skip_bounds window.disc_position (window.len % u32_mod) in
    if ltb bounds.1 bounds.0 then ok 0 else do
      sum ← shifted_weighted prefix window shift (bounds.0 - 1) bounds.1 bounds.0
      ok (or_zero sum)

-- The fold of `shifted_v2`, on the multiplier and the checksum so far.
unfoldable pub fold_v2 : ℕ → ℕ → List ℕ → ℕ
fold_v2 multiplier crc [] = crc
fold_v2 multiplier crc (sample ∷ samples) =
    let product : ℕ = multiplier * sample in
    fold_v2 (multiplier + 1)
      (wrapping_add (wrapping_add crc (product % u32_mod)) (product / 2 ^ 32 % u32_mod)) samples

unfoldable pub shifted_v2 : List ℕ → TrackWindow → ℤ → ℕ
unfolding source_index fold_v2
shifted_v2 disc window shift =
    let bounds : ℕ × ℕ = skip_bounds window.disc_position (window.len % u32_mod) in
    let count : ℕ = bounds.1 - bounds.0 + 1 in
    if ltb bounds.1 bounds.0
    then 0
    else elim (source_index (window.start + bounds.0 - 1) shift (length disc)) [
      | none ↦ 0
      | some start ↦
          if ltb (length disc) (start + count)
          then 0
          else fold_v2 bounds.0 0 (take count (drop start disc))
    ]

unfoldable pub shifted_frame_450 :
    {E : Type 0} → PrefixSums → TrackWindow → ℤ → Outcome E (Option ℕ)
unfolding shifted_weighted
shifted_frame_450 prefix window shift =
    let end : ℕ = frame_450_start + samples_per_frame in
    if leb end window.len
    then (do
      sum ← shifted_weighted prefix window shift frame_450_start end 1
      ok (some (or_zero sum)))
    else ok none
