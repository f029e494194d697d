-- ===== src/AccurateRip/Crc.antt =====
-- phono-junk-accuraterip/src/crc.rs: the two AccurateRip checksums of a track. A sample is a `u32`,
-- a `PcmSector` of junk-libs-disc is its list of samples, and what the sector iterator yields is
-- a sector or an `AnalysisError`, which the code only passes on.
pub mod Window
pub mod Samples
pub mod Streaming
pub mod Errors
use phono_junk.Common.{
  ℕ, zero, suc, ◌+◌, ◌-◌, ◌*◌, ◌/◌, ◌%◌, ◌^◌, min, Bool, ◌&&◌, not, ◌⊎◌, inl, inr,
}
use phono_junk.Common.{List, [], ◌∷◌, length, leb, ◌==◌, if◌then◌else◌}
use phono_junk.Common.Outcome.{Outcome, ok, err, ◌>>=◌, ◌>>◌, fail_if}
use phono_junk.Common.Words.{u32_mod, checked_add, wrapping_add, wrapping_mul}
use phono_junk.Toc.{AudioError, junk, wrong_sample_count}

pub data TrackPosition : Type 0 where
  first middle last only : TrackPosition

pub record TrackCrc : Type 0 where
  pub v1 : ℕ
  pub v2 : ℕ

abbrev pub skip_samples : ℕ
skip_samples = 5 * 588

abbrev check_start : TrackPosition → ℕ
check_start first = skip_samples
check_start only = skip_samples
check_start middle = 1
check_start last = 1

abbrev check_end : TrackPosition → ℕ → ℕ
check_end last total_samples = total_samples - skip_samples
check_end only total_samples = total_samples - skip_samples
check_end first total_samples = total_samples
check_end middle total_samples = total_samples

-- The two matches on the position, and the pair of their results.
abbrev pub skip_bounds : TrackPosition → ℕ → ℕ × ℕ
skip_bounds position total_samples = (check_start position, check_end position total_samples)

-- The product of two `u32` fits a `u64`.
unfoldable pub accumulate : TrackCrc → ℕ → ℕ → TrackCrc
accumulate crc position sample =
    let product : ℕ = position * sample in
    record {
      v1 = wrapping_add crc.v1 (wrapping_mul position sample);
      v2 = wrapping_add (wrapping_add crc.v2 (product / 2 ^ 32 % u32_mod)) (product % u32_mod);
    }

abbrev pub zero_crc : TrackCrc
zero_crc = record { v1 = 0; v2 = 0 }

-- `if pos >= check_start && pos <= check_end { accumulate(…) }`
unfoldable pub check_sample : ℕ × ℕ → TrackCrc → ℕ → ℕ → TrackCrc
unfolding accumulate
check_sample (start, end) crc pos sample =
    if leb start pos && leb pos end then accumulate crc pos sample else crc

-- The loop over the samples of one sector; `pos += 1` may overflow.
unfoldable pub sector_loop : ℕ × ℕ → ℕ → TrackCrc → List ℕ → Outcome AudioError (ℕ × TrackCrc)
sector_loop bounds pos crc [] = ok (pos, crc)
sector_loop bounds pos crc (sample ∷ samples) = do
  next ← checked_add u32_mod pos 1
  sector_loop bounds next (check_sample bounds crc pos sample) samples

-- The loop over the sectors; `emitted += 588` may overflow.
unfoldable pub stream_loop :
    ℕ × ℕ → ℕ → ℕ → TrackCrc → List (ℕ ⊎ List ℕ) → Outcome AudioError (ℕ × TrackCrc)
unfolding sector_loop
stream_loop bounds pos emitted crc [] = ok (emitted, crc)
stream_loop bounds pos emitted crc (inl error ∷ items) = err (junk error)
stream_loop bounds pos emitted crc (inr sector ∷ items) = do
  done ← sector_loop bounds pos crc sector
  total ← checked_add u32_mod emitted 588
  stream_loop bounds done.0 total done.1 items

unfoldable pub track_crc_streaming :
    List (ℕ ⊎ List ℕ) → ℕ → TrackPosition → Outcome AudioError TrackCrc
unfolding stream_loop
track_crc_streaming samples total_samples position = do
  done ← stream_loop (skip_bounds position total_samples) 1 0 zero_crc samples
  fail_if (not (done.0 == total_samples)) (wrong_sample_count done.0 total_samples)
  ok done.1

-- The loop of `track_crc_samples` from an index.
unfoldable pub samples_loop : ℕ × ℕ → ℕ → TrackCrc → List ℕ → Outcome AudioError TrackCrc
samples_loop bounds index crc [] = ok crc
samples_loop bounds index crc (sample ∷ samples) = do
  pos ← checked_add u32_mod (index % u32_mod) 1
  samples_loop bounds (index + 1) (check_sample bounds crc pos sample) samples

unfoldable pub track_crc_samples : List ℕ → TrackPosition → Outcome AudioError TrackCrc
unfolding samples_loop
track_crc_samples samples position =
    samples_loop (skip_bounds position (min (length samples) (u32_mod - 1))) 0 zero_crc samples
