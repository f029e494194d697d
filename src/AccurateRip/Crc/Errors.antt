-- ===== src/AccurateRip/Crc/Errors.antt =====
-- The errors of `track_crc_streaming` of phono-junk-accuraterip/src/crc.rs.
use phono_junk.Common.{ℕ, ◌+◌, ◌*◌, ◌^◌, ◌<◌, ◌≡◌, ◌≢◌, ◌⊎◌, inl, inr, List, ◌∷◌, ◌++◌, length, map}
use phono_junk.Common.Outcome.{err}
use phono_junk.Toc.{junk, wrong_sample_count}
use phono_junk.AccurateRip.Crc.{TrackPosition, track_crc_streaming}
use phono_junk.AccurateRip.Crc.Streaming.{
  AreSectors, track_crc_streaming-wrong_count, track_crc_streaming-read_error,
}

-- For good sectors that hold fewer than 2 ^ 32 - 1 samples: a stream of them that ends after another
-- number of samples than expected is an error that names both numbers, whatever the samples are;
-- and one with a read error after them is that error, whatever follows it and whatever number of
-- samples was expected.
pub track_crc_streaming_errors :
    (sectors : List (List ℕ)) (error : ℕ) (items : List (ℕ ⊎ List ℕ)) (total expected : ℕ)
    (position : TrackPosition)
    → AreSectors sectors
    → 588 * length sectors + 1 < 2 ^ 32
    → 588 * length sectors ≢ total
    → (track_crc_streaming (map inr sectors) total position
        ≡ err (wrong_sample_count (588 * length sectors) total))
      × (track_crc_streaming (map inr sectors ++ inl error ∷ items) expected position
          ≡ err (junk error))
track_crc_streaming_errors sectors error items total expected position h fits ne = (
  track_crc_streaming-wrong_count sectors total position h fits ne,
  track_crc_streaming-read_error sectors error items expected position h fits,
)
