-- ===== src/Toc.antt =====
-- phono-junk-core/src/lib.rs: the table of contents of a CD and what is read off it. A `u8`, `u32`
-- or `u64` is a native number whose range is stated where it matters; `saturating_sub` is the
-- native `-`, which stops at 0.
pub mod Spans
pub mod Layout
pub mod DiscId
use phono_junk.Common.{ℕ, zero, suc, ◌+◌, ◌-◌, ◌*◌, ◌%◌, ◌≤◌, ◌<◌, ◌≡◌, ◌≢◌, Option, none, some}
use phono_junk.Common.{List, [], ◌∷◌, length, get_elem?, All}
use phono_junk.Common.Outcome.{Outcome, ok, ◌>>=◌}
use phono_junk.Common.Words.{u8_mod, checked_add}
use mathlib.Core.Option.{get_or}

-- The messages of `AudioError::InvalidToc` and `AudioError::Unsupported`, one constructor for each
-- place that makes one; what the source formats into a message is an argument.
pub data AudioError : Type 0 where
  no_tracks_in_layout no_audio_tracks leading_data data_below_lead_in : AudioError
  empty_offsets first_after_last offsets_not_ascending leadout_not_past_last : AudioError
  wrong_sample_count : ℕ → ℕ → AudioError
  junk : ℕ → AudioError

pub record Toc : Type 0 where
  pub first_track : ℕ
  pub last_track : ℕ
  pub leadout_sector : ℕ
  pub track_offsets : List ℕ

pub record TrackSpan : Type 0 where
  pub position : ℕ
  pub start_sector : ℕ
  pub length_frames : ℕ

abbrev pub track_count : Toc → ℕ
track_count t = length t.track_offsets

-- `.get(idx).copied().unwrap_or(self.leadout_sector)`
abbrev pub offset_or_leadout : Toc → ℕ → ℕ
offset_or_leadout t idx = get_or (get_elem? t.track_offsets idx) t.leadout_sector

unfoldable pub track_length_frames : Toc → ℕ → Option ℕ
track_length_frames t idx = elim (get_elem? t.track_offsets idx) [
  | none ↦ none
  | some start ↦ some (offset_or_leadout t (idx + 1) - start)
]

unfoldable pub total_length_frames : Toc → ℕ
total_length_frames t = elim (get_elem? t.track_offsets 0) [
  | none ↦ 0
  | some first ↦ t.leadout_sector - first
]

-- The iterator of `iter_track_spans` from index `i`, with the offsets that are left. `i as u8` cuts
-- the index to a byte, and the sum with `first_track` may overflow.
unfoldable pub spans_from {ℓ} : {E : Type ℓ} → Toc → ℕ → List ℕ → Outcome E (List TrackSpan)
spans_from t i [] = ok []
spans_from t i (start ∷ rest) = do
  position ← checked_add u8_mod t.first_track (i % u8_mod)
  spans ← spans_from t (i + 1) rest
  ok (
      record {
        position = position;
        start_sector = start;
        length_frames = offset_or_leadout t (i + 1) - start;
      }
      ∷ spans)

unfoldable pub iter_track_spans {ℓ} : {E : Type ℓ} → Toc → Outcome E (List TrackSpan)
unfolding spans_from
iter_track_spans t = spans_from t 0 t.track_offsets

abbrev pub Ascending : List ℕ → Type 0
Ascending [] = Unit
Ascending (x ∷ []) = Unit
Ascending (x ∷ y ∷ xs) = (x < y) × Ascending (y ∷ xs)

-- What a TOC of an audio disc satisfies.
pub record IsValid (t : Toc) : Type 0 where
  pub nonempty : 0 < length t.track_offsets
  pub numbered : t.first_track ≤ t.last_track
  pub ascending : Ascending t.track_offsets
  pub before_leadout : All (λ o. o < t.leadout_sector) t.track_offsets
