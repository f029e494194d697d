-- ===== src/AccurateRip/Crc/Samples.antt =====
-- `track_crc_samples` of phono-junk-accuraterip/src/crc.rs against the checksum formulas.
use phono_junk.Common.{
  ℕ, ◌+◌, ◌-◌, ◌%◌, ◌^◌, ◌≤◌, ◌<◌, ◌≡◌, ap, ap₂, ◌∙◌, min, Bool, true, false, ◌&&◌,
}
use phono_junk.Common.{List, [], ◌∷◌, length, arith, leb, if◌then◌else◌}
use phono_junk.Common.Outcome.{ok}
use phono_junk.Common.Words.{u32_mod, checked_add-fits}
use phono_junk.Toc.{AudioError}
use phono_junk.AccurateRip.Crc.{
  TrackPosition, first, middle, last, only, TrackCrc, skip_bounds, accumulate, check_sample,
  samples_loop, track_crc_samples,
}
use phono_junk.AccurateRip.Crc.Window.{sum_by, v1_term, v2_term, slice, window_by, window_by-slice}

-- Both checksums from sums that are not cut to 32 bits.
abbrev pub crc_of : ℕ → ℕ → TrackCrc
crc_of a b = record { v1 = a % 2 ^ 32; v2 = b % 2 ^ 32 }

-- The checksums by their formulas: the samples of the window, the first at its position.
abbrev pub window_crc : ℕ × ℕ → List ℕ → TrackCrc
window_crc bounds samples =
    crc_of (sum_by v1_term bounds.0 (slice bounds samples))
      (sum_by v2_term bounds.0 (slice bounds samples))

pub start_pos : (position : TrackPosition) (total : ℕ) → 1 ≤ (skip_bounds position total).0
start_pos first total = omega arith
start_pos middle total = omega arith
start_pos last total = omega arith
start_pos only total = omega arith

accumulate-crc_of :
    (a b pos x : ℕ) → accumulate (crc_of a b) pos x ≡ crc_of (a + v1_term pos x) (b + v2_term pos x)
unfolding accumulate
accumulate-crc_of a b pos x =
    ap₂ (λ (c d : ℕ). record { v1 = c; v2 = d }) (omega arith) (omega arith)

add_if :
    (test : Bool) (a b x y : ℕ) (added : TrackCrc)
    → added ≡ crc_of (a + x) (b + y)
    → (if test then added else crc_of a b)
      ≡ crc_of (a + (if test then x else 0)) (b + (if test then y else 0))
add_if true a b x y added e = e
add_if false a b x y added e =
    ap₂ (λ (c d : ℕ). crc_of c d) (let z : a ≡ a + 0 = omega arith in z)
      (let z : b ≡ b + 0 = omega arith in z)

pub check_sample-crc_of :
    (start end a b pos x : ℕ)
    → check_sample (start, end) (crc_of a b) pos x
      ≡ crc_of
          (a + (if leb start pos && leb pos end then v1_term pos x else 0))
          (b + (if leb start pos && leb pos end then v2_term pos x else 0))
unfolding check_sample
check_sample-crc_of start end a b pos x =
    add_if (leb start pos && leb pos end) a b (v1_term pos x) (v2_term pos x) _
      (accumulate-crc_of a b pos x)

samples_loop-step :
    (start end index a b x : ℕ) (xs : List ℕ)
    → index + 1 < 2 ^ 32
    → samples_loop (start, end) index (crc_of a b) (x ∷ xs)
      ≡ samples_loop
          (start, end)
          (index + 1)
          (check_sample (start, end) (crc_of a b) (index + 1) x)
          xs
unfolding samples_loop
samples_loop-step start end index a b x xs fits =
    let small : index % 2 ^ 32 ≡ index = omega arith in
    rw small (rw (checked_add-fits {E = AudioError} u32_mod index 1 fits))

samples_loop-eq :
    (start end index a b : ℕ) (xs : List ℕ)
    → index + length xs < 2 ^ 32
    → samples_loop (start, end) index (crc_of a b) xs
      ≡ ok (
          crc_of
            (a + window_by v1_term start end (index + 1) xs)
            (b + window_by v2_term start end (index + 1) xs))
samples_loop-eq start end index a b [] fits =
    unfold samples_loop in
    ap₂ (λ (c d : ℕ). ok (crc_of c d)) (let z : a ≡ a + 0 = omega arith in z)
      (let z : b ≡ b + 0 = omega arith in z)
samples_loop-eq start end index a b (x ∷ xs) fits =
    samples_loop-step start end index a b x xs (omega arith)
    ∙ ap (λ (c : TrackCrc). samples_loop (start, end) (index + 1) c xs)
        (check_sample-crc_of start end a b (index + 1) x)
    ∙ samples_loop-eq start end (index + 1) _ _ xs (omega arith)
    ∙ ap₂ (λ (c d : ℕ). ok (crc_of c d)) (omega arith) (omega arith)

-- For a track below 2 ^ 32 samples `track_crc_samples` does not panic, and gives the two sums of
-- the AccurateRip formulas modulo 2 ^ 32: over the samples of the window that `skip_bounds` leaves,
-- position times sample, and the two 32-bit halves of that product.
pub track_crc_samples-eq :
    (samples : List ℕ) (position : TrackPosition)
    → length samples < 2 ^ 32
    → track_crc_samples samples position
      ≡ ok (window_crc (skip_bounds position (length samples)) samples)
unfolding track_crc_samples
track_crc_samples-eq samples position fits =
    let whole : min (length samples) (2 ^ 32 - 1) ≡ length samples = omega arith in
    let start = (skip_bounds position (length samples)).0 in
    let end = (skip_bounds position (length samples)).1 in
    let pos : 1 ≤ start = start_pos position (length samples) in
    rw whole (
      samples_loop-eq start end 0 0 0 samples (omega arith)
      ∙ ap₂ (λ (c d : ℕ). ok (crc_of c d))
          (omega (arith, window_by-slice v1_term start end samples pos))
          (omega (arith, window_by-slice v2_term start end samples pos)))
