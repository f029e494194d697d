-- ===== src/AccurateRip/Crc/Streaming.antt =====
-- `track_crc_streaming` of phono-junk-accuraterip/src/crc.rs: it agrees with `track_crc_samples` on
-- the samples of all sectors, and fails on an incomplete or faulty stream.
use mathlib.Core.List.{append-nil}
use phono_junk.Common.{
  ℕ, suc, ◌+◌, ◌*◌, ◌^◌, ◌≤◌, ◌<◌, ◌≡◌, ◌≢◌, refl, sym, ap, ap₂, ◌∙◌, ◌⊎◌, inl, inr, false, true,
}
use phono_junk.Common.{List, [], ◌∷◌, ◌++◌, map, length, length-append, All, arith, ◌==◌, ==_iff}
use phono_junk.Common.Outcome.{Outcome, ok, err}
use phono_junk.Common.Words.{u32_mod, checked_add-fits}
use phono_junk.Toc.{AudioError, wrong_sample_count, junk}
use phono_junk.AccurateRip.Crc.{
  TrackPosition, TrackCrc, zero_crc, skip_bounds, check_sample, sector_loop, stream_loop,
  track_crc_streaming, track_crc_samples,
}
use phono_junk.AccurateRip.Crc.Window.{v1_term, v2_term, window_by, window_by-slice}
use phono_junk.AccurateRip.Crc.Samples.{
  crc_of, start_pos, check_sample-crc_of, track_crc_samples-eq,
}

-- All samples of the sectors, in order.
abbrev pub all_samples : List (List ℕ) → List ℕ
all_samples [] = []
all_samples (sector ∷ sectors) = sector ++ all_samples sectors

abbrev pub AreSectors : List (List ℕ) → Type 0
AreSectors sectors = All (λ (sector : List ℕ). length sector ≡ 588) sectors

pub length-all_samples :
    (sectors : List (List ℕ))
    → AreSectors sectors
    → length (all_samples sectors) ≡ 588 * length sectors
length-all_samples [] h = omega arith
length-all_samples (sector ∷ sectors) h =
    omega (arith, h.0, length-append sector (all_samples sectors), length-all_samples sectors h.1)

window_by-append :
    (term : ℕ → ℕ → ℕ) (start end p : ℕ) (xs ys : List ℕ)
    → window_by term start end p (xs ++ ys)
      ≡ window_by term start end p xs + window_by term start end (p + length xs) ys
window_by-append term start end p [] ys =
    let e : p ≡ p + 0 = omega arith in
    omega (arith, ap (λ (q : ℕ). window_by term start end q ys) e)
window_by-append term start end p (x ∷ xs) ys =
    let e : p + 1 + length xs ≡ p + suc (length xs) = omega arith in
    omega (
      arith,
      window_by-append term start end (p + 1) xs ys,
      ap (λ (q : ℕ). window_by term start end q ys) e,
    )

state_eq :
    {p q a b c d : ℕ}
    → p ≡ q
    → a ≡ c
    → b ≡ d
    → ◌≡◌ {A = Outcome AudioError (ℕ × TrackCrc)} (ok (p, crc_of a b)) (ok (q, crc_of c d))
state_eq e f g = λ i. ok (e i, crc_of (f i) (g i))

module _ (start end : ℕ) where
  loop_eq :
      {p q m n a b c d : ℕ} (items : List (ℕ ⊎ List ℕ))
      → p ≡ q
      → m ≡ n
      → a ≡ c
      → b ≡ d
      → stream_loop (start, end) p m (crc_of a b) items
        ≡ stream_loop (start, end) q n (crc_of c d) items
  loop_eq items e f g h = λ i. stream_loop (start, end) (e i) (f i) (crc_of (g i) (h i)) items

  sector_loop-step :
      (pos a b x : ℕ) (xs : List ℕ)
      → pos + 1 < 2 ^ 32
      → sector_loop (start, end) pos (crc_of a b) (x ∷ xs)
        ≡ sector_loop (start, end) (pos + 1) (check_sample (start, end) (crc_of a b) pos x) xs
  unfolding sector_loop
  sector_loop-step pos a b x xs fits = rw (checked_add-fits {E = AudioError} u32_mod pos 1 fits)

  sector_loop-eq :
      (pos a b : ℕ) (xs : List ℕ)
      → pos + length xs < 2 ^ 32
      → sector_loop (start, end) pos (crc_of a b) xs
        ≡ ok (
          pos + length xs,
          crc_of (a + window_by v1_term start end pos xs) (b + window_by v2_term start end pos xs),
        )
  sector_loop-eq pos a b [] fits =
      unfold sector_loop in state_eq (omega arith) (omega arith) (omega arith)
  sector_loop-eq pos a b (x ∷ xs) fits =
      sector_loop-step pos a b x xs (omega arith)
      ∙ ap (λ (c : TrackCrc). sector_loop (start, end) (pos + 1) c xs)
          (check_sample-crc_of start end a b pos x)
      ∙ sector_loop-eq (pos + 1) _ _ xs (omega arith)
      ∙ state_eq (omega arith) (omega arith) (omega arith)

  stream_loop-sector :
      (pos emitted a b : ℕ) (sector : List ℕ) (items : List (ℕ ⊎ List ℕ))
      → pos + length sector < 2 ^ 32
      → emitted + 588 < 2 ^ 32
      → stream_loop (start, end) pos emitted (crc_of a b) (inr sector ∷ items)
        ≡ stream_loop
            (start, end)
            (pos + length sector)
            (emitted + 588)
            (crc_of
              (a + window_by v1_term start end pos sector)
              (b + window_by v2_term start end pos sector))
            items
  unfolding stream_loop
  stream_loop-sector pos emitted a b sector items fits more =
      rw (sector_loop-eq pos a b sector fits)
        (rw (checked_add-fits {E = AudioError} u32_mod emitted 588 more))

  -- Good sectors in front of any stream are all summed before the rest is looked at.
  stream_loop-eq :
      (pos emitted a b : ℕ) (sectors : List (List ℕ)) (items : List (ℕ ⊎ List ℕ))
      → AreSectors sectors
      → pos + 588 * length sectors < 2 ^ 32
      → emitted + 588 * length sectors < 2 ^ 32
      → stream_loop (start, end) pos emitted (crc_of a b) (map inr sectors ++ items)
        ≡ stream_loop
            (start, end)
            (pos + 588 * length sectors)
            (emitted + 588 * length sectors)
            (crc_of
              (a + window_by v1_term start end pos (all_samples sectors))
              (b + window_by v2_term start end pos (all_samples sectors)))
            items
  stream_loop-eq pos emitted a b [] items h fits more =
      loop_eq items (omega arith) (omega arith) (omega arith) (omega arith)
  stream_loop-eq pos emitted a b (sector ∷ sectors) items h fits more =
      let size : length sector ≡ 588 = h.0 in
      stream_loop-sector pos emitted a b sector (map inr sectors ++ items) (omega arith)
        (omega arith)
      ∙ stream_loop-eq (pos + length sector) (emitted + 588) _ _ sectors items h.1 (omega arith)
          (omega arith)
      ∙ loop_eq items (omega arith) (omega arith)
          (omega (arith, window_by-append v1_term start end pos sector (all_samples sectors)))
          (omega (arith, window_by-append v2_term start end pos sector (all_samples sectors)))

-- What the loop returns of a stream with no error, and the test at its end.
stream_of_sectors :
    (sectors : List (List ℕ)) (bounds : ℕ × ℕ)
    → AreSectors sectors
    → 588 * length sectors + 1 < 2 ^ 32
    → stream_loop bounds 1 0 zero_crc (map inr sectors)
      ≡ ok (
        588 * length sectors,
        crc_of
            (window_by v1_term bounds.0 bounds.1 1 (all_samples sectors))
            (window_by v2_term bounds.0 bounds.1 1 (all_samples sectors)),
      )
stream_of_sectors sectors (start, end) h fits =
    ap (stream_loop (start, end) 1 0 zero_crc) (sym (append-nil (map inr sectors)))
    ∙ stream_loop-eq start end 1 0 0 0 sectors [] h (omega arith) (omega arith)
    ∙ (unfold stream_loop in state_eq (omega arith) (omega arith) (omega arith))

==_self : (n : ℕ) → (n == n) ≡ true
==_self n = (==_iff n n).1 refl

==_ne : (n m : ℕ) → n ≢ m → (n == m) ≡ false
==_ne n m h = ground arith

-- A complete stream of sectors gives the checksums that `track_crc_samples` computes of all its
-- samples at once, if their number is below 2 ^ 32 - 1.
pub track_crc_streaming-eq-samples :
    (sectors : List (List ℕ)) (position : TrackPosition)
    → AreSectors sectors
    → 588 * length sectors + 1 < 2 ^ 32
    → track_crc_streaming (map inr sectors) (588 * length sectors) position
      ≡ track_crc_samples (all_samples sectors) position
track_crc_streaming-eq-samples sectors position h fits =
    let total : ℕ = 588 * length sectors in
    let bounds : ℕ × ℕ = skip_bounds position total in
    let samples : List ℕ = all_samples sectors in
    let size : length samples ≡ total = length-all_samples sectors h in
    let pos : 1 ≤ bounds.0 = start_pos position total in
    unfold track_crc_streaming in
    rw (stream_of_sectors sectors bounds h fits) (
      rw (==_self total) (
        ap₂ (λ (c d : ℕ). ok (crc_of c d)) (window_by-slice v1_term bounds.0 bounds.1 samples pos)
          (window_by-slice v2_term bounds.0 bounds.1 samples pos)
        ∙ sym (rw size at (track_crc_samples-eq samples position (omega arith)))))

-- A stream that ends after another number of samples than expected is an error that names both
-- numbers, whatever the samples are.
pub track_crc_streaming-wrong_count :
    (sectors : List (List ℕ)) (total : ℕ) (position : TrackPosition)
    → AreSectors sectors
    → 588 * length sectors + 1 < 2 ^ 32
    → 588 * length sectors ≢ total
    → track_crc_streaming (map inr sectors) total position
      ≡ err (wrong_sample_count (588 * length sectors) total)
track_crc_streaming-wrong_count sectors total position h fits ne =
    unfold track_crc_streaming in
    rw (stream_of_sectors sectors (skip_bounds position total) h fits)
      (rw (==_ne (588 * length sectors) total ne))

-- A read error after any number of good sectors is the result, whatever follows it and whatever
-- number of samples was expected.
pub track_crc_streaming-read_error :
    (sectors : List (List ℕ)) (error : ℕ) (items : List (ℕ ⊎ List ℕ)) (total : ℕ)
    (position : TrackPosition)
    → AreSectors sectors
    → 588 * length sectors + 1 < 2 ^ 32
    → track_crc_streaming (map inr sectors ++ inl error ∷ items) total position ≡ err (junk error)
track_crc_streaming-read_error sectors error items total position h fits =
    unfold track_crc_streaming in
    rw
      (stream_loop-eq (skip_bounds position total).0 (skip_bounds position total).1 1 0 0 0 sectors
        (inl error ∷ items) h (omega arith) (omega arith))
      (unfold stream_loop in refl)
