-- ===== src/Toc/DiscId/Cddb.antt =====
-- `cddb_discid` of phono-junk-toc/src/discid.rs: its bit fields.
use Prim.Native.Nat.{bit_or, bit_and}
use mathlib.Core.Option.{get_or}
use phono_junk.Common.{ℕ, ◌+◌, ◌-◌, ◌*◌, ◌/◌, ◌%◌, ◌^◌, ◌≤◌, ◌<◌, ◌≡◌, ◌∙◌, ap}
use phono_junk.Common.{List, [], ◌∷◌, length, get_elem?, All, arith}
use phono_junk.Common.Outcome.{ok}
use phono_junk.Common.Words.{checked_sub-le}
use phono_junk.Common.Bits.{bit_or-shifted, bit_and-byte}
use phono_junk.Toc.{Toc, AudioError, IsValid}
use phono_junk.Toc.DiscId.{digit_sum, seconds_digits, shl, cddb_number}
use phono_junk.Toc.DiscId.DigitSum.{digit_sum-le}
use phono_junk.Toc.DiscId.AccurateRip.{num_tracks-eq}

-- The sum of the digit sums of the track starts in seconds.
abbrev pub digits_total : List ℕ → ℕ
digits_total [] = 0
digits_total (offset ∷ offsets) = digit_sum (offset / 75) + digits_total offsets

seconds_digits-eq :
    (n : ℕ) (offsets : List ℕ)
    → seconds_digits (n % 2 ^ 32) offsets ≡ (n + digits_total offsets) % 2 ^ 32
unfolding seconds_digits
seconds_digits-eq n [] = omega arith
seconds_digits-eq n (offset ∷ offsets) =
    let d : ℕ = digit_sum (offset / 75) in
    ap (λ (x : ℕ). seconds_digits x offsets)
      (let e : (n % 2 ^ 32 + d) % 2 ^ 32 ≡ (n + d) % 2 ^ 32 = omega arith in e)
    ∙ seconds_digits-eq (n + d) offsets
    ∙ ap (λ (x : ℕ). x % 2 ^ 32) (omega arith)

digits_total-le :
    (offsets : List ℕ)
    → All (λ o. o < 4915200) offsets
    → digits_total offsets ≤ 65536 * length offsets
digits_total-le [] h = omega arith
digits_total-le (offset ∷ offsets) h =
    omega (arith, h.0, digit_sum-le (offset / 75), digits_total-le offsets h.1)

-- Three fields that fit 8, 16 and 8 bits, joined as the code joins them.
join_fields :
    (a t c : ℕ)
    → a < 255
    → t < 65536
    → c < 256
    → bit_or (bit_or (shl a 24) (shl t 8)) (bit_and c 0xff) ≡ a * 2 ^ 24 + t * 2 ^ 8 + c
join_fields a t c ha ht hc =
    let high : shl a 24 ≡ a * 2 ^ 24 = omega arith in
    let mid : shl t 8 ≡ t * 2 ^ 8 = omega arith in
    let inner : bit_or (a * 2 ^ 24) (t * 2 ^ 8) ≡ (a * 2 ^ 16 + t) * 2 ^ 8 =
      omega (arith, bit_or-shifted 24 a (t * 2 ^ 8) (omega arith)) in
    rw high (
      rw mid (
        rw inner (
          rw (bit_and-byte c hc)
            (bit_or-shifted 8 (a * 2 ^ 16 + t) c (omega arith) ∙ (omega arith)))))

below_leadout :
    (offsets : List ℕ) (leadout bound : ℕ)
    → leadout ≤ bound
    → All (λ o. o < leadout) offsets
    → All (λ o. o < bound) offsets
below_leadout [] leadout bound h a = tt
below_leadout (o ∷ os) leadout bound h a =
    let first : o < leadout = a.0 in (omega arith, below_leadout os leadout bound h a.1)

first_below :
    (offsets : List ℕ) (leadout : ℕ)
    → 0 < length offsets
    → All (λ o. o < leadout) offsets
    → get_or (get_elem? offsets 0) 0 ≤ leadout
first_below [] leadout pos a = omega arith
first_below (o ∷ os) leadout pos a = let first : o < leadout = a.0 in omega arith

-- On a valid TOC of at most 255 tracks that ends before 65536 seconds, `cddb_discid` does not
-- overflow, and its number has three fields that do not overlap: the digit sums modulo 255 in the
-- top byte, the playing time in whole seconds in the middle, and the track count in the low byte.
pub cddb_number-eq :
    (toc : Toc)
    → IsValid toc
    → length toc.track_offsets ≤ 255
    → toc.last_track - toc.first_track < 255
    → toc.leadout_sector < 4915200
    → cddb_number toc
      ≡ ok (
          digits_total toc.track_offsets % 255 * 2 ^ 24
          + (toc.leadout_sector - get_or (get_elem? toc.track_offsets 0) 0) / 75 * 2 ^ 8
          + (toc.last_track - toc.first_track + 1))
unfolding cddb_number
cddb_number-eq toc v short few early =
    let first : ℕ = get_or (get_elem? toc.track_offsets 0) 0 in
    let total : ℕ = digits_total toc.track_offsets in
    let bounded : total ≤ 65536 * length toc.track_offsets =
      digits_total-le toc.track_offsets (
        below_leadout toc.track_offsets toc.leadout_sector 4915200 (omega arith)
          v.before_leadout) in
    let no_wrap : seconds_digits 0 toc.track_offsets ≡ total =
      omega (arith, seconds_digits-eq 0 toc.track_offsets) in
    rw
      (checked_sub-le {E = AudioError} toc.leadout_sector first
        (first_below toc.track_offsets toc.leadout_sector v.nonempty v.before_leadout))
      (rw (num_tracks-eq toc v.numbered few) (
        rw no_wrap (
          ap ok (
            join_fields (total % 255) ((toc.leadout_sector - first) / 75)
              (toc.last_track - toc.first_track + 1) (omega arith) (omega arith) (omega arith)))))
