-- ===== src/Toc/DiscId/AccurateRip.antt =====
-- `accuraterip_ids` of phono-junk-toc/src/discid.rs against the formulas of its documentation.
use phono_junk.Common.{ℕ, ◌+◌, ◌-◌, ◌*◌, ◌%◌, ◌^◌, ◌≤◌, ◌<◌, ◌≡◌, ◌∙◌, ap, ap₂, max}
use phono_junk.Common.{List, [], ◌∷◌, length, arith, ◌==◌, if◌then◌else◌}
use phono_junk.Common.Outcome.{ok}
use phono_junk.Common.Words.{u8_mod, u32_mod, checked_add-fits, checked_sub-le}
use phono_junk.Toc.{Toc, AudioError}
use phono_junk.Toc.DiscId.{id_loop, num_tracks, accuraterip_numbers}

pub num_tracks-eq :
    (toc : Toc)
    → toc.first_track ≤ toc.last_track
    → toc.last_track - toc.first_track < 255
    → num_tracks toc ≡ ok (toc.last_track - toc.first_track + 1)
unfolding num_tracks
num_tracks-eq toc h fits =
    rw (checked_sub-le {E = AudioError} toc.last_track toc.first_track h)
      (checked_add-fits u8_mod (toc.last_track - toc.first_track) 1 (omega arith))

module _ (lead_in_frames : ℕ) where
  -- sum(lsn_offsets)
  abbrev pub lsn_sum : List ℕ → ℕ
  lsn_sum [] = 0
  lsn_sum (offset ∷ offsets) = (offset - lead_in_frames) + lsn_sum offsets

  -- sum((lsn or 1) * track_number), the tracks numbered from the given number
  abbrev pub weighted_lsn_sum : ℕ → List ℕ → ℕ
  weighted_lsn_sum number [] = 0
  weighted_lsn_sum number (offset ∷ offsets) =
      max (offset - lead_in_frames) 1 * number + weighted_lsn_sum (number + 1) offsets

  or_one : (l : ℕ) → (if l == 0 then 1 else l) ≡ max l 1
  or_one l = ground arith

  id_loop-step :
      (toc : Toc) (i a b offset : ℕ) (offsets : List ℕ)
      → toc.first_track + i < 2 ^ 32
      → id_loop lead_in_frames toc i (offset ∷ offsets) (a % 2 ^ 32, b % 2 ^ 32)
        ≡ id_loop lead_in_frames toc (i + 1) offsets (
          (a + (offset - lead_in_frames)) % 2 ^ 32,
          (b + max (offset - lead_in_frames) 1 * (toc.first_track + i)) % 2 ^ 32,
        )
  unfolding id_loop
  id_loop-step toc i a b offset offsets fits =
      let small : i % 2 ^ 32 ≡ i = omega arith in
      rw small (
        rw (checked_add-fits {E = AudioError} u32_mod toc.first_track i fits) (
          rw or_one (
            ap₂ (λ (x y : ℕ). id_loop lead_in_frames toc (i + 1) offsets (x, y)) (omega arith)
              (omega arith))))

  id_loop-eq :
      (toc : Toc) (i number a b : ℕ) (offsets : List ℕ)
      → number ≡ toc.first_track + i
      → number + length offsets ≤ 2 ^ 32
      → id_loop lead_in_frames toc i offsets (a % 2 ^ 32, b % 2 ^ 32)
        ≡ ok ((a + lsn_sum offsets) % 2 ^ 32, (b + weighted_lsn_sum number offsets) % 2 ^ 32)
  unfolding id_loop
  id_loop-eq toc i number a b [] e fits =
      ap₂ (λ (x y : ℕ). ok (x % 2 ^ 32, y % 2 ^ 32)) (let z : a ≡ a + 0 = omega arith in z)
        (let z : b ≡ b + 0 = omega arith in z)
  id_loop-eq toc i number a b (offset ∷ offsets) e fits =
      let l : ℕ = offset - lead_in_frames in
      rw e (
        id_loop-step toc i a b offset offsets (omega arith)
        ∙ id_loop-eq toc (i + 1) (toc.first_track + i + 1) (a + l)
            (b + max l 1 * (toc.first_track + i)) offsets (omega arith) (omega arith)
        ∙ ap₂ (λ (x y : ℕ). ok (x % 2 ^ 32, y % 2 ^ 32)) (omega arith) (omega arith))

  -- For a disc whose numbers fit their words, `accuraterip_ids` computes the documented sums modulo
  -- 2 ^ 32: the first is the sum of all LSN offsets and the LSN lead-out, the second weighs each
  -- LSN offset, or 1 where it is 0, by its track number, and the lead-out by the track count plus
  -- one.
  pub accuraterip_numbers-eq :
      (toc : Toc)
      → toc.first_track ≤ toc.last_track
      → toc.last_track - toc.first_track < 255
      → toc.leadout_sector < 2 ^ 32
      → toc.first_track + length toc.track_offsets ≤ 2 ^ 32
      → accuraterip_numbers lead_in_frames toc
        ≡ ok (
          (lsn_sum toc.track_offsets + (toc.leadout_sector - lead_in_frames)) % 2 ^ 32,
          (weighted_lsn_sum toc.first_track toc.track_offsets
                + (toc.leadout_sector - lead_in_frames)
                  * (toc.last_track - toc.first_track + 1 + 1))
              % 2 ^ 32,
        )
  unfolding accuraterip_numbers
  accuraterip_numbers-eq toc numbered few leadout fits =
      let l : ℕ = toc.leadout_sector - lead_in_frames in
      let n : ℕ = toc.last_track - toc.first_track + 1 + 1 in
      let whole : l ≡ l % 2 ^ 32 = omega arith in
      rw (num_tracks-eq toc numbered few) (
        ap (λ (x : ℕ). id_loop lead_in_frames toc 0 toc.track_offsets (x, (l * n) % 2 ^ 32)) whole
        ∙ id_loop-eq toc 0 toc.first_track l (l * n) toc.track_offsets (omega arith) fits
        ∙ ap₂ (λ (x y : ℕ). ok (x % 2 ^ 32, y % 2 ^ 32)) (omega arith) (omega arith))
