-- ===== src/Toc/Layout/Shape.antt =====
-- What `layout_to_toc` makes of an audio disc, a CD-Extra disc and a mixed-mode disc.
use phono_junk.Common.{
  is_empty, ℕ, ◌+◌, ◌-◌, ◌^◌, ◌<◌, ◌≤◌, ◌≡◌, refl, Bool, true, false, ◌||◌, none, some,
}
use phono_junk.Common.{List, [], ◌∷◌, ◌++◌, map, length, get_elem?, get_last?, All, any}
use phono_junk.Common.{take-append, drop-append, le→leb}
use phono_junk.Common.Outcome.{ok, err}
use phono_junk.Common.Words.{checked_add-fits, u32_mod}
use phono_junk.Toc.{Toc, IsValid, leading_data}
use phono_junk.Toc.Layout.{
  TrackLayout, position, layout_to_toc, toc_of_runs, leadout_of, split_runs,
}
use phono_junk.Toc.Layout.Valid.{validate_toc_iff}

module _ {ℓ} {A : Type ℓ} (p : A → Bool) where
  position-none : (xs : List A) → All (λ x. p x ≡ false) xs → position p xs ≡ none
  unfolding position
  position-none [] h = refl
  position-none (x ∷ xs) h = rw h.0 (rw (position-none xs h.1))

  position-append :
      (xs : List A) (d : A) (ys : List A)
      → All (λ x. p x ≡ false) xs
      → p d ≡ true
      → position p (xs ++ d ∷ ys) ≡ some (length xs)
  unfolding position
  position-append [] d ys h e = rw e
  position-append (x ∷ xs) d ys h e = rw h.0 (rw (position-append xs d ys h.1 e))

  any-false : (xs : List A) → All (λ x. p x ≡ false) xs → any p xs ≡ false
  any-false [] h = refl
  any-false (x ∷ xs) h = rw h.0 (any-false xs h.1)

  any-append : (xs : List A) (a : A) (ys : List A) → p a ≡ true → any p (xs ++ a ∷ ys) ≡ true
  any-append [] a ys h = rw h
  any-append (x ∷ xs) a ys h = rw (any-append xs a ys h) (or_true (p x))
    where
      or_true : (b : Bool) → (b || true) ≡ true
      or_true true = refl
      or_true false = refl

module _ {L : Type 0} (view : TrackLayout L) where
  open view use {is_data, is_audiolike, number, absolute_offset, length_sectors}

  -- The TOC of an audio run with the given ends and lead-out.
  abbrev pub run_toc : L → L → ℕ → List L → Toc
  run_toc first last leadout audio = record {
    first_track = number first;
    last_track = number last;
    leadout_sector = leadout;
    track_offsets = map absolute_offset audio;
  }

  nonempty_run :
      (audio : List L) (first : L) → get_elem? audio 0 ≡ some first → is_empty audio ≡ false
  nonempty_run [] first e = cc
  nonempty_run (x ∷ xs) first e = refl

  toc_of_runs-eq :
      (audio trailing : List L) (first last : L) (leadout : ℕ)
      → get_elem? audio 0 ≡ some first
      → get_last? audio ≡ some last
      → leadout_of view audio trailing ≡ ok leadout
      → IsValid (run_toc first last leadout audio)
      → toc_of_runs view audio trailing ≡ ok (run_toc first last leadout audio)
  unfolding toc_of_runs
  toc_of_runs-eq audio trailing first last leadout e l o v =
      rw (nonempty_run audio first e)
        (rw o (rw e (rw l (rw ((validate_toc_iff (run_toc first last leadout audio)).1 v)))))

  data_run_not_audio :
      (xs : List L) → All (λ t. is_data t ≡ true) xs → All (λ t. is_audiolike t ≡ false) xs
  data_run_not_audio [] h = tt
  data_run_not_audio (x ∷ xs) h = (view.data_not_audiolike x h.0, data_run_not_audio xs h.1)

  split_runs-audio :
      (audio : List L) → All (λ t. is_data t ≡ false) audio → split_runs view audio ≡ ok (audio, [])
  unfolding split_runs
  split_runs-audio audio h = rw (position-none is_data audio h, split_runs)

  split_runs-data :
      (audio : List L) (d : L) (rest : List L)
      → All (λ t. is_data t ≡ false) audio
      → All (λ t. is_data t ≡ true) (d ∷ rest)
      → split_runs view (audio ++ d ∷ rest) ≡ ok (audio, d ∷ rest)
  unfolding split_runs
  split_runs-data audio d rest h k =
      rw (position-append is_data audio d rest h k.0, split_runs)
        (rw (drop-append audio (d ∷ rest)) (
          rw (any-false is_audiolike (d ∷ rest) (data_run_not_audio (d ∷ rest) k))
            (rw (take-append audio (d ∷ rest)))))

  is_empty-append : (xs : List L) (y : L) (ys : List L) → is_empty (xs ++ y ∷ ys) ≡ false
  is_empty-append [] y ys = refl
  is_empty-append (x ∷ xs) y ys = refl

  -- A layout with no data track gives the TOC of all its tracks, with the lead-out at the end of
  -- the last one, if that end fits 32 bits and the TOC is valid.
  pub layout_to_toc-audio :
      (audio : List L) (first last : L)
      → All (λ t. is_data t ≡ false) audio
      → get_elem? audio 0 ≡ some first
      → get_last? audio ≡ some last
      → absolute_offset last + length_sectors last < 2 ^ 32
      → IsValid (run_toc first last (absolute_offset last + length_sectors last) audio)
      → layout_to_toc view audio
        ≡ ok (run_toc first last (absolute_offset last + length_sectors last) audio)
  unfolding layout_to_toc
  layout_to_toc-audio audio first last h e l fits v = rw (nonempty_run audio first e) (
      rw (split_runs-audio audio h) (
        toc_of_runs-eq audio [] first last _ e l
          (unfold leadout_of in rw l (checked_add-fits u32_mod _ _ fits)) v))

  -- A CD-Extra layout (an audio run, then data tracks alone) gives the TOC of the audio run, with
  -- the lead-out 11400 sectors before the first data track, if that TOC is valid.
  pub layout_to_toc-cd_extra :
      (audio : List L) (d : L) (rest : List L) (first last : L)
      → All (λ t. is_data t ≡ false) audio
      → All (λ t. is_data t ≡ true) (d ∷ rest)
      → get_elem? audio 0 ≡ some first
      → get_last? audio ≡ some last
      → 11400 ≤ absolute_offset d
      → IsValid (run_toc first last (absolute_offset d - 11400) audio)
      → layout_to_toc view (audio ++ d ∷ rest)
        ≡ ok (run_toc first last (absolute_offset d - 11400) audio)
  unfolding layout_to_toc
  layout_to_toc-cd_extra audio d rest first last h k e l low v = rw (is_empty-append audio d rest) (
      rw (split_runs-data audio d rest h k) (
        toc_of_runs-eq audio (d ∷ rest) first last _ e l
          (unfold leadout_of in rw (le→leb 11400 (absolute_offset d) low)) v))

  -- A layout in which an audio track comes anywhere after a data track is refused as mixed-mode,
  -- whatever its offsets and numbers are.
  pub layout_to_toc-mixed :
      (before : List L) (d : L) (between : List L) (a : L) (after : List L)
      → All (λ t. is_data t ≡ false) before
      → is_data d ≡ true
      → is_audiolike a ≡ true
      → layout_to_toc view (before ++ d ∷ (between ++ a ∷ after)) ≡ err leading_data
  unfolding layout_to_toc split_runs
  layout_to_toc-mixed before d between a after h k e =
      let tail : List L = between ++ a ∷ after in
      rw (is_empty-append before d tail) (
        rw (position-append is_data before d tail h k, split_runs)
          (rw (drop-append before (d ∷ tail))
            (rw (any-append is_audiolike (d ∷ between) a after e))))
