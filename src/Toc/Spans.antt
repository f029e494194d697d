-- ===== src/Toc/Spans.antt =====
-- The track spans of a TOC (`Toc::iter_track_spans` of phono-junk-core/src/lib.rs).
use phono_junk.Common.{
  ℕ, zero, suc, ◌+◌, ◌-◌, ◌%◌, ◌≤◌, ◌<◌, ◌≡◌, refl, sym, ap, ◌∙◌, Option, none, some,
}
use phono_junk.Common.{List, [], ◌∷◌, length, get_elem?, All, arith}
use phono_junk.Common.Outcome.{ok}
use phono_junk.Common.Words.{checked_add-fits}
use mathlib.Core.Option.{get_or}
use mathlib.Core.Option
use phono_junk.Toc.{
  Toc, TrackSpan, Ascending, IsValid, track_length_frames, total_length_frames, spans_from,
  iter_track_spans, offset_or_leadout, track_count, AudioError,
}

-- The spans without an index: each track ends where the next begins, the last at the lead-out.
abbrev pub layout_spans : ℕ → ℕ → List ℕ → List TrackSpan
layout_spans position leadout [] = []
layout_spans position leadout (start ∷ []) =
    record { position = position; start_sector = start; length_frames = leadout - start } ∷ []
layout_spans position leadout (start ∷ next ∷ rest) =
    record { position = position; start_sector = start; length_frames = next - start }
    ∷ layout_spans (position + 1) leadout (next ∷ rest)

abbrev pub sum_frames : List TrackSpan → ℕ
sum_frames [] = 0
sum_frames (s ∷ spans) = s.length_frames + sum_frames spans

-- The length of the span at an index.
abbrev pub length_at : List TrackSpan → ℕ → Option ℕ
length_at spans idx = Option.map (λ (s : TrackSpan). s.length_frames) (get_elem? spans idx)

module _ (t : Toc) where
  -- `rest` is what `track_offsets` holds from index `i` on
  abbrev Suffix : ℕ → List ℕ → Type 0
  Suffix i rest = (k : ℕ) → get_elem? t.track_offsets (i + k) ≡ get_elem? rest k

  Suffix-tail : (i start : ℕ) (rest : List ℕ) → Suffix i (start ∷ rest) → Suffix (i + 1) rest
  Suffix-tail i start rest h k = let e : i + 1 + k ≡ i + suc k = omega arith in rw e (h (suc k))

  next_offset :
      (i start : ℕ) (rest : List ℕ)
      → Suffix i (start ∷ rest)
      → offset_or_leadout t (i + 1) ≡ get_or (get_elem? rest 0) t.leadout_sector
  next_offset i start rest h = rw (h 1)

  spans_from-step :
      {E : Type 0} (i start : ℕ) (rest : List ℕ) (spans : List TrackSpan)
      → t.first_track + i < 256
      → Suffix i (start ∷ rest)
      → spans_from {E = E} t (i + 1) rest ≡ ok spans
      → spans_from {E = E} t i (start ∷ rest)
        ≡ ok (
            record {
              position = t.first_track + i;
              start_sector = start;
              length_frames = get_or (get_elem? rest 0) t.leadout_sector - start;
            }
            ∷ spans)
  unfolding spans_from
  spans_from-step {E} i start rest spans fits h ih =
      let small : i % 256 ≡ i = omega arith in
      rw small (rw (checked_add-fits {E = E} 256 t.first_track i fits) (rw ih (rw (h 1))))

  spans_from-eq :
      {E : Type 0} (i position : ℕ) (rest : List ℕ)
      → Suffix i rest
      → position ≡ t.first_track + i
      → position + length rest ≤ 256
      → spans_from {E = E} t i rest ≡ ok (layout_spans position t.leadout_sector rest)
  spans_from-eq i position [] h e fits = unfold spans_from in refl
  spans_from-eq i position (start ∷ []) h e fits =
      rw e (spans_from-step i start [] [] (omega arith) h (unfold spans_from in refl))
  spans_from-eq i position (start ∷ next ∷ rest) h e fits = rw e (
      spans_from-step i start (next ∷ rest) _ (omega arith) h (
        spans_from-eq (i + 1) (t.first_track + i + 1) (next ∷ rest)
          (Suffix-tail i start (next ∷ rest) h) (omega arith) (omega arith)))

  -- The iterator never overflows on a disc whose track numbers fit a byte, and yields each track
  -- with its number, its start, and its end at the next start or at the lead-out.
  pub iter_track_spans-eq-layout :
      {E : Type 0}
      → t.first_track + length t.track_offsets ≤ 256
      → iter_track_spans {E = E} t
        ≡ ok (layout_spans t.first_track t.leadout_sector t.track_offsets)
  unfolding iter_track_spans
  iter_track_spans-eq-layout fits =
      spans_from-eq 0 t.first_track t.track_offsets (λ k. let e : 0 + k ≡ k = omega arith in rw e)
        (omega arith) fits

sum_frames_telescopes :
    (position leadout first : ℕ) (rest : List ℕ)
    → Ascending (first ∷ rest)
    → All (λ o. o < leadout) (first ∷ rest)
    → sum_frames (layout_spans position leadout (first ∷ rest)) ≡ leadout - first
sum_frames_telescopes position leadout first [] h k = omega arith
sum_frames_telescopes position leadout first (next ∷ rest) h k =
    omega (arith, sum_frames_telescopes (position + 1) leadout next rest h.1 k.1)

abbrev toc_of : ℕ → ℕ → ℕ → List ℕ → Toc
toc_of first last leadout offsets = record {
  first_track = first;
  last_track = last;
  leadout_sector = leadout;
  track_offsets = offsets;
}

shift_index :
    (first last leadout start : ℕ) (rest : List ℕ) (idx : ℕ)
    → track_length_frames (toc_of first last leadout (start ∷ rest)) (suc idx)
      ≡ track_length_frames (toc_of first last leadout rest) idx
unfolding track_length_frames
shift_index f l leadout start rest idx =
    ap
      (λ (k : ℕ). elim (get_elem? rest idx) [
        | none ↦ none
        | some at ↦ some (get_or (get_elem? (start ∷ rest) k) leadout - at)
      ])
      (let e : suc idx + 1 ≡ suc (idx + 1) = omega arith in e)

length_at-layout_spans :
    (position first last leadout : ℕ) (offsets : List ℕ) (idx : ℕ)
    → length_at (layout_spans position leadout offsets) idx
      ≡ track_length_frames (toc_of first last leadout offsets) idx
unfolding track_length_frames
length_at-layout_spans p f l leadout [] idx = refl
length_at-layout_spans p f l leadout (start ∷ []) zero = refl
length_at-layout_spans p f l leadout (start ∷ []) (suc idx) = refl
length_at-layout_spans p f l leadout (start ∷ next ∷ rest) zero = refl
length_at-layout_spans p f l leadout (start ∷ next ∷ rest) (suc idx) =
    length_at-layout_spans (p + 1) f l leadout (next ∷ rest) idx
    ∙ sym (shift_index f l leadout start (next ∷ rest) idx)

length-layout_spans :
    (position leadout : ℕ) (offsets : List ℕ)
    → length (layout_spans position leadout offsets) ≡ length offsets
length-layout_spans p leadout [] = refl
length-layout_spans p leadout (start ∷ []) = refl
length-layout_spans p leadout (start ∷ next ∷ rest) =
    ap suc (length-layout_spans (p + 1) leadout (next ∷ rest))

sum_frames-eq-total :
    (t : Toc)
    → IsValid t
    → sum_frames (layout_spans t.first_track t.leadout_sector t.track_offsets)
      ≡ total_length_frames t
unfolding total_length_frames
sum_frames-eq-total t v = go t.track_offsets v.ascending v.before_leadout
  where
    go :
        (offsets : List ℕ)
        → Ascending offsets
        → All (λ o. o < t.leadout_sector) offsets
        → sum_frames (layout_spans t.first_track t.leadout_sector offsets)
          ≡ (elim (get_elem? offsets 0) [ none ↦ 0 | some first ↦ t.leadout_sector - first ])
    go [] a b = refl
    go (first ∷ rest) a b = sum_frames_telescopes t.first_track t.leadout_sector first rest a b

-- On a valid TOC whose track numbers fit a byte the iterator does not panic, it yields one span for
-- each track, the length at each index (none past the end) is that of `track_length_frames`, and
-- the lengths add up to `total_length_frames`.
pub iter_track_spans_lengths :
    (t : Toc)
    → IsValid t
    → t.first_track + track_count t ≤ 256
    → (spans : List TrackSpan) × (iter_track_spans {E = AudioError} t ≡ ok spans)
      × (length spans ≡ track_count t)
      × ((idx : ℕ) → length_at spans idx ≡ track_length_frames t idx)
      × (sum_frames spans ≡ total_length_frames t)
iter_track_spans_lengths t v fits = (
  layout_spans t.first_track t.leadout_sector t.track_offsets,
  iter_track_spans-eq-layout t fits,
  length-layout_spans t.first_track t.leadout_sector t.track_offsets,
  length_at-layout_spans t.first_track t.first_track t.last_track t.leadout_sector t.track_offsets,
  sum_frames-eq-total t v,
)
