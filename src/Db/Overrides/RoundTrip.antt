-- ===== src/Db/Overrides/RoundTrip.antt =====
-- A rendered path parses to itself.
use phono_junk.Common.{
  ℕ, ◌<◌, ◌≡◌, ◌≢◌, refl, ap, ◌∙◌, some, List, [], ◌∷◌, ◌++◌, length, length-append, All, arith,
}
use phono_junk.Common.Outcome.{Outcome, ok, ◌>>=◌}
use phono_junk.Common.Hex.{Text}
use phono_junk.Common.Decimal.{decimal, decimal-All}
use phono_junk.Db.Overrides.{
  OverrideError, Segment, field, indexed, parse_segment, split_dots, parse_all, parse_sub_path,
  segment_display, render_path,
}
use phono_junk.Db.Overrides.Segments.{Lacks, IsSegment, differs, parse_segment-display}

Lacks-append : (c : ℕ) (s t : Text) → Lacks c s → Lacks c t → Lacks c (s ++ t)
Lacks-append c [] t h k = k
Lacks-append c (x ∷ xs) t h k = (h.0, Lacks-append c xs t h.1 k)

no_dot : (s : Segment) → IsSegment s → Lacks b'.' (segment_display s)
unfolding segment_display
no_dot (field f) h = h.1
no_dot (indexed name index) h = Lacks-append b'.' name (b'[' ∷ (decimal index ++ b']' ∷ [])) h.1 (
  omega arith,
  Lacks-append b'.' (decimal index) (b']' ∷ [])
      (decimal-All (λ x. x ≢ b'.') index (λ x d. omega (arith, d.0))) (omega arith, tt),
)

split_dots-Lacks : (s : Text) → Lacks b'.' s → split_dots s ≡ (s, [])
unfolding split_dots
split_dots-Lacks [] h = refl
split_dots-Lacks (c ∷ cs) h =
    rw (differs c b'.' h.0)
      (ap (λ (p : Text × List Text). (c ∷ p.0, p.1)) (split_dots-Lacks cs h.1))

split_dots-append :
    (s t : Text)
    → Lacks b'.' s
    → split_dots (s ++ b'.' ∷ t) ≡ (s, (split_dots t).0 ∷ (split_dots t).1)
unfolding split_dots
split_dots-append [] t h = refl
split_dots-append (c ∷ cs) t h =
    rw (differs c b'.' h.0)
      (ap (λ (p : Text × List Text). (c ∷ p.0, p.1)) (split_dots-append cs t h.1))

parts_of : Text → List Text
parts_of s = (split_dots s).0 ∷ (split_dots s).1

parse_all-cons :
    (raw : Text) (raws : List Text) (s : Segment) (segments : List Segment)
    → parse_segment raw ≡ ok s
    → parse_all raws ≡ ok segments
    → parse_all (raw ∷ raws) ≡ ok (s ∷ segments)
unfolding parse_all
parse_all-cons raw raws s segments e k =
    ap (λ (o : Outcome OverrideError Segment). o >>= λ g. parse_all raws >>= λ gs. ok (g ∷ gs)) e
    ∙ ap (λ (o : Outcome OverrideError (List Segment)). o >>= λ gs. ok (s ∷ gs)) k

parse_none : parse_all [] ≡ ok []
unfolding parse_all
parse_none = refl

parse_parts :
    (s : Segment) (segments : List Segment)
    → All IsSegment (s ∷ segments)
    → parse_all (parts_of (render_path (s ∷ segments))) ≡ ok (s ∷ segments)
unfolding render_path parts_of
parse_parts s [] h =
    rw (split_dots-Lacks (segment_display s) (no_dot s h.0))
      (parse_all-cons (segment_display s) [] s [] (parse_segment-display s h.0) parse_none)
parse_parts s (t ∷ segments) h =
    rw (split_dots-append (segment_display s) (render_path (t ∷ segments)) (no_dot s h.0)) (
      parse_all-cons (segment_display s) (parts_of (render_path (t ∷ segments))) s (t ∷ segments)
        (parse_segment-display s h.0) (parse_parts t segments h.1))

parse_sub_path-nonempty :
    (s : Text) → 0 < length s → parse_sub_path (some s) ≡ parse_all (parts_of s)
unfolding parse_sub_path parts_of
parse_sub_path-nonempty [] h = absurd (omega arith)
parse_sub_path-nonempty (c ∷ cs) h = refl

length-display : (s : Segment) → IsSegment s → 0 < length (segment_display s)
unfolding segment_display
length-display (field f) h = h.0
length-display (indexed name index) h =
    omega (arith, h.0, length-append name (b'[' ∷ (decimal index ++ b']' ∷ [])))

length-render_path :
    (s : Segment) (segments : List Segment) → IsSegment s → 0 < length (render_path (s ∷ segments))
unfolding render_path
length-render_path s [] h = length-display s h
length-render_path s (t ∷ segments) h = omega (
  arith,
  length-display s h,
  length-append (segment_display s) (b'.' ∷ render_path (t ∷ segments)),
)

-- The form in which errors show a path parses to the path, if its names are not empty and hold no
-- character of the grammar (a name before a bracket may hold `]`) and its indices fit 64 bits.
pub parse_sub_path-render_path :
    (path : List Segment) → All IsSegment path → parse_sub_path (some (render_path path)) ≡ ok path
parse_sub_path-render_path [] h = unfold parse_sub_path render_path in refl
parse_sub_path-render_path (s ∷ segments) h =
    parse_sub_path-nonempty (render_path (s ∷ segments)) (length-render_path s segments h.0)
    ∙ parse_parts s segments h
