-- ===== src/Db/Overrides/Segments.antt =====
-- What a segment shows as parses to the segment.
use phono_junk.Common.{
  ℕ, ◌+◌, ◌-◌, ◌≤◌, ◌<◌, ◌≡◌, ◌≢◌, refl, sym, ap, ◌∙◌, true, false, none, some, [], ◌∷◌, ◌++◌,
  length, length-append, take-append, drop-append, any, All, is_empty, le→leb, ◌==◌, arith,
}
use mathlib.Core.List.{append_assoc}
use mathlib.Core.Path.{subst}
use phono_junk.Common.Outcome.{ok}
use phono_junk.Common.Hex.{Text}
use phono_junk.Common.Decimal.{decimal, parse_unsigned, parse_unsigned-decimal}
use phono_junk.Db.Overrides.{
  usize_max, Segment, field, indexed, find, rfind, slice, parse_indexed, parse_segment,
  segment_display,
}

abbrev pub Lacks : ℕ → Text → Type 0
Lacks c text = All (λ x. x ≢ c) text

-- A name that its segment can hold: a field has no bracket, and an index fits its word.
abbrev pub IsSegment : Segment → Type 0
IsSegment (field f) = (0 < length f) × Lacks b'.' f × Lacks b'[' f × Lacks b']' f
IsSegment (indexed name index) =
    (0 < length name) × Lacks b'.' name × Lacks b'[' name × (index ≤ usize_max)

pub differs : (x c : ℕ) → x ≢ c → (x == c) ≡ false
differs x c h = ground (arith, h)

equals : (c : ℕ) → (c == c) ≡ true
equals c = ground arith

find-Lacks : (c : ℕ) (s : Text) → Lacks c s → find c s ≡ none
unfolding find
find-Lacks c [] h = refl
find-Lacks c (x ∷ xs) h = rw (differs x c h.0) (rw (find-Lacks c xs h.1) refl)

find-first : (c : ℕ) (s t : Text) → Lacks c s → find c (s ++ c ∷ t) ≡ some (length s)
unfolding find
find-first c [] t h = rw (equals c) refl
find-first c (x ∷ xs) t h =
    rw (differs x c h.0) (rw (find-first c xs t h.1) (ap some (omega arith)))

rfind-last : (c : ℕ) (s : Text) → rfind c (s ++ c ∷ []) ≡ some (length s)
unfolding rfind
rfind-last c [] = rw (equals c) refl
rfind-last c (x ∷ xs) = rw (rfind-last c xs) (ap some (omega arith))

any-Lacks : (c : ℕ) (s : Text) → Lacks c s → any (λ x. x == c) s ≡ false
any-Lacks c [] h = refl
any-Lacks c (x ∷ xs) h = rw (differs x c h.0) (any-Lacks c xs h.1)

nonempty_text : (s : Text) → 0 < length s → is_empty s ≡ false
nonempty_text [] h = absurd (omega arith)
nonempty_text (c ∷ cs) h = refl

slice_front : (s t : Text) → slice (s ++ t) 0 (length s) ≡ ok s
unfolding slice
slice_front s t =
    let whole : length s - 0 ≡ length s = omega arith in
    rw (le→leb 0 (length s) (omega arith)) (
      rw (le→leb (length s) (length (s ++ t)) (omega (arith, length-append s t)))
        (rw whole (ap ok (take-append s t))))

slice_middle : (s d t : Text) → slice (s ++ (d ++ t)) (length s) (length s + length d) ≡ ok d
unfolding slice
slice_middle s d t =
    let size : length s + length d - length s ≡ length d = omega arith in
    rw (le→leb (length s) (length s + length d) (omega arith)) (
      rw
        (le→leb (length s + length d) (length (s ++ (d ++ t)))
          (omega (arith, length-append s (d ++ t), length-append d t)))
        (rw size (rw (drop-append s (d ++ t)) (ap ok (take-append d t)))))

parse_segment-field : (f : Text) → IsSegment (field f) → parse_segment f ≡ ok (field f)
unfolding parse_segment
parse_segment-field f h =
    rw (nonempty_text f h.0) (rw (find-Lacks b'[' f h.2) (rw (any-Lacks b']' f h.3) refl))

-- A name, and what stands between its brackets.
bracketed : Text → Text → Text
bracketed name d = name ++ b'[' ∷ (d ++ b']' ∷ [])

module _ (name d : Text) where
  with_close : bracketed name d ≡ (name ++ b'[' ∷ d) ++ b']' ∷ []
  unfolding bracketed
  with_close = sym (append_assoc name (b'[' ∷ d) (b']' ∷ []))

  with_open : bracketed name d ≡ (name ++ b'[' ∷ []) ++ (d ++ b']' ∷ [])
  unfolding bracketed
  with_open = sym (append_assoc name (b'[' ∷ []) (d ++ b']' ∷ []))

  length-open : length (name ++ b'[' ∷ []) ≡ length name + 1
  length-open = length-append name (b'[' ∷ [])

  length-close : length (name ++ b'[' ∷ d) ≡ length name + 1 + length d
  length-close = omega (arith, length-append name (b'[' ∷ d))

  rfind-bracketed : rfind b']' (bracketed name d) ≡ some (length name + 1 + length d)
  rfind-bracketed =
      ap (rfind b']') with_close ∙ rfind-last b']' (name ++ b'[' ∷ d) ∙ ap some length-close

  length-bracketed : length (bracketed name d) - 1 ≡ length name + 1 + length d
  length-bracketed =
      omega
        (arith, ap length with_close, length-append (name ++ b'[' ∷ d) (b']' ∷ []), length-close)

  slice_name : slice (bracketed name d) 0 (length name) ≡ ok name
  unfolding bracketed
  slice_name = slice_front name (b'[' ∷ (d ++ b']' ∷ []))

  slice_index : slice (bracketed name d) (length name + 1) (length name + 1 + length d) ≡ ok d
  slice_index =
      subst (λ (s : Text). slice s (length name + 1) (length name + 1 + length d) ≡ ok d)
        (sym with_open)
        (subst (λ (k : ℕ). slice ((name ++ b'[' ∷ []) ++ (d ++ b']' ∷ [])) k (k + length d) ≡ ok d)
          length-open (slice_middle (name ++ b'[' ∷ []) d (b']' ∷ [])))

  parse_indexed-bracketed :
      (index : ℕ)
      → 0 < length name
      → parse_unsigned usize_max d ≡ some index
      → parse_indexed (bracketed name d) (length name) ≡ ok (indexed name index)
  unfolding parse_indexed
  parse_indexed-bracketed index h e = rw rfind-bracketed (
      rw length-bracketed (
        rw (equals (length name + 1 + length d))
          (rw slice_name (rw slice_index (rw (nonempty_text name h) (rw e refl))))))

  find-bracketed : Lacks b'[' name → find b'[' (bracketed name d) ≡ some (length name)
  unfolding bracketed
  find-bracketed h = find-first b'[' name (d ++ b']' ∷ []) h

  nonempty_bracketed : is_empty (bracketed name d) ≡ false
  nonempty_bracketed =
      nonempty_text (bracketed name d)
        (omega (arith, ap length with_close, length-append (name ++ b'[' ∷ d) (b']' ∷ [])))

parse_segment-indexed :
    (name : Text) (index : ℕ)
    → IsSegment (indexed name index)
    → parse_segment (bracketed name (decimal index)) ≡ ok (indexed name index)
unfolding parse_segment
parse_segment-indexed name index h = rw (nonempty_bracketed name (decimal index)) (
    rw (find-bracketed name (decimal index) h.2) (
      parse_indexed-bracketed name (decimal index) index h.0
        (parse_unsigned-decimal usize_max index h.3)))

pub parse_segment-display : (s : Segment) → IsSegment s → parse_segment (segment_display s) ≡ ok s
unfolding segment_display bracketed
parse_segment-display (field f) h = parse_segment-field f h
parse_segment-display (indexed name index) h = parse_segment-indexed name index h
