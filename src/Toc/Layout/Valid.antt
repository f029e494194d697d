-- ===== src/Toc/Layout/Valid.antt =====
-- `validate_toc` accepts the valid TOCs and no others, and what `layout_to_toc` returns is valid.
use phono_junk.Common.{is_empty, ℕ, ◌<◌, ◌≡◌, refl, false, some, ◌↔◌}
use phono_junk.Common.{
  List, [], ◌∷◌, map, length, get_elem?, get_last?, All, ltb, leb, arith, inl, inr, Bool-cases,
  lt→leb_false, le→ltb_false,
}
use phono_junk.Common.Outcome.{
  ok, expect, fail_if, Ensures, Ensures-bind, Ensures-ok, fail_if-eq-ok, expect-eq-ok,
}
use phono_junk.Toc.{
  Toc, Ascending, IsValid, leadout_not_past_last, no_audio_tracks, no_tracks_in_layout,
}
use phono_junk.Toc.Layout.{
  TrackLayout, any_descent, validate_toc, layout_to_toc, toc_of_runs, split_runs, leadout_of,
}

any_descent→Ascending : (xs : List ℕ) → any_descent xs ≡ false → Ascending xs
unfolding any_descent
any_descent→Ascending [] h = tt
any_descent→Ascending (x ∷ []) h = tt
any_descent→Ascending (x ∷ y ∷ xs) h = elim (Bool-cases (leb y x)) [
  | inl e ↦ absurd (ground (arith, e))
  | inr e ↦ (ground arith, any_descent→Ascending (y ∷ xs) (rw e at h))
]

Ascending→any_descent : (xs : List ℕ) → Ascending xs → any_descent xs ≡ false
unfolding any_descent
Ascending→any_descent [] h = refl
Ascending→any_descent (x ∷ []) h = refl
Ascending→any_descent (x ∷ y ∷ xs) h =
    rw (lt→leb_false y x h.0) (Ascending→any_descent (y ∷ xs) h.1)

-- On an ascending list a bound on the last element bounds all.
all_below_last :
    (xs : List ℕ) (leadout last : ℕ)
    → Ascending xs
    → get_last? xs ≡ some last
    → last < leadout
    → All (λ o. o < leadout) xs
all_below_last [] leadout last a e h = tt
all_below_last (x ∷ []) leadout last a e h = (ground arith, tt)
all_below_last (x ∷ y ∷ xs) leadout last a e h =
    let rest = all_below_last (y ∷ xs) leadout last a.1 e h in (omega arith, rest)

last_below :
    (xs : List ℕ) (leadout : ℕ)
    → 0 < length xs
    → All (λ o. o < leadout) xs
    → (last : ℕ) × (get_last? xs ≡ some last) × (last < leadout)
last_below [] leadout pos h = absurd (omega arith)
last_below (x ∷ []) leadout pos h = (x, refl, h.0)
last_below (x ∷ y ∷ xs) leadout pos h = last_below (y ∷ xs) leadout (omega arith) h.1

nonempty_length : (xs : List ℕ) → is_empty xs ≡ false → 0 < length xs
nonempty_length [] h = cc
nonempty_length (x ∷ xs) h = omega arith

is_empty-of-length : (xs : List ℕ) → 0 < length xs → is_empty xs ≡ false
is_empty-of-length [] h = absurd (omega arith)
is_empty-of-length (x ∷ xs) h = refl

validate_toc_sound : (toc : Toc) → validate_toc toc ≡ ok tt → IsValid toc
unfolding validate_toc
validate_toc_sound toc h =
    let (nonempty, h1) = fail_if-eq-ok (is_empty toc.track_offsets) _ _ h in
    let (numbered, h2) = fail_if-eq-ok (ltb toc.last_track toc.first_track) _ _ h1 in
    let (ascending, h3) = fail_if-eq-ok (any_descent toc.track_offsets) _ _ h2 in
    let (last, is_last, h4) = expect-eq-ok (get_last? toc.track_offsets) _ h3 in
    let asc : Ascending toc.track_offsets = any_descent→Ascending toc.track_offsets ascending in
    record {
      nonempty = nonempty_length toc.track_offsets nonempty;
      numbered = ground (arith, numbered);
      ascending = asc;
      before_leadout =
          all_below_last toc.track_offsets toc.leadout_sector last asc is_last
            (past_last last toc.leadout_sector h4);
    }
  where
    past_last :
        (last leadout : ℕ)
        → fail_if (leb leadout last) leadout_not_past_last ≡ ok tt
        → last < leadout
    past_last last leadout e = ground (arith, e)

validate_toc_complete : (toc : Toc) → IsValid toc → validate_toc toc ≡ ok tt
unfolding validate_toc
validate_toc_complete toc v =
    let (last, is_last, below) =
      last_below toc.track_offsets toc.leadout_sector v.nonempty v.before_leadout in
    rw (is_empty-of-length toc.track_offsets v.nonempty) (
      rw (le→ltb_false toc.last_track toc.first_track v.numbered) (
        rw (Ascending→any_descent toc.track_offsets v.ascending)
          (rw is_last (rw (lt→leb_false toc.leadout_sector last below)))))

-- `validate_toc` accepts exactly the TOCs with at least one track, first track number at most the
-- last, strictly ascending offsets, and every offset before the lead-out.
pub validate_toc_iff : (toc : Toc) → (validate_toc toc ≡ ok tt) ↔ IsValid toc
validate_toc_iff toc = (validate_toc_sound toc, validate_toc_complete toc)

toc_of_runs-IsValid :
    {L : Type 0} (view : TrackLayout L) (audio trailing : List L)
    → Ensures IsValid (toc_of_runs view audio trailing)
unfolding toc_of_runs
toc_of_runs-IsValid view audio trailing =
    Ensures-bind (fail_if (is_empty audio) no_audio_tracks) _ λ _ _.
      Ensures-bind (leadout_of view audio trailing) _ λ leadout _.
        Ensures-bind (expect (get_elem? audio 0)) _ λ first _.
          Ensures-bind (expect (get_last? audio)) _ λ last _.
            let toc : Toc = record {
              first_track = view.number first;
              last_track = view.number last;
              leadout_sector = leadout;
              track_offsets = map view.absolute_offset audio;
            } in
            Ensures-bind (validate_toc toc) _
              λ done checked. Ensures-ok toc (validate_toc_sound toc checked)

layout_to_toc-Ensures :
    {L : Type 0} (view : TrackLayout L) (layout : List L)
    → Ensures IsValid (layout_to_toc view layout)
unfolding layout_to_toc
layout_to_toc-Ensures view layout =
    Ensures-bind (fail_if (is_empty layout) no_tracks_in_layout) _ λ _ _.
      Ensures-bind (split_runs view layout) _ λ runs _. toc_of_runs-IsValid view runs.0 runs.1

-- Every TOC that `layout_to_toc` returns is valid: it has a track, its first track number is at
-- most its last, its offsets ascend strictly, and its lead-out lies past all of them.
pub layout_to_toc-IsValid :
    {L : Type 0} (view : TrackLayout L) (layout : List L) (toc : Toc)
    → layout_to_toc view layout ≡ ok toc
    → IsValid toc
layout_to_toc-IsValid view layout toc h = (layout_to_toc-Ensures view layout).at toc h
