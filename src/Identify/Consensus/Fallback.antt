-- ===== src/Identify/Consensus/Fallback.antt =====
-- `merge_with_toc_fallback`, and which providers take part in the merge.
use phono_junk.Common.{
  ℕ, ◌+◌, ◌≤◌, ◌≡◌, ◌⊎◌, inl, inr, refl, ap, Bool, true, false, ◌&&◌, Option, none, some,
}
use phono_junk.Common.{List, [], ◌∷◌, map, All, Bool-cases}
use phono_junk.Common.Outcome.{ok}
use phono_junk.Common.Hex.{Text}
use phono_junk.Common.Text.{text_eq_sound}
use phono_junk.Toc.{Toc, TrackSpan, track_count}
use phono_junk.Toc.Spans.{layout_spans, iter_track_spans-eq-layout}
use phono_junk.Identify.{ProviderResult}
use phono_junk.Identify.Consensus.{MergedDisc}
use phono_junk.Identify.Consensus.Vote.{Vote}
use phono_junk.Identify.Consensus.Groups.{
  group_cohort, group_tracks, grouped_tracks, sort_unstable, dedup, entries_in_order,
}
use phono_junk.Identify.Consensus.Merge.{
  agrees, album_mbid_of, release_mbid_of, in_cohort, cohort_of, merge_fields, merge_positions,
}
use phono_junk.Identify.Consensus.Disc.{merge, merge_with_toc_fallback, tracks_or_stubs}
use phono_junk.Identify.Consensus.Result.{cohort}

-- The identifier given, if there is one, is the winning one, if there is one.
abbrev pub Compatible : Option Text → Option Text → Type 0
Compatible winner given = (winner ≡ none) ⊎ ((given ≡ none) ⊎ (winner ≡ given))

agrees-Compatible :
    (winner given : Option Text) → agrees winner given ≡ true → Compatible winner given
unfolding agrees
agrees-Compatible none given h = inl refl
agrees-Compatible (some w) none h = inr (inl refl)
agrees-Compatible (some w) (some x) h = inr (inr (ap some (text_eq_sound w x h)))

both_true : (p q : Bool) → (p && q) ≡ true → (p ≡ true) × (q ≡ true)
both_true true true h = (refl, refl)
both_true true false h = cc
both_true false q h = cc

module _ {Value : Type 0} where
  -- Every provider of the cohort is compatible with both winning identifiers.
  pub cohort_of-Compatible :
      (winners : Option Text × Option Text) (results : List (ProviderResult Value))
      → All
          (λ (r : ProviderResult Value).
            Compatible winners.0 (album_mbid_of r) × Compatible winners.1 (release_mbid_of r))
          (cohort_of winners results)
  unfolding cohort_of in_cohort
  cohort_of-Compatible winners [] = tt
  cohort_of-Compatible winners (r ∷ rs) = elim (Bool-cases (in_cohort winners.0 winners.1 r)) [
    | inl inside ↦
        let (first, second) =
          both_true (agrees winners.0 (album_mbid_of r)) (agrees winners.1 (release_mbid_of r))
            inside in
        rw inside (
          (
            agrees-Compatible winners.0 (album_mbid_of r) first,
            agrees-Compatible winners.1 (release_mbid_of r) second,
          ),
          cohort_of-Compatible winners rs,
        )
    | inr outside ↦ rw outside (cohort_of-Compatible winners rs)
  ]

  no_groups :
      (rs : List (ProviderResult Value))
      → All (λ (r : ProviderResult Value). r.tracks ≡ []) rs
      → group_cohort rs ([], []) ≡ ([], [])
  unfolding group_cohort group_tracks
  no_groups [] h = refl
  no_groups (r ∷ rs) h = rw h.0 (no_groups rs h.1)

  module _ (text_value : Text → Value) (number_value : ℕ → Value)
      (text_iteration : List (Vote Text) → List (Vote Text))
      (number_iteration : List (Vote ℕ) → List (Vote ℕ)) where
    -- Where no provider of the cohort lists a track, `merge_with_toc_fallback` returns a disc with
    -- one track for each span of the TOC, at its position, with its length and with nothing
    -- else, if the track numbers fit a byte.
    pub merge_with_toc_fallback_stubs :
        {E : Type 0} (results : List (ProviderResult Value)) (toc : Toc)
        → All
            (λ (r : ProviderResult Value). r.tracks ≡ [])
            (cohort text_value number_value text_iteration number_iteration results)
        → toc.first_track + track_count toc ≤ 256
        → (m : MergedDisc Value) × (merge_with_toc_fallback text_value number_value text_iteration
              number_iteration {E = E} results toc
            ≡ ok m)
          × (m.tracks
              ≡ map
                  (λ (span : TrackSpan). record {
                    position = span.position;
                    title = none;
                    artist_credit = none;
                    length_frames = some span.length_frames;
                    isrc = none;
                    mbid = none;
                  })
                  (layout_spans toc.first_track toc.leadout_sector toc.track_offsets))
    unfolding merge_with_toc_fallback merge grouped_tracks sort_unstable dedup entries_in_order
        merge_fields merge_positions tracks_or_stubs
    merge_with_toc_fallback_stubs {E} results toc h fits =
        rw (no_groups (cohort text_value number_value text_iteration number_iteration results) h)
          (rw (iter_track_spans-eq-layout toc {E = E} fits) (_, refl, refl))
