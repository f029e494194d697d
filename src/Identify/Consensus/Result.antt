-- ===== src/Identify/Consensus/Result.antt =====
-- What `merge` returns.
use mathlib.Core.Path.{subst}
use phono_junk.Common.{ℕ, ◌≡◌, inl, inr, refl, sym, ap, Option, some}
use phono_junk.Common.{List, [], ◌∷◌, map, All, ◌==◌, ==_iff, Bool-cases}
use phono_junk.Common.Outcome.{ok}
use phono_junk.Common.Hex.{Text}
use phono_junk.Identify.{TrackMeta, ProviderResult}
use phono_junk.Identify.Consensus.{RawDisagreement, MergedDisc}
use phono_junk.Identify.Consensus.Vote.{Vote}
use phono_junk.Identify.Consensus.Groups.{
  ByPos, lookup_pos, group_cohort, dedup, sort_unstable, entries_in_order, grouped_tracks,
}
use phono_junk.Identify.Consensus.Sort.{Rising, in_order-Rising, in_order-Member, in_order-All}
use phono_junk.Identify.Consensus.Positions.{
  keys, Matching, Listed, Listed-more, group_cohort-Matching, group_cohort-adds,
}
use phono_junk.Identify.Consensus.Winner.{Member}
use phono_junk.Identify.Consensus.Merge.{
  cohort_of, pick_mbids, merge_positions, merge_position, merge_fields,
}
use phono_junk.Identify.Consensus.Disc.{merge}

lookup_pos-Member :
    (pos : ℕ) (by_pos : ByPos)
    → Member pos (keys by_pos)
    → (entries : List (Text × TrackMeta)) × (lookup_pos pos by_pos ≡ some entries)
unfolding lookup_pos keys
lookup_pos-Member pos [] h = elim h [ ]
lookup_pos-Member pos ((key, entries) ∷ rest) h = elim (Bool-cases (key == pos)) [
  | inl same ↦ (entries, rw same refl)
  | inr other ↦ elim h [
    | inl here ↦ absurd (cc ((==_iff key pos).1 here, other))
    | inr later ↦ let (found, e) = lookup_pos-Member pos rest later in (found, rw other e)
  ]
]

abbrev pub Groups : Type 0
Groups = List (ℕ × List (Text × TrackMeta))

abbrev positions_of : Groups → List ℕ
positions_of groups = map (λ g. g.0) groups

entries_in_order_result :
    {E : Type 0} (by_pos : ByPos) (positions : List ℕ)
    → All (λ pos. Member pos (keys by_pos)) positions
    → (groups : Groups) × (entries_in_order {E = E} by_pos positions ≡ ok groups)
      × (positions_of groups ≡ positions)
unfolding entries_in_order
entries_in_order_result by_pos [] h = ([], refl, refl)
entries_in_order_result {E} by_pos (pos ∷ positions) h =
    let (entries, found) = lookup_pos-Member pos by_pos h.0 in
    let (groups, e, same) = entries_in_order_result {E = E} by_pos positions h.1 in
    ((pos, entries) ∷ groups, rw found (rw e refl), ap (λ (l : List ℕ). pos ∷ l) same)

All-more : (P Q : ℕ → Type 0) (ns : List ℕ) → ((n : ℕ) → P n → Q n) → All P ns → All Q ns
All-more P Q [] f h = tt
All-more P Q (n ∷ ns) f h = (f n h.0, All-more P Q ns f h.1)

All-Member : (ns : List ℕ) → All (λ n. Member n ns) ns
All-Member [] = tt
All-Member (n ∷ ns) = (
  inl refl,
  All-more (λ m. Member m ns) (λ m. Member m (n ∷ ns)) ns (λ m h. inr h) (All-Member ns),
)

module _ {Value : Type 0} where
  all-Listed :
      (xs ys : List ℕ) (rs : List (ProviderResult Value))
      → ((x : ℕ) → Member x xs → Member x ys)
      → All (λ (r : ProviderResult Value). Listed xs r.tracks) rs
      → All (λ (r : ProviderResult Value). Listed ys r.tracks) rs
  all-Listed xs ys [] f h = tt
  all-Listed xs ys (r ∷ rs) f h = (Listed-more xs ys r.tracks f h.0, all-Listed xs ys rs f h.1)

  pub grouped_tracks_result :
      {E : Type 0} (cohort : List (ProviderResult Value))
      → (groups : Groups) × (grouped_tracks {E = E} cohort ≡ ok groups)
        × Rising (positions_of groups)
        × All (λ (r : ProviderResult Value). Listed (positions_of groups) r.tracks) cohort
  unfolding grouped_tracks Matching keys
  grouped_tracks_result {E} cohort =
      let result = group_cohort cohort ([], []) in
      let matching : keys result.0 ≡ result.1 = group_cohort-Matching cohort ([], []) refl in
      let positions = dedup (sort_unstable result.1) in
      let found =
        subst (λ (l : List ℕ). All (λ pos. Member pos l) positions) (sym matching)
          (in_order-All (λ pos. Member pos result.1) result.1 (All-Member result.1)) in
      let (groups, e, same) = entries_in_order_result {E = E} result.0 positions found in
      (
        groups,
        e,
        subst Rising (sym same) (in_order-Rising result.1),
        all-Listed result.1 (positions_of groups) cohort
            (λ x m. subst (Member x) (sym same) (in_order-Member x result.1 m))
            (group_cohort-adds cohort ([], []) refl),
      )

  module _ (text_value : Text → Value) (number_value : ℕ → Value)
      (text_iteration : List (Vote Text) → List (Vote Text))
      (number_iteration : List (Vote ℕ) → List (Vote ℕ)) where
    merge_positions-positions :
        (groups : Groups) (sink : List (RawDisagreement Value))
        → map
            (λ t. t.position)
            (merge_positions text_value number_value text_iteration number_iteration groups sink).0
          ≡ positions_of groups
    unfolding merge_positions merge_position
    merge_positions-positions [] sink = refl
    merge_positions-positions ((pos, entries) ∷ groups) sink =
        ap (λ (l : List ℕ). pos ∷ l) (merge_positions-positions groups _)

    -- The providers whose identifiers do not contradict the winning ones.
    abbrev pub winners : List (ProviderResult Value) → Option Text × Option Text
    winners results =
        (pick_mbids text_value number_value text_iteration number_iteration results []).0

    abbrev pub cohort : List (ProviderResult Value) → List (ProviderResult Value)
    cohort results = cohort_of (winners results) results

    -- `merge` always returns a disc. Its identifiers are the winning ones and its sources the
    -- providers of the cohort in order; its tracks have strictly ascending positions, and there is
    -- one for each position that a provider of the cohort lists.
    pub merge_result :
        {E : Type 0} (results : List (ProviderResult Value))
        → (m : MergedDisc Value) × (merge text_value number_value text_iteration number_iteration
              {E = E} results
            ≡ ok m)
          × ((m.album.mbid, m.release.mbid) ≡ winners results)
          × (m.sources ≡ map (λ r. r.provider) (cohort results))
          × Rising (map (λ t. t.position) m.tracks)
          × All
              (λ (r : ProviderResult Value). Listed (map (λ t. t.position) m.tracks) r.tracks)
              (cohort results)
    unfolding merge merge_fields
    merge_result {E} results =
        let (groups, e, rising, listed) = grouped_tracks_result {E = E} (cohort results) in
        let m =
          merge_fields text_value number_value text_iteration number_iteration (winners results)
            (cohort results) groups
            (pick_mbids text_value number_value text_iteration number_iteration results []).1 in
        let same = merge_positions-positions groups _ in
        (
          m,
          rw e refl,
          refl,
          refl,
          subst Rising (sym same) rising,
          all-Listed (positions_of groups) (map (λ t. t.position) m.tracks) (cohort results)
              (λ x h. subst (Member x) (sym same) h) listed,
        )
