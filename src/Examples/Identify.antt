-- ===== src/Examples/Identify.antt =====
-- Concrete provider results for the theorems on phono-junk-identify.
use phono_junk.Common.{
  ℕ, ◌+◌, ◌≡◌, ◌⊎◌, refl, Bool, Option, none, some, List, [], ◌∷◌, ◌++◌, map, All, arith, ◌==◌,
  ==_iff,
}
use phono_junk.Common.Outcome.{ok}
use phono_junk.Common.Hex.{Text}
use phono_junk.Common.Text.{text_eq}
use phono_junk.Toc.{Toc, AudioError}
use phono_junk.Identify.{TrackMeta, ProviderResult}
use phono_junk.Identify.Consensus.{album, album_year, RawDisagreement, MergedDisc}
use phono_junk.Identify.Consensus.Vote.{Vote, merge_opt}
use phono_junk.Identify.Consensus.Lost.{Lost}
use phono_junk.Identify.Consensus.Winner.{count_of, Standing}
use phono_junk.Identify.Consensus.Plurality.{Behind, merge_opt_plurality}
use phono_junk.Identify.Consensus.Sort.{Rising}
use phono_junk.Identify.Consensus.Positions.{Listed}
use phono_junk.Identify.Consensus.Merge.{
  album_mbid_of, release_mbid_of, cohort_of, pick_mbids, agrees,
}
use phono_junk.Identify.Consensus.Disc.{merge, merge_with_toc_fallback}
use phono_junk.Identify.Consensus.Result.{winners, cohort, merge_result}
use phono_junk.Identify.Consensus.Fallback.{
  Compatible, cohort_of-Compatible, merge_with_toc_fallback_stubs,
}

abbrev same_number : ℕ → ℕ → Bool
same_number m n = m == n

-- Two providers outvote the first one.
abbrev years : List (Text × Option ℕ)
years =
    (b'm' ∷ [], some 1999)
    ∷ (b'd' ∷ [], some 2001)
    ∷ (b'i' ∷ [], none)
    ∷ (b't' ∷ [], some 2001)
    ∷ []

abbrev in_order : List (Vote ℕ) → List (Vote ℕ)
in_order votes = votes

merge_opt_plurality_example :
    (((v : ℕ) → count_of same_number v years ≡ 0)
      × (merge_opt same_number (λ n. n) album album_year in_order years [] ≡ (none, [])))
    ⊎ ((w : Vote ℕ) × (ds : List (RawDisagreement ℕ)) × (merge_opt same_number
            (λ n. n)
            album
            album_year
            in_order
            years
            []
          ≡ (some w.value, [] ++ ds))
        × Lost (λ n. n) album album_year w years ds
        × Standing same_number w.value 0 years w
        × ((v : ℕ) → Behind same_number years w v))
merge_opt_plurality_example =
    merge_opt_plurality same_number ==_iff (λ n. n) album album_year in_order
      (λ votes e. (λ h. h, λ h. h)) years []

-- Two providers that agree on the release, and one that names another; each lists tracks.
abbrev track_meta : ℕ → Text → TrackMeta
track_meta position title = record {
  position = position;
  title = some title;
  artist_credit = none;
  length_frames = none;
  isrc = none;
  mbid = none;
}

abbrev result : Text → Text → List TrackMeta → ProviderResult ℕ
result provider mbid tracks = record {
  album = some (record { title = none; artist_credit = none; year = none; mbid = some mbid });
  release = none;
  tracks = tracks;
  cover_art_urls = [];
  provider = provider;
  raw_response = none;
}

abbrev results : List (ProviderResult ℕ)
results =
    result (b'm' ∷ []) (b'x' ∷ []) (track_meta 2 (b'b' ∷ []) ∷ track_meta 1 (b'a' ∷ []) ∷ [])
    ∷ result (b'd' ∷ []) (b'y' ∷ []) (track_meta 9 (b'z' ∷ []) ∷ [])
    ∷ result (b't' ∷ []) (b'x' ∷ []) (track_meta 2 (b'c' ∷ []) ∷ track_meta 3 (b'd' ∷ []) ∷ [])
    ∷ []

abbrev text_order : List (Vote Text) → List (Vote Text)
text_order votes = votes

abbrev hash : Text → ℕ
hash [] = 0
hash (c ∷ cs) = c + hash cs

merge_result_example :
    (m : MergedDisc ℕ) × (merge hash (λ n. n) text_order in_order {E = AudioError} results ≡ ok m)
    × ((m.album.mbid, m.release.mbid) ≡ winners hash (λ n. n) text_order in_order results)
    × (m.sources ≡ map (λ r. r.provider) (cohort hash (λ n. n) text_order in_order results))
    × Rising (map (λ t. t.position) m.tracks)
    × All
        (λ (r : ProviderResult ℕ). Listed (map (λ t. t.position) m.tracks) r.tracks)
        (cohort hash (λ n. n) text_order in_order results)
merge_result_example = merge_result hash (λ n. n) text_order in_order results

cohort_of-Compatible_example :
    All
      (λ (r : ProviderResult ℕ).
        Compatible (some (b'x' ∷ [])) (album_mbid_of r) × Compatible none (release_mbid_of r))
      (cohort_of (some (b'x' ∷ []), none) results)
cohort_of-Compatible_example = cohort_of-Compatible (some (b'x' ∷ []), none) results

abbrev two_tracks : Toc
two_tracks = record {
  first_track = 1;
  last_track = 2;
  leadout_sector = 40000;
  track_offsets = 150 ∷ 20000 ∷ [];
}

abbrev untracked : List (ProviderResult ℕ)
untracked = result (b'd' ∷ []) (b'y' ∷ []) [] ∷ []

untracked-cohort :
    All
      (λ (r : ProviderResult ℕ). r.tracks ≡ [])
      (cohort hash (λ n. n) text_order in_order untracked)
unfolding cohort_of pick_mbids agrees merge_opt text_eq
untracked-cohort = (refl, tt)

abbrev stub : ℕ → ℕ → TrackMeta
stub position length = record {
  position = position;
  title = none;
  artist_credit = none;
  length_frames = some length;
  isrc = none;
  mbid = none;
}

merge_with_toc_fallback_stubs_example :
    (m : MergedDisc ℕ) × (merge_with_toc_fallback hash
        (λ n. n)
        text_order
        in_order
        {E = AudioError}
        untracked
        two_tracks
      ≡ ok m)
    × (m.tracks ≡ stub 1 19850 ∷ stub 2 20000 ∷ [])
merge_with_toc_fallback_stubs_example =
    merge_with_toc_fallback_stubs hash (λ n. n) text_order in_order untracked two_tracks
      untracked-cohort (omega arith)
