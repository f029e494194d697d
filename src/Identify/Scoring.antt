-- ===== src/Identify/Scoring.antt =====
-- phono-junk-identify/src/pipeline.rs: `score_and_resolve`, which ranks the release candidates, with
-- the records of phono-junk-identify/src/lib.rs that it uses. Strings are compared by their bytes.
pub mod Resolve
pub mod Permutation
pub mod Selection
use phono_junk.Common.{
  ℕ, ◌+◌, ◌-◌, ◌*◌, ◌%◌, Bool, true, false, not, ◌&&◌, ◌||◌, Option, none, some,
}
use phono_junk.Common.{List, [], ◌∷◌, ◌++◌, map, length, any, ltb, leb, ◌==◌, if◌then◌else◌}
use phono_junk.Common.Words.{u8_mod, u32_mod}
use phono_junk.Common.Hex.{Text}
use phono_junk.Toc.{Toc, track_count, track_length_frames}
use phono_junk.Identify.{AlbumMeta, ReleaseMeta, TrackMeta}
use phono_junk.Common.Text.{text_eq}
use phono_junk.Identify.Consensus.Merge.{keep}

pub record ReleaseCandidate (Value : Type 0) : Type 0 where
  pub candidate_key : Text
  pub provider : Text
  pub album : AlbumMeta
  pub release : ReleaseMeta
  pub tracks : List TrackMeta
  pub physical_disc_number : Option ℕ
  pub exact_disc_association : Bool
  pub raw_response : Option Value
  pub cover_art_urls : List Text

pub record CandidateScore : Type 0 where
  pub exact_disc_association : ℕ
  pub exact_release_corroboration : ℕ
  pub barcode_catalog_corroboration : ℕ
  pub music_provider_support : ℕ
  pub track_duration_agreement : ℕ
  pub metadata_completeness : ℕ
  pub provider_priority : ℕ

-- The tuples, which are compared from the left, as lists.
abbrev pub evidence_components : CandidateScore → List ℕ
evidence_components s =
    s.exact_disc_association ∷ s.exact_release_corroboration ∷ s.barcode_catalog_corroboration
    ∷ s.music_provider_support ∷ s.track_duration_agreement ∷ s.metadata_completeness ∷ []

abbrev pub score_rank : CandidateScore → List ℕ
score_rank s = evidence_components s ++ s.provider_priority ∷ []

pub record ScoredCandidate (Value : Type 0) : Type 0 where
  pub candidate : ReleaseCandidate Value
  pub score : CandidateScore

pub record CandidateResolution (Value : Type 0) : Type 0 where
  pub selected : ScoredCandidate Value
  pub alternatives : List (ScoredCandidate Value)
  pub evidentially_ambiguous : Bool

-- `b as u8`
abbrev pub bit : Bool → ℕ
bit true = 1
bit false = 0

abbrev pub is_some : {A : Type 0} → Option A → Bool
is_some none = false
is_some (some a) = true

abbrev pub is_none_left : List TrackMeta → Bool
is_none_left [] = true
is_none_left (t ∷ ts) = false

abbrev pub or_empty : Option Text → Text
or_empty none = []
or_empty (some s) = s

-- `==` on optional strings
unfoldable pub same_option : Option Text → Option Text → Bool
same_option none none = true
same_option none (some y) = false
same_option (some x) none = false
same_option (some x) (some y) = text_eq x y

unfoldable pub same_nonempty : Option Text → Option Text → Bool
unfolding same_option
same_nonempty none right = false
same_nonempty (some []) right = false
same_nonempty (some (c ∷ cs)) right = same_option right (some (c ∷ cs))

unfoldable pub provider_priority : Text → ℕ
provider_priority provider =
    if text_eq provider
      (b'm' ∷ b'u' ∷ b's' ∷ b'i' ∷ b'c' ∷ b'b' ∷ b'r' ∷ b'a' ∷ b'i' ∷ b'n' ∷ b'z' ∷ [])
    then 4
    else if text_eq provider (b'd' ∷ b'i' ∷ b's' ∷ b'c' ∷ b'o' ∷ b'g' ∷ b's' ∷ [])
    then 3
    else if text_eq provider (b't' ∷ b'o' ∷ b'w' ∷ b'e' ∷ b'r' ∷ [])
    then 2
    else if text_eq provider (
        b'b' ∷ b'a' ∷ b'r' ∷ b'c' ∷ b'o' ∷ b'd' ∷ b'e' ∷ b'l' ∷ b'o' ∷ b'o' ∷ b'k' ∷ b'u' ∷ b'p'
        ∷ [])
    then 1
    else 0

-- `actual.abs_diff(expected) <= 2` where both are there
abbrev pub within_two : Option ℕ → Option ℕ → Bool
within_two (some actual) (some expected) = leb actual (expected + 2) && leb expected (actual + 2)
within_two (some actual) none = false
within_two none expected = false

unfoldable pub durations_from : Toc → ℕ → List TrackMeta → ℕ
durations_from toc index [] = 0
durations_from toc index (t ∷ ts) =
    bit (within_two t.length_frames (track_length_frames toc index))
    + durations_from toc (index + 1) ts

module _ {Value : Type 0} where
  -- The sum fits 32 bits for as many tracks as memory holds.
  unfoldable pub track_agreement : Toc → ReleaseCandidate Value → ℕ
  unfolding durations_from
  track_agreement toc candidate =
      bit (length candidate.tracks == track_count toc) * 10000
      + durations_from toc 0 candidate.tracks % u32_mod

  unfoldable pub completeness : ReleaseCandidate Value → ℕ
  completeness c =
      bit (is_some c.album.title)
      + bit (is_some c.album.artist_credit)
      + bit (is_some c.album.year)
      + bit (is_some c.release.country)
      + bit (is_some c.release.label)
      + bit (is_some c.release.catalog_number)
      + bit (is_some c.release.barcode)
      + bit (not (is_none_left c.tracks))

  unfoldable pub release_identity : ReleaseCandidate Value → Text
  release_identity c = elim c.release.mbid [
    | some id ↦ b'm' ∷ b'b' ∷ b':' ∷ id
    | none ↦ elim c.release.barcode [
      | some barcode ↦
          b'b'
          ∷ b'a'
          ∷ b'r'
          ∷ b'c'
          ∷ b'o'
          ∷ b'd'
          ∷ b'e'
          ∷ b':'
          ∷ (barcode ++ b':' ∷ or_empty c.release.catalog_number)
      | none ↦ c.candidate_key
    ]
  ]

  -- The set of providers that the map `release_support` holds for an identity; of equal providers
  -- one is counted.
  unfoldable pub supporters : Text → List (ReleaseCandidate Value) → List Text
  unfolding release_identity
  supporters identity [] = []
  supporters identity (c ∷ cs) =
      let rest = supporters identity cs in
      if text_eq (release_identity c) identity && not (any (λ p. text_eq p c.provider) rest)
      then c.provider ∷ rest
      else rest

  abbrev pub peers_of :
      List (ReleaseCandidate Value) → ReleaseCandidate Value → List (ReleaseCandidate Value)
  peers_of candidates c =
      keep (λ other. not (text_eq other.candidate_key c.candidate_key)) candidates

  unfoldable pub score_of :
      Toc → List (ReleaseCandidate Value) → ReleaseCandidate Value → CandidateScore
  unfolding same_option same_nonempty supporters track_agreement completeness provider_priority
  score_of toc candidates c =
      let peers : List (ReleaseCandidate Value) = peers_of candidates c in
      record {
        exact_disc_association = bit c.exact_disc_association;
        exact_release_corroboration = bit (
            is_some c.release.mbid
            && any (λ other. same_option other.release.mbid c.release.mbid) peers);
        barcode_catalog_corroboration = bit (
            any
              (λ other.
                same_nonempty c.release.barcode other.release.barcode
                && (same_nonempty c.release.catalog_number other.release.catalog_number
                    || same_nonempty c.release.label other.release.label))
              peers);
        music_provider_support = length (supporters (release_identity c) candidates) % u8_mod;
        track_duration_agreement = track_agreement toc c;
        metadata_completeness = completeness c;
        provider_priority = provider_priority c.provider;
      }
