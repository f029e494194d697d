-- ===== src/Examples/Scoring.antt =====
-- Concrete candidates for the theorem on `score_and_resolve`.
use mathlib.Core.List.{Perm}
use phono_junk.Common.{ℕ, map, ◌≡◌, Bool, true, false, none, some, [], ◌∷◌, length, All}
use phono_junk.Common.Hex.{Text}
use phono_junk.Toc.{Toc}
use phono_junk.Identify.Scoring.{ReleaseCandidate, CandidateResolution}
use phono_junk.Identify.Scoring.Permutation.{candidate_of}
use phono_junk.Identify.Scoring.Resolve.{score_and_resolve}
use phono_junk.Identify.Scoring.Selection.{Leads, Scored, score_and_resolve_selected}

abbrev pub two_tracks : Toc
two_tracks = record {
  first_track = 1;
  last_track = 2;
  leadout_sector = 40000;
  track_offsets = 150 ∷ 20000 ∷ [];
}

abbrev candidate : Text → Bool → ReleaseCandidate ℕ
candidate key exact = record {
  candidate_key = key;
  provider = key;
  album = record { title = some key; artist_credit = none; year = none; mbid = none };
  release = record {
    country = none;
    date = none;
    label = none;
    catalog_number = none;
    barcode = none;
    mbid = none;
    language = none;
    script = none;
  };
  tracks = [];
  physical_disc_number = none;
  exact_disc_association = exact;
  raw_response = none;
  cover_art_urls = [];
}

abbrev inexact : ReleaseCandidate ℕ
inexact = candidate (b'a' ∷ []) false

abbrev exact : ReleaseCandidate ℕ
exact = candidate (b'b' ∷ []) true

score_and_resolve_selected_example :
    (r : CandidateResolution ℕ) × (score_and_resolve two_tracks (inexact ∷ exact ∷ []) ≡ some r)
    × Leads r.selected r.alternatives
    × (length r.alternatives ≡ 1)
    × Perm (map candidate_of (r.selected ∷ r.alternatives)) (inexact ∷ exact ∷ [])
    × All (Scored two_tracks (inexact ∷ exact ∷ [])) (r.selected ∷ r.alternatives)
score_and_resolve_selected_example = score_and_resolve_selected two_tracks inexact (exact ∷ [])
