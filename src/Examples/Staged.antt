-- ===== src/Examples/Staged.antt =====
-- Concrete providers for the stages.
use phono_junk.Common.{ℕ, none, some, [], ◌∷◌, map}
use phono_junk.Common.Outcome.{ok, err}
use phono_junk.Common.Text.{codes}
use phono_junk.Toc.DiscId.{DiscIds}
use phono_junk.Identify.Learned.{mb_disc_id, barcode_kind, ProviderLookup}
use phono_junk.Identify.Staged.{Provider, exact_disc, music_fallback, identify_staged}
use phono_junk.Identify.Staged.Once.{Distinct, observation_key, identify_staged-Distinct}
use phono_junk.Examples.Scoring.{two_tracks}

abbrev ids : DiscIds
ids = record {
  mb_discid = some (codes "id");
  cddb_id = none;
  ar_discid1 = none;
  ar_discid2 = none;
  barcode = none;
  catalog_number = none;
}

-- It knows no release, but a barcode.
abbrev learns : ProviderLookup ℕ
learns = record {
  release_candidates = [];
  learned_ids = record { kind = barcode_kind; value = codes "7" } ∷ [];
  asset_candidates = [];
  raw_response = none;
}

abbrev first_provider : Provider ℕ ℕ
first_provider = record {
  name = codes "a";
  tier = exact_disc;
  required_ids = mb_disc_id ∷ barcode_kind ∷ mb_disc_id ∷ [];
  lookup_many = λ toc given. ok learns;
}

abbrev second_provider : Provider ℕ ℕ
second_provider = record {
  name = codes "b";
  tier = music_fallback;
  required_ids = barcode_kind ∷ [];
  lookup_many = λ toc given. err 3;
}

identify_staged-Distinct_example : Distinct [] (
    map observation_key
      (identify_staged (second_provider ∷ first_provider ∷ []) two_tracks ids).observations)
identify_staged-Distinct_example =
    identify_staged-Distinct (second_provider ∷ first_provider ∷ []) two_tracks ids
