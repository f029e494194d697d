-- ===== src/Identify/Learned.antt =====
-- phono-junk-identify/src/pipeline.rs: the identifiers that queries use and results add.
pub mod First
use phono_junk.Common.{ℕ, Bool, true, false, not, ◌&&◌, Option, none, some}
use phono_junk.Common.{List, [], ◌∷◌, ◌++◌, any, if◌then◌else◌}
use phono_junk.Common.Hex.{Text}
use phono_junk.Toc.DiscId.{DiscIds}
use phono_junk.Common.Text.{text_eq}
use phono_junk.Identify.Scoring.{ReleaseCandidate}

pub data DiscIdKind : Type 0 where
  mb_disc_id cddb accurate_rip barcode_kind catalog_number_kind : DiscIdKind

abbrev pub same_kind : DiscIdKind → DiscIdKind → Bool
same_kind mb_disc_id mb_disc_id = true
same_kind cddb cddb = true
same_kind accurate_rip accurate_rip = true
same_kind barcode_kind barcode_kind = true
same_kind catalog_number_kind catalog_number_kind = true
same_kind _ _ = false

pub record LearnedExternalId : Type 0 where
  pub kind : DiscIdKind
  pub value : Text

pub record ProviderLookup (Value : Type 0) : Type 0 where
  pub release_candidates : List (ReleaseCandidate Value)
  pub learned_ids : List LearnedExternalId
  pub asset_candidates : List Text
  pub raw_response : Option Value

unfoldable pub input_value : DiscIdKind → DiscIds → Option Text
input_value mb_disc_id ids = ids.mb_discid
input_value cddb ids = ids.cddb_id
input_value accurate_rip ids = ids.ar_discid1
input_value barcode_kind ids = ids.barcode
input_value catalog_number_kind ids = ids.catalog_number

unfoldable pub ids_for_input : DiscIds → DiscIdKind → DiscIds
ids_for_input ids barcode_kind = record ids { catalog_number = none }
ids_for_input ids catalog_number_kind = record ids { barcode = none }
ids_for_input ids mb_disc_id = ids
ids_for_input ids cddb = ids
ids_for_input ids accurate_rip = ids

-- The body of the inner loop of `learn_from_candidates`, on `learned_ids`.
unfoldable pub learn : DiscIdKind → Option Text → List LearnedExternalId → List LearnedExternalId
learn kind none learned = learned
learn kind (some value) learned =
    if any (λ l. same_kind l.kind kind && text_eq l.value value) learned
    then learned
    else learned ++ record { kind = kind; value = value } ∷ []

module _ {Value : Type 0} where
  unfoldable pub learn_all :
      List (ReleaseCandidate Value) → List LearnedExternalId → List LearnedExternalId
  unfolding learn
  learn_all [] learned = learned
  learn_all (c ∷ cs) learned = learn_all cs (
      learn catalog_number_kind c.release.catalog_number
        (learn barcode_kind c.release.barcode learned))

  unfoldable pub learn_from_candidates : ProviderLookup Value → ProviderLookup Value
  unfolding learn_all
  learn_from_candidates lookup = record lookup {
    learned_ids = learn_all lookup.release_candidates lookup.learned_ids;
  }

-- `if here.is_none() { here = Some(value) }`
abbrev pub fill : Option Text → Text → Option Text
fill none value = some value
fill (some old) value = some old

-- The body of the loop of `apply_learned_ids`.
unfoldable pub apply_learned : DiscIds → LearnedExternalId → DiscIds
apply_learned ids l = elim l.kind [
  | barcode_kind ↦ record ids { barcode = fill ids.barcode l.value }
  | catalog_number_kind ↦ record ids { catalog_number = fill ids.catalog_number l.value }
  | _ ↦ ids
]

unfoldable pub apply_all : DiscIds → List LearnedExternalId → DiscIds
unfolding apply_learned
apply_all ids [] = ids
apply_all ids (l ∷ ls) = apply_all (apply_learned ids l) ls

unfoldable pub apply_learned_ids : {Value : Type 0} → DiscIds → ProviderLookup Value → DiscIds
unfolding apply_all
apply_learned_ids ids lookup = apply_all ids lookup.learned_ids
