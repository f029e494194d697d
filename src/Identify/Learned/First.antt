-- ===== src/Identify/Learned/First.antt =====
-- What `apply_learned_ids` changes.
use phono_junk.Common.{
  ◌≡◌, refl, ap, ◌∙◌, Bool, true, false, Option, none, some, List, [], ◌∷◌, if◌then◌else◌,
}
use phono_junk.Common.Hex.{Text}
use phono_junk.Toc.DiscId.{DiscIds}
use phono_junk.Identify.Learned.{
  DiscIdKind, mb_disc_id, cddb, accurate_rip, barcode_kind, catalog_number_kind, same_kind, fill,
  LearnedExternalId, ProviderLookup, apply_learned, apply_all, apply_learned_ids,
}

-- The first learned value of a kind.
abbrev pub first_of : DiscIdKind → List LearnedExternalId → Option Text
first_of kind [] = none
first_of kind (l ∷ ls) = if same_kind l.kind kind then some l.value else first_of kind ls

-- The value that is there, or else the other one.
abbrev pub or_else : Option Text → Option Text → Option Text
or_else none other = other
or_else (some value) other = some value

or_else-if :
    (a : Option Text) (b : Bool) (v : Text) (other : Option Text)
    → or_else (or_else a (if b then some v else none)) other
      ≡ or_else a (if b then some v else other)
or_else-if none true v other = refl
or_else-if none false v other = refl
or_else-if (some x) b v other = refl

fill-or_else : (a : Option Text) (v : Text) → fill a v ≡ or_else a (some v)
fill-or_else none v = refl
fill-or_else (some x) v = refl

or_else-none : (a : Option Text) → a ≡ or_else a none
or_else-none none = refl
or_else-none (some x) = refl

-- What one learned value does to the two fields.
learned_one : DiscIdKind → Option Text → DiscIdKind → Text → Option Text
learned_one field old kind v = or_else old (if same_kind kind field then some v else none)

apply_learned-barcode :
    (ids : DiscIds) (kind : DiscIdKind) (v : Text)
    → (apply_learned ids (record { kind = kind; value = v })).barcode
      ≡ learned_one barcode_kind ids.barcode kind v
unfolding apply_learned learned_one
apply_learned-barcode ids mb_disc_id v = or_else-none ids.barcode
apply_learned-barcode ids cddb v = or_else-none ids.barcode
apply_learned-barcode ids accurate_rip v = or_else-none ids.barcode
apply_learned-barcode ids barcode_kind v = fill-or_else ids.barcode v
apply_learned-barcode ids catalog_number_kind v = or_else-none ids.barcode

apply_learned-catalog_number :
    (ids : DiscIds) (kind : DiscIdKind) (v : Text)
    → (apply_learned ids (record { kind = kind; value = v })).catalog_number
      ≡ learned_one catalog_number_kind ids.catalog_number kind v
unfolding apply_learned learned_one
apply_learned-catalog_number ids mb_disc_id v = or_else-none ids.catalog_number
apply_learned-catalog_number ids cddb v = or_else-none ids.catalog_number
apply_learned-catalog_number ids accurate_rip v = or_else-none ids.catalog_number
apply_learned-catalog_number ids barcode_kind v = or_else-none ids.catalog_number
apply_learned-catalog_number ids catalog_number_kind v = fill-or_else ids.catalog_number v

apply_all-barcode :
    (ids : DiscIds) (ls : List LearnedExternalId)
    → (apply_all ids ls).barcode ≡ or_else ids.barcode (first_of barcode_kind ls)
unfolding apply_all learned_one
apply_all-barcode ids [] = or_else-none ids.barcode
apply_all-barcode ids (l ∷ ls) =
    apply_all-barcode (apply_learned ids l) ls
    ∙ ap (λ (o : Option Text). or_else o (first_of barcode_kind ls))
        (apply_learned-barcode ids l.kind l.value)
    ∙ or_else-if ids.barcode (same_kind l.kind barcode_kind) l.value (first_of barcode_kind ls)

apply_all-catalog_number :
    (ids : DiscIds) (ls : List LearnedExternalId)
    → (apply_all ids ls).catalog_number
      ≡ or_else ids.catalog_number (first_of catalog_number_kind ls)
unfolding apply_all learned_one
apply_all-catalog_number ids [] = or_else-none ids.catalog_number
apply_all-catalog_number ids (l ∷ ls) =
    apply_all-catalog_number (apply_learned ids l) ls
    ∙ ap (λ (o : Option Text). or_else o (first_of catalog_number_kind ls))
        (apply_learned-catalog_number ids l.kind l.value)
    ∙ or_else-if ids.catalog_number (same_kind l.kind catalog_number_kind) l.value
        (first_of catalog_number_kind ls)

-- `apply_learned_ids` keeps a barcode and a catalog number that are there, and else takes the first
-- one that the lookup learned, if it learned one.
pub apply_learned_ids_first :
    {Value : Type 0} (ids : DiscIds) (lookup : ProviderLookup Value)
    → ((apply_learned_ids ids lookup).barcode
        ≡ or_else ids.barcode (first_of barcode_kind lookup.learned_ids))
      × ((apply_learned_ids ids lookup).catalog_number
          ≡ or_else ids.catalog_number (first_of catalog_number_kind lookup.learned_ids))
unfolding apply_learned_ids
apply_learned_ids_first ids lookup =
    (apply_all-barcode ids lookup.learned_ids, apply_all-catalog_number ids lookup.learned_ids)
