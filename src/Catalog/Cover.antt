-- ===== src/Catalog/Cover.antt =====
-- `pick_front_cover`.
use phono_junk.Common.{
  ◌^◌, ◌-◌, Option, none, some, List, [], ◌∷◌, if◌then◌else◌, ltb, ◌==◌, Bool, true, false, ◌&&◌,
  ◌||◌,
}
use phono_junk.Common.Int.{ℤ, pos, negsuc}
use phono_junk.Catalog.{Asset, AssetType, front_cover}

abbrev pub is_front : AssetType → Bool
is_front front_cover = true
is_front _ = false

-- `i64::MAX`
abbrev pub max_id : ℤ
max_id = pos (2 ^ 63 - 1)

abbrev pub group_or_max : Option ℤ → ℤ
group_or_max none = max_id
group_or_max (some id) = id

-- `<` and `==` on integers
unfoldable pub int_ltb : ℤ → ℤ → Bool
int_ltb (pos m) (pos n) = ltb m n
int_ltb (pos m) (negsuc n) = false
int_ltb (negsuc m) (pos n) = true
int_ltb (negsuc m) (negsuc n) = ltb n m

unfoldable pub int_eq : ℤ → ℤ → Bool
int_eq (pos m) (pos n) = m == n
int_eq (pos m) (negsuc n) = false
int_eq (negsuc m) (pos n) = false
int_eq (negsuc m) (negsuc n) = m == n

-- The key `(group_id, sequence, id)` of one asset is below that of another.
unfoldable pub cover_before : Asset → Asset → Bool
unfolding int_ltb int_eq
cover_before a b =
    int_ltb (group_or_max a.group_id) (group_or_max b.group_id)
    || (int_eq (group_or_max a.group_id) (group_or_max b.group_id)
        && (ltb a.sequence b.sequence || (a.sequence == b.sequence && int_ltb a.id b.id)))

-- `filter` and `min_by_key`: of several minimal elements the first one.
unfoldable pub pick_front_cover : List Asset → Option Asset
unfolding cover_before
pick_front_cover [] = none
pick_front_cover (a ∷ assets) =
    let rest = pick_front_cover assets in
    if is_front a.asset_type
    then elim rest [ none ↦ some a | some best ↦ some (if cover_before best a then best else a) ]
    else rest
