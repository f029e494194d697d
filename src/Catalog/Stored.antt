-- ===== src/Catalog/Stored.antt =====
-- The forms in which enumerations are stored, and how they are read.
use phono_junk.Common.{
  ℕ, ◌+◌, Option, none, some, [], ◌∷◌, ◌++◌, map, if◌then◌else◌, leb, ◌==◌, ◌&&◌, ◌≡◌, refl,
}
use phono_junk.Common.Hex.{Text}
use phono_junk.Common.Text.{codes, text_eq}
use phono_junk.Catalog.{
  AssetType, front_cover, back_cover, cd_label, booklet, obi_strip, tray_insert, other,
  CatalogEntityKey, album_key, release_key, disc_key, track_key, asset_key, rip_file_key,
  IdentificationState, unscanned, queued, working, identified, unidentified, failed,
}

unfoldable pub as_db_str : AssetType → Text
as_db_str front_cover = codes "front_cover"
as_db_str back_cover = codes "back_cover"
as_db_str cd_label = codes "cd_label"
as_db_str booklet = codes "booklet"
as_db_str obi_strip = codes "obi_strip"
as_db_str tray_insert = codes "tray_insert"
as_db_str (other tag) = codes "other:" ++ tag

-- `s.strip_prefix(prefix).unwrap_or(s)`, the whole text kept at hand
unfoldable pub strip_or : Text → Text → Text → Text
strip_or whole [] rest = rest
strip_or whole (p ∷ ps) [] = whole
strip_or whole (p ∷ ps) (c ∷ cs) = let rest = strip_or whole ps cs in if c == p then rest else whole

unfoldable pub from_db_str : Text → AssetType
unfolding text_eq strip_or
from_db_str s =
    if text_eq s (codes "front_cover")
    then front_cover
    else if text_eq s (codes "back_cover")
    then back_cover
    else if text_eq s (codes "cd_label")
    then cd_label
    else if text_eq s (codes "booklet")
    then booklet
    else if text_eq s (codes "obi_strip")
    then obi_strip
    else if text_eq s (codes "tray_insert")
    then tray_insert
    else other (strip_or s (codes "other:") s)

unfoldable pub as_str : IdentificationState → Text
as_str unscanned = codes "unscanned"
as_str queued = codes "queued"
as_str working = codes "working"
as_str identified = codes "identified"
as_str unidentified = codes "unidentified"
as_str failed = codes "failed"

unfoldable pub from_str_db : Text → Option IdentificationState
unfolding text_eq
from_str_db s =
    if text_eq s (codes "unscanned")
    then some unscanned
    else if text_eq s (codes "queued")
    then some queued
    else if text_eq s (codes "working")
    then some working
    else if text_eq s (codes "identified")
    then some identified
    else if text_eq s (codes "unidentified")
    then some unidentified
    else if text_eq s (codes "failed")
    then some failed
    else none

unfoldable pub key_value : CatalogEntityKey → Text
key_value (album_key value) = value
key_value (release_key value) = value
key_value (disc_key value) = value
key_value (track_key value) = value
key_value (asset_key value) = value
key_value (rip_file_key value) = value

unfoldable pub key_kind : CatalogEntityKey → Text
key_kind (album_key value) = codes "Album"
key_kind (release_key value) = codes "Release"
key_kind (disc_key value) = codes "Disc"
key_kind (track_key value) = codes "Track"
key_kind (asset_key value) = codes "Asset"
key_kind (rip_file_key value) = codes "RipFile"

-- `to_ascii_lowercase`
abbrev pub lower : ℕ → ℕ
lower c = if leb 65 c && leb c 90 then c + 32 else c

unfoldable pub from_parts : Text → Text → Option CatalogEntityKey
unfolding text_eq
from_parts kind value =
    let k : Text = map lower kind in
    if text_eq k (codes "album")
    then some (album_key value)
    else if text_eq k (codes "release")
    then some (release_key value)
    else if text_eq k (codes "disc")
    then some (disc_key value)
    else if text_eq k (codes "track")
    then some (track_key value)
    else if text_eq k (codes "asset")
    then some (asset_key value)
    else if text_eq k (codes "ripfile")
    then some (rip_file_key value)
    else if text_eq k (codes "rip_file")
    then some (rip_file_key value)
    else none

from_db_str-as_db_str : (t : AssetType) → from_db_str (as_db_str t) ≡ t
unfolding from_db_str as_db_str
from_db_str-as_db_str front_cover = refl
from_db_str-as_db_str back_cover = refl
from_db_str-as_db_str cd_label = refl
from_db_str-as_db_str booklet = refl
from_db_str-as_db_str obi_strip = refl
from_db_str-as_db_str tray_insert = refl
from_db_str-as_db_str (other tag) = refl

from_str_db-as_str : (s : IdentificationState) → from_str_db (as_str s) ≡ some s
unfolding from_str_db as_str
from_str_db-as_str unscanned = refl
from_str_db-as_str queued = refl
from_str_db-as_str working = refl
from_str_db-as_str identified = refl
from_str_db-as_str unidentified = refl
from_str_db-as_str failed = refl

from_parts-key_kind : (k : CatalogEntityKey) → from_parts (key_kind k) (key_value k) ≡ some k
unfolding from_parts key_kind key_value
from_parts-key_kind (album_key value) = refl
from_parts-key_kind (release_key value) = refl
from_parts-key_kind (disc_key value) = refl
from_parts-key_kind (track_key value) = refl
from_parts-key_kind (asset_key value) = refl
from_parts-key_kind (rip_file_key value) = refl

-- Every asset type is read back from its stored form, also a free tag that begins with `other:` or
-- that is the stored form of another type; a lifecycle state is read back from its stored form; and
-- an entity key is read back from its kind and its value.
pub stored_forms_read_back :
    ((t : AssetType) → from_db_str (as_db_str t) ≡ t)
    × ((s : IdentificationState) → from_str_db (as_str s) ≡ some s)
    × ((k : CatalogEntityKey) → from_parts (key_kind k) (key_value k) ≡ some k)
stored_forms_read_back = (from_db_str-as_db_str, from_str_db-as_str, from_parts-key_kind)
