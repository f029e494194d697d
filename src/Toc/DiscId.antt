-- ===== src/Toc/DiscId.antt =====
-- phono-junk-toc/src/discid.rs and `compute_disc_ids` of phono-junk-toc/src/lib.rs. Two things
-- come from elsewhere and are parameters: the constant `LEAD_IN_FRAMES` of junk-libs-disc, and the
-- digest, SHA-1 followed by the standard base64, of the crates sha1 and base64.
pub mod DigitSum
pub mod Cddb
pub mod AccurateRip
pub mod MusicBrainz
use Prim.Native.Nat.{bit_or, bit_and}
use mathlib.Core.Option.{get_or}
use phono_junk.Common.{
  ℕ, zero, suc, ◌+◌, ◌-◌, ◌*◌, ◌/◌, ◌%◌, ◌^◌, Bool, true, false, ◌&&◌, Option, none, some,
}
use phono_junk.Common.{List, [], ◌∷◌, ◌++◌, map, length, get_elem?, ltb, leb, ◌==◌, if◌then◌else◌}
use phono_junk.Common.Outcome.{Outcome, ok, ◌>>=◌}
use phono_junk.Common.Words.{u8_mod, u32_mod, checked_add, checked_sub, wrapping_add, wrapping_mul}
use phono_junk.Common.Hex.{Text, hex}
use phono_junk.Toc.{Toc, AudioError}

pub record DiscIds : Type 0 where
  pub mb_discid : Option Text
  pub cddb_id : Option Text
  pub ar_discid1 : Option Text
  pub ar_discid2 : Option Text
  pub barcode : Option Text
  pub catalog_number : Option Text

-- The loop `while n > 0` of `digit_sum`; the sum of ten digits fits its word.
unfoldable pub digit_sum_loop : ℕ → ℕ → ℕ → ℕ
digit_sum_loop zero n sum = sum
digit_sum_loop (suc fuel) n sum =
    let rest = digit_sum_loop fuel (n / 10) (sum + n % 10) in if ltb 0 n then rest else sum

-- Each round makes `n` smaller, so that `n` rounds are enough.
unfoldable pub digit_sum : ℕ → ℕ
unfolding digit_sum_loop
digit_sum n = digit_sum_loop n n 0

-- `x << k` at `u32`
abbrev pub shl : ℕ → ℕ → ℕ
shl x k = (x * 2 ^ k) % u32_mod

-- The loop of `cddb_discid` over the offsets.
unfoldable pub seconds_digits : ℕ → List ℕ → ℕ
seconds_digits n [] = n
seconds_digits n (offset ∷ offsets) =
    seconds_digits (wrapping_add n (digit_sum (offset / 75))) offsets

-- `toc.last_track - toc.first_track + 1` at `u8`
unfoldable pub num_tracks : Toc → Outcome AudioError ℕ
num_tracks toc = do span ← checked_sub toc.last_track toc.first_track; checked_add u8_mod span 1

unfoldable pub cddb_number : Toc → Outcome AudioError ℕ
unfolding seconds_digits num_tracks
cddb_number toc = do
  let n : ℕ = seconds_digits 0 toc.track_offsets
  let first_offset : ℕ = get_or (get_elem? toc.track_offsets 0) 0
  length_sectors ← checked_sub toc.leadout_sector first_offset
  let t : ℕ = length_sectors / 75
  tracks ← num_tracks toc
  ok (bit_or (bit_or (shl (n % 0xff) 24) (shl t 8)) (bit_and tracks 0xff))

unfoldable pub cddb_discid : Toc → Outcome AudioError Text
unfolding cddb_number
cddb_discid toc = do id ← cddb_number toc; ok (hex false 8 id)

-- `b64.replace('+', ".").replace('/', "_").replace('=', "-")`
unfoldable pub url_safe : ℕ → ℕ
url_safe c = if c == b'+' then b'.' else if c == b'/' then b'_' else if c == b'=' then b'-' else c

-- The offset that `musicbrainz_discid` prints for track `i`; the guard keeps the index in range.
unfoldable pub offset_of_track : Toc → ℕ → ℕ
offset_of_track toc i =
    let idx : ℕ = (i + u8_mod - toc.first_track) % u8_mod in
    if leb toc.first_track i && leb i toc.last_track && ltb idx (length toc.track_offsets)
    then get_or (get_elem? toc.track_offsets idx) 0
    else 0

-- The loop `for i in 1..=99`, with the rounds left.
unfoldable pub offset_fields : Toc → ℕ → ℕ → Text
offset_fields toc zero i = []
offset_fields toc (suc left) i =
    hex true 8 (offset_of_track toc i) ++ offset_fields toc left (i + 1)

unfoldable pub discid_string : Toc → Text
unfolding offset_fields
discid_string toc =
    hex true 2 toc.first_track
    ++ (hex true 2 toc.last_track ++ (hex true 8 toc.leadout_sector ++ offset_fields toc 99 1))

module _ (sha1_base64 : Text → Text) where
  unfoldable pub musicbrainz_discid : Toc → Text
  musicbrainz_discid toc = map url_safe (sha1_base64 (discid_string toc))

module _ (lead_in_frames : ℕ) where
  abbrev pub lsn : ℕ → ℕ
  lsn sector = sector - lead_in_frames

  -- The loop of `accuraterip_ids` from index `i`.
  unfoldable pub id_loop : Toc → ℕ → List ℕ → ℕ × ℕ → Outcome AudioError (ℕ × ℕ)
  id_loop toc i [] ids = ok ids
  id_loop toc i (offset ∷ offsets) (id1, id2) = do
    let l : ℕ = lsn offset
    let l_or_1 : ℕ = if l == 0 then 1 else l
    track_num ← checked_add u32_mod toc.first_track (i % u32_mod)
    id_loop toc (i + 1) offsets
        (wrapping_add id1 l, wrapping_add id2 (wrapping_mul l_or_1 track_num))

  unfoldable pub accuraterip_numbers : Toc → Outcome AudioError (ℕ × ℕ)
  unfolding id_loop num_tracks
  accuraterip_numbers toc = do
    let lsn_leadout : ℕ = lsn toc.leadout_sector
    tracks ← num_tracks toc
    id_loop toc 0 toc.track_offsets (lsn_leadout, wrapping_mul lsn_leadout (tracks + 1))

  unfoldable pub accuraterip_ids : Toc → Outcome AudioError (Text × Text × Text)
  unfolding accuraterip_numbers cddb_discid
  accuraterip_ids toc = do
    ids ← accuraterip_numbers toc
    cddb ← cddb_discid toc
    ok (hex false 8 ids.0, hex false 8 ids.1, cddb)

unfoldable pub compute_disc_ids : (Text → Text) → ℕ → Toc → Outcome AudioError DiscIds
unfolding accuraterip_ids musicbrainz_discid
compute_disc_ids sha1_base64 lead_in_frames toc = do
  ids ← accuraterip_ids lead_in_frames toc
  ok (record {
    mb_discid = some (musicbrainz_discid sha1_base64 toc);
    cddb_id = some ids.2;
    ar_discid1 = some ids.0;
    ar_discid2 = some ids.1;
    barcode = none;
    catalog_number = none;
  })
