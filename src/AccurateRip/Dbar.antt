-- ===== src/AccurateRip/Dbar.antt =====
-- phono-junk-accuraterip/src/dbar.rs: the dBAR response file. The parser walks the bytes with the
-- cursor `cur`; a read out of range would be a panic.
pub mod Encode
pub mod RoundTrip
pub mod Rounds
pub mod Complete
pub mod Requests
use phono_junk.Common.{
  ℕ, zero, suc, ◌+◌, ◌-◌, ◌*◌, ◌^◌, Bool, true, false, not, ◌||◌, ◌&&◌, Option, none, some,
}
use phono_junk.Common.{List, [], ◌∷◌, length, get_elem?, take, drop, ltb, leb, ◌==◌, if◌then◌else◌}
use phono_junk.Common.Outcome.{Outcome, ok, err, panic, ◌>>=◌, ◌>>◌, expect, fail_if}
use phono_junk.AccurateRip.Error.{
  AccurateRipError, parse_failed, truncated_header, truncated_entries, header_mismatch,
}

abbrev pub header_len : ℕ
header_len = 1 + 4 + 4 + 4

abbrev pub entry_len : ℕ
entry_len = 1 + 4 + 4

pub record ExpectedChecksum : Type 0 where
  pub confidence : ℕ
  pub checksum : ℕ
  pub checksum_450 : ℕ

pub record DbarResponse : Type 0 where
  pub track_count : ℕ
  pub ar_id1 : ℕ
  pub ar_id2 : ℕ
  pub cddb_id : ℕ
  pub tracks : List ExpectedChecksum

pub record DbarFile : Type 0 where
  pub responses : List DbarResponse

-- `&bytes[start..end]`
unfoldable pub byte_slice : List ℕ → ℕ → ℕ → Outcome AccurateRipError (List ℕ)
byte_slice bytes start end =
    if leb start end && leb end (length bytes)
    then ok (take (end - start) (drop start bytes))
    else panic

-- `u32::from_le_bytes`
abbrev pub from_le_bytes : ℕ → ℕ → ℕ → ℕ → ℕ
from_le_bytes b0 b1 b2 b3 = b0 + 2 ^ 8 * b1 + 2 ^ 16 * b2 + 2 ^ 24 * b3

unfoldable pub read_u32_le : List ℕ → Outcome AccurateRipError ℕ
read_u32_le b = do
  b0 ← expect (get_elem? b 0)
  b1 ← expect (get_elem? b 1)
  b2 ← expect (get_elem? b 2)
  b3 ← expect (get_elem? b 3)
  ok (from_le_bytes b0 b1 b2 b3)

-- `read_u32_le(&bytes[at..at + 4])`
unfoldable pub u32_at : List ℕ → ℕ → Outcome AccurateRipError ℕ
unfolding byte_slice read_u32_le
u32_at bytes at = do b ← byte_slice bytes at (at + 4); read_u32_le b

-- The loop `for _ in 0..tc`, with the rounds left; it returns the cursor and the entries.
unfoldable pub entries_loop : List ℕ → ℕ → ℕ → Outcome AccurateRipError (ℕ × List ExpectedChecksum)
entries_loop bytes zero cur = ok (cur, [])
entries_loop bytes (suc left) cur = do
  confidence ← expect (get_elem? bytes cur)
  checksum ← u32_at bytes (cur + 1)
  checksum_450 ← u32_at bytes (cur + 5)
  rest ← entries_loop bytes left (cur + entry_len)
  ok (
    rest.0,
    record { confidence = confidence; checksum = checksum; checksum_450 = checksum_450 } ∷ rest.1,
  )

-- One round of `while cur < bytes.len()`, from the check of the entries' length on.
unfoldable pub parse_body : List ℕ → ℕ → ℕ → ℕ → ℕ → ℕ → Outcome AccurateRipError (ℕ × DbarResponse)
parse_body bytes cur track_count ar_id1 ar_id2 cddb_id = do
  let need : ℕ = track_count * entry_len
  fail_if (ltb (length bytes - cur) need)
      (parse_failed (truncated_entries cur (length bytes - cur) need track_count))
  entries ← entries_loop bytes track_count cur
  ok (
    entries.0,
    record {
      track_count = track_count;
      ar_id1 = ar_id1;
      ar_id2 = ar_id2;
      cddb_id = cddb_id;
      tracks = entries.1;
    },
  )

-- The whole round: the header, then the body.
unfoldable pub parse_response : List ℕ → ℕ → Outcome AccurateRipError (ℕ × DbarResponse)
parse_response bytes cur = do
  fail_if (ltb (length bytes - cur) header_len)
      (parse_failed (truncated_header cur (length bytes - cur)))
  track_count ← expect (get_elem? bytes cur)
  ar_id1 ← u32_at bytes (cur + 1)
  ar_id2 ← u32_at bytes (cur + 5)
  cddb_id ← u32_at bytes (cur + 9)
  parse_body bytes (cur + header_len) track_count ar_id1 ar_id2 cddb_id

-- The `while` loop on fuel; it would panic without fuel, which the theorems exclude.
unfoldable pub parse_loop : List ℕ → ℕ → ℕ → Outcome AccurateRipError (List DbarResponse)
parse_loop bytes zero cur = panic
parse_loop bytes (suc fuel) cur =
    let round : Outcome AccurateRipError (List DbarResponse) = (do
      response ← parse_response bytes cur
      rest ← parse_loop bytes fuel response.0
      ok (response.1 ∷ rest)) in
    if ltb cur (length bytes) then round else ok []

-- Each round consumes a header, so that one round for each byte and one more are enough.
unfoldable pub parse : List ℕ → Outcome AccurateRipError DbarFile
parse bytes = do
  responses ← parse_loop bytes (suc (length bytes)) 0
  ok (record { responses = responses })

unfoldable pub validate_loop :
    ℕ → List DbarResponse → ℕ → ℕ → ℕ → ℕ → Outcome AccurateRipError (Unit {0})
validate_loop index [] track_count id1 id2 cddb = ok tt
validate_loop index (response ∷ responses) track_count id1 id2 cddb = do
  fail_if
      (not (response.track_count == track_count)
        || not (response.ar_id1 == id1)
        || not (response.ar_id2 == id2)
        || not (response.cddb_id == cddb))
      (parse_failed (
        header_mismatch index (track_count ∷ id1 ∷ id2 ∷ cddb ∷ [])
          (response.track_count ∷ response.ar_id1 ∷ response.ar_id2 ∷ response.cddb_id ∷ [])))
  validate_loop (index + 1) responses track_count id1 id2 cddb

unfoldable pub validate_request : DbarFile → ℕ → ℕ → ℕ → ℕ → Outcome AccurateRipError (Unit {0})
unfolding validate_loop
validate_request file = validate_loop 0 file.responses

-- The iterator of `entries_for_track` from response `i`: indices out of range would panic.
unfoldable pub entries_from :
    {E : Type 0} → ℕ → List DbarResponse → ℕ → Outcome E (List (ℕ × ExpectedChecksum))
entries_from i [] position = ok []
entries_from i (r ∷ responses) position =
    let rest = entries_from (i + 1) responses position in
    if position == 0 || ltb r.track_count position then rest else do
      entry ← expect (get_elem? r.tracks (position - 1))
      entries ← rest
      ok ((i, entry) ∷ entries)

unfoldable pub entries_for_track :
    {E : Type 0} → DbarFile → ℕ → Outcome E (List (ℕ × ExpectedChecksum))
unfolding entries_from
entries_for_track file = entries_from 0 file.responses
