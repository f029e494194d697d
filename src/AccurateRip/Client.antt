-- ===== src/AccurateRip/Client.antt =====
-- phono-junk-accuraterip/src/url.rs and client.rs: the address of a dBAR file, and how it is fetched. The
-- parsing of a URL and the HTTP request are parameters.
pub mod Fetched
use phono_junk.Common.{
  ℕ, suc, ◌-◌, Option, none, some, List, [], ◌∷◌, ◌++◌, length, get_elem?, Bool, true, false, ltb,
  ◌==◌, if◌then◌else◌,
}
use phono_junk.Common.Outcome.{Outcome, ok, err, ◌>>=◌, ◌>>◌, ok_or, expect, fail_if}
use phono_junk.Common.Hex.{Text, from_str_radix_16}
use phono_junk.Common.Text.{codes}
use phono_junk.Common.Decimal.{decimal}
use phono_junk.Toc.DiscId.{DiscIds}
use phono_junk.AccurateRip.Error.{
  IdName, ar_discid1, ar_discid2, cddb_id, AccurateRipError, missing_id, http, parse_failed,
  id1_too_short, invalid_url, http_status, invalid_hexadecimal,
}
use phono_junk.AccurateRip.Dbar.{DbarFile, parse, validate_request}

-- `{track_count:03}`
abbrev pub three_digits : ℕ → Text
three_digits n =
    if ltb n 10 then b'0' ∷ b'0' ∷ decimal n else if ltb n 100 then b'0' ∷ decimal n else decimal n

-- `chars[n - k]`
abbrev pub from_right : Text → ℕ → Outcome AccurateRipError ℕ
from_right chars k = expect (get_elem? chars (length chars - k))

-- The address as a text.
unfoldable pub dbar_address : DiscIds → ℕ → Outcome AccurateRipError Text
unfolding decimal
dbar_address ids track_count = do
  id1 ← ok_or ids.ar_discid1 (missing_id ar_discid1)
  id2 ← ok_or ids.ar_discid2 (missing_id ar_discid2)
  cddb ← ok_or ids.cddb_id (missing_id cddb_id)
  fail_if (ltb (length id1) 3) (parse_failed (id1_too_short id1))
  a ← from_right id1 1
  b ← from_right id1 2
  c ← from_right id1 3
  ok (
      codes "https://www.accuraterip.com/accuraterip/"
      ++ a ∷ b'/' ∷ b ∷ b'/' ∷ c ∷ codes "/dBAR-"
      ++ three_digits track_count
      ++ b'-' ∷ id1
      ++ b'-' ∷ id2
      ++ b'-' ∷ cddb
      ++ codes ".bin")

pub record HttpResponse : Type 0 where
  pub status : ℕ
  pub body : List ℕ
  pub content_type : Option Text

pub record FetchedDbar : Type 0 where
  pub dbar : DbarFile
  pub body : List ℕ

unfoldable pub parse_id : Option Text → IdName → Outcome AccurateRipError ℕ
parse_id value name = do
  digits ← ok_or value (missing_id name)
  ok_or (from_str_radix_16 digits) (parse_failed (invalid_hexadecimal name digits))

-- The `match` on the status.
unfoldable pub read_response : HttpResponse → Outcome AccurateRipError (Option FetchedDbar)
read_response resp =
    if resp.status == 200
    then (do dbar ← parse resp.body; ok (some (record { dbar = dbar; body = resp.body })))
    else if resp.status == 404
    then ok none
    else err (parse_failed (http_status resp.status))

abbrev pub dbar_of : Option FetchedDbar → Option DbarFile
dbar_of none = none
dbar_of (some fetched) = some fetched.dbar

-- A file that was fetched must be of the disc.
unfoldable pub validated :
    DiscIds → ℕ → Option FetchedDbar → Outcome AccurateRipError (Option FetchedDbar)
unfolding parse_id
validated ids track_count none = ok none
validated ids track_count (some fetched) = do
  id1 ← parse_id ids.ar_discid1 ar_discid1
  id2 ← parse_id ids.ar_discid2 ar_discid2
  cddb ← parse_id ids.cddb_id cddb_id
  validate_request fetched.dbar track_count id1 id2 cddb
  ok (some fetched)

module _ {U : Type 0} (parse_url : Text → Option U)
    (get : U → Outcome AccurateRipError HttpResponse) where
  unfoldable pub dbar_url : DiscIds → ℕ → Outcome AccurateRipError U
  unfolding dbar_address
  dbar_url ids track_count = do
    address ← dbar_address ids track_count
    ok_or (parse_url address) (parse_failed invalid_url)

  unfoldable pub fetch_evidence_at_url : U → Outcome AccurateRipError (Option FetchedDbar)
  unfolding read_response
  fetch_evidence_at_url url = do resp ← get url; read_response resp

  unfoldable pub fetch_at_url : U → Outcome AccurateRipError (Option DbarFile)
  unfolding fetch_evidence_at_url
  fetch_at_url url = do fetched ← fetch_evidence_at_url url; ok (dbar_of fetched)

  unfoldable pub fetch_dbar_evidence : DiscIds → ℕ → Outcome AccurateRipError (Option FetchedDbar)
  unfolding dbar_url fetch_evidence_at_url validated
  fetch_dbar_evidence ids track_count = do
    url ← dbar_url ids track_count
    result ← fetch_evidence_at_url url
    validated ids track_count result

  unfoldable pub fetch_dbar : DiscIds → ℕ → Outcome AccurateRipError (Option DbarFile)
  unfolding fetch_dbar_evidence
  fetch_dbar ids track_count = do
    fetched ← fetch_dbar_evidence ids track_count
    ok (dbar_of fetched)
