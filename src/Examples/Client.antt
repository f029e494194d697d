-- ===== src/Examples/Client.antt =====
-- A concrete disc and the answer to its request.
use phono_junk.Common.{◌≡◌, ◌↔◌, refl, Option, none, some, All, false, arith}
use phono_junk.Common.Outcome.{Outcome, ok}
use phono_junk.Common.Hex.{Text, hex}
use phono_junk.Common.Text.{codes}
use phono_junk.Common.Decimal.{decimal}
use phono_junk.Toc.DiscId.{DiscIds}
use phono_junk.AccurateRip.Error.{AccurateRipError}
use phono_junk.AccurateRip.Dbar.Encode.{encode}
use phono_junk.AccurateRip.Dbar.Requests.{Requested}
use phono_junk.AccurateRip.Client.{
  HttpResponse, FetchedDbar, dbar_url, dbar_address, fetch_dbar_evidence,
}
use phono_junk.AccurateRip.Client.Fetched.{Carries, fetch_dbar_evidence_iff}
use phono_junk.Examples.AccurateRip.{file}

abbrev ids : DiscIds
ids = record {
  mb_discid = none;
  cddb_id = some (hex false 8 270013186);
  ar_discid1 = some (hex false 8 59700);
  ar_discid2 = some (hex false 8 159251);
  barcode = none;
  catalog_number = none;
}

abbrev answer : HttpResponse
answer = record { status = 200; body = encode file; content_type = none }

-- Every address is a URL, and every request has this answer.
abbrev parse_url : Text → Option Text
parse_url address = some address

abbrev get : Text → Outcome AccurateRipError HttpResponse
get url = ok answer

abbrev url : Text
url = codes "https://www.accuraterip.com/accuraterip/4/3/9/dBAR-002-0000e934-00026e13-10181302.bin"

address : dbar_url parse_url get ids 2 ≡ ok url
unfolding dbar_url dbar_address decimal hex
address = refl

abbrev fetched : FetchedDbar
fetched = record { dbar = file; body = encode file }

fetch_dbar_evidence_iff_example :
    (fetch_dbar_evidence parse_url get ids 2 ≡ ok (some fetched))
    ↔ (Carries answer fetched × All (Requested 2 59700 159251 270013186) file.responses)
fetch_dbar_evidence_iff_example =
    fetch_dbar_evidence_iff ids 2 59700 159251 270013186 (omega arith) (omega arith) (omega arith)
      refl refl refl parse_url get url answer fetched address refl
