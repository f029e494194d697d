-- ===== src/AccurateRip/Error.antt =====
-- phono-junk-accuraterip/src/error.rs: a message is a constructor for the place that makes it, with
-- what the source formats into it.
use phono_junk.Common.{ℕ, List}
use phono_junk.Common.Hex.{Text}

pub data IdName : Type 0 where
  ar_discid1 ar_discid2 cddb_id : IdName

pub data ParseMessage : Type 0 where
  truncated_header : ℕ → ℕ → ParseMessage
  truncated_entries : ℕ → ℕ → ℕ → ℕ → ParseMessage
  header_mismatch : ℕ → List ℕ → List ℕ → ParseMessage
  id1_too_short : Text → ParseMessage
  invalid_url : ParseMessage
  http_status : ℕ → ParseMessage
  invalid_hexadecimal : IdName → Text → ParseMessage

-- An `HttpError` is only passed on, and is named by a number.
pub data AccurateRipError : Type 0 where
  missing_id : IdName → AccurateRipError
  http : ℕ → AccurateRipError
  parse_failed : ParseMessage → AccurateRipError
