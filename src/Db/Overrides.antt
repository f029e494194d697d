-- ===== src/Db/Overrides.antt =====
-- phono-junk-db/src/overrides.rs: the grammar of `sub_path`.
pub mod Fields
pub mod Apply
pub mod Segments
pub mod RoundTrip
pub mod Columns
pub mod Refused
pub mod Frame
use phono_junk.Common.{
  ℕ, ◌+◌, ◌-◌, ◌^◌, Option, none, some, Bool, true, false, not, ◌&&◌, List, [], ◌∷◌, ◌++◌, length,
  take, drop, any, is_empty, leb, ◌==◌, if◌then◌else◌,
}
use phono_junk.Common.Outcome.{Outcome, ok, err, panic, ◌>>=◌, ◌>>◌, ok_or, fail_if}
use phono_junk.Common.Hex.{Text}
use phono_junk.Common.Decimal.{decimal, parse_unsigned}

-- The messages of `MalformedPath`, with the text that the source formats into them.
pub data PathMessage : Type 0 where
  empty_segment : PathMessage
  unmatched_close unterminated trailing_text missing_name non_numeric_index : Text → PathMessage

-- `&'static str` names of targets and of types
pub data TargetName : Type 0 where
  album_name release_name disc_name track_name : TargetName

pub data Expected : Type 0 where
  expected_u16 expected_u64 : Expected

pub data OverrideError : Type 0 where
  malformed_path : PathMessage → OverrideError
  unknown_segment : TargetName → Text → OverrideError
  index_out_of_range : Text → ℕ → ℕ → OverrideError
  unknown_field : TargetName → Text → OverrideError
  value_parse : Text → Expected → Text → OverrideError
  target_mismatch : TargetName → Text → OverrideError

pub data Segment : Type 0 where
  field : Text → Segment
  indexed : Text → ℕ → Segment

-- `usize::MAX`
abbrev pub usize_max : ℕ
usize_max = 2 ^ 64 - 1

-- `find` and `rfind` of a character
unfoldable pub find : ℕ → Text → Option ℕ
find c [] = none
find c (x ∷ xs) =
    let rest = find c xs in
    if x == c then some 0 else elim rest [ none ↦ none | some i ↦ some (i + 1) ]

unfoldable pub rfind : ℕ → Text → Option ℕ
rfind c [] = none
rfind c (x ∷ xs) = elim (rfind c xs) [
  | some i ↦ some (i + 1)
  | none ↦ if x == c then some 0 else none
]

-- `&s[start..end]`
unfoldable pub slice : Text → ℕ → ℕ → Outcome OverrideError Text
slice s start end =
    if leb start end && leb end (length s) then ok (take (end - start) (drop start s)) else panic

-- The case of a segment with a bracket at `open`.
unfoldable pub parse_indexed : Text → ℕ → Outcome OverrideError Segment
unfolding rfind slice
parse_indexed raw open_at = do
  close ← ok_or (rfind b']' raw) (malformed_path (unterminated raw))
  fail_if (not (close == length raw - 1)) (malformed_path (trailing_text raw))
  name ← slice raw 0 open_at
  idx_str ← slice raw (open_at + 1) close
  fail_if (is_empty name) (malformed_path (missing_name raw))
  index ← ok_or (parse_unsigned usize_max idx_str) (malformed_path (non_numeric_index raw))
  ok (indexed name index)

unfoldable pub parse_segment : Text → Outcome OverrideError Segment
unfolding find parse_indexed
parse_segment raw =
    if is_empty raw then err (malformed_path empty_segment) else elim (find b'[' raw) [
      | none ↦
          if any (λ c. c == b']') raw
          then err (malformed_path (unmatched_close raw))
          else ok (field raw)
      | some open_at ↦ parse_indexed raw open_at
    ]

-- `split('.')`: the first part and the others.
unfoldable pub split_dots : Text → Text × List Text
split_dots [] = ([], [])
split_dots (c ∷ cs) =
    let rest = split_dots cs in if c == b'.' then ([], rest.0 ∷ rest.1) else (c ∷ rest.0, rest.1)

-- `map(parse_segment).collect()` stops at the first error.
unfoldable pub parse_all : List Text → Outcome OverrideError (List Segment)
unfolding parse_segment
parse_all [] = ok []
parse_all (raw ∷ raws) = do
  segment ← parse_segment raw
  segments ← parse_all raws
  ok (segment ∷ segments)

unfoldable pub parse_sub_path : Option Text → Outcome OverrideError (List Segment)
unfolding split_dots parse_all
parse_sub_path none = ok []
parse_sub_path (some []) = ok []
parse_sub_path (some (c ∷ cs)) =
    let parts : Text × List Text = split_dots (c ∷ cs) in parse_all (parts.0 ∷ parts.1)

unfoldable pub segment_display : Segment → Text
segment_display (field f) = f
segment_display (indexed name index) = name ++ b'[' ∷ (decimal index ++ b']' ∷ [])

-- `map(…).collect().join(".")`
unfoldable pub render_path : List Segment → Text
unfolding segment_display
render_path [] = []
render_path (s ∷ []) = segment_display s
render_path (s ∷ t ∷ segments) = segment_display s ++ b'.' ∷ render_path (t ∷ segments)
