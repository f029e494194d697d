-- ===== src/Scan/Path.antt =====
-- `classify_path` of phono-junk-lib/src/scan.rs, with `Path::extension` on the bytes of a path.
use phono_junk.Common.{
  Option, none, some, List, [], ◌∷◌, ◌==◌, ◌||◌, is_empty, keep_if, not, if◌then◌else◌, get_last?,
}
use phono_junk.Common.Hex.{Text}
use phono_junk.Common.Text.{codes, text_eq}
use phono_junk.Catalog.Stored.{lower}
use phono_junk.Scan.{ScanKind, cue, chd}
use mathlib.Core.List.{map}

-- The text up to the first slash, and the parts after it.
unfoldable pub split_slashes : Text → Text × List Text
split_slashes [] = ([], [])
split_slashes (c ∷ cs) =
    let (part, parts) = split_slashes cs in
    if c == b'/' then ([], part ∷ parts) else (c ∷ part, parts)

-- `Path::components` passes over empty parts, and over `.` behind the first part.
unfoldable pub components : Text → List Text
unfolding split_slashes
components path =
    let (part, parts) = split_slashes path in
    keep_if (λ p. not (is_empty p)) (part ∷ keep_if (λ p. not (text_eq p (codes "."))) parts)

-- `Path::file_name`
unfoldable pub file_name : Text → Option Text
unfolding components
file_name path = elim (get_last? (components path)) [
  | none ↦ none
  | some part ↦ if text_eq part (codes "..") || text_eq part (codes ".") then none else some part
]

-- What follows the last dot.
unfoldable pub after_last_dot : Text → Option Text
after_last_dot [] = none
after_last_dot (c ∷ cs) = elim (after_last_dot cs) [
  | some extension ↦ some extension
  | none ↦ if c == b'.' then some cs else none
]

-- `Path::extension`: the last dot of the name counts, but not one that the name starts with.
unfoldable pub extension : Text → Option Text
unfolding file_name after_last_dot
extension path = elim (file_name path) [
  | none ↦ none
  | some [] ↦ none
  | some (c ∷ cs) ↦ after_last_dot cs
]

unfoldable pub classify_path : Text → Option ScanKind
unfolding extension
classify_path path = elim (extension path) [
  | none ↦ none
  | some extension ↦
      let ext = map lower extension in
      if text_eq ext (codes "cue")
      then some cue
      else if text_eq ext (codes "chd")
      then some chd
      else none
]
