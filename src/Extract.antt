-- ===== src/Extract.antt =====
-- phono-junk-extract/src/paths.rs: the names of the files that an extraction writes. A text is its code
-- points, and a path the root and its components: no component that is joined has a separator.
pub mod Clean
pub mod Permitted
pub mod Component
pub mod Trim
use phono_junk.Common.{
  ℕ, zero, suc, ◌+◌, Option, none, some, List, [], ◌∷◌, ◌++◌, map, length, is_empty, Bool, true,
  false, not, ◌&&◌, ◌||◌, ltb, leb, ◌==◌, if◌then◌else◌,
}
use phono_junk.Common.Hex.{Text}
use phono_junk.Common.Text.{codes}
use phono_junk.Common.Decimal.{decimal}
use phono_junk.Catalog.{Album, Track}

-- `char::is_whitespace`
unfoldable pub is_whitespace : ℕ → Bool
is_whitespace c =
    (leb 9 c && leb c 13)
    || c == 32
    || c == 133
    || c == 160
    || c == 5760
    || (leb 8192 c && leb c 8202)
    || c == 8232
    || c == 8233
    || c == 8239
    || c == 8287
    || c == 12288

unfoldable pub is_illegal : ℕ → Bool
is_illegal c =
    c == b'/'
    || c == b'\\'
    || c == b':'
    || c == b'*'
    || c == b'?'
    || c == b'"'
    || c == b'<'
    || c == b'>'
    || c == b'|'
    || c == 0

-- The two `match` arms that replace a character.
unfoldable pub replaced : ℕ → ℕ
unfolding is_illegal
replaced c = if is_illegal c || ltb c 32 then b'_' else c

-- The loop of `sanitize_path_component`, from `last_was_space` on.
unfoldable pub collapse : Bool → Text → Text
unfolding is_whitespace replaced
collapse last_was_space [] = []
collapse last_was_space (c ∷ cs) =
    let rest = collapse (is_whitespace c) cs in
    if is_whitespace c then (if last_was_space then rest else b' ' ∷ rest) else replaced c ∷ rest

abbrev pub is_trimmed : ℕ → Bool
is_trimmed c = c == b'.' || is_whitespace c

-- `trim_matches`, at the start and at the end.
unfoldable pub trim_start : Text → Text
trim_start [] = []
trim_start (c ∷ cs) = let rest = trim_start cs in if is_trimmed c then rest else c ∷ cs

unfoldable pub trim_end : Text → Text
trim_end [] = []
trim_end (c ∷ cs) = let rest = trim_end cs in if is_empty rest && is_trimmed c then [] else c ∷ rest

abbrev pub or_unknown : Text → Text
or_unknown [] = codes "Unknown"
or_unknown (c ∷ cs) = c ∷ cs

unfoldable pub sanitize_path_component : Text → Text
unfolding collapse trim_start trim_end
sanitize_path_component s = or_unknown (trim_end (trim_start (collapse false s)))

unfoldable pub album_folder_name : Album → Text
unfolding sanitize_path_component
album_folder_name album =
    let title = sanitize_path_component album.title in
    elim album.year [ none ↦ title | some y ↦ title ++ codes " (" ++ decimal y ++ codes ")" ]

unfoldable pub album_artist_component : Option Text → Text
unfolding sanitize_path_component
album_artist_component none = sanitize_path_component (codes "Unknown Artist")
album_artist_component (some artist) = sanitize_path_component artist

-- `{:02}`
abbrev pub two_digits : ℕ → Text
two_digits n = if ltb n 10 then b'0' ∷ decimal n else decimal n

unfoldable pub track_file_name : Track → Text
unfolding sanitize_path_component
track_file_name track =
    let title : Text = elim track.title [
      | none ↦ codes "Unknown Track"
      | some title ↦ sanitize_path_component title
    ] in
    two_digits track.position ++ codes " - " ++ title ++ codes ".flac"

abbrev pub FilePath : Type 0
FilePath = List Text

abbrev pub or_else : Option Text → Option Text → Option Text
or_else (some a) other = some a
or_else none other = other

unfoldable pub plan_disc_directory : FilePath → Album → ℕ → ℕ → Option Text → FilePath
unfolding album_folder_name album_artist_component
plan_disc_directory library_root album disc_number total_discs album_artist_override =
    let artist_dir = album_artist_component (or_else album_artist_override album.artist_credit) in
    let base : FilePath = library_root ++ artist_dir ∷ album_folder_name album ∷ [] in
    if ltb 1 total_discs
    then base ++ sanitize_path_component (codes "Disc " ++ decimal disc_number) ∷ []
    else base

unfoldable pub plan_output_paths :
    FilePath → Album → ℕ → ℕ → List Track → Option Text → List FilePath
unfolding plan_disc_directory track_file_name
plan_output_paths library_root album disc_number total_discs tracks album_artist_override =
    let disc_dir =
      plan_disc_directory library_root album disc_number total_discs album_artist_override in
    map (λ t. disc_dir ++ track_file_name t ∷ []) tracks
