-- ===== src/Examples/Extract.antt =====
-- Concrete names.
use phono_junk.Common.{◌≡◌, ◌↔◌, refl, none, some, [], ◌∷◌}
use phono_junk.Common.Int.{pos}
use phono_junk.Common.Text.{codes}
use phono_junk.Common.Decimal.{decimal}
use phono_junk.Catalog.{Album}
use phono_junk.Extract.{
  is_whitespace, is_illegal, replaced, collapse, trim_start, trim_end, sanitize_path_component,
  album_folder_name, album_artist_component, plan_disc_directory,
}
use phono_junk.Extract.Component.{IsComponent, sanitize_path_component-IsComponent}

sanitize_path_component-IsComponent_example :
    IsComponent (sanitize_path_component (codes ".AC/DC  live. "))
    × ((sanitize_path_component (codes ".AC/DC  live. ") ≡ codes ".AC/DC  live. ")
        ↔ IsComponent (codes ".AC/DC  live. "))
sanitize_path_component-IsComponent_example =
    sanitize_path_component-IsComponent (codes ".AC/DC  live. ")

sanitized_name : sanitize_path_component (codes ".AC/DC  live. ") ≡ codes "AC_DC live"
unfolding sanitize_path_component collapse replaced is_whitespace is_illegal trim_start trim_end
sanitized_name = refl

abbrev album : Album
album = record {
  id = pos 1;
  title = codes "What?";
  sort_title = none;
  artist_credit = some (codes "A");
  year = some 1999;
  mbid = none;
  primary_type = none;
  secondary_types = [];
  first_release_date = none;
}

second_disc :
    plan_disc_directory (codes "lib" ∷ []) album 2 2 none
    ≡ codes "lib" ∷ codes "A" ∷ codes "What_ (1999)" ∷ codes "Disc 2" ∷ []
unfolding plan_disc_directory album_folder_name album_artist_component sanitize_path_component
    collapse replaced is_whitespace is_illegal trim_start trim_end decimal
second_disc = refl
