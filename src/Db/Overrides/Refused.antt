-- ===== src/Db/Overrides/Refused.antt =====
-- The overrides that are refused.
use phono_junk.Common.{
  ℕ, zero, suc, ◌-◌, ◌<◌, ◌≤◌, ◌++◌, ◌≡◌, ◌⊎◌, inl, inr, refl, none, false, List, [], ◌∷◌, length,
  get_elem?, All, Bool-cases, ◌==◌, arith,
}
use phono_junk.Common.Outcome.{err}
use phono_junk.Common.Hex.{Text}
use phono_junk.Common.Decimal.{decimal}
use phono_junk.Common.Text.{codes, text_eq, text_eq_sound}
use phono_junk.Catalog.{Album, Release, Disc, Track}
use phono_junk.Db.Overrides.{
  album_name, release_name, disc_name, track_name, unknown_segment, index_out_of_range,
  unknown_field, target_mismatch, Segment, field, indexed, segment_display, render_path,
}
use phono_junk.Db.Overrides.Fields.{
  album_field, apply_flat_album, release_field, apply_flat_release, disc_field, apply_flat_disc,
  track_field, apply_flat_track, reject_nonempty,
}
use phono_junk.Db.Overrides.Apply.{
  on_album, on_release, on_disc, on_track, apply_nth_track, apply_disc, apply_override,
}

abbrev pub album_names : List Text
album_names =
    codes "title"
    ∷ codes "sort_title"
    ∷ codes "artist_credit"
    ∷ codes "year"
    ∷ codes "mbid"
    ∷ codes "primary_type"
    ∷ codes "first_release_date"
    ∷ []

abbrev pub release_names : List Text
release_names =
    codes "country"
    ∷ codes "date"
    ∷ codes "label"
    ∷ codes "catalog_number"
    ∷ codes "barcode"
    ∷ codes "mbid"
    ∷ codes "status"
    ∷ codes "language"
    ∷ codes "script"
    ∷ []

abbrev pub disc_names : List Text
disc_names =
    codes "format"
    ∷ codes "mb_discid"
    ∷ codes "cddb_id"
    ∷ codes "ar_discid1"
    ∷ codes "ar_discid2"
    ∷ []

abbrev pub track_names : List Text
track_names =
    codes "title"
    ∷ codes "artist_credit"
    ∷ codes "length_frames"
    ∷ codes "isrc"
    ∷ codes "mbid"
    ∷ codes "recording_mbid"
    ∷ []

-- A name stands in a list.
abbrev pub Named : Text → List Text → Type 0
Named name [] = ⊥
Named name (k ∷ names) = (name ≡ k) ⊎ Named name names

-- A name stands in a list, or the comparisons with the whole list fail.
named_or_not :
    (name : Text) (names : List Text)
    → Named name names ⊎ All (λ (k : Text). text_eq name k ≡ false) names
named_or_not name [] = inr tt
named_or_not name (k ∷ names) = elim (Bool-cases (text_eq name k)) [
  | inl same ↦ inl (inl (text_eq_sound name k same))
  | inr other ↦ elim (named_or_not name names) [
    | inl later ↦ inl (inr later)
    | inr rest ↦ inr (other, rest)
  ]
]

present_or_not : (ts : List Track) (k : ℕ) → (k < length ts) ⊎ (get_elem? ts k ≡ none)
present_or_not [] k = inr refl
present_or_not (t ∷ ts) zero = inl (omega arith)
present_or_not (t ∷ ts) (suc k) = elim (present_or_not ts k) [
  | inl inside ↦ inl (omega (arith, inside))
  | inr absent ↦ inr absent
]

-- A field of a row that its table does not name is refused as unknown, whatever the value.
module _ (tracks : List Track) (name value : Text) where
  unknown_album :
      (a : Album)
      → Named name album_names
        ⊎ (apply_override (on_album a) [] name value ≡ err (unknown_field album_name name))
  unfolding apply_override apply_flat_album album_field reject_nonempty
  unknown_album a = elim (named_or_not name album_names) [
    | inl known ↦ inl known
    | inr (h0, (h1, (h2, (h3, (h4, (h5, (h6, u))))))) ↦
        inr (rw h0 (rw h1 (rw h2 (rw h3 (rw h4 (rw h5 (rw h6 refl)))))))
  ]

  unknown_release :
      (r : Release)
      → Named name release_names
        ⊎ (apply_override (on_release r) [] name value ≡ err (unknown_field release_name name))
  unfolding apply_override apply_flat_release release_field reject_nonempty
  unknown_release r = elim (named_or_not name release_names) [
    | inl known ↦ inl known
    | inr (h0, (h1, (h2, (h3, (h4, (h5, (h6, (h7, (h8, u))))))))) ↦
        inr (rw h0 (rw h1 (rw h2 (rw h3 (rw h4 (rw h5 (rw h6 (rw h7 (rw h8 refl)))))))))
  ]

  unknown_disc :
      (d : Disc)
      → Named name disc_names
        ⊎ (apply_override (on_disc d tracks) [] name value ≡ err (unknown_field disc_name name))
  unfolding apply_override apply_disc apply_flat_disc disc_field
  unknown_disc d = elim (named_or_not name disc_names) [
    | inl known ↦ inl known
    | inr (h0, (h1, (h2, (h3, (h4, u))))) ↦ inr (rw h0 (rw h1 (rw h2 (rw h3 (rw h4 refl)))))
  ]

  unknown_track :
      (t : Track)
      → Named name track_names
        ⊎ (apply_override (on_track t) [] name value ≡ err (unknown_field track_name name))
  unfolding apply_override apply_flat_track track_field reject_nonempty
  unknown_track t = elim (named_or_not name track_names) [
    | inl known ↦ inl known
    | inr (h0, (h1, (h2, (h3, (h4, (h5, u)))))) ↦
        inr (rw h0 (rw h1 (rw h2 (rw h3 (rw h4 (rw h5 refl))))))
  ]

  -- An index of a track that is not there is refused.
  nth_track_refused :
      (d : Disc) (rest : List Segment) (index : ℕ)
      → ((0 < index) × (index ≤ length tracks))
        ⊎ (apply_override (on_disc d tracks) (indexed (codes "track") index ∷ rest) name value
            ≡ err (
                index_out_of_range
                  (codes "track[" ++ decimal index ++ b']' ∷ [])
                  index
                  (length tracks)))
  unfolding apply_override apply_disc apply_nth_track segment_display
  nth_track_refused d rest zero = inr refl
  nth_track_refused d rest (suc k) =
      let some_index : (suc k == 0) ≡ false = ground arith in
      let back : suc k - 1 ≡ k = omega arith in
      elim (present_or_not tracks k) [
        | inl inside ↦ inl (omega arith, omega (arith, inside))
        | inr absent ↦ inr (rw some_index (rw back (rw absent refl)))
      ]

  other_segment_refused :
      (d : Disc) (rest : List Segment) (segment : Text) (index : ℕ)
      → (segment ≡ codes "track")
        ⊎ (apply_override (on_disc d tracks) (indexed segment index ∷ rest) name value
            ≡ err (unknown_segment disc_name (segment ++ b'[' ∷ (decimal index ++ b']' ∷ []))))
  unfolding apply_override apply_disc segment_display
  other_segment_refused d rest segment index = elim (Bool-cases (text_eq segment (codes "track"))) [
    | inl same ↦ inl (text_eq_sound segment (codes "track") same)
    | inr other ↦ inr (rw other refl)
  ]

-- Whatever the rows, the field and the value: a path that is not empty is refused on an album, a release
-- and a track with the path; a field that is none of those of the row, on each of the four rows
-- with no path, as unknown; and on a disc a path whose first segment is not indexed, or is of
-- another name than `track`, with that segment, and one whose index is not the 1-based number of
-- a track with the index and the number of tracks.
pub apply_override_refused :
    (a : Album) (r : Release) (d : Disc) (tracks : List Track) (t : Track) (s : Segment)
    (rest : List Segment) (name value segment : Text) (index : ℕ)
    → (apply_override (on_album a) (s ∷ rest) name value
        ≡ err (target_mismatch album_name (render_path (s ∷ rest))))
      × (apply_override (on_release r) (s ∷ rest) name value
          ≡ err (target_mismatch release_name (render_path (s ∷ rest))))
      × (apply_override (on_track t) (s ∷ rest) name value
          ≡ err (target_mismatch track_name (render_path (s ∷ rest))))
      × (Named name album_names
          ⊎ (apply_override (on_album a) [] name value ≡ err (unknown_field album_name name)))
      × (Named name release_names
          ⊎ (apply_override (on_release r) [] name value ≡ err (unknown_field release_name name)))
      × (Named name disc_names
          ⊎ (apply_override (on_disc d tracks) [] name value ≡ err (unknown_field disc_name name)))
      × (Named name track_names
          ⊎ (apply_override (on_track t) [] name value ≡ err (unknown_field track_name name)))
      × (apply_override (on_disc d tracks) (field segment ∷ rest) name value
          ≡ err (unknown_segment disc_name segment))
      × ((segment ≡ codes "track")
          ⊎ (apply_override (on_disc d tracks) (indexed segment index ∷ rest) name value
              ≡ err (unknown_segment disc_name (segment ++ b'[' ∷ (decimal index ++ b']' ∷ [])))))
      × (((0 < index) × (index ≤ length tracks))
          ⊎ (apply_override (on_disc d tracks) (indexed (codes "track") index ∷ rest) name value
              ≡ err (
                  index_out_of_range
                    (codes "track[" ++ decimal index ++ b']' ∷ [])
                    index
                    (length tracks))))
unfolding apply_override apply_disc apply_flat_album apply_flat_release apply_flat_track
    reject_nonempty segment_display
apply_override_refused a r d tracks t s rest name value segment index = (
  refl,
  refl,
  refl,
  unknown_album tracks name value a,
  unknown_release tracks name value r,
  unknown_disc tracks name value d,
  unknown_track tracks name value t,
  refl,
  other_segment_refused tracks name value d rest segment index,
  nth_track_refused tracks name value d rest index,
)
