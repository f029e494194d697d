-- ===== src/Toc/DiscId/MusicBrainz.antt =====
-- `musicbrainz_discid` of phono-junk-toc/src/discid.rs: the text that is digested.
use mathlib.Core.Option.{get_or}
use phono_junk.Common.{
  ℕ, zero, suc, ◌+◌, ◌-◌, ◌*◌, ◌%◌, ◌^◌, ◌≤◌, ◌<◌, ◌≡◌, ◌≢◌, sym, ◌∙◌, ap, true, false, some,
}
use phono_junk.Common.{
  List, [], ◌∷◌, ◌++◌, map, length, length-append, length-map, get_elem?, All, arith,
}
use phono_junk.Common.{
  append-injective, get_elem?-ext, get_elem?-lt, le→leb, lt→ltb, if◌then◌else◌, Bool,
}
use phono_junk.Common.Hex.{Text, hex, length-hex, hex-injective}
use phono_junk.Toc.{Toc}
use phono_junk.Toc.DiscId.{
  url_safe, offset_of_track, offset_fields, discid_string, musicbrainz_discid,
}

-- A TOC as a CD has it: tracks numbered without a gap between 1 and 99, sectors of 32 bits.
pub record IsDisc (toc : Toc) : Type 0 where
  pub from_one : 1 ≤ toc.first_track
  pub to_99 : toc.last_track ≤ 99
  pub consecutive : toc.first_track + length toc.track_offsets ≡ toc.last_track + 1
  pub leadout_fits : toc.leadout_sector < 2 ^ 32
  pub offsets_fit : All (λ o. o < 2 ^ 32) toc.track_offsets

length-offset_fields : (toc : Toc) (left i : ℕ) → length (offset_fields toc left i) ≡ 8 * left
unfolding offset_fields
length-offset_fields toc zero i = omega arith
length-offset_fields toc (suc left) i = omega (
  arith,
  length-append (hex true 8 (offset_of_track toc i)) (offset_fields toc left (i + 1)),
  length-hex true 8 (offset_of_track toc i),
  length-offset_fields toc left (i + 1),
)

-- The digested text has 804 characters, for every TOC.
pub length-discid_string : (toc : Toc) → length (discid_string toc) ≡ 804
unfolding discid_string
length-discid_string toc =
    let fields = offset_fields toc 99 1 in
    let leadout = hex true 8 toc.leadout_sector in
    omega (
      arith,
      length-append (hex true 2 toc.first_track) (hex true 2 toc.last_track ++ (leadout ++ fields)),
      length-append (hex true 2 toc.last_track) (leadout ++ fields),
      length-append leadout fields,
      length-hex true 2 toc.first_track,
      length-hex true 2 toc.last_track,
      length-hex true 8 toc.leadout_sector,
      length-offset_fields toc 99 1,
    )

-- On a disc's TOC the field of a track is its offset.
offset_of_track-at :
    (toc : Toc)
    → IsDisc toc
    → (k : ℕ) → k < length toc.track_offsets
    → some (offset_of_track toc (toc.first_track + k)) ≡ get_elem? toc.track_offsets k
unfolding offset_of_track
offset_of_track-at toc d k h =
    let (o, at) = get_elem?-lt toc.track_offsets k h in
    let to_99 : toc.last_track ≤ 99 = d.to_99 in
    let consecutive : toc.first_track + length toc.track_offsets ≡ toc.last_track + 1 =
      d.consecutive in
    let idx : (toc.first_track + k + 256 - toc.first_track) % 256 ≡ k = omega arith in
    rw idx (
      rw (le→leb toc.first_track (toc.first_track + k) (omega arith)) (
        rw (le→leb (toc.first_track + k) toc.last_track (omega arith))
          (rw (lt→ltb k (length toc.track_offsets) h) (rw at))))

offset-lt :
    (offsets : List ℕ) (idx : ℕ)
    → All (λ o. o < 2 ^ 32) offsets
    → get_or (get_elem? offsets idx) 0 < 2 ^ 32
offset-lt [] idx h = omega arith
offset-lt (o ∷ os) zero h = h.0
offset-lt (o ∷ os) (suc idx) h = offset-lt os idx h.1

guarded-lt :
    (b : Bool) (offsets : List ℕ) (idx : ℕ)
    → All (λ o. o < 2 ^ 32) offsets
    → (if b then get_or (get_elem? offsets idx) 0 else 0) < 2 ^ 32
guarded-lt true offsets idx h = offset-lt offsets idx h
guarded-lt false offsets idx h = omega arith

offset_of_track-lt : (toc : Toc) → IsDisc toc → (i : ℕ) → offset_of_track toc i < 2 ^ 32
unfolding offset_of_track
offset_of_track-lt toc d i = guarded-lt _ toc.track_offsets _ d.offsets_fit

module _ (a b : Toc) (da : IsDisc a) (db : IsDisc b) where
  offset_fields-step :
      (left i : ℕ)
      → offset_fields a (suc left) i ≡ offset_fields b (suc left) i
      → (offset_of_track a i ≡ offset_of_track b i)
        × (offset_fields a left (i + 1) ≡ offset_fields b left (i + 1))
  unfolding offset_fields
  offset_fields-step left i e =
      let (fields, rest) =
        append-injective (hex true 8 (offset_of_track a i)) (hex true 8 (offset_of_track b i))
          (offset_fields a left (i + 1)) (offset_fields b left (i + 1))
          (length-hex true 8 (offset_of_track a i) ∙ sym (length-hex true 8 (offset_of_track b i)))
          e in
      let fa = offset_of_track-lt a da i in
      let fb = offset_of_track-lt b db i in
      (hex-injective true 8 _ _ (omega arith) (omega arith) fa fb fields, rest)

  offset_fields-injective :
      (left i k : ℕ)
      → k < left
      → offset_fields a left i ≡ offset_fields b left i
      → offset_of_track a (i + k) ≡ offset_of_track b (i + k)
  offset_fields-injective zero i k h e = elim h [ ]
  offset_fields-injective (suc left) i zero h e =
      let here : i + 0 ≡ i = omega arith in rw here ((offset_fields-step left i e).0)
  offset_fields-injective (suc left) i (suc k) h e =
      let there : i + suc k ≡ i + 1 + k = omega arith in
      rw there
        (offset_fields-injective left (i + 1) k (omega arith) ((offset_fields-step left i e).1))

  heads :
      discid_string a ≡ discid_string b
      → (a.first_track ≡ b.first_track)
        × (a.last_track ≡ b.last_track)
        × (a.leadout_sector ≡ b.leadout_sector)
        × (offset_fields a 99 1 ≡ offset_fields b 99 1)
  unfolding discid_string
  heads e =
      let (firsts, e1) =
        append-injective (hex true 2 a.first_track) (hex true 2 b.first_track) _ _
          (length-hex true 2 a.first_track ∙ sym (length-hex true 2 b.first_track)) e in
      let (lasts, e2) =
        append-injective (hex true 2 a.last_track) (hex true 2 b.last_track) _ _
          (length-hex true 2 a.last_track ∙ sym (length-hex true 2 b.last_track)) e1 in
      let (leadouts, e3) =
        append-injective (hex true 8 a.leadout_sector) (hex true 8 b.leadout_sector) _ _
          (length-hex true 8 a.leadout_sector ∙ sym (length-hex true 8 b.leadout_sector)) e2 in
      (
        hex-injective true 2 a.first_track b.first_track (omega arith) (omega arith) (omega arith)
            (omega arith) firsts,
        hex-injective true 2 a.last_track b.last_track (omega arith) (omega arith) (omega arith)
            (omega arith) lasts,
        hex-injective true 8 a.leadout_sector b.leadout_sector (omega arith) (omega arith)
            (omega arith) (omega arith) leadouts,
        e3,
      )

  same_field :
      (k : ℕ)
      → k < length a.track_offsets
      → offset_fields a 99 1 ≡ offset_fields b 99 1
      → offset_of_track a (a.first_track + k) ≡ offset_of_track b (a.first_track + k)
  same_field k h e =
      let consecutive : a.first_track + length a.track_offsets ≡ a.last_track + 1 =
        da.consecutive in
      let place : a.first_track + k ≡ 1 + (a.first_track - 1 + k) = omega arith in
      rw place (offset_fields-injective 99 1 (a.first_track - 1 + k) (omega arith) e)

  -- The digested text determines the TOC of a disc: two discs whose texts agree have the same
  -- track numbers, lead-out and offsets.
  pub discid_string-injective : discid_string a ≡ discid_string b → a ≡ b
  discid_string-injective e =
      let (first, last, leadout, fields) = heads e in
      let same_length : length a.track_offsets ≡ length b.track_offsets =
        omega (arith, da.consecutive, db.consecutive) in
      let offsets : a.track_offsets ≡ b.track_offsets =
        get_elem?-ext a.track_offsets b.track_offsets same_length λ k h.
          sym (offset_of_track-at a da k h)
          ∙ ap some (same_field k h fields)
          ∙ ap (λ (n : ℕ). some (offset_of_track b (n + k))) first
          ∙ offset_of_track-at b db k (omega arith) in
      λ i. record {
        first_track = first i;
        last_track = last i;
        leadout_sector = leadout i;
        track_offsets = offsets i;
      }

url_safe_char : (c : ℕ) → (url_safe c ≢ b'+') × (url_safe c ≢ b'/') × (url_safe c ≢ b'=')
unfolding url_safe
url_safe_char c = ground arith

all_safe : (text : Text) → All (λ c. (c ≢ b'+') × (c ≢ b'/') × (c ≢ b'=')) (map url_safe text)
all_safe [] = tt
all_safe (c ∷ cs) = (url_safe_char c, all_safe cs)

-- The MusicBrainz ID holds none of `+`, `/` and `=`, and is as long as the base64 text of the
-- digest, whatever that is.
pub musicbrainz_discid_url_safe :
    (sha1_base64 : Text → Text) (toc : Toc)
    → All (λ c. (c ≢ b'+') × (c ≢ b'/') × (c ≢ b'=')) (musicbrainz_discid sha1_base64 toc)
      × (length (musicbrainz_discid sha1_base64 toc) ≡ length (sha1_base64 (discid_string toc)))
unfolding musicbrainz_discid
musicbrainz_discid_url_safe sha1_base64 toc = (
  all_safe (sha1_base64 (discid_string toc)),
  length-map (sha1_base64 (discid_string toc)) url_safe,
)
