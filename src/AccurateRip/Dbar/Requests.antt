-- ===== src/AccurateRip/Dbar/Requests.antt =====
-- `validate_request` and `entries_for_track` of phono-junk-accuraterip/src/dbar.rs.
use phono_junk.Common.{
  ℕ, zero, suc, ◌+◌, ◌-◌, ◌≤◌, ◌<◌, ◌≡◌, ◌↔◌, refl, Bool, false, not, ◌||◌, Option, none, some,
}
use phono_junk.Common.{
  List, [], ◌∷◌, length, get_elem?, get_elem?-lt, All, arith, ◌==◌, le_or_lt, lt→ltb, le→ltb_false,
  inl, inr,
}
use phono_junk.Common.Outcome.{ok, fail_if-eq-ok}
use phono_junk.AccurateRip.Dbar.{
  ExpectedChecksum, DbarResponse, DbarFile, validate_loop, validate_request, entries_from,
  entries_for_track,
}
use phono_junk.AccurateRip.Dbar.Encode.{IsResponse, IsFile}

-- The response's header is that of the request.
abbrev pub Requested : ℕ → ℕ → ℕ → ℕ → DbarResponse → Type 0
Requested track_count id1 id2 cddb r =
    (r.track_count ≡ track_count) × (r.ar_id1 ≡ id1) × (r.ar_id2 ≡ id2) × (r.cddb_id ≡ cddb)

differs : DbarResponse → ℕ → ℕ → ℕ → ℕ → Bool
differs r track_count id1 id2 cddb =
    not (r.track_count == track_count)
    || not (r.ar_id1 == id1)
    || not (r.ar_id2 == id2)
    || not (r.cddb_id == cddb)

differs_iff :
    (r : DbarResponse) (tc id1 id2 cddb : ℕ)
    → (differs r tc id1 id2 cddb ≡ false) ↔ Requested tc id1 id2 cddb r
unfolding differs
differs_iff r tc id1 id2 cddb = (λ h. ground arith, λ h. ground arith)

validate_loop_iff :
    (index : ℕ) (rs : List DbarResponse) (tc id1 id2 cddb : ℕ)
    → (validate_loop index rs tc id1 id2 cddb ≡ ok tt) ↔ All (Requested tc id1 id2 cddb) rs
unfolding validate_loop differs
validate_loop_iff index [] tc id1 id2 cddb = (λ h. tt, λ h. refl)
validate_loop_iff index (r ∷ rs) tc id1 id2 cddb = (
  (λ h.
      let (same, rest) = fail_if-eq-ok (differs r tc id1 id2 cddb) _ _ h in
      (
        (differs_iff r tc id1 id2 cddb).0 same,
        (validate_loop_iff (index + 1) rs tc id1 id2 cddb).0 rest,
      )),
  (λ h.
      rw ((differs_iff r tc id1 id2 cddb).1 h.0, differs)
        ((validate_loop_iff (index + 1) rs tc id1 id2 cddb).1 h.1)),
)

-- `validate_request` accepts a file exactly when every response in it carries the requested track
-- count and the three requested IDs.
pub validate_request_iff :
    (file : DbarFile) (track_count id1 id2 cddb : ℕ)
    → (validate_request file track_count id1 id2 cddb ≡ ok tt)
      ↔ All (Requested track_count id1 id2 cddb) file.responses
unfolding validate_request
validate_request_iff file = validate_loop_iff 0 file.responses

-- What a response holds for a track, numbered from 1.
abbrev pub entry_at : DbarResponse → ℕ → Option ExpectedChecksum
entry_at r zero = none
entry_at r (suc index) = get_elem? r.tracks index

abbrev pub track_entries : ℕ → List DbarResponse → ℕ → List (ℕ × ExpectedChecksum)
track_entries i [] position = []
track_entries i (r ∷ rs) position = elim (entry_at r position) [
  | none ↦ track_entries (i + 1) rs position
  | some entry ↦ (i, entry) ∷ track_entries (i + 1) rs position
]

get_elem?-past : {A : Type 0} (xs : List A) (k : ℕ) → length xs ≤ k → get_elem? xs k ≡ none
get_elem?-past [] k h = refl
get_elem?-past (x ∷ xs) zero h = absurd (omega arith)
get_elem?-past (x ∷ xs) (suc k) h = get_elem?-past xs k (omega arith)

suc-ne-zero : (n : ℕ) → (suc n == 0) ≡ false
suc-ne-zero n = ground arith

entries_from-eq :
    {E : Type 0} (i : ℕ) (rs : List DbarResponse) (position : ℕ)
    → All IsResponse rs
    → entries_from {E = E} i rs position ≡ ok (track_entries i rs position)
unfolding entries_from
entries_from-eq i [] position h = refl
entries_from-eq i (r ∷ rs) zero h = entries_from-eq (i + 1) rs zero h.1
entries_from-eq {E} i (r ∷ rs) (suc index) h = elim (le_or_lt (length r.tracks) index) [
  | inl past ↦
      let beyond : r.track_count < suc index = omega (arith, (h.0).count) in
      rw (suc-ne-zero index) (
        rw (lt→ltb r.track_count (suc index) beyond) (
          rw (get_elem?-past r.tracks index past, track_entries)
            (entries_from-eq (i + 1) rs (suc index) h.1)))
  | inr inside ↦
      let (entry, at) = get_elem?-lt r.tracks index inside in
      let within : suc index ≤ r.track_count = omega (arith, (h.0).count) in
      let index_back : suc index - 1 ≡ index = omega arith in
      rw (suc-ne-zero index) (
        rw (le→ltb_false r.track_count (suc index) within) (
          rw index_back (
            rw at
              (rw (at, track_entries) (rw (entries_from-eq {E = E} (i + 1) rs (suc index) h.1))))))
]

-- On a well-formed file `entries_for_track` reads nothing out of range, and yields for each response
-- that has the track its number in the file and its entry; a position of 0 or past the response's
-- tracks yields nothing for it.
pub entries_for_track-eq :
    {E : Type 0} (file : DbarFile) (position : ℕ)
    → IsFile file
    → entries_for_track {E = E} file position ≡ ok (track_entries 0 file.responses position)
unfolding entries_for_track
entries_for_track-eq file position h = entries_from-eq 0 file.responses position h
