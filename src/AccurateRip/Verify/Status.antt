-- ===== src/AccurateRip/Verify/Status.antt =====
-- What `verify_track` of phono-junk-accuraterip/src/verify.rs reports.
use phono_junk.Common.{is_empty, ℕ, ◌≡◌, ◌≢◌, ◌↔◌, ◌⊎◌, refl, sym, Bool, false, ◌&&◌}
use phono_junk.Common.{List, [], ◌∷◌, arith}
use mathlib.Core.Path.{subst}
use phono_junk.Common.{some}
use phono_junk.Common.Int.{pos}
use phono_junk.Common.Outcome.{ok}
use phono_junk.AccurateRip.Crc.{TrackCrc}
use phono_junk.AccurateRip.Dbar.{ExpectedChecksum, DbarFile}
use phono_junk.AccurateRip.Dbar.Encode.{IsFile}
use phono_junk.AccurateRip.Dbar.Requests.{track_entries, entries_for_track-eq}
use phono_junk.AccurateRip.Verify.{
  TrackVerificationStatus, verified, no_data, ambiguous, CrcMatch, TrackVerification,
  collect_matches, track_status, verify_track,
}

-- Some entry has one of the two computed checksums.
abbrev pub AnyHit : TrackCrc → List (ℕ × ExpectedChecksum) → Type 0
AnyHit computed [] = ⊥
AnyHit computed ((pressing, entry) ∷ entries) =
    ((entry.checksum ≡ computed.v1) ⊎ (entry.checksum ≡ computed.v2)) ⊎ AnyHit computed entries

no_matches : TrackCrc → List (ℕ × ExpectedChecksum) → Bool
no_matches computed entries =
    let matches = collect_matches computed entries in is_empty matches.0 && is_empty matches.1

no_matches_iff :
    (computed : TrackCrc) (entries : List (ℕ × ExpectedChecksum))
    → (no_matches computed entries ≡ false) ↔ AnyHit computed entries
unfolding no_matches collect_matches
no_matches_iff computed [] = (λ h. cc h, λ h. absurd h)
no_matches_iff computed ((pressing, entry) ∷ entries) = (
  (λ h. ground (arith, (no_matches_iff computed entries).0)),
  (λ h. ground (arith, (no_matches_iff computed entries).1)),
)

track_status_cases :
    (a b : List CrcMatch) (entries : List (ℕ × ExpectedChecksum))
    → ((track_status a b entries ≡ verified) ↔ ((is_empty a && is_empty b) ≡ false))
      × ((track_status a b entries ≡ no_data) → entries ≡ [])
      × (track_status a b entries ≢ ambiguous)
unfolding track_status
track_status_cases [] [] [] = ((λ h. cc h, λ h. cc h), λ h. refl, λ h. cc h)
track_status_cases [] [] (e ∷ es) = ((λ h. cc h, λ h. cc h), λ h. cc h, λ h. cc h)
track_status_cases [] (m ∷ ms) es = ((λ h. refl, λ h. refl), λ h. cc h, λ h. cc h)
track_status_cases (m ∷ ms) b es = ((λ h. refl, λ h. refl), λ h. cc h, λ h. cc h)

nothing :
    (computed : TrackCrc)
    → track_status (collect_matches computed []).0 (collect_matches computed []).1 [] ≡ no_data
unfolding track_status collect_matches
nothing computed = refl

-- The status that a track's entries call for.
abbrev pub StatusOf : TrackCrc → List (ℕ × ExpectedChecksum) → TrackVerificationStatus → Type 0
StatusOf computed entries s =
    ((s ≡ verified) ↔ AnyHit computed entries) × ((s ≡ no_data) ↔ (entries ≡ [])) × (s ≢ ambiguous)

status_of :
    (computed : TrackCrc) (entries : List (ℕ × ExpectedChecksum))
    → StatusOf computed entries (
        track_status
          (collect_matches computed entries).0
          (collect_matches computed entries).1
          entries)
unfolding no_matches
status_of computed entries =
    let a = (collect_matches computed entries).0 in
    let b = (collect_matches computed entries).1 in
    let cases = track_status_cases a b entries in
    let hits = no_matches_iff computed entries in
    (
      (λ h. hits.0 (cases.0.0 h), λ h. cases.0.1 (hits.1 h)),
      (
        cases.1,
        λ h.
            subst
              (λ es.
                track_status (collect_matches computed es).0 (collect_matches computed es).1 es
                ≡ no_data)
              (sym h) (nothing computed),
      ),
      cases.2,
    )

-- On a well-formed file `verify_track` returns a verification. Its status is `verified` exactly when
-- some pressing's entry for the track has the computed v1 or v2 checksum, `no_data` exactly when no
-- pressing has an entry for it, and never `ambiguous`; it is about the given track, at shift 0.
pub verify_track_status :
    {E : Type 0} (dbar : DbarFile) (position : ℕ) (computed : TrackCrc)
    → IsFile dbar
    → (t : TrackVerification) × (verify_track {E = E} dbar position computed ≡ ok t)
      × StatusOf computed (track_entries 0 dbar.responses position) t.status
      × (t.position ≡ position)
      × (t.computed ≡ computed)
      × (t.sample_shift ≡ some (pos 0))
unfolding verify_track
verify_track_status {E} dbar position computed h =
    rw (entries_for_track-eq {E = E} dbar position h)
      (_, refl, status_of computed (track_entries 0 dbar.responses position), refl, refl, refl)
