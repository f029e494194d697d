-- ===== src/Scan/Settled.antt =====
-- `identify_one` leaves a row in the state that its result calls for.
use phono_junk.Common.{◌≡◌, ◌⊎◌, ◌∙◌, inl, inr, refl, some, Bool, true, false, Bool-cases}
use phono_junk.Common.Int.{ℤ}
use phono_junk.Common.Outcome.{Outcome, ok, err, panic}
use phono_junk.Common.Action.{◌>>◌, continue_with, caught, lift, map_err}
use phono_junk.Common.Hex.{Text}
use phono_junk.Catalog.{IdentificationState, working, identified, unidentified, failed}
use phono_junk.Scan.{ScanKind, ScanError, IdentifiedDisc, db}
use phono_junk.Scan.Path.{classify_path}
use phono_junk.Scan.Identify.{
  Backend, RipPaths, first_of, identify_work, state_after, identify_at, identify_one,
}

-- The database keeps the states of rows, and writes of them succeed.
abbrev pub Keeps : {W X S : Type 0} → Backend W X S → (W → ℤ → IdentificationState) → Type 0
Keeps {W = W} b state_of =
    (id : ℤ) (state : IdentificationState) (w : W)
    → (v : W) × (b.set_rip_file_identification_state id state w ≡ (ok tt, v))
      × (state_of v id ≡ state)

module _ {W X S : Type 0} (b : Backend W X S) (state_of : W → ℤ → IdentificationState)
    (keeps : Keeps b state_of) where
  -- The state for a result.
  abbrev pub Final : Outcome (ScanError X) IdentifiedDisc → IdentificationState → Type 0
  Final (ok disc) state =
      ((disc.identified ≡ true) × (state ≡ identified))
      ⊎ ((disc.identified ≡ false) × (state ≡ unidentified))
  Final (err e) state = state ≡ failed
  Final panic state = ⊥

  Final-state_after :
      (o : Outcome (ScanError X) IdentifiedDisc) (state : IdentificationState)
      → state ≡ state_after b o
      → (o ≡ panic) ⊎ Final o state
  unfolding state_after
  Final-state_after (ok disc) state e = elim (Bool-cases disc.identified) [
    | inl known ↦ inr (inl (known, e ∙ rw known refl))
    | inr unknown ↦ inr (inr (unknown, e ∙ rw unknown refl))
  ]
  Final-state_after (err x) state e = inr e
  Final-state_after panic state e = inl refl

  -- A result that some work gave, and the row in the state for it.
  abbrev Settled :
      ℤ → Outcome (ScanError X) IdentifiedDisc → Outcome (ScanError X) IdentifiedDisc × W → Type 0
  Settled id work r = (r.0 ≡ work) × ((r.0 ≡ panic) ⊎ Final r.0 (state_of r.1 id))

  -- The end of `identify_at`.
  abbrev finish :
      ℤ → Outcome (ScanError X) IdentifiedDisc × W → Outcome (ScanError X) IdentifiedDisc × W
  finish id r =
      continue_with
        (λ res.
          map_err {F = ScanError X} db (b.set_rip_file_identification_state id (state_after b res))
          >> lift res)
        (caught {F = ScanError X} r)

  finish-Settled :
      (id : ℤ) (o : Outcome (ScanError X) IdentifiedDisc) (w : W) → Settled id o (finish id (o, w))
  finish-Settled id (ok disc) w =
      let (v, written, kept) = keeps id (state_after b (ok disc)) w in
      rw written (refl, Final-state_after (ok disc) _ kept)
  finish-Settled id (err e) w =
      let (v, written, kept) = keeps id (state_after b (err e)) w in
      rw written (refl, Final-state_after (err e) _ kept)
  finish-Settled id panic w = (refl, inl refl)

  identify_at-Settled :
      (kind : ScanKind) (path : Text) (id : ℤ) (force : Bool) (w : W)
      → (v : W) × (state_of v id ≡ working)
        × Settled id (identify_work b kind path id force v).0 (identify_at b kind path id force w)
  unfolding identify_at
  identify_at-Settled kind path id force w =
      let (v, written, kept) = keeps id working w in
      rw written (
        v,
        kept,
        finish-Settled id (identify_work b kind path id force v).0
            (identify_work b kind path id force v).1,
      )

  -- If the row of a rip file has a path to a disc image, and the writes of states succeed, `identify_one`
  -- marks the row as working, then gives what reading the image and identifying the disc give in
  -- that state, an error or not, and unless that panics it returns with the row in the state for
  -- this result: identified or unidentified, as the disc is, or failed for an error, and working no
  -- more.
  pub identify_one-Settled :
      (id : ℤ) (force : Bool) (w : W) (rip : RipPaths) (path : Text) (kind : ScanKind)
      → b.get_rip_file id w ≡ (ok (some rip), w)
      → first_of rip.cue_path rip.chd_path ≡ some path
      → classify_path path ≡ some kind
      → (v : W) × (state_of v id ≡ working)
        × ((identify_one b id force w).0 ≡ (identify_work b kind path id force v).0)
        × (((identify_one b id force w).0 ≡ panic)
            ⊎ Final (identify_one b id force w).0 (state_of (identify_one b id force w).1 id))
  unfolding identify_one
  identify_one-Settled id force w rip path kind row named classified =
      let (v, marked, result) = identify_at-Settled kind path id force w in
      rw row (rw named (rw classified (v, marked, result.0, result.1)))
