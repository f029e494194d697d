-- ===== src/Db/Overrides/Frame.antt =====
-- What an override of one track changes.
use mathlib.Core.Path.{subst}
use phono_junk.Common.{
  ℕ, zero, suc, ◌-◌, ◌≤◌, ◌<◌, ◌≡◌, ◌⊎◌, inl, inr, refl, sym, ap, ◌∙◌, Option, none, some, List, [],
  ◌∷◌, length, get_elem?, ◌==◌, arith,
}
use phono_junk.Common.Outcome.{ok, ok_or, >>=-eq-ok, fail_if-eq-ok}
use phono_junk.Common.Hex.{Text}
use phono_junk.Common.Text.{codes}
use phono_junk.Catalog.{Disc, Track}
use phono_junk.Db.Overrides.{Segment, indexed}
use phono_junk.Db.Overrides.Fields.{apply_flat_track}
use phono_junk.Db.Overrides.Apply.{
  OverrideTarget, on_disc, set_elem, apply_nth_track, apply_disc, apply_override,
}

length-set_elem : (ts : List Track) (k : ℕ) (t : Track) → length (set_elem ts k t) ≡ length ts
length-set_elem [] k t = refl
length-set_elem (u ∷ us) zero t = refl
length-set_elem (u ∷ us) (suc k) t = ap suc (length-set_elem us k t)

set_elem-elsewhere :
    (ts : List Track) (k : ℕ) (t : Track) (j : ℕ)
    → (j ≡ k) ⊎ (get_elem? (set_elem ts k t) j ≡ get_elem? ts j)
set_elem-elsewhere [] k t j = inr refl
set_elem-elsewhere (u ∷ us) zero t zero = inl refl
set_elem-elsewhere (u ∷ us) zero t (suc j) = inr refl
set_elem-elsewhere (u ∷ us) (suc k) t zero = inr refl
set_elem-elsewhere (u ∷ us) (suc k) t (suc j) = elim (set_elem-elsewhere us k t j) [
  | inl same ↦ inl (ap suc same)
  | inr kept ↦ inr kept
]

set_elem-at :
    (ts : List Track) (k : ℕ) (t u : Track)
    → get_elem? ts k ≡ some u
    → (get_elem? (set_elem ts k t) k ≡ some t) × (k < length ts)
set_elem-at [] k t u h = cc h
set_elem-at (v ∷ vs) zero t u h = (refl, omega arith)
set_elem-at (v ∷ vs) (suc k) t u h =
    let (at, inside) = set_elem-at vs k t u h in (at, omega (arith, inside))

ok_or-eq-ok : {E A : Type 0} (o : Option A) (e : E) {a : A} → ok_or o e ≡ ok a → o ≡ some a
ok_or-eq-ok none e h = cc h
ok_or-eq-ok (some b) e h = cc h

-- The tracks after a change of the one at a 1-based index: it is what the flat applier makes of it,
-- and the others stand as they did.
pub record OneChanged (rest : List Segment) (name value : Text) (index : ℕ)
    (tracks changed : List Track) : Type 0 where
  pub in_range : (0 < index) × (index ≤ length tracks)
  pub same_length : length changed ≡ length tracks
  pub before : Track
  pub after : Track
  pub was : get_elem? tracks (index - 1) ≡ some before
  pub applied : apply_flat_track before rest name value ≡ ok after
  pub is : get_elem? changed (index - 1) ≡ some after
  pub others : (j : ℕ) → (j ≡ index - 1) ⊎ (get_elem? changed j ≡ get_elem? tracks j)

nth_track_changed :
    (tracks : List Track) (index : ℕ) (rest : List Segment) (name value : Text)
    (changed : List Track)
    → apply_nth_track tracks index rest name value ≡ ok changed
    → OneChanged rest name value index tracks changed
unfolding apply_nth_track
nth_track_changed tracks index rest name value changed h =
    let (positive, h1) = fail_if-eq-ok (index == 0) _ _ h in
    let (t, found, h2) = >>=-eq-ok (ok_or (get_elem? tracks (index - 1)) _) _ h1 in
    let (after, applied, h3) = >>=-eq-ok (apply_flat_track t rest name value) _ h2 in
    let was = ok_or-eq-ok (get_elem? tracks (index - 1)) _ found in
    let result : set_elem tracks (index - 1) after ≡ changed = cc h3 in
    let (at, inside) = set_elem-at tracks (index - 1) after t was in
    let nonzero : 0 < index = ground (arith, positive) in
    record {
      in_range = (nonzero, omega (arith, nonzero, inside));
      same_length = ap length (sym result) ∙ length-set_elem tracks (index - 1) after;
      before = t;
      after = after;
      was = was;
      applied = applied;
      is = ap (λ (l : List Track). get_elem? l (index - 1)) (sym result) ∙ at;
      others = λ j.
          subst (λ (l : List Track). (j ≡ index - 1) ⊎ (get_elem? l j ≡ get_elem? tracks j)) result
            (set_elem-elsewhere tracks (index - 1) after j);
    }

-- When an override with a path `track[index]` succeeds on a disc, the index is that of a track,
-- counted from 1, and the result is the same disc with as many tracks: at that place the track
-- changed as the rest of the path says, and every other track as it was.
pub apply_override_track :
    (d : Disc) (tracks : List Track) (index : ℕ) (rest : List Segment) (name value : Text)
    (target : OverrideTarget)
    → apply_override (on_disc d tracks) (indexed (codes "track") index ∷ rest) name value
      ≡ ok target
    → (changed : List Track) × (target ≡ on_disc d changed)
      × OneChanged rest name value index tracks changed
unfolding apply_override apply_disc
apply_override_track d tracks index rest name value target h =
    let (changed, e, same) = >>=-eq-ok (apply_nth_track tracks index rest name value) _ h in
    (changed, cc same, nth_track_changed tracks index rest name value changed e)
