-- ===== src/Identify/Consensus/Positions.antt =====
-- The positions that `merge_tracks` merges: strictly ascending, and all that the cohort names.
use mathlib.Core.Path.{subst}
use phono_junk.Common.{ℕ, ◌≡◌, inl, inr, refl, sym, ap, ◌∙◌, true}
use phono_junk.Common.{List, [], ◌∷◌, ◌++◌, map, All, ◌==◌, ==_iff, if◌then◌else◌, Bool-cases}
use phono_junk.Common.Hex.{Text}
use phono_junk.Identify.{TrackMeta, ProviderResult}
use phono_junk.Identify.Consensus.Groups.{
  ByPos, contains_key, push_track, group_track, group_tracks, group_cohort,
}
use phono_junk.Identify.Consensus.Winner.{Member}

unfoldable pub keys : ByPos → List ℕ
keys by_pos = map (λ entry. entry.0) by_pos

keys-push_track :
    (pos : ℕ) (entry : Text × TrackMeta) (by_pos : ByPos)
    → keys (push_track pos entry by_pos)
      ≡ (if contains_key pos by_pos then keys by_pos else keys by_pos ++ pos ∷ [])
unfolding keys push_track
keys-push_track pos entry [] = refl
keys-push_track pos entry ((key, entries) ∷ rest) = elim (Bool-cases (key == pos)) [
  | inl same ↦ rw same refl
  | inr other ↦ rw other (elim (Bool-cases (contains_key pos rest)) [
    | inl c ↦ rw c (ap (λ (l : List ℕ). key ∷ l) (keys-push_track pos entry rest ∙ rw c refl))
    | inr c ↦ rw c (ap (λ (l : List ℕ). key ∷ l) (keys-push_track pos entry rest ∙ rw c refl))
  ])
]

-- The keys are the positions in the order of their first insertion.
unfoldable pub Matching : ByPos × List ℕ → Type 0
Matching groups = keys groups.0 ≡ groups.1

group_track-Matching :
    (provider : Text) (t : TrackMeta) (groups : ByPos × List ℕ)
    → Matching groups
    → Matching (group_track provider t groups)
unfolding Matching group_track
group_track-Matching provider t (by_pos, ordered) h =
    keys-push_track t.position (provider, t) by_pos
    ∙ ap (λ (l : List ℕ). if contains_key t.position by_pos then l else l ++ t.position ∷ []) h

contains_key-Member :
    (pos : ℕ) (by_pos : ByPos) → contains_key pos by_pos ≡ true → Member pos (keys by_pos)
unfolding keys
contains_key-Member pos [] h = cc
contains_key-Member pos ((key, entries) ∷ rest) h = elim (Bool-cases (key == pos)) [
  | inl same ↦ inl ((==_iff key pos).0 same)
  | inr other ↦
      let r : contains_key pos ((key, entries) ∷ rest) ≡ contains_key pos rest = rw other refl in
      inr (contains_key-Member pos rest (sym r ∙ h))
]

Member-append : (x : ℕ) (xs ys : List ℕ) → Member x xs → Member x (xs ++ ys)
Member-append x (y ∷ xs) ys (inl h) = inl h
Member-append x (y ∷ xs) ys (inr h) = inr (Member-append x xs ys h)
Member-append x [] ys h = elim h [ ]

Member-append_last : (x : ℕ) (xs : List ℕ) → Member x (xs ++ x ∷ [])
Member-append_last x [] = inl refl
Member-append_last x (y ∷ xs) = inr (Member-append_last x xs)

-- `group_track` keeps the positions, and adds that of the track.
group_track-keeps :
    (x : ℕ) (provider : Text) (t : TrackMeta) (groups : ByPos × List ℕ)
    → Member x groups.1
    → Member x (group_track provider t groups).1
unfolding group_track
group_track-keeps x provider t (by_pos, ordered) h =
    elim (Bool-cases (contains_key t.position by_pos)) [
      | inl c ↦ rw c h
      | inr c ↦ rw c (Member-append x ordered (t.position ∷ []) h)
    ]

group_track-adds :
    (provider : Text) (t : TrackMeta) (groups : ByPos × List ℕ)
    → Matching groups
    → Member t.position (group_track provider t groups).1
unfolding group_track Matching
group_track-adds provider t (by_pos, ordered) h =
    elim (Bool-cases (contains_key t.position by_pos)) [
      | inl c ↦ rw c (subst (Member t.position) h (contains_key-Member t.position by_pos c))
      | inr c ↦ rw c (Member-append_last t.position ordered)
    ]

group_tracks-Matching :
    (provider : Text) (ts : List TrackMeta) (groups : ByPos × List ℕ)
    → Matching groups
    → Matching (group_tracks provider ts groups)
unfolding group_tracks
group_tracks-Matching provider [] groups h = h
group_tracks-Matching provider (t ∷ ts) groups h =
    group_tracks-Matching provider ts _ (group_track-Matching provider t groups h)

group_tracks-keeps :
    (x : ℕ) (provider : Text) (ts : List TrackMeta) (groups : ByPos × List ℕ)
    → Member x groups.1
    → Member x (group_tracks provider ts groups).1
unfolding group_tracks
group_tracks-keeps x provider [] groups h = h
group_tracks-keeps x provider (t ∷ ts) groups h =
    group_tracks-keeps x provider ts _ (group_track-keeps x provider t groups h)

-- Every track's position is among some positions.
abbrev pub Listed : List ℕ → List TrackMeta → Type 0
Listed positions ts = All (λ t. Member t.position positions) ts

group_tracks-adds :
    (provider : Text) (ts : List TrackMeta) (groups : ByPos × List ℕ)
    → Matching groups
    → Listed (group_tracks provider ts groups).1 ts
unfolding group_tracks
group_tracks-adds provider [] groups h = tt
group_tracks-adds provider (t ∷ ts) groups h =
    let next = group_track provider t groups in
    (
      group_tracks-keeps t.position provider ts next (group_track-adds provider t groups h),
      group_tracks-adds provider ts next (group_track-Matching provider t groups h),
    )

pub Listed-more :
    (xs ys : List ℕ) (ts : List TrackMeta)
    → ((x : ℕ) → Member x xs → Member x ys)
    → Listed xs ts
    → Listed ys ts
Listed-more xs ys [] f h = tt
Listed-more xs ys (t ∷ ts) f h = (f t.position h.0, Listed-more xs ys ts f h.1)

module _ {Value : Type 0} where
  pub group_cohort-Matching :
      (rs : List (ProviderResult Value)) (groups : ByPos × List ℕ)
      → Matching groups
      → Matching (group_cohort rs groups)
  unfolding group_cohort
  group_cohort-Matching [] groups h = h
  group_cohort-Matching (r ∷ rs) groups h =
      group_cohort-Matching rs _ (group_tracks-Matching r.provider r.tracks groups h)

  group_cohort-keeps :
      (rs : List (ProviderResult Value)) (groups : ByPos × List ℕ) (x : ℕ)
      → Member x groups.1
      → Member x (group_cohort rs groups).1
  unfolding group_cohort
  group_cohort-keeps [] groups x h = h
  group_cohort-keeps (r ∷ rs) groups x h =
      group_cohort-keeps rs _ x (group_tracks-keeps x r.provider r.tracks groups h)

  pub group_cohort-adds :
      (rs : List (ProviderResult Value)) (groups : ByPos × List ℕ)
      → Matching groups
      → All (λ (r : ProviderResult Value). Listed (group_cohort rs groups).1 r.tracks) rs
  unfolding group_cohort
  group_cohort-adds [] groups h = tt
  group_cohort-adds (r ∷ rs) groups h =
      let next = group_tracks r.provider r.tracks groups in
      (
        Listed-more next.1 (group_cohort rs next).1 r.tracks (group_cohort-keeps rs next)
            (group_tracks-adds r.provider r.tracks groups h),
        group_cohort-adds rs next (group_tracks-Matching r.provider r.tracks groups h),
      )
