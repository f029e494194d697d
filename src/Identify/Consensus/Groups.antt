-- ===== src/Identify/Consensus/Groups.antt =====
-- `merge_tracks`: the tracks of the cohort by position.
use phono_junk.Common.{
  ℕ, Bool, Option, none, some, List, [], ◌∷◌, ◌++◌, leb, ◌==◌, any, if◌then◌else◌,
}
use phono_junk.Common.Outcome.{Outcome, ok, ◌>>=◌, expect}
use phono_junk.Common.Hex.{Text}
use phono_junk.Identify.{TrackMeta, ProviderResult}

-- The map `by_pos`, its keys in the order of their first insertion.
abbrev pub ByPos : Type 0
ByPos = List (ℕ × List (Text × TrackMeta))

abbrev pub contains_key : ℕ → ByPos → Bool
contains_key pos by_pos = any (λ entry. entry.0 == pos) by_pos

-- `by_pos.entry(pos).or_default().push(…)`
unfoldable pub push_track : ℕ → Text × TrackMeta → ByPos → ByPos
push_track pos entry [] = (pos, entry ∷ []) ∷ []
push_track pos entry ((key, entries) ∷ rest) =
    let later = push_track pos entry rest in
    if key == pos then (key, entries ++ entry ∷ []) ∷ rest else (key, entries) ∷ later

-- `by_pos[&pos]`
unfoldable pub lookup_pos : ℕ → ByPos → Option (List (Text × TrackMeta))
lookup_pos pos [] = none
lookup_pos pos ((key, entries) ∷ rest) =
    let later = lookup_pos pos rest in if key == pos then some entries else later

-- The body of the inner loop, on `by_pos` and `ordered_positions`.
unfoldable pub group_track : Text → TrackMeta → ByPos × List ℕ → ByPos × List ℕ
unfolding push_track
group_track provider t (by_pos, ordered) = (
  push_track t.position (provider, t) by_pos,
  if contains_key t.position by_pos then ordered else ordered ++ t.position ∷ [],
)

unfoldable pub group_tracks : Text → List TrackMeta → ByPos × List ℕ → ByPos × List ℕ
unfolding group_track
group_tracks provider [] groups = groups
group_tracks provider (t ∷ ts) groups = group_tracks provider ts (group_track provider t groups)

unfoldable pub group_cohort :
    {Value : Type 0} → List (ProviderResult Value) → ByPos × List ℕ → ByPos × List ℕ
unfolding group_tracks
group_cohort [] groups = groups
group_cohort (r ∷ rs) groups = group_cohort rs (group_tracks r.provider r.tracks groups)

-- `sort_unstable`
unfoldable pub insert : ℕ → List ℕ → List ℕ
insert n [] = n ∷ []
insert n (m ∷ ms) = let rest = insert n ms in if leb n m then n ∷ m ∷ ms else m ∷ rest

unfoldable pub sort_unstable : List ℕ → List ℕ
unfolding insert
sort_unstable [] = []
sort_unstable (n ∷ ns) = insert n (sort_unstable ns)

-- `dedup`: of equal neighbours the first stays.
unfoldable pub dedup : List ℕ → List ℕ
dedup [] = []
dedup (n ∷ []) = n ∷ []
dedup (n ∷ m ∷ ms) = let rest = dedup (m ∷ ms) in if n == m then rest else n ∷ rest

-- The entries of each position in turn; a missing key would panic.
unfoldable pub entries_in_order :
    {E : Type 0} → ByPos → List ℕ → Outcome E (List (ℕ × List (Text × TrackMeta)))
unfolding lookup_pos
entries_in_order by_pos [] = ok []
entries_in_order by_pos (pos ∷ positions) = do
  entries ← expect (lookup_pos pos by_pos)
  rest ← entries_in_order by_pos positions
  ok ((pos, entries) ∷ rest)

-- The first part of `merge_tracks`.
unfoldable pub grouped_tracks :
    {E Value : Type 0}
    → List (ProviderResult Value)
    → Outcome E (List (ℕ × List (Text × TrackMeta)))
unfolding group_cohort sort_unstable dedup entries_in_order
grouped_tracks cohort =
    let groups : ByPos × List ℕ = group_cohort cohort ([], []) in
    entries_in_order groups.0 (dedup (sort_unstable groups.1))
