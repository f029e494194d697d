-- ===== src/Identify/Consensus/Vote.antt =====
-- `merge_opt`: the vote on one field.
use phono_junk.Common.{
  ℕ, ◌+◌, Bool, ◌&&◌, ◌||◌, Option, none, some, List, [], ◌∷◌, ◌++◌, ltb, ◌==◌, if◌then◌else◌,
}
use phono_junk.Common.Hex.{Text}
use phono_junk.Identify.Consensus.{DisagreementEntity, Field, RawDisagreement}

-- An entry of the map `votes`: the value, and the triple that it maps to.
pub record Vote (T : Type 0) : Type 0 where
  pub value : T
  pub count : ℕ
  pub provider : Text
  pub first_idx : ℕ

-- What a step that may push disagreements does to the list `sink`.
abbrev pub Recorded : Type 0 → Type 0 → Type 0
Recorded Value A = List (RawDisagreement Value) → A × List (RawDisagreement Value)

module _ {Value : Type 0} where
  infixl 5 ◌>>=◌
  abbrev pub ◌>>=◌ : {A B : Type 0} → Recorded Value A → (A → Recorded Value B) → Recorded Value B
  step >>= next = λ sink. next (step sink).0 (step sink).1

  abbrev pub return : {A : Type 0} → A → Recorded Value A
  return a = λ sink. (a, sink)

module _ {T : Type 0} where
  -- The comparison of `max_by`, `ca.cmp(cb).then(ib.cmp(ia))`, is `Greater`.
  abbrev pub exceeds : Vote T → Vote T → Bool
  exceeds a b = ltb b.count a.count || (a.count == b.count && ltb a.first_idx b.first_idx)

  -- `max_by`: of several maximal elements the last one.
  unfoldable pub winner : List (Vote T) → Option (Vote T)
  winner [] = none
  winner (v ∷ vs) = elim (winner vs) [
    | none ↦ some v
    | some w ↦ some (if exceeds v w then v else w)
  ]

module _ {T : Type 0} (eq : T → T → Bool) where
  -- `votes.entry(v).and_modify(…).or_insert((1, provider, idx))`
  unfoldable pub add_vote : ℕ → Text → T → List (Vote T) → List (Vote T)
  add_vote idx provider v [] =
      record { value = v; count = 1; provider = provider; first_idx = idx } ∷ []
  add_vote idx provider v (e ∷ es) =
      let rest = add_vote idx provider v es in
      if eq e.value v
      then record {
        value = e.value;
        count = e.count + 1;
        provider = e.provider;
        first_idx = e.first_idx;
      }
        ∷ es
      else e ∷ rest

  -- The loop that votes, from index `idx`.
  unfoldable pub collect_votes : ℕ → List (Text × Option T) → List (Vote T) → List (Vote T)
  unfolding add_vote
  collect_votes idx [] votes = votes
  collect_votes idx ((provider, none) ∷ values) votes = collect_votes (idx + 1) values votes
  collect_votes idx ((provider, some v) ∷ values) votes =
      collect_votes (idx + 1) values (add_vote idx provider v votes)

  module _ {Value : Type 0} (to_value : T → Value) (entity : DisagreementEntity)
      (field : Field) where
    -- The loop that pushes a disagreement for each other value.
    unfoldable pub losers : Vote T → List (Text × Option T) → List (RawDisagreement Value)
    losers w [] = []
    losers w ((provider, none) ∷ values) = losers w values
    losers w ((provider, some v) ∷ values) =
        let rest = losers w values in
        if eq v w.value
        then rest
        else record {
          entity = entity;
          field = field;
          source_a = w.provider;
          value_a = to_value w.value;
          source_b = provider;
          value_b = to_value v;
        }
          ∷ rest

    -- An empty map has no winner.
    unfoldable pub merge_opt :
        (List (Vote T) → List (Vote T)) → List (Text × Option T) → Recorded Value (Option T)
    unfolding winner collect_votes losers
    merge_opt iteration values sink = elim (winner (iteration (collect_votes 0 values []))) [
      | none ↦ (none, sink)
      | some w ↦ (some w.value, sink ++ losers w values)
    ]
