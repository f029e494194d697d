-- ===== src/Identify/Consensus/Plurality.antt =====
-- The result of `merge_opt`: the value and the disagreements.
use mathlib.Core.Path.{subst}
use phono_junk.Common.{
  ℕ, ◌+◌, ◌≤◌, ◌<◌, ◌≡◌, ◌↔◌, ◌⊎◌, inl, inr, refl, sym, ap, ◌∙◌, Bool, true, false, Option, none,
  some,
}
use phono_junk.Common.{List, [], ◌∷◌, ◌++◌, arith, All, Bool-cases}
use phono_junk.Common.Hex.{Text}
use phono_junk.Identify.Consensus.{DisagreementEntity, Field, RawDisagreement}
use phono_junk.Identify.Consensus.Vote.{Vote, add_vote, collect_votes, losers, merge_opt}
use phono_junk.Identify.Consensus.Lost.{Lost, losers-Lost}
use phono_junk.Identify.Consensus.Winner.{
  Member, Top, Top-Member, winner_of, vote_of, vote_of-collect_votes, count_of, index_of, Standing,
  tally-Standing,
}

module _ {T : Type 0} (eq : T → T → Bool) where
  -- No value has two entries.
  Apart : T → List (Vote T) → Type 0
  Apart y votes = All (λ f. eq y f.value ≡ false) votes

  Distinct : List (Vote T) → Type 0
  Distinct [] = Unit
  Distinct (e ∷ es) = Apart e.value es × Distinct es

  Apart-add_vote :
      (y : T) (idx : ℕ) (provider : Text) (x : T) (votes : List (Vote T))
      → Apart y votes
      → eq y x ≡ false
      → Apart y (add_vote eq idx provider x votes)
  unfolding add_vote Apart
  Apart-add_vote y idx provider x [] h k = (k, tt)
  Apart-add_vote y idx provider x (e ∷ es) h k = elim (Bool-cases (eq e.value x)) [
    | inl same ↦ rw same h
    | inr other ↦ rw other (h.0, Apart-add_vote y idx provider x es h.1 k)
  ]

  Distinct-add_vote :
      (idx : ℕ) (provider : Text) (x : T) (votes : List (Vote T))
      → Distinct votes
      → Distinct (add_vote eq idx provider x votes)
  unfolding add_vote Distinct Apart
  Distinct-add_vote idx provider x [] h = (tt, tt)
  Distinct-add_vote idx provider x (e ∷ es) h = elim (Bool-cases (eq e.value x)) [
    | inl same ↦ rw same h
    | inr other ↦ rw other (
      Apart-add_vote e.value idx provider x es h.0 other,
      Distinct-add_vote idx provider x es h.1,
    )
  ]

  Distinct-collect_votes :
      (idx : ℕ) (values : List (Text × Option T)) (votes : List (Vote T))
      → Distinct votes
      → Distinct (collect_votes eq idx values votes)
  unfolding collect_votes
  Distinct-collect_votes idx [] votes h = h
  Distinct-collect_votes idx ((provider, none) ∷ values) votes h =
      Distinct-collect_votes (idx + 1) values votes h
  Distinct-collect_votes idx ((provider, some x) ∷ values) votes h =
      Distinct-collect_votes (idx + 1) values _ (Distinct-add_vote idx provider x votes h)

  vote_of-Member :
      (v : T) (votes : List (Vote T)) (e : Vote T) → vote_of eq v votes ≡ some e → Member e votes
  unfolding vote_of
  vote_of-Member v [] e h = cc
  vote_of-Member v (f ∷ fs) e h = elim (Bool-cases (eq f.value v)) [
    | inl here ↦ let r : vote_of eq v (f ∷ fs) ≡ some f = rw here refl in inl (cc (r, h))
    | inr there ↦ inr (
        vote_of-Member v fs e
          (let r : vote_of eq v (f ∷ fs) ≡ vote_of eq v fs = rw there refl in sym r ∙ h))
  ]

  Apart-Member :
      (y : T) (votes : List (Vote T)) (f : Vote T)
      → Apart y votes
      → Member f votes
      → eq y f.value ≡ false
  unfolding Apart
  Apart-Member y [] f h m = elim m [ ]
  Apart-Member y (x ∷ xs) f h (inl same) = subst (λ (g : Vote T). eq y g.value ≡ false) same h.0
  Apart-Member y (x ∷ xs) f h (inr later) = Apart-Member y xs f h.1 later

  -- `v` does not come before the winner.
  abbrev pub Behind : List (Text × Option T) → Vote T → T → Type 0
  Behind values w v =
      (count_of eq v values < w.count)
      ⊎ ((count_of eq v values ≡ w.count) × (w.first_idx ≤ index_of eq v values))

  module _ (lawful : (x y : T) → (eq x y ≡ true) ↔ (x ≡ y)) where
    Member-vote_of :
        (votes : List (Vote T)) (f : Vote T)
        → Distinct votes
        → Member f votes
        → vote_of eq f.value votes ≡ some f
    unfolding vote_of Distinct
    Member-vote_of [] f d m = elim m [ ]
    Member-vote_of (e ∷ es) f d (inl same) =
        rw ((lawful e.value f.value).1 (λ i. (same i).value)) (ap some same)
    Member-vote_of (e ∷ es) f d (inr later) =
        rw (Apart-Member e.value es f d.0 later) (Member-vote_of es f d.1 later)

    module _ {Value : Type 0} (to_value : T → Value) (entity : DisagreementEntity) (field : Field)
        (iteration : List (Vote T) → List (Vote T))
        (members : (votes : List (Vote T)) (e : Vote T)
          → Member e (iteration votes) ↔ Member e votes)
        (values : List (Text × Option T)) where
      all_votes : List (Vote T)
      all_votes = iteration (collect_votes eq 0 values [])

      counted :
          (v : T)
          → (count_of eq v values ≡ 0)
            ⊎ ((e : Vote T) × Member e all_votes × Standing eq v 0 values e)
      unfolding all_votes vote_of
      counted v = elim (tally-Standing eq lawful v 0 values) [
        | inl (c, r) ↦ inl c
        | inr (e, r, s) ↦
            let found = vote_of-collect_votes eq lawful v 0 values [] ∙ r in
            inr (e, (members _ e).1 (vote_of-Member v _ e found), s)
      ]

      own_vote : (w : Vote T) → Member w all_votes → Standing eq w.value 0 values w
      unfolding all_votes vote_of
      own_vote w m =
          let votes = collect_votes eq 0 values [] in
          let own =
            Member-vote_of votes w (Distinct-collect_votes 0 values [] (unfold Distinct in tt))
              ((members _ w).0 m) in
          let same = sym (vote_of-collect_votes eq lawful w.value 0 values []) ∙ own in
          elim (tally-Standing eq lawful w.value 0 values) [
            | inl (c, r) ↦ absurd (cc (same, r))
            | inr (e, r, s) ↦
                subst (λ (f : Vote T). Standing eq w.value 0 values f) (cc (same, r)) s
          ]

      not_before : (w : Vote T) → Member w all_votes → Top w all_votes → (v : T) → Behind values w v
      not_before w m t v = elim (counted v) [
        | inl c ↦ inl (omega (arith, (own_vote w m).2))
        | inr (e, me, s) ↦
            let not_above = Top-Member w e all_votes t me in
            let (a, b, c, d, g) = s in ground (arith, not_above, b, d)
      ]

      -- `merge_opt` returns nothing and records nothing exactly when no provider gives a value.
      -- Else it returns a value `w` that a provider gives, such that any other value is given less
      -- often, or as often and later; it appends a disagreement for each provider that gives a
      -- value other than `w`, in order, against the first provider of `w`. This does not depend on
      -- the order in which the map of votes is iterated.
      pub merge_opt_plurality :
          (sink : List (RawDisagreement Value))
          → (((v : T) → count_of eq v values ≡ 0)
              × (merge_opt eq to_value entity field iteration values sink ≡ (none, sink)))
            ⊎ ((w : Vote T) × (ds : List (RawDisagreement Value)) × (merge_opt eq to_value entity
                    field iteration values sink
                  ≡ (some w.value, sink ++ ds))
                × Lost to_value entity field w values ds
                × Standing eq w.value 0 values w
                × ((v : T) → Behind values w v))
      unfolding merge_opt all_votes
      merge_opt_plurality sink = elim (winner_of all_votes) [
        | inl (empty, e) ↦ inl (
          λ v. elim (counted v) [
            | inl c ↦ c
            | inr (f, m, s) ↦ absurd (subst (λ (l : List (Vote T)). Member f l) empty m)
          ],
          rw (e, merge_opt) refl,
        )
        | inr (w, e, m, t) ↦ inr (
          w,
          losers eq to_value entity field w values,
          rw (e, merge_opt) refl,
          losers-Lost eq lawful to_value entity field w values,
          own_vote w m,
          not_before w m t,
        )
      ]
