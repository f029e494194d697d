-- ===== src/Identify/Consensus/Winner.antt =====
-- Who wins the vote of `merge_opt`, whatever the order in which the map of votes is iterated.
use mathlib.Core.Path.{subst}
use phono_junk.Common.{
  ℕ, suc, ◌+◌, ◌<◌, ◌≡◌, ◌↔◌, ◌⊎◌, inl, inr, refl, sym, ap, ◌∙◌, Bool, true, false, Option, none,
  some,
}
use phono_junk.Common.{List, [], ◌∷◌, get_elem?, arith, if◌then◌else◌, All, Bool-cases}
use phono_junk.Common.Hex.{Text}
use phono_junk.Identify.Consensus.Vote.{Vote, exceeds, winner, add_vote, collect_votes}

abbrev pub Member : {A : Type 0} → A → List A → Type 0
Member a [] = ⊥
Member a (x ∷ xs) = (x ≡ a) ⊎ Member a xs

module _ {T : Type 0} where
  exceeds_trans : (a b c : Vote T) → exceeds a b ≡ false → exceeds b c ≡ false → exceeds a c ≡ false
  exceeds_trans a b c p q = ground arith

  exceeds_total : (a b : Vote T) → exceeds a b ≡ true → exceeds b a ≡ false
  exceeds_total a b p = ground arith

  exceeds_self : (a : Vote T) → exceeds a a ≡ false
  exceeds_self a = ground arith

  -- Nobody exceeds `w`.
  unfoldable pub Top : Vote T → List (Vote T) → Type 0
  Top w votes = All (λ e. exceeds e w ≡ false) votes

  above_winner :
      (w v : Vote T) (votes : List (Vote T)) → exceeds w v ≡ false → Top w votes → Top v votes
  unfolding Top
  above_winner w v [] h t = tt
  above_winner w v (e ∷ es) h t = (exceeds_trans e w v t.0 h, above_winner w v es h t.1)

  pub Top-Member :
      (w e : Vote T) (votes : List (Vote T)) → Top w votes → Member e votes → exceeds e w ≡ false
  unfolding Top
  Top-Member w e [] t m = elim m [ ]
  Top-Member w e (x ∷ xs) t (inl same) = subst (λ (y : Vote T). exceeds y w ≡ false) same t.0
  Top-Member w e (x ∷ xs) t (inr later) = Top-Member w e xs t.1 later

  pub winner_of :
      (votes : List (Vote T))
      → ((votes ≡ []) × (winner votes ≡ none))
        ⊎ ((w : Vote T) × (winner votes ≡ some w) × Member w votes × Top w votes)
  unfolding winner Top
  winner_of [] = inl (refl, refl)
  winner_of (v ∷ vs) = elim (winner_of vs) [
    | inl (empty, e) ↦ inr (v, rw e refl, inl refl, (exceeds_self v, subst (Top v) (sym empty) tt))
    | inr (w, e, m, t) ↦ elim (Bool-cases (exceeds v w)) [
      | inl more ↦
          let less : exceeds w v ≡ false = exceeds_total v w more in
          inr (v, rw e (rw more), inl refl, (exceeds_self v, above_winner w v vs less t))
      | inr less ↦ inr (w, rw e (rw less), inr m, (less, t))
    ]
  ]

module _ {T : Type 0} (eq : T → T → Bool) where
  unfoldable pub vote_of : T → List (Vote T) → Option (Vote T)
  vote_of v [] = none
  vote_of v (e ∷ es) = if eq e.value v then some e else vote_of v es

  bump : ℕ → Text → T → Option (Vote T) → Vote T
  bump idx provider v none = record { value = v; count = 1; provider = provider; first_idx = idx }
  bump idx provider v (some e) = record {
    value = e.value;
    count = e.count + 1;
    provider = e.provider;
    first_idx = e.first_idx;
  }

  unfoldable pub tally : T → ℕ → List (Text × Option T) → Option (Vote T) → Option (Vote T)
  unfolding bump
  tally v idx [] o = o
  tally v idx ((provider, none) ∷ values) o = tally v (idx + 1) values o
  tally v idx ((provider, some x) ∷ values) o =
      tally v (idx + 1) values (if eq x v then some (bump idx provider x o) else o)

  -- The number of times a value is given, and the index of its first occurrence.
  abbrev pub count_of : T → List (Text × Option T) → ℕ
  count_of v [] = 0
  count_of v ((provider, none) ∷ values) = count_of v values
  count_of v ((provider, some x) ∷ values) =
      if eq x v then suc (count_of v values) else count_of v values

  abbrev pub index_of : T → List (Text × Option T) → ℕ
  index_of v [] = 0
  index_of v ((provider, none) ∷ values) = suc (index_of v values)
  index_of v ((provider, some x) ∷ values) = if eq x v then 0 else suc (index_of v values)

  -- The vote on `v` once the values from index `idx` are counted.
  abbrev pub Standing : T → ℕ → List (Text × Option T) → Vote T → Type 0
  Standing v idx values e =
      (e.value ≡ v)
      × (e.count ≡ count_of v values)
      × (0 < e.count)
      × (e.first_idx ≡ idx + index_of v values)
      × (get_elem? values (index_of v values) ≡ some (e.provider, some v))

  module _ (lawful : (x y : T) → (eq x y ≡ true) ↔ (x ≡ y)) where
    apart : (y x v : T) → eq y x ≡ false → eq y v ≡ true → eq x v ≡ false
    apart y x v other here = elim (Bool-cases (eq x v)) [
      | inr h ↦ h
      | inl h ↦
          let same : eq y x ≡ true =
            (lawful y x).1 ((lawful y v).0 here ∙ sym ((lawful x v).0 h)) in
          absurd (cc (same, other))
    ]

    vote_of-add_vote :
        (v : T) (idx : ℕ) (provider : Text) (x : T) (votes : List (Vote T))
        → vote_of v (add_vote eq idx provider x votes)
          ≡ (if eq x v then some (bump idx provider x (vote_of v votes)) else vote_of v votes)
    unfolding add_vote vote_of bump
    vote_of-add_vote v idx provider x [] = refl
    vote_of-add_vote v idx provider x (e ∷ es) = elim (Bool-cases (eq e.value x)) [
      | inl same ↦
          let q : eq e.value v ≡ eq x v = ap (λ (t : T). eq t v) ((lawful e.value x).0 same) in
          rw same (rw q (elim (Bool-cases (eq x v)) [ inl h ↦ rw h refl | inr h ↦ rw h refl ]))
      | inr other ↦ elim (Bool-cases (eq e.value v)) [
        | inl here ↦ rw other (rw here (rw (apart e.value x v other here)))
        | inr there ↦ rw other (rw there (vote_of-add_vote v idx provider x es))
      ]
    ]

    pub vote_of-collect_votes :
        (v : T) (idx : ℕ) (values : List (Text × Option T)) (votes : List (Vote T))
        → vote_of v (collect_votes eq idx values votes) ≡ tally v idx values (vote_of v votes)
    unfolding collect_votes tally
    vote_of-collect_votes v idx [] votes = refl
    vote_of-collect_votes v idx ((provider, none) ∷ values) votes =
        vote_of-collect_votes v (idx + 1) values votes
    vote_of-collect_votes v idx ((provider, some x) ∷ values) votes =
        vote_of-collect_votes v (idx + 1) values (add_vote eq idx provider x votes)
        ∙ ap (tally v (idx + 1) values) (vote_of-add_vote v idx provider x votes)

    tally_more :
        (v : T) (idx : ℕ) (values : List (Text × Option T)) (e : Vote T)
        → (f : Vote T) × (tally v idx values (some e) ≡ some f)
          × (f.value ≡ e.value)
          × (f.count ≡ e.count + count_of v values)
          × (f.provider ≡ e.provider)
          × (f.first_idx ≡ e.first_idx)
    unfolding tally bump
    tally_more v idx [] e = (e, refl, refl, omega arith, refl, refl)
    tally_more v idx ((provider, none) ∷ values) e = tally_more v (idx + 1) values e
    tally_more v idx ((provider, some x) ∷ values) e = elim (Bool-cases (eq x v)) [
      | inl h ↦
          let (f, r, a, b, c, d) = tally_more v (idx + 1) values (bump idx provider x (some e)) in
          rw h (f, r, a, omega (arith, b), c, d)
      | inr h ↦ rw h (tally_more v (idx + 1) values e)
    ]

    pub tally-Standing :
        (v : T) (idx : ℕ) (values : List (Text × Option T))
        → ((count_of v values ≡ 0) × (tally v idx values none ≡ none))
          ⊎ ((e : Vote T) × (tally v idx values none ≡ some e) × Standing v idx values e)
    unfolding tally bump
    tally-Standing v idx [] = inl (refl, refl)
    tally-Standing v idx ((provider, none) ∷ values) = elim (tally-Standing v (idx + 1) values) [
      | inl h ↦ inl h
      | inr (e, r, s) ↦ inr (e, r, (s.0, s.1, s.2, omega (arith, s.3), s.4))
    ]
    tally-Standing v idx ((provider, some x) ∷ values) = elim (Bool-cases (eq x v)) [
      | inl h ↦
          let (f, r, a, b, c, d) = tally_more v (idx + 1) values (bump idx provider x none) in
          let same : x ≡ v = (lawful x v).0 h in
          rw h (
            inr (
              f,
              r,
              (
                a ∙ same,
                omega (arith, b),
                omega (arith, b),
                omega (arith, d),
                λ i. some (sym c i, some (same i)),
              ),
            ))
      | inr h ↦ rw h (elim (tally-Standing v (idx + 1) values) [
        | inl k ↦ inl k
        | inr (e, r, s) ↦ inr (e, r, (s.0, s.1, s.2, omega (arith, s.3), s.4))
      ])
    ]
