-- ===== src/Identify/Consensus/Lost.antt =====
-- The disagreements that `merge_opt` pushes for the other values.
use mathlib.Core.Path.{subst}
use phono_junk.Common.{
  ◌≡◌, ◌≢◌, ◌↔◌, inl, inr, sym, Bool, true, Option, none, some, List, [], ◌∷◌, Bool-cases,
}
use phono_junk.Common.Hex.{Text}
use phono_junk.Identify.Consensus.{DisagreementEntity, Field, RawDisagreement}
use phono_junk.Identify.Consensus.Vote.{Vote, losers}

-- What is recorded against a winner: nothing for a provider that gives no value or the winning one, and
-- a disagreement of the winner's first provider with each other one, in order.
pub data Lost {T Value : Type 0} (to_value : T → Value) (entity : DisagreementEntity)
    (field : Field) (w : Vote T)
    : List (Text × Option T) → List (RawDisagreement Value) → Type 0 where
  lost_none : Lost to_value entity field w [] []
  lost_silent :
      {provider : Text} {values : List (Text × Option T)} {ds : List (RawDisagreement Value)}
      → Lost to_value entity field w values ds
      → Lost to_value entity field w ((provider, none) ∷ values) ds
  lost_agreeing :
      {provider : Text} {values : List (Text × Option T)} {ds : List (RawDisagreement Value)}
      → Lost to_value entity field w values ds
      → Lost to_value entity field w ((provider, some w.value) ∷ values) ds
  lost_other :
      {provider : Text} {v : T} {values : List (Text × Option T)}
      {ds : List (RawDisagreement Value)}
      → v ≢ w.value
      → Lost to_value entity field w values ds
      → Lost to_value entity field w ((provider, some v) ∷ values) (
          record {
            entity = entity;
            field = field;
            source_a = w.provider;
            value_a = to_value w.value;
            source_b = provider;
            value_b = to_value v;
          }
          ∷ ds)

module _ {T Value : Type 0} (eq : T → T → Bool) (lawful : (x y : T) → (eq x y ≡ true) ↔ (x ≡ y))
    (to_value : T → Value) (entity : DisagreementEntity) (field : Field) where
  pub losers-Lost :
      (w : Vote T) (given : List (Text × Option T))
      → Lost to_value entity field w given (losers eq to_value entity field w given)
  unfolding losers
  losers-Lost w [] = lost_none
  losers-Lost w ((provider, none) ∷ given) = lost_silent (losers-Lost w given)
  losers-Lost w ((provider, some v) ∷ given) = elim (Bool-cases (eq v w.value)) [
    | inl same ↦ rw same (
        subst
          (λ (x : T).
            Lost to_value entity field w ((provider, some x) ∷ given)
              (losers eq to_value entity field w given))
          (sym ((lawful v w.value).0 same)) (lost_agreeing (losers-Lost w given)))
    | inr other ↦
        rw other (lost_other (λ e. cc (other, (lawful v w.value).1 e)) (losers-Lost w given))
  ]
