-- ===== src/AccurateRip/Verify/Best.antt =====
-- `best_confidence` and `best_match` of phono-junk-accuraterip/src/verify.rs.
use phono_junk.Common.{ℕ, ◌≤◌, ◌≡◌, refl, sym, ap, ap₂, ◌∙◌, max, Option, none, some}
use phono_junk.Common.{List, [], ◌∷◌, ◌++◌, leb, le→leb, arith, if◌then◌else◌}
use phono_junk.AccurateRip.Verify.{
  CrcMatch, TrackVerification, max_confidence, best_confidence, max_by_confidence, best_match,
}

abbrev later_max : Option CrcMatch → Option CrcMatch → Option CrcMatch
later_max none later = later
later_max (some a) none = some a
later_max (some a) (some b) = some (if leb a.confidence b.confidence then b else a)

abbrev larger : Option ℕ → Option ℕ → Option ℕ
larger none d = d
larger (some c) none = some c
larger (some c) (some d) = some (max c d)

later_max_assoc :
    (a : CrcMatch) (o p : Option CrcMatch)
    → later_max (some a) (later_max o p) ≡ later_max (later_max (some a) o) p
later_max_assoc a none p = refl
later_max_assoc a (some b) none = refl
later_max_assoc a (some b) (some c) = ground arith

max_by_confidence-cons :
    (m : CrcMatch) (ms : List CrcMatch)
    → max_by_confidence (m ∷ ms) ≡ later_max (some m) (max_by_confidence ms)
unfolding max_by_confidence
max_by_confidence-cons m ms = go (max_by_confidence ms)
  where
    go :
        (o : Option CrcMatch)
        → (elim o [
          | none ↦ some m
          | some b ↦ some (if leb m.confidence b.confidence then b else m)
        ])
          ≡ later_max (some m) o
    go none = refl
    go (some b) = refl

max_by_confidence-append :
    (xs ys : List CrcMatch)
    → max_by_confidence (xs ++ ys) ≡ later_max (max_by_confidence xs) (max_by_confidence ys)
max_by_confidence-append [] ys = unfold max_by_confidence in refl
max_by_confidence-append (x ∷ xs) ys =
    max_by_confidence-cons x (xs ++ ys)
    ∙ ap (later_max (some x)) (max_by_confidence-append xs ys)
    ∙ later_max_assoc x (max_by_confidence xs) (max_by_confidence ys)
    ∙ ap (λ o. later_max o (max_by_confidence ys)) (sym (max_by_confidence-cons x xs))

-- Where the best ARv1 match is at least as confident as the best ARv2 match, `best_match` returns
-- the ARv1 match, also when the two confidences are equal.
pub best_match_tie :
    (t : TrackVerification) (a b : CrcMatch)
    → max_by_confidence t.v2_matches ≡ some a
    → max_by_confidence t.v1_matches ≡ some b
    → a.confidence ≤ b.confidence
    → best_match t ≡ some b
unfolding best_match
best_match_tie t a b p q h =
    max_by_confidence-append t.v2_matches t.v1_matches
    ∙ ap₂ later_max p q
    ∙ rw (le→leb a.confidence b.confidence h)

abbrev pub confidence_of : Option CrcMatch → Option ℕ
confidence_of none = none
confidence_of (some m) = some m.confidence

later_max-confidence :
    (o p : Option CrcMatch)
    → confidence_of (later_max o p) ≡ larger (confidence_of o) (confidence_of p)
later_max-confidence none p = refl
later_max-confidence (some a) none = refl
later_max-confidence (some a) (some b) = ground arith

larger_comm : (c d : Option ℕ) → larger c d ≡ larger d c
larger_comm none none = refl
larger_comm none (some d) = refl
larger_comm (some c) none = refl
larger_comm (some c) (some d) = ap some (omega arith)

max_confidence-cons :
    (m : CrcMatch) (ms : List CrcMatch)
    → max_confidence (m ∷ ms) ≡ larger (some m.confidence) (max_confidence ms)
unfolding max_confidence
max_confidence-cons m ms = go (max_confidence ms)
  where
    go :
        (o : Option ℕ)
        → (elim o [ none ↦ some m.confidence | some c ↦ some (max m.confidence c) ])
          ≡ larger (some m.confidence) o
    go none = refl
    go (some c) = refl

max_confidence-eq : (ms : List CrcMatch) → max_confidence ms ≡ confidence_of (max_by_confidence ms)
max_confidence-eq [] = unfold max_by_confidence max_confidence in refl
max_confidence-eq (m ∷ ms) =
    max_confidence-cons m ms
    ∙ ap (larger (some m.confidence)) (max_confidence-eq ms)
    ∙ sym (later_max-confidence (some m) (max_by_confidence ms))
    ∙ ap confidence_of (sym (max_by_confidence-cons m ms))

-- `best_match` has the confidence that `best_confidence` reports, and there is one exactly when the
-- other is, though the two look at the match lists in different orders.
pub best_match-confidence :
    (t : TrackVerification) → confidence_of (best_match t) ≡ best_confidence t
unfolding best_match best_confidence
best_match-confidence t =
    let v1 : Option CrcMatch = max_by_confidence t.v1_matches in
    let v2 : Option CrcMatch = max_by_confidence t.v2_matches in
    ap confidence_of (max_by_confidence-append t.v2_matches t.v1_matches)
    ∙ later_max-confidence v2 v1
    ∙ larger_comm (confidence_of v2) (confidence_of v1)
    ∙ sym (later_max-confidence v1 v2)
    ∙ ap confidence_of (sym (max_by_confidence-append t.v1_matches t.v2_matches))
    ∙ sym (max_confidence-eq (t.v1_matches ++ t.v2_matches))
