-- ===== src/Extract/Clean.antt =====
-- The texts that `sanitize_path_component` gives, by the tests of the code.
use phono_junk.Common.{
  ℕ, ◌<◌, ◌≡◌, refl, inl, inr, [], ◌∷◌, length, is_empty, Bool, true, false, not, ◌&&◌, ◌||◌, leb,
  ltb, ◌==◌, Bool-cases, if◌then◌else◌, arith,
}
use phono_junk.Common.Hex.{Text}
use phono_junk.Common.Text.{codes}
use phono_junk.Extract.{
  is_whitespace, is_illegal, replaced, collapse, is_trimmed, trim_start, trim_end, or_unknown,
  sanitize_path_component,
}
use phono_junk.Extract.Trim.{
  StartsKept, EndsKept, StartsKept-cons, trim_start-StartsKept, trim_end-EndsKept, trim_start-kept,
  trim_end-kept, trim_end-StartsKept,
}

-- A character that may follow in a component: the only white space is a single blank, and no other
-- character is illegal or a control character.
abbrev pub clean_char : Bool → ℕ → Bool
clean_char after_space c =
    if is_whitespace c then c == 32 && not after_space else not (is_illegal c) && leb 32 c

abbrev pub Clean : Bool → Text → Type 0
Clean after_space [] = Unit
Clean after_space (c ∷ cs) = (clean_char after_space c ≡ true) × Clean (is_whitespace c) cs

-- Facts on the tests that leave them closed.
pub blank : is_whitespace 32 ≡ true
unfolding is_whitespace
blank = refl

underscore : (is_whitespace b'_' ≡ false) × (is_illegal b'_' ≡ false)
unfolding is_whitespace is_illegal
underscore = (refl, refl)

replaced-eq : (c : ℕ) → replaced c ≡ (if is_illegal c || ltb c 32 then b'_' else c)
unfolding replaced
replaced-eq c = refl

clean_later : (c : ℕ) → clean_char true c ≡ true → clean_char false c ≡ true
clean_later c h = elim (Bool-cases (is_whitespace c)) [
  | inl w ↦ rw w (ground (arith, rw w at h))
  | inr n ↦ rw n (rw n at h)
]

Clean-later : (after_space : Bool) (s : Text) → Clean after_space s → Clean false s
Clean-later false s h = h
Clean-later true [] h = h
Clean-later true (c ∷ cs) h = (clean_later c h.0, h.1)

not_illegal : (i l : Bool) → (i || l) ≡ false → (not i ≡ true) × (l ≡ false)
not_illegal true l h = cc h
not_illegal false l h = (refl, h)

replaced_plain :
    (after_space : Bool) (c : ℕ)
    → is_whitespace c ≡ false
    → (is_whitespace (replaced c) ≡ false) × (clean_char after_space (replaced c) ≡ true)
replaced_plain after_space c h = elim (Bool-cases (is_illegal c || ltb c 32)) [
  | inl r ↦ rw (replaced-eq c) (rw r (underscore.0, rw underscore.0 (rw underscore.1 refl)))
  | inr k ↦
      let (legal, high) = not_illegal (is_illegal c) (ltb c 32) k in
      let printable : leb 32 c ≡ true = ground (arith, high) in
      rw (replaced-eq c) (rw k (h, rw h (rw legal printable)))
]

spaced_lem : (b : Bool) (rest : Text) → Clean true rest → Clean b (if b then rest else b' ' ∷ rest)
spaced_lem true rest h = h
spaced_lem false rest h = (rw blank refl, rw blank h)

collapse-Clean : (after_space : Bool) (s : Text) → Clean after_space (collapse after_space s)
unfolding collapse
collapse-Clean after_space [] = tt
collapse-Clean after_space (c ∷ cs) = elim (Bool-cases (is_whitespace c)) [
  | inl w ↦ rw w (spaced_lem after_space (collapse true cs) (collapse-Clean true cs))
  | inr n ↦
      let (plain, clean) = replaced_plain after_space c n in
      rw n (clean, rw plain (collapse-Clean false cs))
]

pub kept_space : (b : Bool) (c : ℕ) → (c == 32 && not b) ≡ true → (b ≡ false) × (c ≡ 32)
kept_space true c h = absurd (ground (arith, h))
kept_space false c h = (refl, ground (arith, h))

kept_char : (c : ℕ) → (not (is_illegal c) && leb 32 c) ≡ true → replaced c ≡ c
kept_char c h = elim (Bool-cases (is_illegal c)) [
  | inl i ↦ absurd (cc (rw i at h))
  | inr n ↦
      let high : ltb c 32 ≡ false = ground (arith, rw n at h) in
      rw (replaced-eq c) (rw n (rw high refl))
]

collapse-kept : (after_space : Bool) (s : Text) → Clean after_space s → collapse after_space s ≡ s
unfolding collapse
collapse-kept after_space [] h = refl
collapse-kept after_space (c ∷ cs) h = elim (Bool-cases (is_whitespace c)) [
  | inl w ↦
      let (first_space, same) = kept_space after_space c (rw w at h.0) in
      let rest : collapse true cs ≡ cs = collapse-kept true cs (rw w at h.1) in
      rw w (rw first_space (cc (rest, same)))
  | inr n ↦
      let same = kept_char c (rw n at h.0) in
      let rest : collapse false cs ≡ cs = collapse-kept false cs (rw n at h.1) in
      rw n (cc (rest, same))
]

trim_start-Clean : (s : Text) → Clean false s → Clean false (trim_start s)
unfolding trim_start
trim_start-Clean [] h = h
trim_start-Clean (c ∷ cs) h = elim (Bool-cases (is_trimmed c)) [
  | inl t ↦ rw t (trim_start-Clean cs (Clean-later (is_whitespace c) cs h.1))
  | inr n ↦ rw n h
]

trim_end-Clean :
    (after_space : Bool) (s : Text) → Clean after_space s → Clean after_space (trim_end s)
unfolding trim_end
trim_end-Clean after_space [] h = h
trim_end-Clean after_space (c ∷ cs) h = elim (Bool-cases (is_empty (trim_end cs) && is_trimmed c)) [
  | inl t ↦ rw t tt
  | inr n ↦ rw n (h.0, trim_end-Clean (is_whitespace c) cs h.1)
]

-- What all passes of the code leave as it is.
pub record IsKept (s : Text) : Type 0 where
  pub nonempty : 0 < length s
  pub clean : Clean false s
  pub starts : StartsKept s
  pub ends : EndsKept s

unknown-IsKept : IsKept (codes "Unknown")
unfolding is_whitespace is_illegal
unknown-IsKept = record {
  nonempty = omega arith;
  clean = (refl, (refl, (refl, (refl, (refl, (refl, (refl, tt)))))));
  starts = StartsKept-cons b'U' (codes "nknown") refl;
  ends = StartsKept-cons b'n' [] refl;
}

or_unknown-IsKept : (s : Text) → Clean false s → StartsKept s → EndsKept s → IsKept (or_unknown s)
or_unknown-IsKept [] h k l = unknown-IsKept
or_unknown-IsKept (c ∷ cs) h k l = record {
  nonempty = omega arith;
  clean = h;
  starts = k;
  ends = l;
}

pub sanitized : (s : Text) → IsKept (sanitize_path_component s)
unfolding sanitize_path_component
sanitized s =
    let t = trim_start (collapse false s) in
    or_unknown-IsKept (trim_end t)
      (trim_end-Clean false t (trim_start-Clean (collapse false s) (collapse-Clean false s)))
      (trim_end-StartsKept t (trim_start-StartsKept (collapse false s))) (trim_end-EndsKept t)

or_unknown-nonempty : (s : Text) → 0 < length s → or_unknown s ≡ s
or_unknown-nonempty [] h = absurd (omega arith)
or_unknown-nonempty (c ∷ cs) h = refl

pub component_kept : (s : Text) → IsKept s → sanitize_path_component s ≡ s
unfolding sanitize_path_component
component_kept s h = rw (collapse-kept false s h.clean) (
    rw (trim_start-kept s h.starts)
      (rw (trim_end-kept s h.ends) (or_unknown-nonempty s h.nonempty)))
