-- ===== src/Extract/Component.antt =====
-- What `sanitize_path_component` makes of a text.
use mathlib.Core.Path.{subst}
use phono_junk.Common.{
  ℕ, ◌<◌, ◌≡◌, ◌≢◌, ◌⊎◌, ◌↔◌, inl, inr, refl, ap, some, [], ◌∷◌, length, get_elem?, get_last?, All,
  Bool, true, false, Bool-cases, arith,
}
use phono_junk.Common.Hex.{Text}
use phono_junk.Extract.{is_whitespace, is_trimmed, sanitize_path_component}
use phono_junk.Extract.Clean.{Clean, blank, IsKept, sanitized, component_kept}
use phono_junk.Extract.Permitted.{
  Permitted, Permitted-is_whitespace, clean_char-Permitted, Permitted-clean_char,
}

-- No two blanks in a row.
abbrev pub Singly : Text → Type 0
Singly [] = Unit
Singly (c ∷ cs) = ((c ≢ 32) ⊎ (get_elem? cs 0 ≢ some 32)) × Singly cs

-- A name that file systems take: not empty, of permitted characters, with single blanks only, and with
-- neither a blank nor a dot at its ends.
pub record IsComponent (s : Text) : Type 0 where
  pub nonempty : 0 < length s
  pub permitted : All Permitted s
  pub spaced : Singly s
  pub first : (get_elem? s 0 ≢ some 32) × (get_elem? s 0 ≢ some b'.')
  pub last : (get_last? s ≢ some 32) × (get_last? s ≢ some b'.')

Clean-Permitted : (after_space : Bool) (s : Text) → Clean after_space s → All Permitted s
Clean-Permitted after_space [] h = tt
Clean-Permitted after_space (c ∷ cs) h =
    ((clean_char-Permitted after_space c h.0).0, Clean-Permitted (is_whitespace c) cs h.1)

Clean-Singly : (after_space : Bool) (s : Text) → Clean after_space s → Singly s
Clean-Singly after_space [] h = tt
Clean-Singly after_space (c ∷ []) h = (inr (λ e. cc e), tt)
Clean-Singly after_space (c ∷ d ∷ ds) h =
    let rest = Clean-Singly (is_whitespace c) (d ∷ ds) h.1 in
    elim (clean_char-Permitted (is_whitespace c) d h.1.0).1 [
      | inl plain ↦ (inl (λ e. cc (ap is_whitespace e, blank, plain)), rest)
      | inr other ↦ (inr (λ e. other (cc e)), rest)
    ]

-- What follows a character is no second blank.
after_lem :
    (c : ℕ) (cs : Text)
    → Permitted c
    → (c ≢ 32) ⊎ (get_elem? cs 0 ≢ some 32)
    → (is_whitespace c ≡ false) ⊎ (get_elem? cs 0 ≢ some 32)
after_lem c cs p (inr other) = inr other
after_lem c cs p (inl other) = elim (Bool-cases (is_whitespace c)) [
  | inl w ↦ absurd (other (Permitted-is_whitespace c p w))
  | inr n ↦ inl n
]

head_lem :
    (b : Bool) (c : ℕ) (cs : Text)
    → (b ≡ false) ⊎ (get_elem? (c ∷ cs) 0 ≢ some 32)
    → (b ≡ false) ⊎ (c ≢ 32)
head_lem b c cs (inl first) = inl first
head_lem b c cs (inr other) = inr (λ e. other (ap some e))

Singly-Clean :
    (after_space : Bool) (s : Text)
    → All Permitted s
    → Singly s
    → (after_space ≡ false) ⊎ (get_elem? s 0 ≢ some 32)
    → Clean after_space s
Singly-Clean after_space [] p h k = tt
Singly-Clean after_space (c ∷ cs) p h k = (
  Permitted-clean_char after_space c p.0 (head_lem after_space c cs k),
  Singly-Clean (is_whitespace c) cs p.1 h.1 (after_lem c cs p.0 h.0),
)

-- A character that the trims take, by its code.
trimmed_lem : (c : ℕ) → Permitted c → c ≢ 32 → c ≢ b'.' → is_trimmed c ≡ false
trimmed_lem c p n m = elim (Bool-cases (is_whitespace c)) [
  | inl w ↦ absurd (n (Permitted-is_whitespace c p w))
  | inr w ↦ rw w (ground (arith, m))
]

first-Permitted : (s : Text) (c : ℕ) → All Permitted s → get_elem? s 0 ≡ some c → Permitted c
first-Permitted [] c p e = cc e
first-Permitted (x ∷ xs) c p e = subst Permitted (cc e) p.0

last-Permitted : (s : Text) (c : ℕ) → All Permitted s → get_last? s ≡ some c → Permitted c
last-Permitted [] c p e = cc e
last-Permitted (x ∷ []) c p e = subst Permitted (cc e) p.0
last-Permitted (x ∷ y ∷ xs) c p e = last-Permitted (y ∷ xs) c p.1 e

blank_trimmed : is_trimmed 32 ≡ true
blank_trimmed = rw blank refl

IsKept-IsComponent : (s : Text) → IsKept s → IsComponent s
IsKept-IsComponent s h = record {
  nonempty = h.nonempty;
  permitted = Clean-Permitted false s h.clean;
  spaced = Clean-Singly false s h.clean;
  first = (λ e. cc (blank_trimmed, h.starts 32 e), λ e. cc (h.starts b'.' e));
  last = (λ e. cc (blank_trimmed, h.ends 32 e), λ e. cc (h.ends b'.' e));
}

IsComponent-IsKept : (s : Text) → IsComponent s → IsKept s
IsComponent-IsKept s h = record {
  nonempty = h.nonempty;
  clean = Singly-Clean false s h.permitted h.spaced (inl refl);
  starts = λ c e.
      trimmed_lem c (first-Permitted s c h.permitted e) (λ same. h.first.0 (cc (e, same)))
        (λ same. h.first.1 (cc (e, same)));
  ends = λ c e.
      trimmed_lem c (last-Permitted s c h.permitted e) (λ same. h.last.0 (cc (e, same)))
        (λ same. h.last.1 (cc (e, same)));
}

-- For every text, `sanitize_path_component` gives a name that is not empty, has no character below
-- U+0020, none of `/ \ : * ? " < > |`, no white space but single blanks, and neither a dot nor a
-- blank at its ends; so it is one component of a path, and not `.` or `..`. Such a name, and no
-- other, is left as it is.
pub sanitize_path_component-IsComponent :
    (s : Text)
    → IsComponent (sanitize_path_component s) × ((sanitize_path_component s ≡ s) ↔ IsComponent s)
sanitize_path_component-IsComponent s =
    let result = IsKept-IsComponent (sanitize_path_component s) (sanitized s) in
    (result, (λ e. subst IsComponent e result, λ h. component_kept s (IsComponent-IsKept s h)))
