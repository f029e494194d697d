-- ===== src/Extract/Permitted.antt =====
-- The characters of a component of a path, described by their codes.
use phono_junk.Common.{
  ℕ, ◌≤◌, ◌<◌, ◌≡◌, ◌≢◌, ◌⊎◌, inl, inr, refl, ap, List, [], ◌∷◌, All, Bool, true, false, Bool-cases,
  arith,
}
use phono_junk.Common.Text.{codes}
use phono_junk.Extract.{is_whitespace, is_illegal}
use phono_junk.Extract.Clean.{clean_char, blank, kept_space}

-- Not in a range of codes.
abbrev pub Outside : ℕ → ℕ × ℕ → Type 0
Outside c range = (c < range.0) ⊎ (range.1 < c)

-- The ranges of the white-space characters of Unicode above the blank.
abbrev pub other_spaces : List (ℕ × ℕ)
other_spaces =
    (133, 133)
    ∷ (160, 160)
    ∷ (5760, 5760)
    ∷ (8192, 8202)
    ∷ (8232, 8233)
    ∷ (8239, 8239)
    ∷ (8287, 8287)
    ∷ (12288, 12288)
    ∷ []

-- Not below the blank, none of the characters that separate or that file systems refuse, and no white
-- space but the blank.
abbrev pub Permitted : ℕ → Type 0
Permitted c =
    (32 ≤ c)
    × All (λ (f : ℕ). c ≢ f) (codes "/\\:*?\"<>|")
    × All (λ (r : ℕ × ℕ). Outside c r) other_spaces

unspaced : (c : ℕ) → is_whitespace c ≡ false → All (λ (r : ℕ × ℕ). Outside c r) other_spaces
unfolding is_whitespace
unspaced c h = (
  ground (arith, h),
  (
    ground (arith, h),
    (
      ground (arith, h),
      (
        ground (arith, h),
        (ground (arith, h), (ground (arith, h), (ground (arith, h), (ground (arith, h), tt)))),
      ),
    ),
  ),
)

legal : (c : ℕ) → is_illegal c ≡ false → All (λ (f : ℕ). c ≢ f) (codes "/\\:*?\"<>|")
unfolding is_illegal
legal c h = (
  λ e. ground (arith, h, e),
  (
    λ e. ground (arith, h, e),
    (
      λ e. ground (arith, h, e),
      (
        λ e. ground (arith, h, e),
        (
          λ e. ground (arith, h, e),
          (
            λ e. ground (arith, h, e),
            (
              λ e. ground (arith, h, e),
              (λ e. ground (arith, h, e), (λ e. ground (arith, h, e), tt)),
            ),
          ),
        ),
      ),
    ),
  ),
)

-- The only white space permitted is the blank.
pub Permitted-is_whitespace : (c : ℕ) → Permitted c → is_whitespace c ≡ true → c ≡ 32
unfolding is_whitespace
Permitted-is_whitespace c h w =
    let (low, ill, (a, (b, (d, (e, (f, (g, (i, (j, u))))))))) = h in
    ground (arith, low, a, b, d, e, f, g, i, j, w)

Permitted-is_illegal : (c : ℕ) → Permitted c → is_illegal c ≡ false
unfolding is_illegal
Permitted-is_illegal c h =
    let (low, (a, (b, (d, (e, (f, (g, (i, (j, (k, u))))))))), out) = h in
    ground (arith, low, a, b, d, e, f, g, i, j, k)

blank-Permitted : Permitted 32
blank-Permitted = (
  omega arith,
  legal 32 (unfold is_illegal in refl),
  (
    inl (omega arith),
    (
      inl (omega arith),
      (
        inl (omega arith),
        (
          inl (omega arith),
          (inl (omega arith), (inl (omega arith), (inl (omega arith), (inl (omega arith), tt)))),
        ),
      ),
    ),
  ),
)

-- The test of a character, by its code.
pub clean_char-Permitted :
    (after_space : Bool) (c : ℕ)
    → clean_char after_space c ≡ true
    → Permitted c × ((after_space ≡ false) ⊎ (c ≢ 32))
clean_char-Permitted after_space c h = elim (Bool-cases (is_whitespace c)) [
  | inl w ↦
      let (first, same) = kept_space after_space c (rw w at h) in
      (rw same blank-Permitted, inl first)
  | inr n ↦ elim (Bool-cases (is_illegal c)) [
    | inl i ↦ absurd (cc (rw (n, i) at h))
    | inr l ↦ (
      (ground (arith, rw (n, l) at h), legal c l, unspaced c n),
      inr (λ e. cc (ap is_whitespace e, blank, n)),
    )
  ]
]

pub Permitted-clean_char :
    (after_space : Bool) (c : ℕ)
    → Permitted c
    → (after_space ≡ false) ⊎ (c ≢ 32)
    → clean_char after_space c ≡ true
Permitted-clean_char after_space c p h = elim (Bool-cases (is_whitespace c)) [
  | inl w ↦
      let same = Permitted-is_whitespace c p w in
      elim h [
        | inl first ↦ rw w (rw first (ground (arith, same)))
        | inr other ↦ absurd (other same)
      ]
  | inr n ↦ rw n (rw (Permitted-is_illegal c p) (ground (arith, p.0)))
]
