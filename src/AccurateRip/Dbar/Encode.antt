-- ===== src/AccurateRip/Dbar/Encode.antt =====
-- The wire format of a dBAR file, as the header comment of phono-junk-accuraterip/src/dbar.rs
-- gives it, and reads at a cursor in terms of the bytes that are left.
use phono_junk.Common.{ℕ, zero, suc, ◌+◌, ◌-◌, ◌/◌, ◌%◌, ◌^◌, ◌<◌, ◌≡◌, ap, some}
use phono_junk.Common.{
  List, [], ◌∷◌, ◌++◌, length, length-drop, get_elem?, drop, All, arith, le→leb,
}
use phono_junk.Common.Outcome.{ok}
use phono_junk.AccurateRip.Dbar.{ExpectedChecksum, DbarResponse, DbarFile, u32_at, from_le_bytes}

abbrev pub u32_bytes : ℕ → List ℕ
u32_bytes n = n % 2 ^ 8 ∷ n / 2 ^ 8 % 2 ^ 8 ∷ n / 2 ^ 16 % 2 ^ 8 ∷ n / 2 ^ 24 ∷ []

abbrev pub entry_bytes : ExpectedChecksum → List ℕ
entry_bytes e = e.confidence ∷ (u32_bytes e.checksum ++ u32_bytes e.checksum_450)

abbrev pub entries_bytes : List ExpectedChecksum → List ℕ
entries_bytes [] = []
entries_bytes (e ∷ es) = entry_bytes e ++ entries_bytes es

abbrev pub header_bytes : DbarResponse → List ℕ
header_bytes r = r.track_count ∷ (u32_bytes r.ar_id1 ++ (u32_bytes r.ar_id2 ++ u32_bytes r.cddb_id))

abbrev pub responses_bytes : List DbarResponse → List ℕ
responses_bytes [] = []
responses_bytes (r ∷ rs) = header_bytes r ++ (entries_bytes r.tracks ++ responses_bytes rs)

-- The bytes of a file: its responses one after the other, with no length in front.
unfoldable pub encode : DbarFile → List ℕ
encode file = responses_bytes file.responses

abbrev pub IsEntry : ExpectedChecksum → Type 0
IsEntry e = (e.confidence < 2 ^ 8) × (e.checksum < 2 ^ 32) × (e.checksum_450 < 2 ^ 32)

-- The ranges of the fields, and an entry for each track.
pub record IsResponse (r : DbarResponse) : Type 0 where
  pub count : length r.tracks ≡ r.track_count
  pub count_fits : r.track_count < 2 ^ 8
  pub id1_fits : r.ar_id1 < 2 ^ 32
  pub id2_fits : r.ar_id2 < 2 ^ 32
  pub cddb_fits : r.cddb_id < 2 ^ 32
  pub entries : All IsEntry r.tracks

abbrev pub IsFile : DbarFile → Type 0
IsFile file = All IsResponse file.responses

abbrev pub AreBytes : List ℕ → Type 0
AreBytes bytes = All (λ b. b < 2 ^ 8) bytes

module _ {ℓ} {A : Type ℓ} where
  drop-suc : (n : ℕ) (xs : List A) (x : A) (ys : List A) → drop n xs ≡ x ∷ ys → drop (suc n) xs ≡ ys
  drop-suc zero [] x ys e = cc
  drop-suc zero (y ∷ xs) x ys e = cc e
  drop-suc (suc n) [] x ys e = cc
  drop-suc (suc n) (y ∷ xs) x ys e = drop-suc n xs x ys e

  pub get_elem?-drop :
      (n : ℕ) (xs : List A) (x : A) (ys : List A) → drop n xs ≡ x ∷ ys → get_elem? xs n ≡ some x
  get_elem?-drop zero [] x ys e = cc
  get_elem?-drop zero (y ∷ xs) x ys e = cc e
  get_elem?-drop (suc n) [] x ys e = cc
  get_elem?-drop (suc n) (y ∷ xs) x ys e = get_elem?-drop n xs x ys e

-- What is left after the cursor moved on by some bytes.
pub advance :
    (bytes : List ℕ) (cur : ℕ) (front rest : List ℕ)
    → drop cur bytes ≡ front ++ rest
    → drop (cur + length front) bytes ≡ rest
advance bytes cur [] rest e = let z : cur + 0 ≡ cur = omega arith in rw z e
advance bytes cur (b ∷ front) rest e =
    let z : cur + suc (length front) ≡ suc cur + length front = omega arith in
    rw z (advance bytes (suc cur) front rest (drop-suc cur bytes b (front ++ rest) e))

-- A 32-bit read takes the next four bytes.
pub u32_at-eq :
    (bytes : List ℕ) (cur b0 b1 b2 b3 : ℕ) (rest : List ℕ)
    → drop cur bytes ≡ b0 ∷ b1 ∷ b2 ∷ b3 ∷ rest
    → u32_at bytes cur ≡ ok (from_le_bytes b0 b1 b2 b3)
unfolding u32_at
u32_at-eq bytes cur b0 b1 b2 b3 rest e =
    let size : 4 + length rest ≡ length bytes - cur =
      omega (arith, ap length e, length-drop cur bytes) in
    let four : cur + 4 - cur ≡ 4 = omega arith in
    rw (le→leb cur (cur + 4) (omega arith))
      (rw (le→leb (cur + 4) (length bytes) (omega arith)) (rw four (rw e)))
