-- ===== src/AccurateRip/Dbar/Rounds.antt =====
-- One round of the dBAR parser: whatever bytes are left, it refuses them or reads a response.
use phono_junk.Common.{
  ℕ, zero, suc, ◌+◌, ◌-◌, ◌*◌, ◌/◌, ◌%◌, ◌^◌, ◌≤◌, ◌<◌, ◌≡◌, inl, inr, refl, sym, ap, ◌∙◌,
}
use phono_junk.Common.{List, [], ◌∷◌, ◌++◌, length, length-drop, drop, All, arith, lt→ltb, le_or_lt}
use phono_junk.Common.Outcome.{ok, err}
use phono_junk.AccurateRip.Error.{
  AccurateRipError, parse_failed, truncated_header, truncated_entries,
}
use phono_junk.AccurateRip.Dbar.{
  ExpectedChecksum, DbarResponse, from_le_bytes, entries_loop, parse_body, parse_response,
}
use phono_junk.AccurateRip.Dbar.Encode.{
  entries_bytes, header_bytes, IsEntry, IsResponse, AreBytes, advance,
}
use phono_junk.AccurateRip.Dbar.RoundTrip.{
  entries_loop-step, parse_response-header, parse_body-read,
}

bytes_low :
    (a b c d : ℕ)
    → a < 2 ^ 8
    → b < 2 ^ 8
    → c < 2 ^ 8
    → d < 2 ^ 8
    → (from_le_bytes a b c d % 2 ^ 8 ≡ a)
      × (from_le_bytes a b c d / 2 ^ 8 % 2 ^ 8 ≡ b)
      × (from_le_bytes a b c d / 2 ^ 16 % 2 ^ 8 ≡ c)
      × (from_le_bytes a b c d / 2 ^ 24 ≡ d)
      × (from_le_bytes a b c d < 2 ^ 32)
bytes_low a b c d ha hb hc hd = (omega arith, omega arith, omega arith, omega arith, omega arith)

pub All-append_right : (front rest : List ℕ) → AreBytes (front ++ rest) → AreBytes rest
All-append_right [] rest h = h
All-append_right (b ∷ front) rest h = All-append_right front rest h.1

module _ (bytes : List ℕ) where
  -- What the entry loop does when enough bytes are left.
  record EntriesRead (n cur : ℕ) (left : List ℕ) : Type 0 where
    es : List ExpectedChecksum
    rest : List ℕ
    returns : entries_loop bytes n cur ≡ ok (cur + 9 * n, es)
    written : left ≡ entries_bytes es ++ rest
    counted : length es ≡ n
    ranged : All IsEntry es

  entries_read :
      (n cur : ℕ) (left : List ℕ)
      → drop cur bytes ≡ left
      → 9 * n ≤ length left
      → AreBytes left
      → EntriesRead n cur left
  entries_read zero cur left e room h = record {
    es = [];
    rest = left;
    returns = unfold entries_loop in λ i. ok ((let z : cur ≡ cur + 0 = omega arith in z) i, []);
    written = refl;
    counted = refl;
    ranged = tt;
  }
  entries_read (suc n) cur (c ∷ x0 ∷ x1 ∷ x2 ∷ x3 ∷ y0 ∷ y1 ∷ y2 ∷ y3 ∷ left) e room
        (hc, (h0, (h1, (h2, (h3, (k0, (k1, (k2, (k3, h))))))))) =
      let more =
        entries_read n (cur + 9) left
          (advance bytes cur (c ∷ x0 ∷ x1 ∷ x2 ∷ x3 ∷ y0 ∷ y1 ∷ y2 ∷ y3 ∷ []) left e) (omega arith)
          h in
      let (e0, e1, e2, e3, fits_x) = bytes_low x0 x1 x2 x3 h0 h1 h2 h3 in
      let (f0, f1, f2, f3, fits_y) = bytes_low y0 y1 y2 y3 k0 k1 k2 k3 in
      record {
        es =
            record {
              confidence = c;
              checksum = from_le_bytes x0 x1 x2 x3;
              checksum_450 = from_le_bytes y0 y1 y2 y3;
            }
            ∷ more.es;
        rest = more.rest;
        returns =
            entries_loop-step bytes n cur c x0 x1 x2 x3 y0 y1 y2 y3 _ left more.es e more.returns
            ∙ (λ i. ok (
              (let z : cur + 9 + 9 * n ≡ cur + 9 * suc n = omega arith in z) i,
              record {
                confidence = c;
                checksum = from_le_bytes x0 x1 x2 x3;
                checksum_450 = from_le_bytes y0 y1 y2 y3;
              }
                  ∷ more.es,
            ));
        written = λ i.
            c
            ∷ sym e0 i
            ∷ sym e1 i
            ∷ sym e2 i
            ∷ sym e3 i
            ∷ sym f0 i
            ∷ sym f1 i
            ∷ sym f2 i
            ∷ sym f3 i
            ∷ more.written i;
        counted = ap suc more.counted;
        ranged = ((hc, fits_x, fits_y), more.ranged);
      }
  entries_read (suc n) cur _ e room h = absurd (omega arith)

  -- What one round does with the bytes that are left.
  pub data ResponseRead (cur : ℕ) (left : List ℕ) : Type 0 where
    refused : (e : AccurateRipError) → parse_response bytes cur ≡ err e → ResponseRead cur left
    accepted :
        (r : DbarResponse) (rest : List ℕ)
        → parse_response bytes cur ≡ ok (cur + 13 + 9 * length r.tracks, r)
        → left ≡ header_bytes r ++ (entries_bytes r.tracks ++ rest)
        → IsResponse r
        → ResponseRead cur left

  short_header :
      (cur : ℕ) (left : List ℕ) → drop cur bytes ≡ left → length left < 13 → ResponseRead cur left
  short_header cur left e h =
      let few : length bytes - cur < 13 = omega (arith, ap length e, length-drop cur bytes) in
      refused (parse_failed (truncated_header cur (length bytes - cur)))
        (unfold parse_response in rw (lt→ltb (length bytes - cur) 13 few))

  short_body :
      (cur tc id1 id2 cddb : ℕ) (left : List ℕ)
      → drop cur bytes ≡ left
      → length left < 9 * tc
      → parse_body bytes cur tc id1 id2 cddb
        ≡ err (parse_failed (truncated_entries cur (length bytes - cur) (tc * 9) tc))
  unfolding parse_body
  short_body cur tc id1 id2 cddb left e h =
      let few : length bytes - cur < tc * 9 = omega (arith, ap length e, length-drop cur bytes) in
      rw (lt→ltb (length bytes - cur) (tc * 9) few)

  pub response_read :
      (cur : ℕ) (left : List ℕ) → drop cur bytes ≡ left → AreBytes left → ResponseRead cur left
  response_read cur (tc ∷ a0 ∷ a1 ∷ a2 ∷ a3 ∷ b0 ∷ b1 ∷ b2 ∷ b3 ∷ c0 ∷ c1 ∷ c2 ∷ c3 ∷ left) e
        (ht, (h0, (h1, (h2, (h3, (k0, (k1, (k2, (k3, (l0, (l1, (l2, (l3, h))))))))))))) =
      let after : drop (cur + 13) bytes ≡ left =
        advance bytes cur (tc ∷ a0 ∷ a1 ∷ a2 ∷ a3 ∷ b0 ∷ b1 ∷ b2 ∷ b3 ∷ c0 ∷ c1 ∷ c2 ∷ c3 ∷ []) left
          e in
      let header = parse_response-header bytes cur tc a0 a1 a2 a3 b0 b1 b2 b3 c0 c1 c2 c3 left e in
      elim (le_or_lt (9 * tc) (length left)) [
        | inr short ↦
            refused
              (parse_failed (truncated_entries (cur + 13) (length bytes - (cur + 13)) (tc * 9) tc))
              (header ∙ short_body (cur + 13) tc _ _ _ left after short)
        | inl room ↦
            let read = entries_read tc (cur + 13) left after room h in
            let (e0, e1, e2, e3, fits_a) = bytes_low a0 a1 a2 a3 h0 h1 h2 h3 in
            let (f0, f1, f2, f3, fits_b) = bytes_low b0 b1 b2 b3 k0 k1 k2 k3 in
            let (g0, g1, g2, g3, fits_c) = bytes_low c0 c1 c2 c3 l0 l1 l2 l3 in
            let returns =
              header
              ∙ parse_body-read bytes (cur + 13) tc _ _ _ _ left read.es after room read.returns in
            accepted
              (record {
                track_count = tc;
                ar_id1 = from_le_bytes a0 a1 a2 a3;
                ar_id2 = from_le_bytes b0 b1 b2 b3;
                cddb_id = from_le_bytes c0 c1 c2 c3;
                tracks = read.es;
              })
              read.rest (rw read.counted returns)
              (λ i.
                tc
                ∷ sym e0 i
                ∷ sym e1 i
                ∷ sym e2 i
                ∷ sym e3 i
                ∷ sym f0 i
                ∷ sym f1 i
                ∷ sym f2 i
                ∷ sym f3 i
                ∷ sym g0 i
                ∷ sym g1 i
                ∷ sym g2 i
                ∷ sym g3 i
                ∷ read.written i)
              (record {
                count = read.counted;
                count_fits = ht;
                id1_fits = fits_a;
                id2_fits = fits_b;
                cddb_fits = fits_c;
                entries = read.ranged;
              })
      ]
  response_read cur left e h = short_header cur left e (omega arith)
