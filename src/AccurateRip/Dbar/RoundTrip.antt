-- ===== src/AccurateRip/Dbar/RoundTrip.antt =====
-- Parsing the bytes of a dBAR file gives the file back.
use phono_junk.Common.{
  ℕ, zero, suc, ◌+◌, ◌-◌, ◌*◌, ◌/◌, ◌%◌, ◌^◌, ◌≤◌, ◌<◌, ◌≡◌, refl, sym, ap, ◌∙◌,
}
use phono_junk.Common.{
  List, [], ◌∷◌, ◌++◌, length, length-append, length-drop, drop, All, arith, lt→ltb, le→ltb_false,
}
use phono_junk.Common.Outcome.{ok}
use phono_junk.AccurateRip.Dbar.{
  ExpectedChecksum, DbarResponse, DbarFile, from_le_bytes, entries_loop, parse_body, parse_response,
  parse_loop, parse,
}
use phono_junk.AccurateRip.Dbar.Encode.{
  entry_bytes, entries_bytes, header_bytes, responses_bytes, encode, IsEntry, IsResponse, IsFile,
  get_elem?-drop, advance, u32_at-eq,
}

pub from_le_bytes-u32_bytes :
    (n : ℕ)
    → n < 2 ^ 32
    → from_le_bytes (n % 2 ^ 8) (n / 2 ^ 8 % 2 ^ 8) (n / 2 ^ 16 % 2 ^ 8) (n / 2 ^ 24) ≡ n
from_le_bytes-u32_bytes n h = omega arith

module _ (bytes : List ℕ) where
  pub entries_loop-step :
      (left cur c x0 x1 x2 x3 y0 y1 y2 y3 end : ℕ) (rest : List ℕ) (es : List ExpectedChecksum)
      → drop cur bytes ≡ c ∷ x0 ∷ x1 ∷ x2 ∷ x3 ∷ y0 ∷ y1 ∷ y2 ∷ y3 ∷ rest
      → entries_loop bytes left (cur + 9) ≡ ok (end, es)
      → entries_loop bytes (suc left) cur
        ≡ ok (
          end,
          record {
            confidence = c;
            checksum = from_le_bytes x0 x1 x2 x3;
            checksum_450 = from_le_bytes y0 y1 y2 y3;
          }
              ∷ es,
        )
  unfolding entries_loop
  entries_loop-step left cur c x0 x1 x2 x3 y0 y1 y2 y3 end rest es e ih =
      let tail : List ℕ = y0 ∷ y1 ∷ y2 ∷ y3 ∷ rest in
      rw (get_elem?-drop cur bytes c _ e) (
        rw (u32_at-eq bytes (cur + 1) x0 x1 x2 x3 tail (advance bytes cur (c ∷ []) _ e)) (
          rw
            (u32_at-eq bytes (cur + 5) y0 y1 y2 y3 rest
              (advance bytes cur (c ∷ x0 ∷ x1 ∷ x2 ∷ x3 ∷ []) _ e))
            (rw ih)))

  entries_loop-encode :
      (es : List ExpectedChecksum) (cur : ℕ) (rest : List ℕ)
      → All IsEntry es
      → drop cur bytes ≡ entries_bytes es ++ rest
      → entries_loop bytes (length es) cur ≡ ok (cur + 9 * length es, es)
  entries_loop-encode [] cur rest h e =
      unfold entries_loop in λ i. ok ((let z : cur ≡ cur + 0 = omega arith in z) i, [])
  entries_loop-encode (x ∷ es) cur rest h e =
      let ih =
        entries_loop-encode es (cur + 9) rest h.1
          (advance bytes cur (entry_bytes x) (entries_bytes es ++ rest) e) in
      entries_loop-step (length es) cur x.confidence _ _ _ _ _ _ _ _ _ (entries_bytes es ++ rest) es
        e ih
      ∙ (λ i. ok (
        (let z : cur + 9 + 9 * length es ≡ cur + 9 * suc (length es) = omega arith in z) i,
        record {
          confidence = x.confidence;
          checksum = from_le_bytes-u32_bytes x.checksum h.0.1 i;
          checksum_450 = from_le_bytes-u32_bytes x.checksum_450 h.0.2 i;
        }
            ∷ es,
      ))

  -- A complete header is read, and the body follows it.
  pub parse_response-header :
      (cur tc a0 a1 a2 a3 b0 b1 b2 b3 c0 c1 c2 c3 : ℕ) (rest : List ℕ)
      → drop cur bytes ≡ tc ∷ a0 ∷ a1 ∷ a2 ∷ a3 ∷ b0 ∷ b1 ∷ b2 ∷ b3 ∷ c0 ∷ c1 ∷ c2 ∷ c3 ∷ rest
      → parse_response bytes cur
        ≡ parse_body bytes
            (cur + 13)
            tc
            (from_le_bytes a0 a1 a2 a3)
            (from_le_bytes b0 b1 b2 b3)
            (from_le_bytes c0 c1 c2 c3)
  unfolding parse_response
  parse_response-header cur tc a0 a1 a2 a3 b0 b1 b2 b3 c0 c1 c2 c3 rest e =
      let bs : List ℕ = b0 ∷ b1 ∷ b2 ∷ b3 ∷ c0 ∷ c1 ∷ c2 ∷ c3 ∷ rest in
      let cs : List ℕ = c0 ∷ c1 ∷ c2 ∷ c3 ∷ rest in
      let header : 13 ≤ length bytes - cur = omega (arith, ap length e, length-drop cur bytes) in
      rw (le→ltb_false (length bytes - cur) 13 header) (
        rw (get_elem?-drop cur bytes tc _ e) (
          rw (u32_at-eq bytes (cur + 1) a0 a1 a2 a3 bs (advance bytes cur (tc ∷ []) _ e)) (
            rw
              (u32_at-eq bytes (cur + 5) b0 b1 b2 b3 cs
                (advance bytes cur (tc ∷ a0 ∷ a1 ∷ a2 ∷ a3 ∷ []) _ e))
              (rw (
                u32_at-eq bytes (cur + 9) c0 c1 c2 c3 rest
                  (advance bytes cur (tc ∷ a0 ∷ a1 ∷ a2 ∷ a3 ∷ b0 ∷ b1 ∷ b2 ∷ b3 ∷ []) _ e))))))

  pub parse_body-read :
      (cur tc id1 id2 cddb end : ℕ) (rest : List ℕ) (es : List ExpectedChecksum)
      → drop cur bytes ≡ rest
      → 9 * tc ≤ length rest
      → entries_loop bytes tc cur ≡ ok (end, es)
      → parse_body bytes cur tc id1 id2 cddb
        ≡ ok (
          end,
          record { track_count = tc; ar_id1 = id1; ar_id2 = id2; cddb_id = cddb; tracks = es },
        )
  unfolding parse_body
  parse_body-read cur tc id1 id2 cddb end rest es e room ih =
      let enough : tc * 9 ≤ length bytes - cur =
        omega (arith, ap length e, length-drop cur bytes) in
      rw (le→ltb_false (length bytes - cur) (tc * 9) enough) (rw ih)

  pub length-entries_bytes :
      (es : List ExpectedChecksum) → length (entries_bytes es) ≡ 9 * length es
  length-entries_bytes [] = omega arith
  length-entries_bytes (e ∷ es) = omega (arith, length-entries_bytes es)

  parse_response-encode :
      (r : DbarResponse) (cur : ℕ) (rest : List ℕ)
      → IsResponse r
      → drop cur bytes ≡ header_bytes r ++ (entries_bytes r.tracks ++ rest)
      → parse_response bytes cur ≡ ok (cur + 13 + 9 * length r.tracks, r)
  parse_response-encode r cur rest h e =
      let count : r.track_count ≡ length r.tracks = sym h.count in
      let room : 9 * r.track_count ≤ length (entries_bytes r.tracks ++ rest) = omega (
        arith,
        h.count,
        length-append (entries_bytes r.tracks) rest,
        length-entries_bytes r.tracks,
      ) in
      let entries : entries_loop bytes r.track_count (cur + 13)
          ≡ ok (cur + 13 + 9 * length r.tracks, r.tracks) =
        rw count (
          entries_loop-encode r.tracks (cur + 13) rest h.entries
            (advance bytes cur (header_bytes r) (entries_bytes r.tracks ++ rest) e)) in
      let left : List ℕ = entries_bytes r.tracks ++ rest in
      parse_response-header cur r.track_count _ _ _ _ _ _ _ _ _ _ _ _ left e
      ∙ parse_body-read (cur + 13) r.track_count _ _ _ _ left r.tracks
          (advance bytes cur (header_bytes r) left e) room entries
      ∙ (λ i. ok (
        cur + 13 + 9 * length r.tracks,
        record {
          track_count = r.track_count;
          ar_id1 = from_le_bytes-u32_bytes r.ar_id1 h.id1_fits i;
          ar_id2 = from_le_bytes-u32_bytes r.ar_id2 h.id2_fits i;
          cddb_id = from_le_bytes-u32_bytes r.cddb_id h.cddb_fits i;
          tracks = r.tracks;
        },
      ))

  pub parse_loop-done :
      (fuel cur : ℕ) → length bytes ≤ cur → parse_loop bytes (suc fuel) cur ≡ ok []
  unfolding parse_loop
  parse_loop-done fuel cur h = rw (le→ltb_false cur (length bytes) h)

  pub parse_loop-step :
      (fuel cur next : ℕ) (r : DbarResponse) (rs : List DbarResponse)
      → cur < length bytes
      → parse_response bytes cur ≡ ok (next, r)
      → parse_loop bytes fuel next ≡ ok rs
      → parse_loop bytes (suc fuel) cur ≡ ok (r ∷ rs)
  unfolding parse_loop
  parse_loop-step fuel cur next r rs h e ih = rw (lt→ltb cur (length bytes) h) (rw e (rw ih))

  parse_loop-encode :
      (rs : List DbarResponse) (fuel cur : ℕ)
      → All IsResponse rs
      → drop cur bytes ≡ responses_bytes rs
      → length (responses_bytes rs) < fuel
      → parse_loop bytes fuel cur ≡ ok rs
  parse_loop-encode rs zero cur h e enough = elim enough [ ]
  parse_loop-encode [] (suc fuel) cur h e enough =
      parse_loop-done fuel cur (omega (arith, ap length e, length-drop cur bytes))
  parse_loop-encode (r ∷ rs) (suc fuel) cur h e enough =
      let rest : List ℕ = responses_bytes rs in
      let total : length (responses_bytes (r ∷ rs)) ≡ 13 + 9 * length r.tracks + length rest =
        omega (arith, length-append (entries_bytes r.tracks) rest, length-entries_bytes r.tracks) in
      let next : drop (cur + 13 + 9 * length r.tracks) bytes ≡ rest =
        rw (← length-entries_bytes r.tracks) (
          advance bytes (cur + 13) (entries_bytes r.tracks) rest
            (advance bytes cur (header_bytes r) (entries_bytes r.tracks ++ rest) e)) in
      parse_loop-step fuel cur (cur + 13 + 9 * length r.tracks) r rs
        (omega (arith, ap length e, length-drop cur bytes, total))
        (parse_response-encode r cur rest h.0 e)
        (parse_loop-encode rs fuel (cur + 13 + 9 * length r.tracks) h.1 next (omega arith))

-- Parsing the bytes of any file whose fields fit their widths, and whose responses hold an entry
-- for each track, gives the file back.
pub parse-encode : (file : DbarFile) → IsFile file → parse (encode file) ≡ ok file
unfolding parse encode
parse-encode file h = rw (
    parse_loop-encode (responses_bytes file.responses) file.responses
      (suc (length (responses_bytes file.responses))) 0 h refl (omega arith))
