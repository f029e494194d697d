-- ===== src/AccurateRip/Dbar/Complete.antt =====
-- Every run of the dBAR parser: no input makes it panic, and what it accepts is the encoding of
-- what it returns.
use phono_junk.Common.{ℕ, zero, suc, ◌+◌, ◌*◌, ◌<◌, ◌≡◌, ◌↔◌, refl, sym, ap, ◌∙◌}
use mathlib.Core.Path.{subst}
use phono_junk.Common.{
  List, [], ◌∷◌, ◌++◌, length, length-append, length-drop, drop, All, arith, lt→ltb,
}
use phono_junk.Common.Outcome.{Outcome, ok, err, panic}
use phono_junk.AccurateRip.Error.{AccurateRipError}
use phono_junk.AccurateRip.Dbar.{DbarResponse, DbarFile, parse_response, parse_loop, parse}
use phono_junk.AccurateRip.Dbar.Encode.{
  entries_bytes, header_bytes, responses_bytes, encode, IsResponse, IsFile, AreBytes, advance,
}
use phono_junk.AccurateRip.Dbar.RoundTrip.{
  parse_loop-step, parse_loop-done, parse-encode, length-entries_bytes,
}
use phono_junk.AccurateRip.Dbar.Rounds.{All-append_right, refused, accepted, response_read}

module _ (bytes : List ℕ) where
  data LoopRead (fuel cur : ℕ) (left : List ℕ) : Type 0 where
    loop_refused :
        (e : AccurateRipError) → parse_loop bytes fuel cur ≡ err e → LoopRead fuel cur left
    loop_accepted :
        (rs : List DbarResponse)
        → parse_loop bytes fuel cur ≡ ok rs
        → left ≡ responses_bytes rs
        → All IsResponse rs
        → LoopRead fuel cur left

  parse_loop-refused :
      (fuel cur : ℕ) (e : AccurateRipError)
      → cur < length bytes
      → parse_response bytes cur ≡ err e
      → parse_loop bytes (suc fuel) cur ≡ err e
  unfolding parse_loop
  parse_loop-refused fuel cur e h r = rw (lt→ltb cur (length bytes) h) (rw r)

  later_refused :
      (fuel cur next : ℕ) (r : DbarResponse) (e : AccurateRipError)
      → cur < length bytes
      → parse_response bytes cur ≡ ok (next, r)
      → parse_loop bytes fuel next ≡ err e
      → parse_loop bytes (suc fuel) cur ≡ err e
  unfolding parse_loop
  later_refused fuel cur next r e h p q = rw (lt→ltb cur (length bytes) h) (rw p (rw q))

  one_more :
      (fuel cur next : ℕ) (left rest : List ℕ) (r : DbarResponse)
      → cur < length bytes
      → parse_response bytes cur ≡ ok (next, r)
      → left ≡ header_bytes r ++ (entries_bytes r.tracks ++ rest)
      → IsResponse r
      → LoopRead fuel next rest
      → LoopRead (suc fuel) cur left
  one_more fuel cur next left rest r h p written good (loop_refused e q) =
      loop_refused e (later_refused fuel cur next r e h p q)
  one_more fuel cur next left rest r h p written good (loop_accepted rs q more all) =
      loop_accepted (r ∷ rs) (parse_loop-step bytes fuel cur next r rs h p q)
        (written ∙ ap (λ (t : List ℕ). header_bytes r ++ (entries_bytes r.tracks ++ t)) more)
        (good, all)

  loop_read :
      (fuel cur : ℕ) (left : List ℕ)
      → drop cur bytes ≡ left
      → AreBytes left
      → length left < fuel
      → LoopRead fuel cur left
  loop_read zero cur left e h enough = elim enough [ ]
  loop_read (suc fuel) cur [] e h enough =
      let done =
        parse_loop-done bytes fuel cur (omega (arith, ap length e, length-drop cur bytes)) in
      loop_accepted [] done refl tt
  loop_read (suc fuel) cur (b ∷ left) e h enough =
      let inside : cur < length bytes = omega (arith, ap length e, length-drop cur bytes) in
      elim (response_read bytes cur (b ∷ left) e h) [
        | refused error r ↦ loop_refused error (parse_loop-refused fuel cur error inside r)
        | accepted r rest p written good ↦
            let tail : List ℕ = entries_bytes r.tracks ++ rest in
            let at_rest : drop (cur + 13 + 9 * length r.tracks) bytes ≡ rest =
              rw (← length-entries_bytes bytes r.tracks) (
                advance bytes (cur + 13) (entries_bytes r.tracks) rest
                  (advance bytes cur (header_bytes r) tail (e ∙ written))) in
            let rest_bytes : AreBytes rest =
              All-append_right (entries_bytes r.tracks) rest
                (All-append_right (header_bytes r) tail (subst AreBytes written h)) in
            let shorter : length rest < length (b ∷ left) =
              omega (arith, ap length written, length-append (entries_bytes r.tracks) rest) in
            one_more fuel cur (cur + 13 + 9 * length r.tracks) (b ∷ left) rest r inside p written
              good
              (loop_read fuel (cur + 13 + 9 * length r.tracks) rest at_rest rest_bytes
                (omega arith))
      ]

-- What a run of the parser on some bytes may return: a file whose encoding they are, or an error.
abbrev pub Explains : List ℕ → Outcome AccurateRipError DbarFile → Type 0
Explains bytes (ok file) = IsFile file × (encode file ≡ bytes)
Explains bytes (err e) = Unit
Explains bytes panic = ⊥

parse-of-loop :
    (bytes : List ℕ) → LoopRead bytes (suc (length bytes)) 0 bytes → Explains bytes (parse bytes)
unfolding parse encode
parse-of-loop bytes (loop_refused e r) = rw r tt
parse-of-loop bytes (loop_accepted rs r written all) = rw r (all, sym written)

-- The parser returns on every sequence of bytes: its fuel is enough and no read is out of range. It
-- returns an error, or a file whose fields fit their widths, with an entry for each track, and
-- whose encoding is exactly the input.
pub parse-Explains : (bytes : List ℕ) → AreBytes bytes → Explains bytes (parse bytes)
parse-Explains bytes h =
    parse-of-loop bytes (loop_read bytes (suc (length bytes)) 0 bytes refl h (omega arith))

-- The parser accepts exactly the encodings of well-formed files, and returns the file encoded.
pub parse-ok_iff :
    (bytes : List ℕ) (file : DbarFile)
    → AreBytes bytes
    → (parse bytes ≡ ok file) ↔ (IsFile file × (encode file ≡ bytes))
parse-ok_iff bytes file h = (
  (λ e. subst (Explains bytes) e (parse-Explains bytes h)),
  (λ (good, same). rw (← same) (parse-encode file good)),
)
