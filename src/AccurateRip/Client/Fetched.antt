-- ===== src/AccurateRip/Client/Fetched.antt =====
-- What a fetched dBAR file is.
use phono_junk.Common.{
  ℕ, ◌^◌, ◌<◌, ◌≡◌, ◌≢◌, ◌↔◌, refl, sym, ap, ◌∙◌, inl, inr, Option, none, some, All, Bool, true,
  false, ◌==◌, ==_iff, Bool-cases, if◌then◌else◌,
}
use mathlib.Core.Path.{subst}
use phono_junk.Common.Outcome.{Outcome, ok, err, ◌>>=◌, ◌>>◌, >>=-eq-ok}
use phono_junk.Common.Hex.{Text, hex, from_str_radix_16-hex}
use phono_junk.Toc.DiscId.{DiscIds}
use phono_junk.AccurateRip.Error.{IdName, ar_discid1, ar_discid2, cddb_id, AccurateRipError}
use phono_junk.AccurateRip.Dbar.{DbarFile, parse, validate_request}
use phono_junk.AccurateRip.Dbar.Requests.{Requested, validate_request_iff}
use phono_junk.AccurateRip.Client.{
  HttpResponse, FetchedDbar, parse_id, dbar_url, read_response, fetch_evidence_at_url, validated,
  fetch_dbar_evidence,
}

parse_id-hex : (n : ℕ) (name : IdName) → n < 2 ^ 32 → parse_id (some (hex false 8 n)) name ≡ ok n
unfolding parse_id
parse_id-hex n name h = rw (from_str_radix_16-hex false n h) refl

-- What a response must be for a file to be taken from it.
abbrev pub Carries : HttpResponse → FetchedDbar → Type 0
Carries resp f = (resp.status ≡ 200) × (f.body ≡ resp.body) × (parse resp.body ≡ ok f.dbar)

taken_from :
    (resp : HttpResponse) (f : FetchedDbar) (dbar : DbarFile)
    → parse resp.body ≡ ok dbar
    → some (record { dbar = dbar; body = resp.body }) ≡ some f
    → (f.body ≡ resp.body) × (parse resp.body ≡ ok f.dbar)
taken_from resp f dbar e same = (cc same, cc (e, same))

not_fetched :
    (test : Bool) (e : AccurateRipError) (f : FetchedDbar)
    → (if test then ok none else err e) ≢ ok (some f)
not_fetched true e f h = cc h
not_fetched false e f h = cc h

read_response-Carries :
    (resp : HttpResponse) (f : FetchedDbar) → read_response resp ≡ ok (some f) → Carries resp f
unfolding read_response
read_response-Carries resp f h = elim (Bool-cases (resp.status == 200)) [
  | inl good ↦
      let (dbar, e, same) = >>=-eq-ok (parse resp.body) _ (rw good at h) in
      let (body, parsed) = taken_from resp f dbar e (cc same) in
      ((==_iff resp.status 200).0 good, body, parsed)
  | inr bad ↦ absurd (not_fetched (resp.status == 404) _ f (rw bad at h))
]

Carries-read_response :
    (resp : HttpResponse) (f : FetchedDbar) → Carries resp f → read_response resp ≡ ok (some f)
unfolding read_response
Carries-read_response resp f h = rw ((==_iff resp.status 200).1 h.0) (rw h.2 (cc h.1))

nothing_taken :
    {A : Type 0} (o : Outcome AccurateRipError (Option A)) (a : A) → o ≡ ok none → o ≢ ok (some a)
nothing_taken o a h k = cc (h, k)

module _ (ids : DiscIds) (track_count id1 id2 cddb : ℕ) (small1 : id1 < 2 ^ 32)
    (small2 : id2 < 2 ^ 32) (small3 : cddb < 2 ^ 32)
    (same1 : ids.ar_discid1 ≡ some (hex false 8 id1))
    (same2 : ids.ar_discid2 ≡ some (hex false 8 id2))
    (same3 : ids.cddb_id ≡ some (hex false 8 cddb)) where
  validated-eq :
      (f : FetchedDbar)
      → validated ids track_count (some f)
        ≡ (validate_request f.dbar track_count id1 id2 cddb >> ok (some f))
  unfolding validated
  validated-eq f = rw same1 (
      rw same2 (
        rw same3 (
          rw (parse_id-hex id1 ar_discid1 small1) (
            rw (parse_id-hex id2 ar_discid2 small2) (rw (parse_id-hex cddb cddb_id small3) refl)))))

  taken_lem :
      (g f : FetchedDbar)
      → (validate_request g.dbar track_count id1 id2 cddb >> ok (some g)) ≡ ok (some f)
      → (some g ≡ some f) × All (Requested track_count id1 id2 cddb) f.dbar.responses
  taken_lem g f h =
      let (done, accepted, same) =
        >>=-eq-ok (validate_request g.dbar track_count id1 id2 cddb) _ h in
      let is_f : g ≡ f = cc same in
      (
        ap some is_f,
        subst (λ (x : FetchedDbar). All (Requested track_count id1 id2 cddb) x.dbar.responses) is_f
            ((validate_request_iff g.dbar track_count id1 id2 cddb).0 accepted),
      )

  validated_sound :
      (o : Option FetchedDbar) (f : FetchedDbar)
      → validated ids track_count o ≡ ok (some f)
      → (o ≡ some f) × All (Requested track_count id1 id2 cddb) f.dbar.responses
  validated_sound none f h =
      absurd (nothing_taken (validated ids track_count none) f (unfold validated in refl) h)
  validated_sound (some g) f h = taken_lem g f (sym (validated-eq g) ∙ h)

  validated_complete :
      (f : FetchedDbar)
      → All (Requested track_count id1 id2 cddb) f.dbar.responses
      → validated ids track_count (some f) ≡ ok (some f)
  validated_complete f h =
      validated-eq f ∙ rw ((validate_request_iff f.dbar track_count id1 id2 cddb).1 h) refl

  fetch_dbar_evidence-read :
      {U : Type 0} (parse_url : Text → Option U) (get : U → Outcome AccurateRipError HttpResponse)
      (url : U) (resp : HttpResponse)
      → dbar_url parse_url get ids track_count ≡ ok url
      → get url ≡ ok resp
      → fetch_dbar_evidence parse_url get ids track_count
        ≡ (read_response resp >>= λ o. validated ids track_count o)
  unfolding fetch_dbar_evidence fetch_evidence_at_url
  fetch_dbar_evidence-read parse_url get url resp at answered = rw at (rw answered refl)

  -- For a disc whose three IDs are the lowercase hexadecimal forms of 32-bit numbers, as `compute_disc_ids`
  -- writes them, and a request that is answered, `fetch_dbar_evidence` gives a file exactly when the
  -- answer's status is 200, its body parses to this file, the body is kept with it, and every response
  -- in the file carries the track count and the three IDs of the disc.
  pub fetch_dbar_evidence_iff :
      {U : Type 0} (parse_url : Text → Option U) (get : U → Outcome AccurateRipError HttpResponse)
      (url : U) (resp : HttpResponse) (f : FetchedDbar)
      → dbar_url parse_url get ids track_count ≡ ok url
      → get url ≡ ok resp
      → (fetch_dbar_evidence parse_url get ids track_count ≡ ok (some f))
        ↔ (Carries resp f × All (Requested track_count id1 id2 cddb) f.dbar.responses)
  fetch_dbar_evidence_iff parse_url get url resp f at answered =
      let read = fetch_dbar_evidence-read parse_url get url resp at answered in
      (
        (λ h.
            let (o, e, valid) = >>=-eq-ok (read_response resp) _ (sym read ∙ h) in
            let (taken, requested) = validated_sound o f valid in
            (read_response-Carries resp f (e ∙ ap ok taken), requested)),
        λ h. read ∙ rw (Carries-read_response resp f h.0) (validated_complete f h.1),
      )
