-- ===== src/Gmap/Routes/Private.antt =====
-- Who reaches a mailbox over src/titlani/gmap/handler.py.
use titlani.Base.{
  Bool, true, false, ◌||◌, List, [], ◌∷◌, Option, none, some, ◌≡◌, ◌≢◌, refl, ap, sym, ◌∙◌, arith,
  ◌⊎◌, inl, inr, Bool-cases, Option-cases, Result, ok, err, subst,
}
use titlani.Str.Core.{Text, codes, same, same_iff, starts_with}
use titlani.Runtime.{Runtime}
use titlani.Identity.{extract_identity, normalize_fingerprint}
use titlani.Server.State.{lookup, insert}
use titlani.Server.State.Dict.{lookup-insert_other}
use titlani.Gmap.Mailbox.{GeminiResponse, Raised, reply}
use titlani.Gmap.Routes.Lists.{Directory}
use titlani.Gmap.Request.{GeminiRequest}
use titlani.Gmap.Routes.{
  GmapHandler, is_plain_name, lies_inside, expected_fingerprint, verify_fingerprint,
  authenticate_cert, authenticate, serve, answer, handle_request,
}

module _ (rt : Runtime) (is_before : rt.dt.Time → rt.dt.Time → Bool) (h : GmapHandler)
    (dirs : List (Text × Directory)) where
  open rt use {Cert, certificate_fingerprint}

  -- The certificate names a mailbox that exists, by a plain name inside the mailbox directory, and
  -- has the fingerprint that is registered for it, where any is registered at all.
  pub record IsAuthorised (cert : Cert) (mailbox : Text) (d : Directory) : Type 0 where
    pub named : mailbox ≡ (extract_identity rt cert).mailbox
    pub plain : is_plain_name mailbox ≡ true
    pub inside : lies_inside h mailbox ≡ true
    pub registered :
        (h.recipient_fps ≡ [])
        ⊎ (lookup mailbox h.recipient_fps
            ≡ some (normalize_fingerprint rt (certificate_fingerprint cert)))
    pub found : lookup mailbox dirs ≡ some d

  expected_fingerprint-eq-none :
      (cert : Cert) (o : Option Text)
      → expected_fingerprint rt is_before cert o ≡ none
      → o ≡ some (normalize_fingerprint rt (certificate_fingerprint cert))
  unfolding expected_fingerprint
  expected_fingerprint-eq-none cert none e = cc e
  expected_fingerprint-eq-none cert (some fp) e =
      elim (Bool-cases (same (normalize_fingerprint rt (certificate_fingerprint cert)) fp)) [
        | inl f ↦
            ap some
              (sym ((same_iff (normalize_fingerprint rt (certificate_fingerprint cert)) fp).0 f))
        | inr f ↦ absurd (ground arith)
      ]

  verify_fingerprint-eq-none :
      (fps : List (Text × Text)) (mailbox : Text) (cert : Cert)
      → verify_fingerprint rt is_before fps mailbox cert ≡ none
      → (fps ≡ [])
        ⊎ (lookup mailbox fps ≡ some (normalize_fingerprint rt (certificate_fingerprint cert)))
  unfolding verify_fingerprint
  verify_fingerprint-eq-none [] mailbox cert e = inl refl
  verify_fingerprint-eq-none (p ∷ fps) mailbox cert e =
      inr (expected_fingerprint-eq-none cert (lookup mailbox (p ∷ fps)) e)

  expected_fingerprint-status :
      (cert : Cert) (o : Option Text) {r : GeminiResponse}
      → expected_fingerprint rt is_before cert o ≡ some r
      → r.status ≢ 20
  unfolding expected_fingerprint
  expected_fingerprint-status cert none e = ground arith
  expected_fingerprint-status cert (some fp) e =
      elim (Bool-cases (same (normalize_fingerprint rt (certificate_fingerprint cert)) fp)) [
        | inl f ↦ absurd (ground arith)
        | inr f ↦ ground arith
      ]

  verify_fingerprint-status :
      (fps : List (Text × Text)) (mailbox : Text) (cert : Cert) {r : GeminiResponse}
      → verify_fingerprint rt is_before fps mailbox cert ≡ some r
      → r.status ≢ 20
  unfolding verify_fingerprint
  verify_fingerprint-status [] mailbox cert e = absurd (cc e)
  verify_fingerprint-status (p ∷ fps) mailbox cert e =
      expected_fingerprint-status cert (lookup mailbox (p ∷ fps)) e

  abbrev Verdict : Cert → Result GeminiResponse (Text × Directory) → Type 0
  Verdict cert (err r) = r.status ≢ 20
  Verdict cert (ok (mailbox, d)) = IsAuthorised cert mailbox d

  authenticate_cert-Verdict :
      (cert : Cert) → Verdict cert (authenticate_cert rt is_before h dirs cert)
  unfolding authenticate_cert
  authenticate_cert-Verdict cert =
      let identity = extract_identity rt cert in
      elim (Bool-cases (same identity.mailbox [] || same identity.hostname [])) [
        | inl a ↦ rw (authenticate_cert, a) (ground arith)
        | inr a ↦ elim (Bool-cases (is_plain_name identity.mailbox)) [
          | inr b ↦ rw (authenticate_cert, a, b) (ground arith)
          | inl b ↦
              elim (Option-cases
                (verify_fingerprint rt is_before h.recipient_fps identity.mailbox cert)) [
                  | inr (r, c) ↦
                      rw (authenticate_cert, a, b, c)
                        (verify_fingerprint-status h.recipient_fps identity.mailbox cert c)
                  | inl c ↦ elim (Bool-cases (lies_inside h identity.mailbox)) [
                    | inr d ↦ rw (authenticate_cert, a, b, c, d) (ground arith)
                    | inl d ↦ elim (Option-cases (lookup identity.mailbox dirs)) [
                      | inl e ↦ rw (authenticate_cert, a, b, c, d, e) (ground arith)
                      | inr (dir, e) ↦
                          rw (authenticate_cert, a, b, c, d, e)
                            (record {
                              named = refl;
                              plain = b;
                              inside = d;
                              registered =
                                  verify_fingerprint-eq-none h.recipient_fps identity.mailbox cert
                                    c;
                              found = e;
                            })
                    ]
                  ]
                ]
        ]
      ]

  -- What a request behind authentication may do.
  pub record IsServed (r : GeminiRequest Cert) (dirs' : List (Text × Directory)) : Type 0 where
    pub cert : Cert
    pub mailbox : Text
    pub directory : Directory
    pub shown : r.client_cert ≡ some cert
    pub authorised : IsAuthorised cert mailbox directory
    pub others_kept : (other : Text) → other ≢ mailbox → lookup other dirs' ≡ lookup other dirs

  -- A response whose status is not 20.
  pub record IsFailure (result : Result Raised GeminiResponse) : Type 0 where
    pub response : GeminiResponse
    pub answered : result ≡ ok response
    pub no_success : response.status ≢ 20

  answer-IsServed :
      (r : GeminiRequest Cert) (cert : Cert) (a : Result GeminiResponse (Text × Directory))
      {result : Result Raised GeminiResponse} {dirs' : List (Text × Directory)}
      → r.client_cert ≡ some cert
      → Verdict cert a
      → answer rt is_before r dirs a ≡ (result, dirs')
      → ((dirs' ≡ dirs) × IsFailure result) ⊎ IsServed r dirs'
  unfolding answer
  answer-IsServed r cert (err e) {result} {dirs'} shown v q = inl (
    sym (ap (λ p. p.1) q),
    record { response = e; answered = sym (ap (λ p. p.0) q); no_success = v },
  )
  answer-IsServed r cert (ok (mailbox, d)) {result} {dirs'} shown v q =
      let kept : dirs' ≡ insert mailbox (serve rt is_before r d).1 dirs = cc q in
      inr (record {
        cert = cert;
        mailbox = mailbox;
        directory = d;
        shown = shown;
        authorised = v;
        others_kept = λ other n.
            rw (kept, lookup-insert_other other mailbox (serve rt is_before r d).1 dirs n);
      })

  -- A request outside of the public routes either fails, with another status than 20, and changes no
  -- mailbox, or it came with a certificate that is authorised for an existing mailbox, and all other
  -- mailboxes are as they were.
  pub handle_request-IsServed :
      (r : GeminiRequest Cert) {result : Result Raised GeminiResponse}
      {dirs' : List (Text × Directory)}
      → starts_with (codes "/list/") r.path ≡ false
      → handle_request rt is_before h r dirs ≡ (result, dirs')
      → ((dirs' ≡ dirs) × IsFailure result) ⊎ IsServed r dirs'
  unfolding handle_request authenticate answer
  handle_request-IsServed r {result} {dirs'} outside q =
      let e : answer rt is_before r dirs (authenticate rt is_before h dirs r.client_cert)
          ≡ (result, dirs') =
        sym (rw (handle_request, outside)) ∙ q in
      elim (Option-cases r.client_cert) [
        | inl missing ↦
            let e' : answer rt is_before r dirs (authenticate rt is_before h dirs none)
                ≡ (result, dirs') =
              subst
                (λ o.
                  answer rt is_before r dirs (authenticate rt is_before h dirs o) ≡ (result, dirs'))
                missing e in
            inl (
              sym (ap (λ p. p.1) e'),
              record {
                response = reply 60 (codes "Client certificate required");
                answered = sym (ap (λ p. p.0) e');
                no_success = omega arith;
              },
            )
        | inr (cert, shown) ↦
            let e' =
              subst
                (λ o.
                  answer rt is_before r dirs (authenticate rt is_before h dirs o) ≡ (result, dirs'))
                shown e in
            answer-IsServed r cert (authenticate_cert rt is_before h dirs cert) {result = result}
              shown (authenticate_cert-Verdict cert) e'
      ]
