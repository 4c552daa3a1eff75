-- ===== src/Client/Certificates.antt =====
-- The certificates that the client of src/titlani/client/session.py knows, and its check of one.
use titlani.Base.{
  true, false, not, ◌&&◌, List, Option, none, some, ◌≡◌, ◌≢◌, refl, ap, sym, ◌∙◌, arith, inl, inr,
  Bool-cases, if◌then◌else◌, ok, subst,
}
use titlani.Str.Core.{Text, codes, same, same_iff, same_self}
use titlani.Runtime.{Runtime}
use titlani.Client.{Tofu, Attempt, Event, MisfinClient, check_certificate}

-- What tlacacoca documents of the database: a certificate other than the one that is trusted for the
-- host is told as changed, only a host without one is told as a first use, and to trust a
-- certificate is to replace the host's entry.
pub record TofuLaws {Cert : Type 0} (fingerprint_of : Cert → Text) (tofu : Tofu Cert) : Type 0 where
  pub pinned : tofu.Db → Text → Option Text
  pub tells_change :
      (db : tofu.Db) (hostname : Text) (cert : Cert) (fp : Text)
      → pinned db hostname ≡ some fp
      → fingerprint_of cert ≢ fp
      → tofu.verify db hostname cert ≡ (false, codes "changed")
  pub tells_first_use :
      (db : tofu.Db) (hostname : Text) (cert : Cert)
      → (tofu.verify db hostname cert).1 ≡ codes "first_use"
      → pinned db hostname ≡ none
  pub replaces :
      (db : tofu.Db) (hostname : Text) (cert : Cert) (other : Text)
      → pinned (tofu.trust db hostname cert) other
        ≡ (if same hostname other then some (fingerprint_of cert) else pinned db other)

module _ (rt : Runtime) (tofu : Tofu rt.Cert) (client : MisfinClient)
    (network : List Event → Attempt rt.Cert) (laws : TofuLaws rt.certificate_fingerprint tofu)
    (host fp : Text) where
  open rt use {Cert, certificate_fingerprint}
  open tofu use {Db, verify, trust}
  open laws use {pinned}

  -- The host has the entry.
  abbrev pub Knows : Option Db → Type 0
  Knows none = ⊥
  Knows (some db) = pinned db host ≡ some fp

  pub Knows-some :
      (o : Option Db) → Knows o → (db : Db) × (o ≡ some db) × (pinned db host ≡ some fp)
  Knows-some none known = absurd known
  Knows-some (some db) known = (db, refl, known)

  trust-pinned :
      (db : Db) (hostname : Text) (cert : Cert)
      → pinned db host ≡ some fp
      → (verify db hostname cert).1 ≡ codes "first_use"
      → pinned (trust db hostname cert) host ≡ some fp
  trust-pinned db hostname cert known first = elim (Bool-cases (same hostname host)) [
    | inl e ↦
        let unknown = laws.tells_first_use db hostname cert first in
        absurd (cc (known, unknown, (same_iff hostname host).0 e))
    | inr e ↦ laws.replaces db hostname cert host ∙ rw e known
  ]

  fingerprint-matches :
      (db : Db) (cert : Cert)
      → pinned db host ≡ some fp
      → (not (verify db host cert).0 && same (verify db host cert).1 (codes "changed")) ≡ false
      → certificate_fingerprint cert ≡ fp
  fingerprint-matches db cert known passed =
      elim (Bool-cases (same (certificate_fingerprint cert) fp)) [
        | inl e ↦ (same_iff (certificate_fingerprint cert) fp).0 e
        | inr e ↦
            let told =
              laws.tells_change db host cert fp known
                (λ q. ground (arith, (same_iff (certificate_fingerprint cert) fp).1 q)) in
            let refused : (not false && same (codes "changed") (codes "changed")) ≡ true =
              same_self (codes "changed") in
            absurd (cc (passed, told, refused))
      ]

  pub check_certificate-Knows :
      (hostname : Text) (cert : Option Cert) (o : Option Db) {o' : Option Db}
      → Knows o
      → check_certificate rt tofu client network hostname cert o ≡ ok o'
      → Knows o' × ((c : Cert) → hostname ≡ host → cert ≡ some c → certificate_fingerprint c ≡ fp)
  unfolding check_certificate
  check_certificate-Knows hostname cert none known h = absurd known
  check_certificate-Knows hostname none (some db) {o'} known h =
      let kept : o' ≡ some db = ground arith in (subst Knows (sym kept) known, λ c _ q. cc q)
  check_certificate-Knows hostname (some cert) (some db) {o'} known h =
      let told = verify db hostname cert in
      elim (Bool-cases (not told.0 && same told.1 (codes "changed"))) [
        | inl e ↦ absurd (ground arith)
        | inr e ↦ (
          elim (Bool-cases (same told.1 (codes "first_use"))) [
            | inl f ↦
                let kept : o' ≡ some (trust db hostname cert) = ground arith in
                subst Knows (sym kept)
                  (trust-pinned db hostname cert known ((same_iff told.1 (codes "first_use")).0 f))
            | inr f ↦ let kept : o' ≡ some db = ground arith in subst Knows (sym kept) known
          ],
          λ c here q.
              let same_cert : cert ≡ c = cc q in
              let passed =
                subst
                  (λ n.
                    (not (verify db n cert).0 && same (verify db n cert).1 (codes "changed"))
                    ≡ false)
                  here e in
              sym (ap certificate_fingerprint same_cert) ∙ fingerprint-matches db cert known passed,
        )
      ]
