-- ===== src/Tls/Provision.antt =====
-- The provisioning of the certificate (`provision_tls_certificates` in app/engine/tls_manager.py).
use palworld_server_service.Common.{
  ℕ, String, Bool, true, false, not, ◌&&◌, Option, none, some, [], ◌∷◌, ltb, if◌then◌else◌,
}
use palworld_server_service.Common.Text.{Text, codes, strip}
use palworld_server_service.Common.Outcome.{Outcome, ok, err, value_error, Action}
use palworld_server_service.Tls.Certificates.{
  Bundle, Crypto, StageFaults, TlsCertificateStatus, get_tls_certificate_status, stage_tls_bundle,
}

pub data TlsProvisionMode : Type 0 where
  letsencrypt self_signed existing : TlsProvisionMode

pub record TlsProvisionResult : Type 0 where
  pub success : Bool
  pub mode : TlsProvisionMode
  pub domain : String
  pub days_remaining : ℕ
  pub message : String
  pub error : Option String

pub record AcmeCertificateResult : Type 0 where
  pub success : Bool
  pub fullchain_pem : Option Text
  pub error : Option String

-- What a run of provision_tls_certificates meets: the clock, the key that it generates, what the ACME
-- flow for that key gives, and the faults of the staging that follows it and of the fallback's.
pub record Run (Key : Type 0) : Type 0 where
  pub reads : Bool
  pub now : ℕ
  pub private_key : Key
  pub acme : Outcome AcmeCertificateResult
  pub acme_faults : StageFaults
  pub fallback_faults : StageFaults

abbrev pub provisioned : TlsProvisionMode → String → ℕ → String → TlsProvisionResult
provisioned mode domain days message = record {
  success = true;
  mode = mode;
  domain = domain;
  days_remaining = days;
  message = message;
  error = none;
}

-- The status lets an unforced run keep the certificate: RENEWAL_THRESHOLD_DAYS is 30.
abbrev pub is_kept : Bool → TlsCertificateStatus → Bool
is_kept force status = not force && status.is_valid && ltb 30 status.days_remaining

-- `token and token.strip()`
abbrev pub is_blank : Text → Bool
is_blank [] = true
is_blank (ch ∷ t) = false

module _ {Key : Type 0} (c : Crypto Key) where
  abbrev pub fallen_back : String → Outcome Text × Bundle → Outcome TlsProvisionResult × Bundle
  fallen_back domain (err e, b) = (err e, b)
  fallen_back domain (ok key, b) =
      (ok (provisioned self_signed domain 365 "Provisioned self-signed fallback certificate."), b)

  -- Tier 2
  unfoldable pub provision_self_signed : Run Key → String → Action Bundle TlsProvisionResult
  provision_self_signed r domain b =
      if c.can_sign domain
      then fallen_back domain (
          stage_tls_bundle r.fallback_faults (c.self_signed_pem r.private_key domain r.now)
            (c.private_key_to_pem r.private_key) b)
      else (err value_error, b)

  -- The broad except clause catches a failed staging too.
  abbrev pub after_acme_stage :
      Run Key → String → Outcome Text × Bundle → Outcome TlsProvisionResult × Bundle
  after_acme_stage r domain (err e, b) = provision_self_signed r domain b
  after_acme_stage r domain (ok key, b) = (
    ok (provisioned letsencrypt domain 90 "Provisioned Let's Encrypt certificate via ACME DNS-01."),
    b,
  )

  abbrev pub stage_issued : Run Key → String → Bool → Option Text → Action Bundle TlsProvisionResult
  stage_issued r domain true (some (byte ∷ pem)) b =
      after_acme_stage r domain
        (stage_tls_bundle r.acme_faults (byte ∷ pem) (c.private_key_to_pem r.private_key) b)
  stage_issued r domain true (some []) b = provision_self_signed r domain b
  stage_issued r domain true none b = provision_self_signed r domain b
  stage_issued r domain false pem b = provision_self_signed r domain b

  abbrev pub after_acme :
      Run Key → String → Outcome AcmeCertificateResult → Action Bundle TlsProvisionResult
  after_acme r domain (err e) b = provision_self_signed r domain b
  after_acme r domain (ok result) b = stage_issued r domain result.success result.fullchain_pem b

  abbrev pub after_status :
      Run Key
      → String
      → String
      → Bool
      → Outcome TlsCertificateStatus
      → Action Bundle TlsProvisionResult
  after_status r domain token force (err e) b = (err e, b)
  after_status r domain token force (ok status) b =
      if is_kept force status
      then (
        ok (
            provisioned existing domain status.days_remaining
              "Existing certificate is valid and not near expiry."),
        b,
      )
      else if is_blank (strip (codes token))
      then provision_self_signed r domain b
      else after_acme r domain r.acme b

  unfoldable pub provision_tls_certificates :
      Run Key → String → String → Bool → Action Bundle TlsProvisionResult
  provision_tls_certificates r domain token force b =
      after_status r domain token force (get_tls_certificate_status c r.reads r.now domain b) b
