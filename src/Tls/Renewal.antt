-- ===== src/Tls/Renewal.antt =====
-- What a provisioning leaves and how long the scheduler sleeps (app/engine/tls_manager.py,
-- app/engine/tls_scheduler.py).
use palworld_server_service.Common.{
  ◌≤◌, String, ◌≡◌, refl, ◌⊎◌, inl, inr, Bool, true, false, ◌&&◌, Option, none, some, [], ◌∷◌,
  arith, Bool-cases, str_eq,
}
use palworld_server_service.Common.Text.{Text, codes, strip}
use palworld_server_service.Common.Outcome.{Outcome, ok, err}
use palworld_server_service.Tls.Certificates.{
  Bundle, Crypto, TlsCertificateStatus, domain_or, stage_tls_bundle, get_tls_certificate_status,
}
use palworld_server_service.Tls.Provision.{
  Run, TlsProvisionResult, AcmeCertificateResult, provision_self_signed, stage_issued, after_acme,
  after_status, provision_tls_certificates, is_kept, is_blank,
}
use palworld_server_service.Tls.Discovery.{AppSettings}
use palworld_server_service.Tls.Scheduler.{
  certificate_renewal_turn, after_check, renewed, is_fresh, mode_token,
}

module _ {Key : Type 0} (c : Crypto Key) where
  -- The certificate and the key of one pair: that of the run's key, signed by itself or issued for it.
  abbrev pub IsNewPair : Run Key → String → Bundle → Type 0
  IsNewPair r domain b =
      (b.privkey ≡ some (c.private_key_to_pem r.private_key))
      × ((b.fullchain ≡ some (c.self_signed_pem r.private_key domain r.now))
          ⊎ ((result : AcmeCertificateResult) × (r.acme ≡ ok result)
              × (b.fullchain ≡ result.fullchain_pem)))

  abbrev Renews : Run Key → String → Outcome TlsProvisionResult × Bundle → Type 0
  Renews r domain (err e, b) = Unit {0}
  Renews r domain (ok result, b) = (result.success ≡ true) × IsNewPair r domain b

  provision_self_signed-Renews :
      (r : Run Key) (domain : String) (b : Bundle)
      → Renews r domain (provision_self_signed c r domain b)
  unfolding provision_self_signed stage_tls_bundle
  provision_self_signed-Renews r domain b = elim (Bool-cases (c.can_sign domain)) [
    | inr unfit ↦ rw unfit tt
    | inl fit ↦
        elim (Bool-cases (r.fallback_faults.mkdir_works && r.fallback_faults.fullchain_works)) [
          | inl wrote ↦ elim (Bool-cases r.fallback_faults.privkey_works) [
            | inl both ↦ rw (fit, wrote, both) (refl, (refl, inl refl))
            | inr torn ↦ rw (fit, wrote, torn) tt
          ]
          | inr failed ↦ rw (fit, failed) tt
        ]
  ]

  stage_issued-Renews :
      (r : Run Key) (domain : String) (result : AcmeCertificateResult) (success : Bool)
      (pem : Option Text) (b : Bundle)
      → r.acme ≡ ok result
      → pem ≡ result.fullchain_pem
      → Renews r domain (stage_issued c r domain success pem b)
  unfolding stage_tls_bundle
  stage_issued-Renews r domain result false pem b e same = provision_self_signed-Renews r domain b
  stage_issued-Renews r domain result true none b e same = provision_self_signed-Renews r domain b
  stage_issued-Renews r domain result true (some []) b e same =
      provision_self_signed-Renews r domain b
  stage_issued-Renews r domain result true (some (byte ∷ pem)) b e same =
      elim (Bool-cases (r.acme_faults.mkdir_works && r.acme_faults.fullchain_works)) [
        | inl wrote ↦ elim (Bool-cases r.acme_faults.privkey_works) [
          | inl both ↦ rw (wrote, both) (refl, (refl, inr (result, e, same)))
          | inr torn ↦ simp (wrote, torn) (provision_self_signed-Renews r domain _)
        ]
        | inr failed ↦ rw failed (provision_self_signed-Renews r domain b)
      ]

  after_acme-Renews :
      (r : Run Key) (domain : String) (acme : Outcome AcmeCertificateResult) (b : Bundle)
      → r.acme ≡ acme
      → Renews r domain (after_acme c r domain acme b)
  after_acme-Renews r domain (err e) b same = provision_self_signed-Renews r domain b
  after_acme-Renews r domain (ok result) b same =
      stage_issued-Renews r domain result result.success result.fullchain_pem b same refl

  provision-Renews :
      (r : Run Key) (domain token : String) (force : Bool) (status : TlsCertificateStatus)
      (b : Bundle)
      → is_kept force status ≡ false
      → Renews r domain (after_status c r domain token force (ok status) b)
  provision-Renews r domain token force status b stale =
      elim (Bool-cases (is_blank (strip (codes token)))) [
        | inl blank ↦ rw (stale, blank) (provision_self_signed-Renews r domain b)
        | inr token_given ↦ rw (stale, token_given) (after_acme-Renews r domain r.acme b refl)
      ]

  renewed-IsNewPair :
      (r : Run Key) (domain : String) (o : Outcome TlsProvisionResult × Bundle)
      → Renews r domain o
      → (renewed o).0.restarted ≡ true
      → IsNewPair r domain (renewed o).1
  renewed-IsNewPair r domain (err e, b) h restarted = cc
  renewed-IsNewPair r domain (ok result, b) h restarted = rw h.0 h.1

  not_kept :
      (status : TlsCertificateStatus) → is_fresh status ≡ false → is_kept false status ≡ false
  not_kept status stale = stale

  after_check-IsNewPair :
      (cfg : AppSettings) (r : Run Key) (o : Outcome TlsCertificateStatus) (b : Bundle)
      → get_tls_certificate_status c r.reads r.now (domain_or cfg.duckdns_domain "localhost") b ≡ o
      → (after_check c cfg r o b).0.restarted ≡ true
      → IsNewPair r (domain_or cfg.duckdns_domain "localhost") (after_check c cfg r o b).1
  unfolding provision_tls_certificates
  after_check-IsNewPair cfg r (err e) b read = λ restarted. cc
  after_check-IsNewPair cfg r (ok status) b read = elim (Bool-cases (is_fresh status)) [
    | inl fresh ↦ rw fresh (λ restarted. cc)
    | inr stale ↦
        rw (stale, read)
          (renewed-IsNewPair r (domain_or cfg.duckdns_domain "localhost") _ (
            provision-Renews r (domain_or cfg.duckdns_domain "localhost") (mode_token cfg) false
              status b (not_kept status stale)))
  ]

  -- Where a turn of the scheduler dispatches a restart, auto-renewal is on, the mode is not custom, and
  -- the two files are the certificate and the key of one pair: the key that the turn generated, with
  -- its self-signed certificate or with what the ACME flow issued for it.
  pub certificate_renewal_turn-IsNewPair :
      (cfg : AppSettings) (r : Run Key) (b : Bundle)
      → (certificate_renewal_turn c cfg r b).0.restarted ≡ true
      → (cfg.ssl_auto_renew ≡ true)
        × (str_eq cfg.ssl_cert_mode "custom" ≡ false)
        × IsNewPair r
            (domain_or cfg.duckdns_domain "localhost")
            (certificate_renewal_turn c cfg r b).1
  unfolding certificate_renewal_turn
  certificate_renewal_turn-IsNewPair cfg r b =
      elim (Bool-cases (str_eq cfg.ssl_cert_mode "custom")) [
        | inl custom ↦ rw custom (λ restarted. cc)
        | inr managed ↦ elim (Bool-cases cfg.ssl_auto_renew) [
          | inr off ↦ simp (managed, off) (λ restarted. cc)
          | inl on ↦
              simp (managed, on)
                (λ restarted. (refl, refl, after_check-IsNewPair cfg r _ b refl restarted))
        ]
      ]

  renewed_sleeps :
      (o : Outcome TlsProvisionResult × Bundle)
      → (3600 ≤ (renewed o).0.slept) × ((renewed o).0.slept ≤ 86400)
  renewed_sleeps (err e, b) = omega arith
  renewed_sleeps (ok result, b) = ground arith

  after_check_sleeps :
      (cfg : AppSettings) (r : Run Key) (o : Outcome TlsCertificateStatus) (b : Bundle)
      → (3600 ≤ (after_check c cfg r o b).0.slept) × ((after_check c cfg r o b).0.slept ≤ 86400)
  after_check_sleeps cfg r (err e) b = omega arith
  after_check_sleeps cfg r (ok status) b = elim (Bool-cases (is_fresh status)) [
    | inl fresh ↦ rw fresh (omega arith)
    | inr stale ↦ rw stale (renewed_sleeps _)
  ]

  -- A turn of the scheduler, whatever fails, waits an hour at least and a day at most before the next.
  pub certificate_renewal_turn_sleeps :
      (cfg : AppSettings) (r : Run Key) (b : Bundle)
      → (3600 ≤ (certificate_renewal_turn c cfg r b).0.slept)
        × ((certificate_renewal_turn c cfg r b).0.slept ≤ 86400)
  unfolding certificate_renewal_turn
  certificate_renewal_turn_sleeps cfg r b = elim (Bool-cases (str_eq cfg.ssl_cert_mode "custom")) [
    | inl custom ↦ rw custom (omega arith)
    | inr managed ↦ elim (Bool-cases cfg.ssl_auto_renew) [
      | inr off ↦ simp (managed, off) (omega arith)
      | inl on ↦
          simp (managed, on)
            (after_check_sleeps cfg r
              (get_tls_certificate_status c r.reads r.now (domain_or cfg.duckdns_domain "localhost")
                b)
              b)
    ]
  ]
