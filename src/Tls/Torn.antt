-- ===== src/Tls/Torn.antt =====
-- A certificate whose key was not written (app/engine/tls_manager.py, app/engine/tls_scheduler.py).
use palworld_server_service.Common.{
  ℕ, ◌+◌, ◌≤◌, ◌<◌, String, ◌≡◌, refl, true, false, Option, none, some, arith, lt→ltb, le→leb, ltb,
}
use palworld_server_service.Common.Text.{Text, strip}
use palworld_server_service.Common.Outcome.{ok, err, os_error}
use palworld_server_service.Tls.Certificates.{
  Bundle, Certificate, Crypto, TlsCertificateStatus, days_left, is_current, status_of_certificate,
  status_of_files, get_tls_certificate_status, stage_tls_bundle,
}
use palworld_server_service.Tls.Provision.{
  Run, provision_self_signed, provision_tls_certificates, provisioned, existing,
}
use palworld_server_service.Tls.Discovery.{AppSettings, Host, resolve_ssl_paths}
use palworld_server_service.Tls.Scheduler.{is_placeholder, trigger_tls_provisioning_check}

-- A self-signed certificate is read back with the 365 days it was made for.
abbrev pub IsSigned : {Key : Type 0} → Crypto Key → Type 0
IsSigned {Key} c =
    (key : Key) (domain : String) (now : ℕ)
    → c.can_sign domain ≡ true
    → (cert : Certificate) × (c.load (c.self_signed_pem key domain now) ≡ some cert)
      × (cert.not_before ≡ now)
      × (cert.not_after ≡ now + 31536000)

long_valid :
    (now later : ℕ) (cert : Certificate)
    → cert.not_before ≡ now
    → cert.not_after ≡ now + 31536000
    → now ≤ later
    → later + 2678400 ≤ now + 31536000
    → (is_current later cert ≡ true) × (ltb 30 (days_left later cert) ≡ true)
long_valid now later cert since until h k =
    let days : 30 < days_left later cert = omega arith in
    (
      rw (lt→ltb 0 (days_left later cert) (omega arith))
          (le→leb cert.not_before later (omega arith)),
      lt→ltb 30 (days_left later cert) days,
    )

module _ {Key : Type 0} (c : Crypto Key) (signed : IsSigned c) where
  -- The files as the interrupted staging leaves them.
  abbrev torn : Run Key → String → Bundle → Bundle
  torn r domain b = record b { fullchain = some (c.self_signed_pem r.private_key domain r.now) }

  readable_status :
      (now : ℕ) (domain : String) (fullchain privkey : Option Text)
      → (status : TlsCertificateStatus) × (status_of_files c true now domain fullchain privkey
          ≡ ok status)
  readable_status now domain none privkey = (_, refl)
  readable_status now domain (some pem) none = (_, refl)
  readable_status now domain (some pem) (some key) = (_, refl)

  provision-torn :
      (r : Run Key) (domain : String) (b : Bundle)
      → c.can_sign domain ≡ true
      → r.reads ≡ true
      → r.fallback_faults.mkdir_works ≡ true
      → r.fallback_faults.fullchain_works ≡ true
      → r.fallback_faults.privkey_works ≡ false
      → provision_tls_certificates c r domain "" true b ≡ (err os_error, torn r domain b)
  unfolding provision_tls_certificates get_tls_certificate_status provision_self_signed
      stage_tls_bundle strip
  provision-torn r domain b fit reads made wrote failed =
      let status = readable_status r.now domain b.fullchain b.privkey in
      simp (reads, status.1, fit, made, wrote, failed)

  kept-torn :
      (r later : Run Key) (domain token : String) (b : Bundle) (old : Text)
      → c.can_sign domain ≡ true
      → b.privkey ≡ some old
      → later.reads ≡ true
      → r.now ≤ later.now
      → later.now + 2678400 ≤ r.now + 31536000
      → (days : ℕ) × (provision_tls_certificates c later domain token false (torn r domain b) ≡ (
        ok (provisioned existing domain days "Existing certificate is valid and not near expiry."),
        torn r domain b,
      ))
  unfolding provision_tls_certificates get_tls_certificate_status status_of_certificate
  kept-torn r later domain token b old fit key reads since until =
      let read = signed r.private_key domain r.now fit in
      let valid = long_valid r.now later.now read.0 read.2 read.3 since until in
      (days_left later.now read.0, simp (key, reads, read.1, valid.0, valid.1))

  -- A forced provisioning with no token, whose write of the key fails after that of the certificate,
  -- raises, and over the pair that it leaves each later start of the next 334 days dispatches a
  -- restart and leaves the pair as it is: the pair does not load, no other does, and the certificate
  -- is valid. The domain can stand in a certificate, there was a key before, the directory is there and
  -- the files can be read.
  pub torn_bundle_restarts :
      (host_of : Bundle → Host) (cfg : AppSettings) (r later : Run Key) (b : Bundle) (old : Text)
      → c.can_sign cfg.duckdns_domain ≡ true
      → b.privkey ≡ some old
      → r.reads ≡ true
      → later.reads ≡ true
      → r.fallback_faults.mkdir_works ≡ true
      → r.fallback_faults.fullchain_works ≡ true
      → r.fallback_faults.privkey_works ≡ false
      → r.now ≤ later.now
      → later.now + 2678400 ≤ r.now + 31536000
      → is_placeholder ((host_of (torn r cfg.duckdns_domain b)).clean cfg.duckdns_domain) ≡ false
      → resolve_ssl_paths (host_of (torn r cfg.duckdns_domain b)) cfg ≡ none
      → ((provision_tls_certificates c r cfg.duckdns_domain "" true b).0 ≡ err os_error)
        × (trigger_tls_provisioning_check c host_of cfg later
              (provision_tls_certificates c r cfg.duckdns_domain "" true b).1
            ≡ (
              record { restarted = true; raised = false },
              (provision_tls_certificates c r cfg.duckdns_domain "" true b).1,
            ))
  unfolding trigger_tls_provisioning_check
  torn_bundle_restarts host_of cfg r later b old fit key reads reads' made wrote failed since until
        named lost =
      rw (provision-torn r cfg.duckdns_domain b fit reads made wrote failed) (
        refl,
        simp (
          lost,
          named,
          (kept-torn r later cfg.duckdns_domain cfg.duckdns_token b old fit key reads' since
              until).1,
        ),
      )
