-- ===== src/Tls/Status.antt =====
-- The status of TLS that an administrator reads (`get_tls_status` in
-- app/routers/system.py). The texts that only explain are left out, but for the warning.
use palworld_server_service.Common.{
  ℕ, ◌-◌, String, Bool, true, false, not, ◌&&◌, Option, none, some, leb, str_eq, if◌then◌else◌,
}
use palworld_server_service.Common.Outcome.{Outcome, ok, err}
use palworld_server_service.Tls.Certificates.{
  Bundle, Crypto, TlsCertificateStatus, domain_or, get_tls_certificate_status,
}
use palworld_server_service.Tls.Discovery.{AppSettings}
use palworld_server_service.Tls.Requests.{SettingsStore}

pub record TlsStatusResponse : Type 0 where
  pub enabled : Bool
  pub domain : String
  pub certificate : Option TlsCertificateStatus
  pub auto_renew_active : Bool
  pub warning : Option String
  pub next_renewal_at : Option ℕ
  pub renewal_countdown_seconds : Option ℕ

abbrev pub renewal_time : Bool → Option ℕ → Option ℕ
renewal_time true (some not_after) = some (not_after - 2592000)
renewal_time true none = none
renewal_time false not_after = none

abbrev pub countdown : ℕ → Option ℕ → Option ℕ
countdown now none = none
countdown now (some renewal) = some (renewal - now)

abbrev pub message_or : Option String → String → String
message_or none text = text
message_or (some message) text = if str_eq message "" then text else message

-- `expires_in` is the warning's text for a number of days.
unfoldable pub tls_status_of :
    (ℕ → String) → ℕ → AppSettings → TlsCertificateStatus → TlsStatusResponse
tls_status_of expires_in now cfg status =
    let next = renewal_time status.is_valid status.not_after in
    let common : TlsStatusResponse = record {
      enabled = true;
      domain = domain_or cfg.duckdns_domain "localhost";
      certificate = some status;
      auto_renew_active = cfg.ssl_auto_renew && not (str_eq cfg.ssl_cert_mode "custom");
      warning =
          if leb status.days_remaining 15 then some (expires_in status.days_remaining) else none;
      next_renewal_at = next;
      renewal_countdown_seconds = countdown now next;
    } in
    if not status.is_valid
    then record common {
      enabled = false;
      certificate = none;
      warning = some (
          message_or status.error_message
            "Running unencrypted plaintext HTTP. No valid certificate detected.");
    }
    else common

abbrev pub status_served :
    (TlsCertificateStatus → TlsStatusResponse)
    → Outcome TlsCertificateStatus
    → Outcome TlsStatusResponse
status_served f (err e) = err e
status_served f (ok status) = ok (f status)

unfoldable pub get_tls_status :
    {Key : Type 0}
    → Crypto Key
    → (ℕ → String)
    → Bool
    → ℕ
    → SettingsStore
    → Bundle
    → Outcome TlsStatusResponse
get_tls_status c expires_in reads now s b =
    status_served (tls_status_of expires_in now s.shared)
      (get_tls_certificate_status c reads now (domain_or s.shared.duckdns_domain "localhost") b)
