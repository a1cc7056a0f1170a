-- ===== src/Tls/Scheduler.antt =====
-- The background tasks for the certificate (app/engine/tls_scheduler.py), with the TLS engine there.
-- What a task does is the bundle that it leaves and whether it dispatches a restart of the service.
use Prim.Native.Nat.{min, max}
use palworld_server_service.Common.{
  ℕ, ◌-◌, ◌*◌, String, Bool, true, false, not, ◌&&◌, ◌||◌, Option, none, some, ltb, str_eq,
  if◌then◌else◌,
}
use palworld_server_service.Common.Outcome.{Outcome, ok, err}
use palworld_server_service.Tls.Certificates.{
  Bundle, Crypto, TlsCertificateStatus, domain_or, get_tls_certificate_status,
}
use palworld_server_service.Tls.Provision.{Run, TlsProvisionResult, provision_tls_certificates}
use palworld_server_service.Tls.Discovery.{AppSettings, Host, is_set, resolve_ssl_paths}

-- The domain and the token that trigger_duckdns_sync sends to DuckDNS, if any.
unfoldable pub trigger_duckdns_sync : AppSettings → Option (String × String)
trigger_duckdns_sync cfg =
    if is_set cfg.duckdns_domain && is_set cfg.duckdns_token
    then some (cfg.duckdns_domain, cfg.duckdns_token)
    else none

abbrev pub is_placeholder : String → Bool
is_placeholder domain =
    not (is_set domain) || str_eq domain "localhost" || str_eq domain "yourdomain.duckdns.org"

pub record Effect : Type 0 where
  pub restarted : Bool
  pub raised : Bool

abbrev pub quiet : Effect
quiet = record { restarted = false; raised = false }

-- What follows a provisioning: a restart where it succeeded; an exception ends the task.
abbrev pub announced : Outcome TlsProvisionResult × Bundle → Effect × Bundle
announced (err e, b) = (record { restarted = false; raised = true }, b)
announced (ok result, b) = (record { restarted = result.success; raised = false }, b)

abbrev pub when_unresolved :
    {Key : Type 0}
    → Crypto Key
    → Host
    → AppSettings
    → Run Key
    → Option (String × String)
    → Bundle
    → Effect × Bundle
when_unresolved c h cfg r (some pair) b = (quiet, b)
when_unresolved c h cfg r none b =
    if is_placeholder (h.clean cfg.duckdns_domain)
    then (quiet, b)
    else announced (provision_tls_certificates c r cfg.duckdns_domain cfg.duckdns_token false b)

-- At the start of the process, whose disk is `host_of` the bundle.
unfoldable pub trigger_tls_provisioning_check :
    {Key : Type 0} → Crypto Key → (Bundle → Host) → AppSettings → Run Key → Bundle → Effect × Bundle
trigger_tls_provisioning_check c host_of cfg r b =
    when_unresolved c (host_of b) cfg r (resolve_ssl_paths (host_of b) cfg) b

-- One turn of the scheduler's loop.
pub record Turn : Type 0 where
  pub slept : ℕ
  pub restarted : Bool

abbrev pub asleep : ℕ → Bundle → Turn × Bundle
asleep seconds b = (record { slept = seconds; restarted = false }, b)

abbrev pub renewed : Outcome TlsProvisionResult × Bundle → Turn × Bundle
renewed (err e, b) = asleep 3600 b
renewed (ok result, b) =
    if result.success then (record { slept = 86400; restarted = true }, b) else asleep 21600 b

abbrev pub is_fresh : TlsCertificateStatus → Bool
is_fresh status = status.is_valid && ltb 30 status.days_remaining

abbrev pub until_renewal : ℕ → ℕ
until_renewal days = min (max ((days - 30) * 86400) 3600) 86400

abbrev pub mode_token : AppSettings → String
mode_token cfg = if str_eq cfg.ssl_cert_mode "letsencrypt" then cfg.duckdns_token else ""

module _ {Key : Type 0} (c : Crypto Key) where
  abbrev pub after_check :
      AppSettings → Run Key → Outcome TlsCertificateStatus → Bundle → Turn × Bundle
  after_check cfg r (err e) b = asleep 3600 b
  after_check cfg r (ok status) b =
      if is_fresh status
      then asleep (until_renewal status.days_remaining) b
      else renewed (
          provision_tls_certificates c r (domain_or cfg.duckdns_domain "localhost") (mode_token cfg)
            false b)

  unfoldable pub certificate_renewal_turn : AppSettings → Run Key → Bundle → Turn × Bundle
  certificate_renewal_turn cfg r b =
      if str_eq cfg.ssl_cert_mode "custom"
      then asleep 86400 b
      else if not cfg.ssl_auto_renew
      then asleep 3600 b
      else after_check cfg r
          (get_tls_certificate_status c r.reads r.now (domain_or cfg.duckdns_domain "localhost") b)
          b
