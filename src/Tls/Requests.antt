-- ===== src/Tls/Requests.antt =====
-- The TLS endpoints of app/routers/system.py and the settings object of app/core/config.py. The texts
-- that only explain an answer are left out.
use Prim.Native.String.{◌++◌ as append}
use palworld_server_service.Common.{
  ℕ, String, Bool, true, false, not, ◌&&◌, ◌||◌, Option, none, some, str_eq, if◌then◌else◌,
}
use palworld_server_service.Common.Outcome.{Outcome, ok, err}
use palworld_server_service.Tls.Certificates.{Bundle, Crypto, domain_or}
use palworld_server_service.Tls.Provision.{Run, TlsProvisionResult, provision_tls_certificates}
use palworld_server_service.Tls.Discovery.{AppSettings}
use palworld_server_service.Tls.Scheduler.{is_placeholder}

-- `environment` is what AppSettings() reads; `shared` the object that app/routers/deps.py got at its
-- import. The singleton is that object until a reload puts a new one in its place.
pub record SettingsStore : Type 0 where
  pub environment : AppSettings
  pub shared : AppSettings
  pub reloaded : Option AppSettings

abbrev pub or_shared : AppSettings → Option AppSettings → AppSettings
or_shared shared none = shared
or_shared shared (some cfg) = cfg

unfoldable pub get_settings : SettingsStore → AppSettings
get_settings s = or_shared s.shared s.reloaded

unfoldable pub reload_settings : SettingsStore → SettingsStore
reload_settings s = record s { reloaded = some s.environment }

-- `clean` is strip and lower, `show` the digits of a number.
unfoldable pub resolve_canonical_url : (String → String) → (ℕ → String) → AppSettings → String
resolve_canonical_url clean show cfg =
    let domain = clean cfg.duckdns_domain in
    append "https://" (
      append (if is_placeholder domain then "thestygianarchitect.duckdns.org" else domain)
        (append ":" (show cfg.web_port)))

pub record TlsSettingsUpdateRequest : Type 0 where
  pub auto_renew : Option Bool
  pub cert_mode : Option String

pub record TlsSettingsUpdateResponse : Type 0 where
  pub succeeded : Bool
  pub auto_renew : Bool
  pub cert_mode : String

abbrev pub same_bool : Bool → Bool → Bool
same_bool true b = b
same_bool false b = not b

abbrev pub renew_changes : Option Bool → AppSettings → Bool
renew_changes none cfg = false
renew_changes (some wanted) cfg = not (same_bool wanted cfg.ssl_auto_renew)

abbrev pub mode_changes : Option String → AppSettings → Bool
mode_changes none cfg = false
mode_changes (some wanted) cfg = not (str_eq wanted cfg.ssl_cert_mode)

abbrev pub with_renew : Option Bool → AppSettings → AppSettings
with_renew none cfg = cfg
with_renew (some wanted) cfg = record cfg { ssl_auto_renew = wanted }

abbrev pub with_mode : Option String → AppSettings → AppSettings
with_mode none cfg = cfg
with_mode (some wanted) cfg = record cfg { ssl_cert_mode = wanted }

-- Fields set on the shared object, then the reload where one of them changed.
unfoldable pub set_tls_fields : TlsSettingsUpdateRequest → SettingsStore → SettingsStore
set_tls_fields payload s =
    let written : SettingsStore = record s {
      shared = with_mode payload.cert_mode (with_renew payload.auto_renew s.shared);
    } in
    if renew_changes payload.auto_renew s.shared || mode_changes payload.cert_mode s.shared
    then reload_settings written
    else written

abbrev pub answer_of : AppSettings → Bool → TlsSettingsUpdateResponse
answer_of cfg succeeded = record {
  succeeded = succeeded;
  auto_renew = cfg.ssl_auto_renew;
  cert_mode = cfg.ssl_cert_mode;
}

-- What a request leaves: its answer, whether a restart follows it, the settings and the bundle.
pub record Served (A : Type 0) : Type 0 where
  pub answer : Outcome A
  pub restarts : Bool
  pub store : SettingsStore
  pub bundle : Bundle

abbrev pub mode_served :
    SettingsStore → Outcome TlsProvisionResult × Bundle → Served TlsSettingsUpdateResponse
mode_served s (err e, b) = record { answer = err e; restarts = false; store = s; bundle = b }
mode_served s (ok result, b) = record {
  answer = ok (answer_of s.shared result.success);
  restarts = result.success;
  store = s;
  bundle = b;
}

abbrev pub token_for : String → AppSettings → String
token_for mode cfg = if str_eq mode "letsencrypt" then cfg.duckdns_token else ""

abbrev pub unprovisioned : SettingsStore → Bundle → Served TlsSettingsUpdateResponse
unprovisioned s b = record {
  answer = ok (answer_of s.shared true);
  restarts = false;
  store = s;
  bundle = b;
}

pub record TlsRenewResponse : Type 0 where
  pub succeeded : Bool
  pub error_detail : Option String

abbrev pub renewal_served :
    SettingsStore → Outcome TlsProvisionResult × Bundle → Served TlsRenewResponse
renewal_served s (err e, b) = record { answer = err e; restarts = false; store = s; bundle = b }
renewal_served s (ok result, b) = record {
  answer = ok (record {
    succeeded = result.success;
    error_detail = if result.success then none else result.error;
  });
  restarts = result.success;
  store = s;
  bundle = b;
}

module _ {Key : Type 0} (c : Crypto Key) where
  abbrev pub provision_mode :
      Run Key → Bool → Option String → SettingsStore → Bundle → Served TlsSettingsUpdateResponse
  provision_mode r changed none s b = unprovisioned s b
  provision_mode r changed (some mode) s b =
      if changed && not (str_eq mode "custom")
      then mode_served s (
          provision_tls_certificates c r (domain_or s.shared.duckdns_domain "localhost")
            (token_for mode s.shared) true b)
      else unprovisioned s b

  -- Behind perm_admin, like the others.
  unfoldable pub update_tls_settings :
      Run Key → TlsSettingsUpdateRequest → SettingsStore → Bundle → Served TlsSettingsUpdateResponse
  update_tls_settings r payload s b =
      provision_mode r (mode_changes payload.cert_mode s.shared) payload.cert_mode
        (set_tls_fields payload s) b

  unfoldable pub trigger_tls_renewal :
      Run Key → Bool → SettingsStore → Bundle → Served TlsRenewResponse
  trigger_tls_renewal r force s b =
      renewal_served s
        (provision_tls_certificates c r s.shared.duckdns_domain s.shared.duckdns_token force b)
