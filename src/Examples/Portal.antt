-- ===== src/Examples/Portal.antt =====
-- The theorems about the portal's certificate at one toy certificate authority, whose certificates are
-- one number: the second they were made in.
use palworld_server_service.Common.{
  ℕ, ◌+◌, ◌≤◌, ◌≡◌, refl, Bool, true, false, Option, none, some, [], ◌∷◌, arith, length, not,
  str_eq,
}
use palworld_server_service.Common.Text.{Text, codes, strip}
use palworld_server_service.Common.Outcome.{Outcome, ok, err, os_error, http}
use palworld_server_service.Tls.Certificates.{
  Bundle, Certificate, Crypto, StageFaults, get_tls_certificate_status, stage_tls_bundle,
}
use palworld_server_service.Tls.Provision.{Run, provision_tls_certificates, provision_self_signed}
use palworld_server_service.Tls.Discovery.{AppSettings, Host, resolve_ssl_paths, first_usable}
use palworld_server_service.Tls.Scheduler.{
  asleep, certificate_renewal_turn, trigger_tls_provisioning_check,
}
use palworld_server_service.Tls.Requests.{SettingsStore, get_settings, update_tls_settings}
use palworld_server_service.Tls.Renewal.{
  IsNewPair, certificate_renewal_turn-IsNewPair, certificate_renewal_turn_sleeps,
}
use palworld_server_service.Tls.Torn.{IsSigned, torn_bundle_restarts}
use palworld_server_service.Tls.Toggle.{toggle_ignored}
use palworld_server_service.Tls.Acme.{
  Exchange, Net, Reply, set_txt, clear_txt, directory, nonce, post,
}
use palworld_server_service.Tls.Flow.{perform_dns01_flow}
use palworld_server_service.Tls.Traced.{perform_dns01_flow_bounded}
use palworld_server_service.Tls.Cleared.{SetReturns, IsCleared, perform_dns01_flow-IsCleared}

abbrev read_number : Text → Option Certificate
read_number [] = none
read_number (now ∷ rest) = some (record {
  issuer = [];
  subject = [];
  sans = none;
  not_before = now;
  not_after = now + 31536000;
})

abbrev toy_ca : Crypto ℕ
toy_ca = record {
  load = read_number;
  private_key_to_pem = λ key. key ∷ [];
  can_sign = λ domain. not (str_eq domain "");
  self_signed_pem = λ key domain now. now ∷ [];
}

toy_ca-IsSigned : IsSigned toy_ca
toy_ca-IsSigned key domain now fit = (_, refl, refl, refl)

abbrev works : StageFaults
works = record { mkdir_works = true; fullchain_works = true; privkey_works = true }

abbrev run_at : ℕ → StageFaults → Run ℕ
run_at now faults = record {
  reads = true;
  now = now;
  private_key = 7;
  acme = err os_error;
  acme_faults = works;
  fallback_faults = faults;
}

abbrev portal : AppSettings
portal = record {
  duckdns_domain = "pal.duckdns.org";
  duckdns_token = "";
  web_port = 8080;
  ssl_cert_path = "";
  ssl_key_path = "";
  ssl_cert_dir = "";
  ssl_auto_renew = true;
  ssl_cert_mode = "letsencrypt";
  ssl_auto_detect = true;
}

abbrev empty_bundle : Bundle
empty_bundle = record { fullchain = none; privkey = none }

certificate_renewal_turn-IsNewPair_example :
    (◌≡◌ {A = Bool} true true)
    × (str_eq "letsencrypt" "custom" ≡ false)
    × IsNewPair toy_ca
        (run_at 100 works)
        "pal.duckdns.org"
        (certificate_renewal_turn toy_ca portal (run_at 100 works) empty_bundle).1
certificate_renewal_turn-IsNewPair_example =
    certificate_renewal_turn-IsNewPair toy_ca portal (run_at 100 works) empty_bundle (
      unfold certificate_renewal_turn get_tls_certificate_status provision_tls_certificates
        provision_self_signed stage_tls_bundle strip in
      refl)

certificate_renewal_turn_sleeps_example :
    (3600 ≤ (certificate_renewal_turn toy_ca portal (run_at 100 works) empty_bundle).0.slept)
    × ((certificate_renewal_turn toy_ca portal (run_at 100 works) empty_bundle).0.slept ≤ 86400)
certificate_renewal_turn_sleeps_example =
    certificate_renewal_turn_sleeps toy_ca portal (run_at 100 works) empty_bundle

abbrev broken_key : StageFaults
broken_key = record { mkdir_works = true; fullchain_works = true; privkey_works = false }

abbrev old_pair : Bundle
old_pair = record { fullchain = some (1 ∷ []); privkey = some (5 ∷ []) }

-- No pair loads: the certificate is the new one, the key the old one.
abbrev mismatched : Bundle → Host
mismatched b = record {
  expanduser = λ path. path;
  join = λ folder name. name;
  home = "/root";
  clean = λ domain. domain;
  resolve = λ path. some path;
  is_file = λ path. true;
  load_cert_chain = λ cert key. false;
}

torn_bundle_restarts_example :
    ((provision_tls_certificates toy_ca
        (run_at 100 broken_key)
        "pal.duckdns.org"
        ""
        true
        old_pair).0
      ≡ err os_error)
    × (trigger_tls_provisioning_check toy_ca mismatched portal
          (run_at 900 works)
          (provision_tls_certificates toy_ca
            (run_at 100 broken_key)
            "pal.duckdns.org"
            ""
            true
            old_pair).1
        ≡ (
          record { restarted = true; raised = false },
          (provision_tls_certificates toy_ca
              (run_at 100 broken_key)
              "pal.duckdns.org"
              ""
              true
              old_pair).1,
        ))
torn_bundle_restarts_example =
    torn_bundle_restarts toy_ca toy_ca-IsSigned mismatched portal (run_at 100 broken_key)
      (run_at 900 works) old_pair (5 ∷ []) refl refl refl refl refl refl refl (omega arith)
      (omega arith) refl (unfold resolve_ssl_paths first_usable in refl)

abbrev never_renewed : AppSettings
never_renewed = record portal { ssl_auto_renew = false }

abbrev store : SettingsStore
store = record { environment = never_renewed; shared = never_renewed; reloaded = none }

toggle_ignored_example :
    ((update_tls_settings toy_ca
        (run_at 100 works)
        (record { auto_renew = some true; cert_mode = none })
        store
        empty_bundle).answer
      ≡ ok (record { succeeded = true; auto_renew = true; cert_mode = "letsencrypt" }))
    × (certificate_renewal_turn toy_ca
          (get_settings
            (update_tls_settings toy_ca
              (run_at 100 works)
              (record { auto_renew = some true; cert_mode = none })
              store
              empty_bundle).store)
          (run_at 200 works)
          old_pair
        ≡ asleep 3600 old_pair)
toggle_ignored_example =
    toggle_ignored toy_ca (run_at 100 works) (run_at 200 works)
      (record { auto_renew = some true; cert_mode = none }) store empty_bundle old_pair refl refl
      refl refl refl

abbrev issuing : Reply
issuing = record {
  replay_nonce = "n";
  location = "https://acme/order";
  status = "valid";
  new_nonce = "https://acme/nonce";
  new_account = "https://acme/account";
  new_order = "https://acme/new";
  authorizations = "https://acme/authz" ∷ [];
  finalize = "https://acme/finalize";
  challenges = record { kind = "dns-01"; url = "https://acme/challenge"; token = "t" } ∷ [];
  certificate = "https://acme/cert";
  content = codes "PEM";
  says_ok = true;
}

-- The CA answers everything; DuckDNS answers with an error status.
abbrev reply_to : Exchange → Outcome Reply
reply_to (set_txt domain text) = err (http 500)
reply_to (clear_txt domain) = err (http 500)
reply_to (directory url) = ok issuing
reply_to (nonce url) = ok issuing
reply_to (post url kid payload) = ok issuing

abbrev net : Net
net = record {
  answer = λ sent x. reply_to x;
  account_key = ok tt;
  digest = λ token. token;
  csr = λ domain. codes domain;
}

net-SetReturns : SetReturns net
net-SetReturns sent domain text = (false, refl)

perform_dns01_flow_bounded_example :
    length (perform_dns01_flow net "pal.duckdns.org" "https://acme/directory" []).1 ≤ 175
perform_dns01_flow_bounded_example =
    perform_dns01_flow_bounded net "pal.duckdns.org" "https://acme/directory"

perform_dns01_flow-IsCleared_example :
    IsCleared net "pal.duckdns.org"
      (perform_dns01_flow net "pal.duckdns.org" "https://acme/directory" []).1
perform_dns01_flow-IsCleared_example =
    perform_dns01_flow-IsCleared net net-SetReturns "pal.duckdns.org" "https://acme/directory"
