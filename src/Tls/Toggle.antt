-- ===== src/Tls/Toggle.antt =====
-- Which settings the renewal scheduler sees (app/routers/system.py, app/engine/tls_scheduler.py).
use palworld_server_service.Common.{◌≡◌, true, false, none, some, str_eq}
use palworld_server_service.Common.Outcome.{ok}
use palworld_server_service.Tls.Certificates.{Bundle, Crypto}
use palworld_server_service.Tls.Provision.{Run}
use palworld_server_service.Tls.Scheduler.{asleep, certificate_renewal_turn}
use palworld_server_service.Tls.Requests.{
  SettingsStore, TlsSettingsUpdateRequest, get_settings, reload_settings, set_tls_fields,
  update_tls_settings,
}

module _ {Key : Type 0} (c : Crypto Key) where
  -- A request that turns auto-renewal on is answered as a success with auto-renewal on, and every later
  -- turn of the scheduler sleeps an hour and leaves the files, as the configuration that the process
  -- started with has it off and its mode is not custom. The shared settings had it off.
  pub toggle_ignored :
      (r later : Run Key) (payload : TlsSettingsUpdateRequest) (s : SettingsStore) (b b' : Bundle)
      → payload.auto_renew ≡ some true
      → payload.cert_mode ≡ none
      → s.shared.ssl_auto_renew ≡ false
      → s.environment.ssl_auto_renew ≡ false
      → str_eq s.environment.ssl_cert_mode "custom" ≡ false
      → ((update_tls_settings c r payload s b).answer
          ≡ ok (record { succeeded = true; auto_renew = true; cert_mode = s.shared.ssl_cert_mode }))
        × (certificate_renewal_turn c
              (get_settings (update_tls_settings c r payload s b).store)
              later
              b'
            ≡ asleep 3600 b')
  unfolding update_tls_settings set_tls_fields certificate_renewal_turn get_settings reload_settings
  toggle_ignored r later payload s b b' on kept was never managed =
      (simp (on, kept, was), simp (on, kept, was, never, managed))
