-- ===== src/Tls/Discovery.antt =====
-- Which certificate the server starts with (`resolve_ssl_paths` in app/core/config.py), and the
-- settings about it. The file system and OpenSSL's check of a pair are the parameter `Host`.
use Prim.Native.String.{◌++◌ as append}
use palworld_server_service.Common.{
  ℕ, String, Bool, not, ◌&&◌, Option, none, some, List, [], ◌∷◌, ◌++◌, str_eq, if◌then◌else◌,
}

-- The fields of AppSettings that TLS reads. An optional text that is not set is empty: both are falsy.
pub record AppSettings : Type 0 where
  pub duckdns_domain : String
  pub duckdns_token : String
  pub web_port : ℕ
  pub ssl_cert_path : String
  pub ssl_key_path : String
  pub ssl_cert_dir : String
  pub ssl_auto_renew : Bool
  pub ssl_cert_mode : String
  pub ssl_auto_detect : Bool

-- `resolve` is expanduser and resolve, none where it raises an OSError; `clean` is strip and lower.
pub record Host : Type 0 where
  pub expanduser : String → String
  pub join : String → String → String
  pub home : String
  pub clean : String → String
  pub resolve : String → Option String
  pub is_file : String → Bool
  pub load_cert_chain : String → String → Bool

abbrev pub is_set : String → Bool
is_set s = not (str_eq s "")

abbrev pub pair_in : Host → String → String → String → String × String
pair_in h folder cert key = (h.join folder cert, h.join folder key)

abbrev pub configured_candidates : AppSettings → List (String × String)
configured_candidates cfg =
    if is_set cfg.ssl_cert_path && is_set cfg.ssl_key_path
    then (cfg.ssl_cert_path, cfg.ssl_key_path) ∷ []
    else []

abbrev pub directory_candidates : Host → AppSettings → List (String × String)
directory_candidates h cfg =
    let cert_dir = h.expanduser cfg.ssl_cert_dir in
    if is_set cfg.ssl_cert_dir
    then pair_in h cert_dir "tls.crt" "tls.key"
      ∷ pair_in h cert_dir "fullchain.pem" "privkey.pem"
      ∷ pair_in h cert_dir "cert.pem" "key.pem"
      ∷ pair_in h cert_dir "server.crt" "server.key"
      ∷ []
    else []

-- DEFAULT_CERT_DIR
abbrev pub default_candidate : String × String
default_candidate =
    ("/var/lib/palmanager/certs/fullchain.pem", "/var/lib/palmanager/certs/privkey.pem")

abbrev pub domain_candidates : Host → AppSettings → List (String × String)
domain_candidates h cfg =
    let live = append "/etc/letsencrypt/live/" (h.clean cfg.duckdns_domain) in
    if is_set cfg.duckdns_domain
    then (append live "/fullchain.pem", append live "/privkey.pem") ∷ []
    else []

abbrev pub detected_candidates : Host → AppSettings → List (String × String)
detected_candidates h cfg =
    if cfg.ssl_auto_detect
    then default_candidate
      ∷ (domain_candidates h cfg
          ++ pair_in h (h.join (h.join h.home ".palmanager") "certs") "fullchain.pem" "privkey.pem"
            ∷ [])
    else []

abbrev pub candidates : Host → AppSettings → List (String × String)
candidates h cfg =
    configured_candidates cfg ++ (directory_candidates h cfg ++ detected_candidates h cfg)

abbrev pub usable : Host → Option String → Option String → Option (String × String)
usable h none key = none
usable h (some cert) none = none
usable h (some cert) (some key) =
    if h.is_file cert && h.is_file key && h.load_cert_chain cert key then some (cert, key) else none

abbrev pub or_next : Option (String × String) → Option (String × String) → Option (String × String)
or_next none rest = rest
or_next (some pair) rest = some pair

unfoldable pub first_usable : Host → List (String × String) → Option (String × String)
first_usable h [] = none
first_usable h ((cert, key) ∷ pairs) =
    or_next (usable h (h.resolve cert) (h.resolve key)) (first_usable h pairs)

unfoldable pub resolve_ssl_paths : Host → AppSettings → Option (String × String)
resolve_ssl_paths h cfg = first_usable h (candidates h cfg)
