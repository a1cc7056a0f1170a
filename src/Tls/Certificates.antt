-- ===== src/Tls/Certificates.antt =====
-- The staged certificate and its status (app/engine/tls_manager.py). A file is its bytes, time is
-- in seconds. X.509 and RSA are the parameter `Crypto`; which system calls work is an argument.
-- The two paths of a status, always those of the bundle, are left out.
use palworld_server_service.Common.{
  ℕ, ◌-◌, ◌/◌, String, Bool, false, ◌&&◌, Option, none, some, List, [], ◌∷◌, ltb, leb, str_eq,
  if◌then◌else◌,
}
use palworld_server_service.Common.Text.{Text}
use palworld_server_service.Common.Outcome.{Outcome, ok, err, os_error, Action}

pub record NameAttribute : Type 0 where
  pub oid : String
  pub value : String

-- What load_pem_x509_certificate reads; `sans` is none where the extension is missing.
pub record Certificate : Type 0 where
  pub issuer : List NameAttribute
  pub subject : List NameAttribute
  pub sans : Option (List String)
  pub not_before : ℕ
  pub not_after : ℕ

pub record Crypto (Key : Type 0) : Type 0 where
  pub load : Text → Option Certificate
  pub private_key_to_pem : Key → Text
  -- whether a certificate can be made for the domain: x509 raises ValueError for a name that is empty,
  -- too long or not ASCII
  pub can_sign : String → Bool
  pub self_signed_pem : Key → String → ℕ → Text

pub record Bundle : Type 0 where
  pub fullchain : Option Text
  pub privkey : Option Text

pub record StageFaults : Type 0 where
  pub mkdir_works : Bool
  pub fullchain_works : Bool
  pub privkey_works : Bool

abbrev pub stage_key : StageFaults → Text → Action Bundle Text
stage_key f key_pem b =
    if f.privkey_works then (ok key_pem, record b { privkey = some key_pem }) else (err os_error, b)

-- Two atomic writes, one after the other.
unfoldable pub stage_tls_bundle : StageFaults → Text → Text → Action Bundle Text
stage_tls_bundle f cert_pem key_pem b =
    if f.mkdir_works && f.fullchain_works
    then stage_key f key_pem (record b { fullchain = some cert_pem })
    else (err os_error, b)

pub record TlsCertificateStatus : Type 0 where
  pub is_valid : Bool
  pub domain : String
  pub issuer : String
  pub subject_alt_names : List String
  pub not_before : Option ℕ
  pub not_after : Option ℕ
  pub days_remaining : ℕ
  pub is_self_signed : Bool
  pub error_message : Option String

-- `domain or other`
abbrev pub domain_or : String → String → String
domain_or domain other = if str_eq domain "" then other else domain

abbrev pub no_certificate : String → String → TlsCertificateStatus
no_certificate domain message = record {
  is_valid = false;
  domain = domain_or domain "unknown";
  issuer = "unknown";
  subject_alt_names = [];
  not_before = none;
  not_after = none;
  days_remaining = 0;
  is_self_signed = false;
  error_message = some message;
}

unfoldable pub common_name : List NameAttribute → String
common_name [] = "unknown"
common_name (a ∷ attributes) = if str_eq a.oid "2.5.4.3" then a.value else common_name attributes

abbrev pub sans_of : Option (List String) → List String
sans_of none = []
sans_of (some names) = names

-- The days of `not_after - now`, rounded down; 0 once it has passed.
abbrev pub days_left : ℕ → Certificate → ℕ
days_left now cert = (cert.not_after - now) / 86400

abbrev pub is_current : ℕ → Certificate → Bool
is_current now cert = ltb 0 (days_left now cert) && leb cert.not_before now

unfoldable pub status_of_certificate : ℕ → String → Certificate → TlsCertificateStatus
status_of_certificate now domain cert = record {
  is_valid = is_current now cert;
  domain = domain_or domain (common_name cert.subject);
  issuer = common_name cert.issuer;
  subject_alt_names = sans_of cert.sans;
  not_before = some cert.not_before;
  not_after = some cert.not_after;
  days_remaining = days_left now cert;
  is_self_signed = str_eq (common_name cert.issuer) (common_name cert.subject);
  error_message = if is_current now cert then none else some "Certificate expired or not yet valid";
}

abbrev pub status_of_loaded : ℕ → String → Option Certificate → TlsCertificateStatus
status_of_loaded now domain none = no_certificate domain "Failed to load certificate"
status_of_loaded now domain (some cert) = status_of_certificate now domain cert

module _ {Key : Type 0} (c : Crypto Key) where
  abbrev pub status_of_files :
      Bool → ℕ → String → Option Text → Option Text → Outcome TlsCertificateStatus
  status_of_files reads now domain none key = ok (no_certificate domain "Certificate files missing")
  status_of_files reads now domain (some pem) none =
      ok (no_certificate domain "Certificate files missing")
  status_of_files reads now domain (some pem) (some key) =
      if reads then ok (status_of_loaded now domain (c.load pem)) else err os_error

  -- `reads` is whether fullchain.pem can be read, where it is there.
  unfoldable pub get_tls_certificate_status :
      Bool → ℕ → String → Bundle → Outcome TlsCertificateStatus
  get_tls_certificate_status reads now domain b =
      status_of_files reads now domain b.fullchain b.privkey
