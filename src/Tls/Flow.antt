-- ===== src/Tls/Flow.antt =====
-- The DNS-01 flow (`perform_dns01_flow` in app/engine/acme_client.py).
use palworld_server_service.Common.{
  String, true, false, none, some, List, [], ◌∷◌, str_eq, if◌then◌else◌,
}
use palworld_server_service.Common.Text.{Text}
use palworld_server_service.Common.Outcome.{value_error, Outcome, ok, err, pure, raise, ◌>>=◌}
use palworld_server_service.Tls.Provision.{AcmeCertificateResult}
use palworld_server_service.Tls.Acme.{
  Net, Reply, Sent, Exchange, Challenge, AcmeOrder, directory, send, register_account, create_order,
  get_dns01_challenge, respond_to_challenge, poll_order_status, finalize_order,
  download_certificate, set_duckdns_txt_record, clear_duckdns_txt_record,
}

module _ (n : Net) where
  -- What the steps before the TXT record give to those after it.
  pub record Ordered : Type 0 where
    pub new_nonce_url : String
    pub account : String
    pub order : AcmeOrder n
    pub challenge : Challenge

  abbrev pub first_authorization : List String → Sent String
  first_authorization [] = raise value_error
  first_authorization (url ∷ urls) = pure url

  abbrev pub load_key : Sent (Unit {0})
  load_key sent = (n.account_key, sent)

  -- Steps 1 to 6.
  unfoldable pub order_certificate : String → String → Sent Ordered
  order_certificate domain directory_url = do
    urls ← send n (directory directory_url)
    _ ← load_key
    account ← register_account n urls.new_account urls.new_nonce
    order ← create_order n account domain urls.new_order urls.new_nonce
    authz_url ← first_authorization order.authorization_urls
    challenge ← get_dns01_challenge n account authz_url urls.new_nonce
    pure (record {
      new_nonce_url = urls.new_nonce;
      account = account;
      order = order;
      challenge = challenge;
    })

  abbrev pub not_invalid : Reply → Sent (Unit {0})
  not_invalid final = if str_eq final.status "invalid" then raise value_error else pure tt

  -- Steps 8 to 11.
  unfoldable pub obtain_certificate : String → Ordered → Sent Text
  obtain_certificate domain o = do
    _ ← respond_to_challenge n o.account o.challenge.url o.new_nonce_url
    final ← poll_order_status n o.account o.order.order_url o.new_nonce_url
    _ ← not_invalid final
    cert_url ← finalize_order n o.account o.order.finalize_url (n.csr domain) o.new_nonce_url
    download_certificate n o.account cert_url o.new_nonce_url

  -- The finally clause: the outcome of the body, after the record is cleared.
  unfoldable pub cleared : String → Outcome Text × List Exchange → Outcome Text × List Exchange
  cleared domain (outcome, sent) = (outcome, (clear_duckdns_txt_record n domain sent).1)

  -- Steps 7 to 12; the record counts as set once the call returns, whatever it answers.
  unfoldable pub answer_challenge : String → Ordered → Sent Text
  answer_challenge domain o =
      set_duckdns_txt_record n domain (n.digest o.challenge.token) >>= λ _ sent.
      cleared domain (obtain_certificate domain o sent)

  abbrev pub flow_result : Outcome Text → AcmeCertificateResult
  flow_result (ok pem) = record { success = true; fullchain_pem = some pem; error = none }
  flow_result (err e) = record {
    success = false;
    fullchain_pem = none;
    error = some "ACME flow failed";
  }

  unfoldable pub perform_dns01_flow :
      String → String → List Exchange → AcmeCertificateResult × List Exchange
  perform_dns01_flow domain directory_url sent =
      let (outcome, sent') =
        (order_certificate domain directory_url >>= answer_challenge domain) sent in
      (flow_result outcome, sent')
