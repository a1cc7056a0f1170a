-- ===== src/Tls/Acme.antt =====
-- The ACME client (app/engine/acme_client.py) and the DuckDNS calls that it makes
-- (app/engine/duckdns.py). The state is the requests sent so far; what the network answers, an error
-- status included, is an argument. Signatures are made locally and are left out, as is what a request
-- says about itself but its URL, whether it names the account, and its payload.
use palworld_server_service.Common.{
  ℕ, zero, suc, String, Bool, false, ◌||◌, Option, none, some, List, [], ◌∷◌, ◌++◌, str_eq,
  if◌then◌else◌,
}
use palworld_server_service.Common.Text.{Text}
use palworld_server_service.Common.Outcome.{
  http, value_error, timeout_error, Outcome, ok, err, Action, pure, raise, ◌>>=◌,
}

pub data Payload : Type 0 where
  agree_terms read_only accept_challenge : Payload
  order_for : String → Payload
  submit_csr : Text → Payload

pub data Exchange : Type 0 where
  directory : String → Exchange
  nonce : String → Exchange
  post : String → Option String → Payload → Exchange
  set_txt : String → String → Exchange
  clear_txt : String → Exchange

pub record Challenge : Type 0 where
  pub kind : String
  pub url : String
  pub token : String

-- What a client reads of a reply; a field or a header that is missing is empty.
pub record Reply : Type 0 where
  pub replay_nonce : String
  pub location : String
  pub status : String
  pub new_nonce : String
  pub new_account : String
  pub new_order : String
  pub authorizations : List String
  pub finalize : String
  pub challenges : List Challenge
  pub certificate : String
  pub content : Text
  pub says_ok : Bool

-- `account_key` is create_or_load_account_key, `digest` the key authorization of a token, `csr` the
-- request for a domain in DER.
pub record Net : Type 0 where
  pub answer : List Exchange → Exchange → Outcome Reply
  pub account_key : Outcome (Unit {0})
  pub digest : String → String
  pub csr : String → Text

abbrev pub Sent : Type 0 → Type 0
Sent A = Action (List Exchange) A

unfoldable pub send : Net → Exchange → Sent Reply
send n x sent = (n.answer sent x, sent ++ (x ∷ []))

-- Raises where a text that is needed is empty.
abbrev pub required : String → Sent String
required text = if str_eq text "" then raise value_error else pure text

module _ (n : Net) where
  unfoldable pub get_nonce : String → Sent String
  get_nonce new_nonce_url = do reply ← send n (nonce new_nonce_url); required reply.replay_nonce

  unfoldable pub post_signed : String → String → Option String → Payload → Sent Reply
  post_signed new_nonce_url url kid payload =
      get_nonce new_nonce_url >>= λ _. send n (post url kid payload)

  unfoldable pub register_account : String → String → Sent String
  register_account new_account_url new_nonce_url = do
    reply ← post_signed new_nonce_url new_account_url none agree_terms
    required reply.location

  pub record AcmeOrder : Type 0 where
    pub order_url : String
    pub authorization_urls : List String
    pub finalize_url : String

  unfoldable pub create_order : String → String → String → String → Sent AcmeOrder
  create_order account domain new_order_url new_nonce_url = do
    reply ← post_signed new_nonce_url new_order_url (some account) (order_for domain)
    order_url ← required reply.location
    pure (record {
      order_url = order_url;
      authorization_urls = reply.authorizations;
      finalize_url = reply.finalize;
    })

  unfoldable pub find_dns01 : List Challenge → Sent Challenge
  find_dns01 [] = raise value_error
  find_dns01 (ch ∷ challenges) =
      let rest = find_dns01 challenges in if str_eq ch.kind "dns-01" then pure ch else rest

  unfoldable pub get_dns01_challenge : String → String → String → Sent Challenge
  get_dns01_challenge account authorization_url new_nonce_url = do
    reply ← post_signed new_nonce_url authorization_url (some account) read_only
    find_dns01 reply.challenges

  unfoldable pub respond_to_challenge : String → String → String → Sent Reply
  respond_to_challenge account challenge_url new_nonce_url =
      post_signed new_nonce_url challenge_url (some account) accept_challenge

  abbrev pub is_final : String → Bool
  is_final status = str_eq status "ready" || str_eq status "valid" || str_eq status "invalid"

  -- `attempts` are left.
  unfoldable pub poll_attempts : ℕ → String → String → String → Sent Reply
  poll_attempts zero account order_url new_nonce_url = raise timeout_error
  poll_attempts (suc attempts) account order_url new_nonce_url =
      post_signed new_nonce_url order_url (some account) read_only >>= λ reply.
      (if is_final reply.status
        then pure reply
        else poll_attempts attempts account order_url new_nonce_url)

  -- ACME_MAX_POLL_ATTEMPTS
  unfoldable pub poll_order_status : String → String → String → Sent Reply
  poll_order_status account order_url new_nonce_url =
      poll_attempts 40 account order_url new_nonce_url

  abbrev pub or_url : String → String → String
  or_url url default = if str_eq url "" then default else url

  unfoldable pub settled : String → String → String → Reply → Sent Reply
  settled account finalize_url new_nonce_url reply =
      if str_eq reply.status "processing"
      then poll_order_status account (or_url reply.location finalize_url) new_nonce_url
      else pure reply

  abbrev pub certificate_url : Reply → Sent String
  certificate_url reply =
      if str_eq reply.status "valid" then required reply.certificate else raise value_error

  unfoldable pub finalize_order : String → String → Text → String → Sent String
  finalize_order account finalize_url csr_der new_nonce_url = do
    reply ← post_signed new_nonce_url finalize_url (some account) (submit_csr csr_der)
    final ← settled account finalize_url new_nonce_url reply
    certificate_url final

  unfoldable pub download_certificate : String → String → String → Sent Text
  download_certificate account url new_nonce_url = do
    reply ← post_signed new_nonce_url url (some account) read_only
    pure reply.content

  -- A refused or failed request counts as no success; other exceptions go on.
  abbrev pub txt_done : Outcome Reply → Outcome Bool
  txt_done (ok reply) = ok reply.says_ok
  txt_done (err (http code)) = ok false
  txt_done (err e) = err e

  unfoldable pub set_duckdns_txt_record : String → String → Sent Bool
  set_duckdns_txt_record domain txt_record sent =
      let (reply, sent') = send n (set_txt domain txt_record) sent in (txt_done reply, sent')

  unfoldable pub clear_duckdns_txt_record : String → Sent Bool
  clear_duckdns_txt_record domain sent =
      let (reply, sent') = send n (clear_txt domain) sent in (txt_done reply, sent')
