-- ===== src/Tls/Traced.antt =====
-- The requests that the DNS-01 flow makes (app/engine/acme_client.py), whatever the network answers.
use palworld_server_service.Common.{
  ℕ, zero, suc, ◌+◌, ◌*◌, ◌≤◌, String, Bool, true, false, Option, List, [], ◌∷◌, arith, length,
  length-append, str_eq, if◌then◌else◌,
}
use palworld_server_service.Common.Text.{Text}
use palworld_server_service.Common.Outcome.{
  Error, value_error, timeout_error, Outcome, ok, err, pure, raise, ◌>>=◌, continue,
}
use palworld_server_service.Tls.Acme.{
  Net, Reply, Sent, Payload, Exchange, Challenge, set_txt, clear_txt, send, required, get_nonce,
  post_signed, register_account, create_order, find_dns01, get_dns01_challenge,
  respond_to_challenge, poll_attempts, poll_order_status, settled, finalize_order,
  download_certificate, set_duckdns_txt_record, clear_duckdns_txt_record,
}
use palworld_server_service.Tls.Flow.{
  Ordered, first_authorization, order_certificate, obtain_certificate, cleared, answer_challenge,
  perform_dns01_flow,
}

-- `m` sends at most `k` requests.
record Grows {A : Type 0} (k : ℕ) (m : Sent A) : Type 0 where
  at : (sent : List Exchange) → length (m sent).1 ≤ length sent + k

module _ {A : Type 0} where
  Grows-pure : (a : A) → Grows 0 (pure a)
  Grows-pure a = record { at = λ sent. omega arith }

  Grows-raise : (e : Error) → Grows {A = A} 0 (raise e)
  Grows-raise e = record { at = λ sent. omega arith }

  Grows-if :
      (k : ℕ) (b : Bool) (m m' : Sent A) → Grows k m → Grows k m' → Grows k (if b then m else m')
  Grows-if k true m m' g g' = g
  Grows-if k false m m' g g' = g'

  Grows-le : (j k : ℕ) (m : Sent A) → j ≤ k → Grows j m → Grows k m
  Grows-le j k m h g = record { at = λ sent. omega (arith, g.at sent) }

module _ {A B : Type 0} where
  continue-le :
      (k : ℕ) (r : Outcome A) (f : A → Sent B) (sent : List Exchange)
      → ((a : A) → Grows k (f a))
      → length (continue r f sent).1 ≤ length sent + k
  continue-le k (ok a) f sent g = (g a).at sent
  continue-le k (err e) f sent g = omega arith

  Grows-bind :
      (j k : ℕ) (m : Sent A) (f : A → Sent B)
      → Grows j m
      → ((a : A) → Grows k (f a))
      → Grows (j + k) (m >>= f)
  Grows-bind j k m f g h = record {
    at = λ sent. omega (arith, g.at sent, continue-le k (m sent).0 f (m sent).1 h);
  }

module _ (n : Net) where
  Grows-send : (x : Exchange) → Grows 1 (send n x)
  unfolding send
  Grows-send x = record { at = λ sent. omega (arith, length-append sent (x ∷ [])) }

  Grows-required : (text : String) → Grows 0 (required text)
  Grows-required text = Grows-if 0 _ _ _ (Grows-raise value_error) (Grows-pure text)

  Grows-post_signed :
      (a b : String) (kid : Option String) (payload : Payload)
      → Grows 2 (post_signed n a b kid payload)
  unfolding post_signed get_nonce
  Grows-post_signed a b kid payload =
      Grows-bind 1 1 _ _ (Grows-bind 1 0 _ _ (Grows-send _) (λ reply. Grows-required _))
        (λ _. Grows-send _)

  Grows-find_dns01 : (challenges : List Challenge) → Grows 0 (find_dns01 n challenges)
  unfolding find_dns01
  Grows-find_dns01 [] = Grows-raise value_error
  Grows-find_dns01 (ch ∷ challenges) =
      Grows-if 0 _ _ _ (Grows-pure ch) (Grows-find_dns01 challenges)

  Grows-poll_attempts :
      (attempts : ℕ) (account url new_nonce_url : String)
      → Grows (2 * attempts) (poll_attempts n attempts account url new_nonce_url)
  unfolding poll_attempts
  Grows-poll_attempts zero account url new_nonce_url = Grows-raise timeout_error
  Grows-poll_attempts (suc attempts) account url new_nonce_url =
      Grows-le (2 + 2 * attempts) (2 * suc attempts) _ (omega arith) (
        Grows-bind 2 (2 * attempts) _ _ (Grows-post_signed _ _ _ _) (λ reply.
          Grows-if (2 * attempts) _ _ _
            (Grows-le 0 (2 * attempts) _ (omega arith) (Grows-pure reply))
            (Grows-poll_attempts attempts account url new_nonce_url)))

  Grows-first : (urls : List String) → Grows 0 (first_authorization n urls)
  Grows-first [] = Grows-raise value_error
  Grows-first (url ∷ urls) = Grows-pure url

  Grows-order_certificate :
      (domain directory_url : String) → Grows 7 (order_certificate n domain directory_url)
  unfolding order_certificate register_account create_order get_dns01_challenge
  Grows-order_certificate domain directory_url = Grows-bind 1 6 _ _ (Grows-send _) λ urls.
      Grows-bind 0 6 _ _ (record { at = λ sent. omega arith })
        λ _.
          Grows-bind 2 4 _ _
            (Grows-bind 2 0 _ _ (Grows-post_signed _ _ _ _) (λ reply. Grows-required _))
            λ account.
              Grows-bind 2 2 _ _
                (Grows-bind 2 0 _ _ (Grows-post_signed _ _ _ _)
                  (λ reply. Grows-bind 0 0 _ _ (Grows-required _) (λ url. Grows-pure _)))
                λ order. Grows-bind 0 2 _ _ (Grows-first order.authorization_urls) λ url.
                  Grows-bind 2 0 _ _
                    (Grows-bind 2 0 _ _ (Grows-post_signed _ _ _ _) (λ reply. Grows-find_dns01 _))
                    λ challenge. Grows-pure _

  Grows-poll_order_status :
      (account url new_nonce_url : String)
      → Grows 80 (poll_order_status n account url new_nonce_url)
  unfolding poll_order_status
  Grows-poll_order_status account url new_nonce_url =
      Grows-poll_attempts 40 account url new_nonce_url

  Grows-settled :
      (account url new_nonce_url : String) (reply : Reply)
      → Grows 80 (settled n account url new_nonce_url reply)
  unfolding settled
  Grows-settled account url new_nonce_url reply =
      Grows-if 80 _ _ _ (Grows-poll_order_status _ _ _)
        (Grows-le 0 80 _ (omega arith) (Grows-pure reply))

  Grows-finalize_order :
      (account url : String) (csr_der : Text) (new_nonce_url : String)
      → Grows 82 (finalize_order n account url csr_der new_nonce_url)
  unfolding finalize_order
  Grows-finalize_order account url csr_der new_nonce_url =
      Grows-bind 2 80 _ _ (Grows-post_signed _ _ _ _) λ reply.
        Grows-bind 80 0 _ _ (Grows-settled account url new_nonce_url reply) λ final.
          Grows-if 0 (str_eq final.status "valid") _ _ (Grows-required final.certificate)
            (Grows-raise value_error)

  Grows-download_certificate :
      (account url new_nonce_url : String)
      → Grows 2 (download_certificate n account url new_nonce_url)
  unfolding download_certificate
  Grows-download_certificate account url new_nonce_url =
      Grows-bind 2 0 _ _ (Grows-post_signed _ _ _ _) (λ reply. Grows-pure _)

  Grows-respond :
      (account url new_nonce_url : String)
      → Grows 2 (respond_to_challenge n account url new_nonce_url)
  unfolding respond_to_challenge
  Grows-respond account url new_nonce_url = Grows-post_signed _ _ _ _

  Grows-obtain_certificate :
      (domain : String) (o : Ordered n) → Grows 166 (obtain_certificate n domain o)
  unfolding obtain_certificate
  Grows-obtain_certificate domain o = Grows-bind 2 164 _ _ (Grows-respond _ _ _) λ _.
      Grows-bind 80 84 _ _ (Grows-poll_order_status _ _ _) λ final.
        Grows-bind 0 84 _ _
          (Grows-if 0 (str_eq final.status "invalid") _ _ (Grows-raise value_error) (Grows-pure tt))
          λ _.
            Grows-bind 82 2 _ _ (Grows-finalize_order _ _ _ _)
              (λ url. Grows-download_certificate _ _ _)

  Grows-set_duckdns_txt_record :
      (domain text : String) → Grows 1 (set_duckdns_txt_record n domain text)
  unfolding set_duckdns_txt_record
  Grows-set_duckdns_txt_record domain text = record {
    at = λ sent. (Grows-send (set_txt domain text)).at sent;
  }

  cleared-le :
      (domain : String) (run : Outcome Text × List Exchange)
      → length (cleared n domain run).1 ≤ length run.1 + 1
  unfolding cleared clear_duckdns_txt_record
  cleared-le domain (outcome, sent) = (Grows-send (clear_txt domain)).at sent

  Grows-answer_challenge :
      (domain : String) (o : Ordered n) → Grows 168 (answer_challenge n domain o)
  unfolding answer_challenge
  Grows-answer_challenge domain o =
      Grows-bind 1 167 _ _ (Grows-set_duckdns_txt_record domain (n.digest o.challenge.token)) λ _.
        record {
          at = λ sent. omega (
            arith,
            (Grows-obtain_certificate domain o).at sent,
            cleared-le domain (obtain_certificate n domain o sent),
          );
        }

  -- Whatever the network answers, the flow ends after 175 requests at most.
  pub perform_dns01_flow_bounded :
      (domain directory_url : String)
      → length (perform_dns01_flow n domain directory_url []).1 ≤ 175
  unfolding perform_dns01_flow
  perform_dns01_flow_bounded domain directory_url = omega (
    arith,
    (Grows-bind 7 168 _ _ (Grows-order_certificate domain directory_url)
          (Grows-answer_challenge domain)).at
        [],
  )
