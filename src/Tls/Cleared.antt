-- ===== src/Tls/Cleared.antt =====
-- What becomes of the TXT record of the DNS-01 flow (app/engine/acme_client.py).
use palworld_server_service.Common.{
  String, ◌≡◌, refl, ◌⊎◌, inl, inr, Bool, true, false, Option, List, [], ◌∷◌, ◌++◌, arith,
  any_where, if◌then◌else◌,
}
use palworld_server_service.Common.Keeps.{Keeps, Keeps-pure, Keeps-raise, Keeps-bind}
use palworld_server_service.Common.Text.{Text}
use palworld_server_service.Common.Outcome.{value_error, Outcome, ok, err, continue}
use palworld_server_service.Tls.Acme.{
  Net, Sent, Payload, Exchange, Challenge, directory, nonce, post, set_txt, clear_txt, send,
  required, get_nonce, post_signed, register_account, create_order, find_dns01, get_dns01_challenge,
  txt_done, set_duckdns_txt_record, clear_duckdns_txt_record,
}
use palworld_server_service.Tls.Flow.{
  Ordered, first_authorization, order_certificate, cleared, answer_challenge, perform_dns01_flow,
}

abbrev pub is_set_txt : Exchange → Bool
is_set_txt (set_txt domain record_text) = true
is_set_txt (directory url) = false
is_set_txt (nonce url) = false
is_set_txt (post url kid payload) = false
is_set_txt (clear_txt domain) = false

abbrev Unset : List Exchange → Type 0
Unset sent = any_where is_set_txt sent ≡ false

any_where-append_false :
    (sent more : List Exchange)
    → any_where is_set_txt sent ≡ false
    → any_where is_set_txt more ≡ false
    → any_where is_set_txt (sent ++ more) ≡ false
any_where-append_false [] more h k = k
any_where-append_false (x ∷ sent) more h k = ground (arith, any_where-append_false sent more)

module _ {A : Type 0} where
  Keeps-if :
      (P : List Exchange → Type 0) (b : Bool) (m m' : Sent A)
      → Keeps P m
      → Keeps P m'
      → Keeps P (if b then m else m')
  Keeps-if P true m m' g g' = g
  Keeps-if P false m m' g g' = g'

module _ (n : Net) where
  Keeps-send : (x : Exchange) → is_set_txt x ≡ false → Keeps Unset (send n x)
  unfolding send
  Keeps-send x other = record {
    at = λ sent h. any_where-append_false sent (x ∷ []) h (ground arith);
  }

  Keeps-required : (text : String) → Keeps Unset (required text)
  Keeps-required text = Keeps-if Unset _ _ _ (Keeps-raise value_error) (Keeps-pure text)

  Keeps-post_signed :
      (a b : String) (kid : Option String) (payload : Payload)
      → Keeps Unset (post_signed n a b kid payload)
  unfolding post_signed get_nonce
  Keeps-post_signed a b kid payload =
      Keeps-bind _ _ (Keeps-bind _ _ (Keeps-send _ refl) (λ reply. Keeps-required _))
        (λ _. Keeps-send _ refl)

  Keeps-find_dns01 : (challenges : List Challenge) → Keeps Unset (find_dns01 n challenges)
  unfolding find_dns01
  Keeps-find_dns01 [] = Keeps-raise value_error
  Keeps-find_dns01 (ch ∷ challenges) =
      Keeps-if Unset _ _ _ (Keeps-pure ch) (Keeps-find_dns01 challenges)

  Keeps-first : (urls : List String) → Keeps Unset (first_authorization n urls)
  Keeps-first [] = Keeps-raise value_error
  Keeps-first (url ∷ urls) = Keeps-pure url

  Keeps-order_certificate :
      (domain directory_url : String) → Keeps Unset (order_certificate n domain directory_url)
  unfolding order_certificate register_account create_order get_dns01_challenge
  Keeps-order_certificate domain directory_url = Keeps-bind _ _ (Keeps-send _ refl) λ urls.
      Keeps-bind _ _ (record { at = λ sent h. h })
        λ _.
          Keeps-bind _ _ (Keeps-bind _ _ (Keeps-post_signed _ _ _ _) (λ reply. Keeps-required _))
            λ account.
              Keeps-bind _ _
                (Keeps-bind _ _ (Keeps-post_signed _ _ _ _)
                  (λ reply. Keeps-bind _ _ (Keeps-required _) (λ url. Keeps-pure _)))
                λ order. Keeps-bind _ _ (Keeps-first order.authorization_urls) λ url.
                  Keeps-bind _ _
                    (Keeps-bind _ _ (Keeps-post_signed _ _ _ _) (λ reply. Keeps-find_dns01 _))
                    λ challenge. Keeps-pure _

  -- Setting a record returns, with yes or no: every exception that httpx raises is caught.
  abbrev pub SetReturns : Type 0
  SetReturns =
      (sent : List Exchange) (domain text : String)
      → (answer : Bool) × (txt_done n (n.answer sent (set_txt domain text)) ≡ ok answer)

  -- No record was set, or the last request clears it.
  abbrev pub IsCleared : String → List Exchange → Type 0
  IsCleared domain sent =
      (any_where is_set_txt sent ≡ false)
      ⊎ ((before : List Exchange) × (sent ≡ before ++ clear_txt domain ∷ []))

  cleared-IsCleared :
      (domain : String) (run : Outcome Text × List Exchange)
      → IsCleared domain (cleared n domain run).1
  unfolding cleared clear_duckdns_txt_record send
  cleared-IsCleared domain (outcome, sent) = inr (sent, refl)

  answer_challenge-IsCleared :
      (returns : SetReturns) (domain : String) (o : Ordered n) (sent : List Exchange)
      → IsCleared domain (answer_challenge n domain o sent).1
  unfolding answer_challenge set_duckdns_txt_record send
  answer_challenge-IsCleared returns domain o sent =
      rw (returns sent domain (n.digest o.challenge.token)).1 (cleared-IsCleared domain _)

  ordered-IsCleared :
      (returns : SetReturns) (domain : String) (r : Outcome (Ordered n)) (sent : List Exchange)
      → Unset sent
      → IsCleared domain (continue r (answer_challenge n domain) sent).1
  ordered-IsCleared returns domain (ok o) sent h = answer_challenge-IsCleared returns domain o sent
  ordered-IsCleared returns domain (err e) sent h = inl h

  -- However far the flow comes and whatever fails, at its end either no TXT record was set or the last
  -- request clears the domain's. Setting a record does not raise.
  pub perform_dns01_flow-IsCleared :
      (returns : SetReturns) (domain directory_url : String)
      → IsCleared domain (perform_dns01_flow n domain directory_url []).1
  unfolding perform_dns01_flow
  perform_dns01_flow-IsCleared returns domain directory_url =
      ordered-IsCleared returns domain (order_certificate n domain directory_url []).0
        (order_certificate n domain directory_url []).1
        ((Keeps-order_certificate domain directory_url).at [] refl)
