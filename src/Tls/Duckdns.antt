-- ===== src/Tls/Duckdns.antt =====
-- DuckDNS helpers (app/engine/duckdns.py). `lower` is str.lower. The requests themselves stand in Acme.
use palworld_server_service.Common.{
  ℕ, [], ◌∷◌, length, take, drop, ◌-◌, ◌==◌, if◌then◌else◌, leb, ◌&&◌,
}
use palworld_server_service.Common.Text.{Text, codes, strip, starts_with, text_eq}

abbrev pub removeprefix : Text → Text → Text
removeprefix prefix t = if starts_with prefix t then drop (length prefix) t else t

-- The part before the first separator: split(d, 1)[0].
unfoldable pub before : ℕ → Text → Text
before d [] = []
before d (c ∷ t) = let rest = before d t in if c == d then [] else c ∷ rest

abbrev pub removesuffix : Text → Text → Text
removesuffix suffix t =
    let rest = take (length t - length suffix) t in
    if leb (length suffix) (length t) && text_eq (drop (length t - length suffix) t) suffix
    then rest
    else t

unfoldable pub clean_domain_name : (Text → Text) → Text → Text
clean_domain_name lower domain =
    let cleaned =
      removeprefix (codes "http://") (removeprefix (codes "https://") (lower (strip domain))) in
    before b':' (before b'/' cleaned)

unfoldable pub extract_subdomain : (Text → Text) → Text → Text
extract_subdomain lower domain =
    removesuffix (codes ".duckdns.org") (clean_domain_name lower domain)
