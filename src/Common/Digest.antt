-- ===== src/Common/Digest.antt =====
-- hmac.compare_digest, as the code calls it on two strings.
use palworld_server_service.Common.{Bool, not, ltb, any_where, if◌then◌else◌}
use palworld_server_service.Common.Text.{Text, text_eq}
use palworld_server_service.Common.Outcome.{Outcome, ok, err, type_error}

abbrev pub is_ascii : Text → Bool
is_ascii t = not (any_where (λ c. not (ltb c 128)) t)

abbrev pub compare_digest : Text → Text → Outcome Bool
compare_digest a b =
    if is_ascii a then (if is_ascii b then ok (text_eq a b) else err type_error) else err type_error
