-- ===== src/Config/Injection.antt =====
-- A text that the serializer writes without quotes (app/config_manager/parser.py).
use mathlib.Core.List.{append_assoc, append-nil}
use palworld_server_service.Common.{
  ℕ, ◌≡◌, refl, sym, ap, ◌∙◌, Bool, true, ◌&&◌, List, [], ◌∷◌, ◌++◌, map,
}
use palworld_server_service.Common.Text.{Text, codes, starts_with, join_on}
use palworld_server_service.Config.Settings.{
  Numbers, Value, text, Settings, serialize_ini_settings, show_pair, ends_with,
}

-- What follows the first part of a joined text.
abbrev after : ℕ → List Text → Text
after d [] = []
after d (q ∷ qs) = d ∷ join_on d (q ∷ qs)

join_on-cons : (d : ℕ) (p : Text) (ps : List Text) → join_on d (p ∷ ps) ≡ p ++ after d ps
unfolding join_on
join_on-cons d p [] = sym (append-nil p)
join_on-cons d p (q ∷ qs) = refl

-- v.startswith("(") and v.endswith(")")
abbrev pub is_bracketed : Numbers → Text → Bool
is_bracketed n t = starts_with (codes "(") t && ends_with n (codes ")") t

-- p, the written setting h, and the setting j with the value q
abbrev pub bundle : Text → Text → Text → Text → Text
bundle p h j q = p ++ (b',' ∷ (h ++ (b',' ∷ (j ++ (b'=' ∷ q)))))

shown :
    (n : Numbers) (k t : Text) → is_bracketed n t ≡ true → show_pair n (k, text t) ≡ k ++ (b'=' ∷ t)
shown n k t h = rw h refl

regroup :
    (k p h j q tail : Text)
    → (k ++ (b'=' ∷ bundle p h j q)) ++ tail
      ≡ (k ++ (b'=' ∷ p)) ++ (b',' ∷ (h ++ (b',' ∷ ((j ++ (b'=' ∷ q)) ++ tail))))
regroup k p h j q tail = simp append_assoc refl

-- A bracketed text may carry further settings: where two bracketed texts p and q have any setting
-- between them, written out with its key, the one public value that holds it all serializes to
-- the same file as three settings do. So a value of a public setting can set a protected one.
pub serialize_injection :
    (n : Numbers) (k j : Text) (p q : Text) (hidden : Text × Value n) (rest : Settings n)
    → is_bracketed n p ≡ true
    → is_bracketed n q ≡ true
    → is_bracketed n (bundle p (show_pair n hidden) j q) ≡ true
    → serialize_ini_settings n ((k, text (bundle p (show_pair n hidden) j q)) ∷ rest)
      ≡ serialize_ini_settings n ((k, text p) ∷ hidden ∷ (j, text q) ∷ rest)
unfolding serialize_ini_settings
serialize_injection n k j p q hidden rest hp hq hw =
    ap (λ t. codes "[/Script/Pal.PalGameWorldSettings]\nOptionSettings=(" ++ t ++ codes ")\n")
      (ap (λ t. join_on b',' (t ∷ map (show_pair n) rest)) (shown n k _ hw)
        ∙ join_on-cons b',' _ (map (show_pair n) rest)
        ∙ regroup k p (show_pair n hidden) j q (after b',' (map (show_pair n) rest))
        ∙ ap (λ t. (k ++ (b'=' ∷ p)) ++ (b',' ∷ (show_pair n hidden ++ (b',' ∷ t))))
            (sym (join_on-cons b',' (j ++ (b'=' ∷ q)) (map (show_pair n) rest)))
        ∙ three)
  where
    plain :
        (k ++ (b'=' ∷ p))
          ++ (b','
              ∷ (show_pair n hidden
                  ++ (b',' ∷ join_on b',' ((j ++ (b'=' ∷ q)) ∷ map (show_pair n) rest))))
        ≡ join_on b','
            ((k ++ (b'=' ∷ p)) ∷ show_pair n hidden ∷ (j ++ (b'=' ∷ q)) ∷ map (show_pair n) rest)
    plain = unfold join_on in refl

    three :
        (k ++ (b'=' ∷ p))
          ++ (b','
              ∷ (show_pair n hidden
                  ++ (b',' ∷ join_on b',' ((j ++ (b'=' ∷ q)) ∷ map (show_pair n) rest))))
        ≡ join_on b',' (
            show_pair n (k, text p)
            ∷ show_pair n hidden
            ∷ show_pair n (j, text q)
            ∷ map (show_pair n) rest)
    three =
        plain
        ∙ ap
            (λ t.
              join_on b',' (t ∷ show_pair n hidden ∷ (j ++ (b'=' ∷ q)) ∷ map (show_pair n) rest))
            (sym (shown n k p hp))
        ∙ ap
            (λ t.
              join_on b','
                (show_pair n (k, text p) ∷ show_pair n hidden ∷ t ∷ map (show_pair n) rest))
            (sym (shown n j q hq))
