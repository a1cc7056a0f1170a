-- ===== src/Deploy/Verified.antt =====
-- What a release that is verified and staged by app/engine/deployer.py is.
use palworld_server_service.Common.{
  ℕ, zero, suc, ◌≤◌, ◌≡◌, refl, sym, ap, ◌∙◌, some, List, [], ◌∷◌, ◌++◌, arith, length, take, drop,
}
use palworld_server_service.Common.Outcome.{ok}
use palworld_server_service.Deploy.Package.{file, Hasher, read_blocks, digest_of, compute_sha256}

-- An incremental hash reads the same in one piece and in two.
pub record IsIncremental (sha : Hasher) : Type 0 where
  pub whole : (s : sha.State) (a b : List ℕ) → sha.update (sha.update s a) b ≡ sha.update s (a ++ b)
  pub nothing : (s : sha.State) → sha.update s [] ≡ s

module _ (sha : Hasher) (law : IsIncremental sha) where
  take-drop : (n : ℕ) (xs : List ℕ) → take n xs ++ drop n xs ≡ xs
  take-drop zero xs = refl
  take-drop (suc n) [] = refl
  take-drop (suc n) (x ∷ xs) = ap (λ t. x ∷ t) (take-drop n xs)

  length-drop : (n : ℕ) (xs : List ℕ) → length (drop n xs) ≤ length xs
  length-drop zero xs = omega arith
  length-drop (suc n) [] = omega arith
  length-drop (suc n) (x ∷ xs) = omega (arith, length-drop n xs)

  read_blocks-lemma :
      (fuel k : ℕ) (bytes : List ℕ) (s : sha.State)
      → suc (length bytes) ≤ fuel
      → read_blocks sha (suc k) fuel bytes s ≡ some (sha.update s bytes)
  unfolding read_blocks
  read_blocks-lemma zero k bytes s h = absurd (omega arith)
  read_blocks-lemma (suc fuel) k [] s h = ap some (sym (law.nothing s))
  read_blocks-lemma (suc fuel) k (b ∷ bs) s h =
      read_blocks-lemma fuel k (drop k bs) (sha.update s (b ∷ take k bs))
        (omega (arith, length-drop k bs))
      ∙ ap some (
          law.whole s (b ∷ take k bs) (drop k bs) ∙ ap (λ t. sha.update s (b ∷ t)) (take-drop k bs))

  -- The loop over blocks ends and hashes the whole file, whatever the block's size but 0, for an
  -- incremental hash.
  pub compute_sha256-whole :
      (k : ℕ) (bytes : List ℕ)
      → compute_sha256 sha (suc k) (file bytes) ≡ ok (sha.hexdigest (sha.update sha.start bytes))
  unfolding compute_sha256
  compute_sha256-whole k bytes =
      ap (digest_of sha) (read_blocks-lemma (suc (length bytes)) k bytes sha.start (omega arith))
