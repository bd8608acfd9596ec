-- ===== src/Block/Merkle.antt =====
-- The Merkle root: the loop ends, and which lists of transactions it cannot tell apart.
use devinsidercoin.Prelude.{
  ℕ, zero, suc, ◌+◌, ◌≤◌, ◌≡◌, ◌∙◌, refl, sym, ap, some, List, [], ◌∷◌, ◌++◌, map, length,
  length-append, All, arith, Str,
}
use devinsidercoin.Bytes.{encode_to_string}
use devinsidercoin.Bytes.Hex.{length-encode_to_string}
use devinsidercoin.Block.{
  Transaction, sha256d, merkle_level, merkle_loop, leaf_hash, compute_merkle_root, zero_hash,
}

abbrev pub IsEven {ℓ} : {A : Type ℓ} → List A → Type 0
IsEven [] = Unit
IsEven (a ∷ []) = ⊥
IsEven (a ∷ b ∷ xs) = IsEven xs

IsEven-map {ℓ κ} :
    {A : Type ℓ} {B : Type κ} (f : A → B) (xs : List A) → IsEven xs → IsEven (map f xs)
IsEven-map f [] h = tt
IsEven-map f (a ∷ []) h = absurd h
IsEven-map f (a ∷ b ∷ xs) h = IsEven-map f xs h

map-append_lem {ℓ κ} :
    {A : Type ℓ} {B : Type κ} (f : A → B) (xs ys : List A) → map f (xs ++ ys) ≡ map f xs ++ map f ys
map-append_lem f [] ys = refl
map-append_lem f (x ∷ xs) ys = ap (λ t. f x ∷ t) (map-append_lem f xs ys)

module _ (sum256 : List ℕ → List ℕ) where
  -- A level holds half as many hashes, rounded up.
  length-merkle_level :
      (hashes : List (List ℕ))
      → (length (merkle_level sum256 hashes) + length (merkle_level sum256 hashes)
          ≤ length hashes + 1)
        × (length hashes
            ≤ length (merkle_level sum256 hashes) + length (merkle_level sum256 hashes))
  unfolding merkle_level
  length-merkle_level [] = omega arith
  length-merkle_level (a ∷ []) = omega arith
  length-merkle_level (a ∷ b ∷ hashes) = omega (arith, length-merkle_level hashes)

  merkle_level-append :
      (xs ys : List (List ℕ))
      → IsEven xs
      → merkle_level sum256 (xs ++ ys) ≡ merkle_level sum256 xs ++ merkle_level sum256 ys
  unfolding merkle_level
  merkle_level-append [] ys h = refl
  merkle_level-append (a ∷ []) ys h = absurd h
  merkle_level-append (a ∷ b ∷ xs) ys h =
      ap (λ t. sha256d sum256 (a ++ b) ∷ t) (merkle_level-append xs ys h)

  -- Any fuel that is at least the number of hashes gives the same root, and gives one.
  merkle_loop_total :
      (fuel : ℕ) (h : List ℕ) (hashes : List (List ℕ))
      → length (h ∷ hashes) ≤ fuel
      → (root : List ℕ) × (merkle_loop sum256 fuel (h ∷ hashes) ≡ some root)
  unfolding merkle_loop merkle_level
  merkle_loop_total fuel h [] le = (h, refl)
  merkle_loop_total zero h (b ∷ hashes) le = absurd (omega arith)
  merkle_loop_total (suc fuel) h (b ∷ hashes) le =
      merkle_loop_total fuel (sha256d sum256 (h ++ b)) (merkle_level sum256 hashes)
        (omega (arith, length-merkle_level hashes))

  merkle_loop_fuel :
      (f g : ℕ) (hashes : List (List ℕ))
      → length hashes ≤ f
      → length hashes ≤ g
      → merkle_loop sum256 f hashes ≡ merkle_loop sum256 g hashes
  unfolding merkle_loop
  merkle_loop_fuel f g [] hf hg = refl
  merkle_loop_fuel f g (a ∷ []) hf hg = refl
  merkle_loop_fuel zero g (a ∷ b ∷ hashes) hf hg = absurd (omega arith)
  merkle_loop_fuel (suc f) zero (a ∷ b ∷ hashes) hf hg = absurd (omega arith)
  merkle_loop_fuel (suc f) (suc g) (a ∷ b ∷ hashes) hf hg =
      merkle_loop_fuel f g (merkle_level sum256 (a ∷ b ∷ hashes))
        (omega (arith, length-merkle_level (a ∷ b ∷ hashes)))
        (omega (arith, length-merkle_level (a ∷ b ∷ hashes)))

  -- One more copy of a last hash that has no neighbour changes nothing.
  merkle_loop_duplicate :
      (f g : ℕ) (a b : List ℕ) (xs : List (List ℕ)) (x : List ℕ)
      → IsEven xs
      → length xs + 3 ≤ f
      → length xs + 4 ≤ g
      → merkle_loop sum256 f (a ∷ b ∷ xs ++ (x ∷ []))
        ≡ merkle_loop sum256 g (a ∷ b ∷ xs ++ (x ∷ x ∷ []))
  unfolding merkle_loop merkle_level
  merkle_loop_duplicate zero g a b xs x even hf hg = absurd (omega arith)
  merkle_loop_duplicate (suc f) zero a b xs x even hf hg = absurd (omega arith)
  merkle_loop_duplicate (suc f) (suc g) a b xs x even hf hg =
      let same : merkle_level sum256 (xs ++ (x ∷ [])) ≡ merkle_level sum256 (xs ++ (x ∷ x ∷ [])) =
        merkle_level-append xs (x ∷ []) even ∙ sym (merkle_level-append xs (x ∷ x ∷ []) even) in
      let top = sha256d sum256 (a ++ b) in
      let single = length-append xs (x ∷ []) in
      let double = length-append xs (x ∷ x ∷ []) in
      merkle_loop_fuel f g (top ∷ merkle_level sum256 (xs ++ (x ∷ [])))
        (omega (arith, length-merkle_level (xs ++ (x ∷ []))))
        (omega (arith, length-merkle_level (xs ++ (x ∷ []))))
      ∙ ap (λ t. merkle_loop sum256 g (top ∷ t)) same

  merkle_level-All :
      (digest : (bytes : List ℕ) → length (sum256 bytes) ≡ 32) (hashes : List (List ℕ))
      → All (λ h. length h ≡ 32) (merkle_level sum256 hashes)
  unfolding merkle_level sha256d
  merkle_level-All digest [] = tt
  merkle_level-All digest (a ∷ []) = (digest _, tt)
  merkle_level-All digest (a ∷ b ∷ hashes) = (digest _, merkle_level-All digest hashes)

  length-merkle_loop :
      (digest : (bytes : List ℕ) → length (sum256 bytes) ≡ 32) (fuel : ℕ) (hashes : List (List ℕ))
      (root : List ℕ)
      → All (λ h. length h ≡ 32) hashes
      → merkle_loop sum256 fuel hashes ≡ some root
      → length root ≡ 32
  unfolding merkle_loop
  length-merkle_loop digest fuel [] root all e = cc
  length-merkle_loop digest fuel (a ∷ []) root all e = ground arith
  length-merkle_loop digest zero (a ∷ b ∷ hashes) root all e = cc
  length-merkle_loop digest (suc fuel) (a ∷ b ∷ hashes) root all e =
      length-merkle_loop digest fuel (merkle_level sum256 (a ∷ b ∷ hashes)) root
        (merkle_level-All digest (a ∷ b ∷ hashes)) e

  module _ {F : Type 0} (marshal : Transaction F → List ℕ) where
    leaf_hash-All :
        (digest : (bytes : List ℕ) → length (sum256 bytes) ≡ 32) (txs : List (Transaction F))
        → All (λ h. length h ≡ 32) (map (leaf_hash sum256 marshal) txs)
    unfolding leaf_hash sha256d
    leaf_hash-All digest [] = tt
    leaf_hash-All digest (tx ∷ txs) = (digest _, leaf_hash-All digest txs)

    length-map_leaf :
        (txs : List (Transaction F)) → length (map (leaf_hash sum256 marshal) txs) ≡ length txs
    length-map_leaf [] = refl
    length-map_leaf (tx ∷ txs) = ap suc (length-map_leaf txs)

    -- If SHA-256 gives 32 bytes, the Merkle loop ends within a round for each transaction, and the
    -- root is a text of 64 digits, for any list of transactions.
    pub compute_merkle_root_total :
        ((bytes : List ℕ) → length (sum256 bytes) ≡ 32)
        → (txs : List (Transaction F))
        → (root : Str) × (compute_merkle_root sum256 marshal txs ≡ some root) × (length root ≡ 64)
    unfolding compute_merkle_root merkle_loop encode_to_string
    compute_merkle_root_total digest [] = (zero_hash, refl, refl)
    compute_merkle_root_total digest (tx ∷ txs) =
        let hashes = map (leaf_hash sum256 marshal) txs in
        let first = leaf_hash sum256 marshal tx in
        let (root, e) =
          merkle_loop_total (length (tx ∷ txs)) first hashes (omega (arith, length-map_leaf txs)) in
        let size =
          length-merkle_loop digest (length (tx ∷ txs)) (first ∷ hashes) root
            (leaf_hash-All digest (tx ∷ txs)) e in
        (encode_to_string root, rw e, omega (arith, length-encode_to_string root, size))

    -- An odd number of transactions, three or more, has the same root as the list that ends in a
    -- second copy of its last transaction: the root does not determine the transactions.
    pub compute_merkle_root_duplicate :
        (a b x : Transaction F) (txs : List (Transaction F))
        → IsEven txs
        → compute_merkle_root sum256 marshal (a ∷ b ∷ txs ++ (x ∷ []))
          ≡ compute_merkle_root sum256 marshal (a ∷ b ∷ txs ++ (x ∷ x ∷ []))
    unfolding compute_merkle_root merkle_loop merkle_level
    compute_merkle_root_duplicate a b x txs even =
        let leaf = leaf_hash sum256 marshal in
        rw (map-append_lem leaf txs (x ∷ []), map-append_lem leaf txs (x ∷ x ∷ []))
          (rw (
            merkle_loop_duplicate (length (a ∷ b ∷ txs ++ (x ∷ [])))
              (length (a ∷ b ∷ txs ++ (x ∷ x ∷ []))) (leaf a) (leaf b) (map leaf txs) (leaf x)
              (IsEven-map leaf txs even)
              (omega (arith, length-append txs (x ∷ []), length-map_leaf txs))
              (omega (arith, length-append txs (x ∷ x ∷ []), length-map_leaf txs))))
