-- ===== src/Miner/Loop.antt =====
-- The nonce loop finds the first nonce that passes, and the node accepts what it finds.
use mathlib.Core.Bool.{false≢true}
use devinsidercoin.Prelude.{
  ℕ, zero, suc, ◌+◌, ◌-◌, ◌^◌, ◌≤◌, ◌<◌, ◌≡◌, ◌∙◌, refl, sym, List, arith, length, All, true, Str,
  Option, none, some, inl, inr, Bool-cases, Option-cases, ◌==◌, ==_iff,
}
use devinsidercoin.Bytes.{IsByte}
use devinsidercoin.Block.{BlockHeader, sha256d, serialize}
use devinsidercoin.Block
use devinsidercoin.Pow.{check_proof_of_work}
use devinsidercoin.Miner.{check_pow, compute_hash, mine_from, mine}
use devinsidercoin.Miner.Agreement.{compute_hash-eq, check_pow-eq}

module _ (sum256 : List ℕ → List ℕ) (h : BlockHeader) where
  -- The node's verdict on the header with a given nonce.
  abbrev pub Passes : ℕ → Type 0
  Passes n =
      let tried = record h { nonce = n } in
      check_proof_of_work (Block.compute_hash sum256 tried) h.bits ≡ true

  -- What a search that began at `start` and had `left` nonces to go has found.
  abbrev pub IsFirst : ℕ → ℕ → Option (BlockHeader × Str) → Type 0
  IsFirst start left none = (n : ℕ) → start ≤ n → n < start + left → ¬ Passes n
  IsFirst start left (some (found, hash)) =
      (start ≤ found.nonce)
      × (found.nonce < start + left)
      × (found ≡ record h { nonce = found.nonce })
      × (hash ≡ Block.compute_hash sum256 found)
      × Passes found.nonce
      × ((n : ℕ) → start ≤ n → n < found.nonce → ¬ Passes n)

  module _
      (digest : (bytes : List ℕ) → (length (sum256 bytes) ≡ 32) × All IsByte (sum256 bytes)) where
    verdict :
        (n : ℕ)
        → check_pow (compute_hash sum256 (record h { nonce = n })) h.bits
          ≡ check_proof_of_work (Block.compute_hash sum256 (record h { nonce = n })) h.bits
    verdict n =
        let tried = record h { nonce = n } in
        let out = digest (sum256 (serialize tried)) in
        rw (compute_hash-eq sum256 tried)
          (unfold Block.compute_hash sha256d in check_pow-eq _ h.bits out.0 out.1)

    beyond : (start n : ℕ) → ¬ Passes start → start ≤ n → (start + 1 ≤ n → ¬ Passes n) → ¬ Passes n
    beyond start n fails ge more = elim (Bool-cases (start == n)) [
      | inl e ↦ rw (← (==_iff start n).0 e) fails
      | inr e ↦ more (ground arith)
    ]

    later :
        (start left : ℕ) (r : Option (BlockHeader × Str))
        → ¬ Passes start
        → IsFirst (start + 1) left r
        → IsFirst start (suc left) r
    later start left none fails rest =
        λ n ge lt. beyond start n fails ge (λ more. rest n more (omega arith))
    later start left (some (found, hash)) fails rest = (
      omega (arith, rest.0),
      omega (arith, rest.1),
      rest.2,
      rest.3,
      rest.4,
      λ n ge lt. beyond start n fails ge (λ more. rest.5 n more lt),
    )

    mine_from-IsFirst : (left start : ℕ) → IsFirst start left (mine_from sum256 left start h)
    unfolding mine_from
    mine_from-IsFirst zero start = λ n ge lt. absurd (omega arith)
    mine_from-IsFirst (suc left) start =
        elim (Bool-cases (check_pow (compute_hash sum256 (record h { nonce = start })) h.bits)) [
          | inl good ↦ rw good (
            omega arith,
            omega arith,
            refl,
            compute_hash-eq sum256 (record h { nonce = start }),
            sym (verdict start) ∙ good,
            λ n ge lt. absurd (omega arith),
          )
          | inr bad ↦ rw bad (
              later start left (mine_from sum256 left (start + 1) h)
                (λ good. false≢true (sym bad ∙ verdict start ∙ good))
                (mine_from-IsFirst left (start + 1)))
        ]

    -- If SHA-256 gives 32 bytes, the loop ends with the first of the nonces below 2 ^ 64 - 1 whose
    -- hash the node accepts for these bits, with the header and the node's hash of it, or with
    -- nothing, and then there is no such nonce.
    pub mine-IsFirst : IsFirst 0 (2 ^ 64 - 1) (mine sum256 h)
    unfolding mine
    mine-IsFirst = mine_from-IsFirst (2 ^ 64 - 1) 0

-- The nonce loop on a header for which some nonce passes.
pub mine_found :
    (sum256 : List ℕ → List ℕ)
    → ((bytes : List ℕ) → (length (sum256 bytes) ≡ 32) × All IsByte (sum256 bytes))
    → (h : BlockHeader) (nonce : ℕ) → nonce < 2 ^ 64 - 1
    → Passes sum256 h nonce
    → (found : BlockHeader × Str) × (mine sum256 h ≡ some found)
      × IsFirst sum256 h 0 (2 ^ 64 - 1) (some found)
mine_found sum256 digest h nonce lt passes =
    let first = mine-IsFirst sum256 h digest in
    elim (Option-cases (mine sum256 h)) [
      | inl e ↦
          let none_found : IsFirst sum256 h 0 (2 ^ 64 - 1) none = rw e at first in
          absurd (none_found nonce (omega arith) (omega arith) passes)
      | inr (found, e) ↦ (found, e, rw e at first)
    ]
