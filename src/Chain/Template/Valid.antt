-- ===== src/Chain/Template/Valid.antt =====
-- The template of `CreateBlockTemplate` and the block that a miner makes of it.
use native.Mathlib.Nat.{min-le_right}
use mathlib.Core.Path.{subst}
use devinsidercoin.Prelude.{
  ℕ, ◌≤◌, ◌≡◌, refl, true, some, inl, inr, Option-cases, List, length, Str,
}
use devinsidercoin.Prelude.Int.{ℤ}
use devinsidercoin.Prelude.Float64.{Float64}
use devinsidercoin.Block.{Block, Transaction, compute_hash, compute_merkle_root}
use devinsidercoin.Block.Merkle.{compute_merkle_root_total}
use devinsidercoin.Pow.{check_proof_of_work}
use devinsidercoin.Pow.Floor.{apply_progressive_difficulty-eq-min}
use devinsidercoin.Storage.Database.{Bolt}
use devinsidercoin.Storage.Encoding.{Json}
use devinsidercoin.Storage.{get_block_count}
use devinsidercoin.Chain.Validate.{IsNext}
use devinsidercoin.Chain.Template.{
  reward_transactions, template_transactions, assemble, create_block_template,
}
use devinsidercoin.Chain.{Blockchain}
use devinsidercoin.Chain.Template.Usable.{
  IsUsable, calc_block_reward_total, template_prev_hash-Follows, template_bits_total,
  length-reward_transactions, length-template_transactions,
}

-- What a miner makes of a template with a nonce.
abbrev pub mined : {F : Type 0} → (List ℕ → List ℕ) → Block F → ℕ → Block F
mined sum256 t nonce =
    let header = record t.header { nonce = nonce } in
    record t { header = header; hash = compute_hash sum256 header }

module _ {F : Type 0} ⦃fl : Float64 F⦄ ⦃js : Json F⦄ {D : Type 0} ⦃db : Bolt D⦄ where
  module _ (sum256 : List ℕ → List ℕ) where
    -- With a usable configuration and a SHA-256 of 32 bytes there is a template.
    pub create_block_template_total :
        (bc : Blockchain F D) (seconds : ℕ) (miner : Str) (now pos_now header_now : ℤ)
        → IsUsable bc.config seconds
        → ((bytes : List ℕ) → length (sum256 bytes) ≡ 32)
        → (t : Block F) × (create_block_template sum256 bc miner now pos_now header_now ≡ some t)
    unfolding create_block_template
    create_block_template_total bc seconds miner now pos_now header_now ok digest =
        let height = get_block_count bc.store in
        let (total, paid) = calc_block_reward_total bc.config bc.total_minted height ok.halving in
        let rewards = reward_transactions sum256 bc miner total now pos_now in
        let txs = template_transactions sum256 bc rewards in
        let (bits, chosen) = template_bits_total bc seconds height ok in
        let (root, rooted, size) = compute_merkle_root_total sum256 js.marshal_tx digest txs in
        (
          assemble bc bits root txs header_now,
          rw (paid, chosen, rooted, create_block_template) refl,
        )

    assemble-IsNext :
        (bc : Blockchain F D) (bits nonce : ℕ) (root : Str) (txs : List (Transaction F))
        → (header_now : ℤ) → length txs ≤ bc.config.max_block_transactions
        → let block = mined sum256 (assemble bc bits root txs header_now) nonce in
          check_proof_of_work block.hash block.header.bits ≡ true
          → length (js.marshal_block block) ≤ bc.config.max_block_size
          → IsNext sum256 bc block
    assemble-IsNext bc bits nonce root txs header_now few work size_ok = record {
      height = refl;
      follows = template_prev_hash-Follows bc.last_block _ refl;
      hash = refl;
      work = work;
      transactions = few;
      size = size_ok;
      floor =
          rw
            (apply_progressive_difficulty-eq-min bits (get_block_count bc.store)
              bc.config.difficulty_epoch_blocks bc.config.min_difficulty_bits)
            (min-le_right _ _);
    }

    -- With a usable configuration, the block that a nonce makes of a template is the next one if its
    -- hash meets its bits and its encoding is within the limit of size.
    pub create_block_template-IsNext :
        (bc : Blockchain F D) (seconds nonce : ℕ) (miner : Str) (now pos_now header_now : ℤ)
        → (t : Block F) → IsUsable bc.config seconds
        → create_block_template sum256 bc miner now pos_now header_now ≡ some t
        → check_proof_of_work (mined sum256 t nonce).hash (mined sum256 t nonce).header.bits ≡ true
        → length (js.marshal_block (mined sum256 t nonce)) ≤ bc.config.max_block_size
        → IsNext sum256 bc (mined sum256 t nonce)
    unfolding create_block_template
    create_block_template-IsNext bc seconds nonce miner now pos_now header_now t ok e =
        let height = get_block_count bc.store in
        let (total, paid) = calc_block_reward_total bc.config bc.total_minted height ok.halving in
        let rewards = reward_transactions sum256 bc miner total now pos_now in
        let txs = template_transactions sum256 bc rewards in
        let (bits, chosen) = template_bits_total bc seconds height ok in
        let few =
          length-template_transactions sum256 bc seconds rewards ok
            (length-reward_transactions sum256 bc miner total now pos_now) in
        elim (Option-cases (compute_merkle_root sum256 js.marshal_tx txs)) [
          | inl failed ↦ absurd (cc (rw (paid, chosen, failed, create_block_template) at e))
          | inr (root, rooted) ↦
              let made : some (assemble bc bits root txs header_now) ≡ some t =
                rw (paid, chosen, rooted, create_block_template) at e in
              let same : assemble bc bits root txs header_now ≡ t = cc made in
              subst
                (λ (b : Block F).
                  check_proof_of_work (mined sum256 b nonce).hash (mined sum256 b nonce).header.bits
                    ≡ true
                  → length (js.marshal_block (mined sum256 b nonce)) ≤ bc.config.max_block_size
                  → IsNext sum256 bc (mined sum256 b nonce))
                same (assemble-IsNext bc bits nonce root txs header_now few)
        ]
