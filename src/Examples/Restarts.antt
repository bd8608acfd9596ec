-- ===== src/Examples/Restarts.antt =====
-- The theorem on a restart, applied to a chain with a balance and a stake.
use devinsidercoin.Prelude.{
  ℕ, ◌≡◌, refl, sym, ap, ◌∙◌, some, inl, inr, Bool-cases, List, [], ◌∷◌, ◌++◌, arith, codes, str_eq,
  str_eq_iff,
}
use devinsidercoin.Prelude.Int.{pos, of_word64, to_word64}
use devinsidercoin.Prelude.Dict.{lookup}
use devinsidercoin.Bytes.{put_big, of_big, encode_to_string}
use devinsidercoin.Block.{compute_hash, sha256d}
use devinsidercoin.Stakes.{Stake}
use devinsidercoin.Storage.{
  get_block_count, get_best_height, height_key, best_height_key, total_minted_key,
  get_block_by_height, key_to_height, has_data, float_to_bytes,
}
use devinsidercoin.Storage.Database.{blocks, balances, stakes, meta}
use devinsidercoin.Storage.Encoding.{Json}
use devinsidercoin.Chain.{Blockchain, load_block}
use devinsidercoin.Chain.Agree.{Agrees}
use devinsidercoin.Chain.Linked.{IsLinked}
use devinsidercoin.Chain.Start.{new_blockchain}
use devinsidercoin.Chain.Start.Restart.{Survives, IsRestored, new_blockchain-IsRestored}
use devinsidercoin.Examples.{fixed, by_height, checksum, coins, sample_block}
use devinsidercoin.Examples.Store.{Entry, entries, entries-IsBolt, find}
use devinsidercoin.Examples.Chains.{empty_chain}
use devinsidercoin.Examples.Starts.{no_time, old_file}

abbrev sample_stake : Stake ℕ
sample_stake = record { address = codes "alice"; amount = coins 300; block_height = 0 }

-- An encoding of the sample blocks and of one stake.
instance unfoldable one_stake : Json ℕ
one_stake = record by_height { unmarshal_stake = λ raw. some sample_stake }

abbrev stake_bytes : List ℕ
stake_bytes = put_big 8 (coins 300) ++ (put_big 8 0 ++ codes "alice")

-- A chain of one block, with what the database holds of it.
abbrev staked_chain : Blockchain ℕ (List Entry)
staked_chain = record empty_chain {
  store =
      record { bucket = meta; key = best_height_key; value = put_big 8 0 }
      ∷ record { bucket = meta; key = total_minted_key; value = put_big 8 (coins 330) }
      ∷ record { bucket = balances; key = codes "bob"; value = put_big 8 (coins 30) }
      ∷ record { bucket = stakes; key = codes "alice"; value = stake_bytes }
      ∷ record { bucket = blocks; key = height_key 0; value = put_big 8 0 }
      ∷ [];
  balances = (codes "bob", coins 30) ∷ [];
  stakes = (codes "alice", sample_stake) ∷ [];
  total_minted = coins 330;
  last_block = some (sample_block 0);
}

staked_chain-count : get_block_count staked_chain.store ≡ 1
unfolding get_block_count get_best_height entries find of_word64 to_word64 str_eq key_to_height
    of_big put_big
staked_chain-count = omega arith

staked_chain-key :
    (k v : List ℕ) → entries.get staked_chain.store blocks k ≡ some v → k ≡ height_key 0
unfolding entries find
staked_chain-key k v e = elim (Bool-cases (str_eq (height_key 0) k)) [
  | inl hit ↦ sym ((str_eq_iff (height_key 0) k).0 hit)
  | inr miss ↦ absurd (cc (rw miss at e))
]

bottom_loaded : load_block ⦃js = one_stake⦄ 0 staked_chain.store ≡ some (sample_block 0)
unfolding load_block get_block_by_height entries find height_key one_stake by_height of_big put_big
    str_eq
bottom_loaded = refl

bottom_at :
    (h : ℕ) → h ≡ 0 → load_block ⦃js = one_stake⦄ h staked_chain.store ≡ some (sample_block 0)
bottom_at h e = ap (λ k. load_block {F = ℕ} ⦃js = one_stake⦄ k staked_chain.store) e ∙ bottom_loaded

staked_chain-IsLinked : IsLinked checksum ⦃js = one_stake⦄ staked_chain
staked_chain-IsLinked = record {
  bounded = rw staked_chain-count (omega arith);
  stored_at = λ h lt.
      let bottom : h ≡ 0 = omega (arith, lt, staked_chain-count) in
      record {
        block = sample_block 0;
        loaded = bottom_at h bottom;
        height = unfold sample_block in sym bottom;
        hash = unfold sample_block compute_hash sha256d checksum encode_to_string in refl;
        work = λ later. absurd (omega (arith, later, bottom));
        within = λ later. absurd (omega (arith, later, bottom));
      };
  exact = λ k v e. (0, omega (arith, staked_chain-count), staked_chain-key k v e);
  links = λ h under b lt e1 e2. absurd (omega (arith, lt, staked_chain-count));
  last = λ h e. bottom_at h (omega (arith, e, staked_chain-count));
}

staked_chain-Agrees : Agrees ⦃js = one_stake⦄ staked_chain
unfolding entries find lookup one_stake by_height float_to_bytes
staked_chain-Agrees = record {
  balance_at = λ a. elim (Bool-cases (str_eq (codes "bob") a)) [
    | inl hit ↦ rw hit refl
    | inr miss ↦ rw miss refl
  ];
  stake_at = λ a. elim (Bool-cases (str_eq (codes "alice") a)) [
    | inl hit ↦ rw hit refl
    | inr miss ↦ rw miss refl
  ];
  minted = unfold str_eq in refl;
}

staked_chain-Survives : Survives ⦃js = one_stake⦄ staked_chain
unfolding lookup one_stake by_height
staked_chain-Survives = record {
  balance = λ a f e. elim (Bool-cases (str_eq (codes "bob") a)) [
    | inl hit ↦
        let same : coins 30 ≡ f = cc (rw hit at e) in rw (← same) (unfold put_big of_big in refl)
    | inr miss ↦ absurd (cc (rw miss at e))
  ];
  stake = λ a s e. elim (Bool-cases (str_eq (codes "alice") a)) [
    | inl hit ↦
        let same : sample_stake ≡ s = cc (rw hit at e) in rw (← same) (stake_bytes, refl, refl)
    | inr miss ↦ absurd (cc (rw miss at e))
  ];
  minted = unfold put_big of_big in refl;
}

new_blockchain-IsRestored_example :
    (after : Blockchain ℕ (List Entry)) × (new_blockchain ⦃js = one_stake⦄ checksum no_time
        staked_chain.config staked_chain.store
        (some old_file)
        (pos 1800000000)
      ≡ some after)
    × IsRestored ⦃js = one_stake⦄ staked_chain after
new_blockchain-IsRestored_example =
    new_blockchain-IsRestored ⦃js = one_stake⦄ checksum no_time entries-IsBolt staked_chain
      (some old_file) (pos 1800000000)
      (unfold has_data get_best_height entries find of_word64 str_eq key_to_height of_big put_big in
        refl)
      staked_chain-Agrees staked_chain-IsLinked staked_chain-Survives
