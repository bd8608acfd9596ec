-- ===== src/Examples/Money.antt =====
-- The theorems on limits, stakes and balances, applied.
use devinsidercoin.Prelude.{ℕ, ◌^◌, ◌≡◌, refl, List, [], ◌∷◌, foldl, codes, str_eq}
use devinsidercoin.Prelude.Dict.{lookup}
use devinsidercoin.Config.{NetworkConfig}
use devinsidercoin.Block.{Transaction, stake}
use devinsidercoin.Stakes.{Stakes, remove_stake, eligible_staked, calc_pos_rewards}
use devinsidercoin.Stakes.Account.{IsRemoval, remove_stake-IsRemoval}
use devinsidercoin.Stakes.Rewards.{payments, due, payments-calc_pos_rewards}
use devinsidercoin.Ledger.{Effects, balance_of, apply_transactions}
use devinsidercoin.Ledger.Balance.{post, entries, balance-apply_transactions}
use devinsidercoin.Ledger.Changed.{IsTracked, apply_transactions-IsTracked}
use devinsidercoin.Examples.{sample_config, fixed, by_height, coins, payment, sending}

abbrev two_stakes : Stakes ℕ
two_stakes =
    (codes "alice", record { address = codes "alice"; amount = coins 300; block_height = 7 })
    ∷ (codes "bob", record { address = codes "bob"; amount = coins 50; block_height = 8 })
    ∷ []

remove_stake-IsRemoval_example :
    IsRemoval (codes "bob") (coins 50) two_stakes (remove_stake (codes "bob") (coins 50) two_stakes)
remove_stake-IsRemoval_example = remove_stake-IsRemoval (codes "bob") (coins 50) two_stakes

payments-calc_pos_rewards_example :
    payments (codes "alice") (calc_pos_rewards (coins 25) (coins 100) two_stakes)
    ≡ due
        (coins 25)
        (coins 100)
        (eligible_staked (coins 100) two_stakes)
        (lookup (codes "alice") two_stakes)
unfolding lookup str_eq eligible_staked fixed
payments-calc_pos_rewards_example =
    payments-calc_pos_rewards (coins 25) (coins 100) two_stakes (codes "alice") (refl, (refl, tt))
      refl

abbrev start : Effects ℕ
start = record {
  balances = (codes "miner", coins 7) ∷ [];
  stakes = two_stakes;
  changed_balances = [];
  changed_stakes = [];
  minted = 0;
}

-- The last one makes a stake that has no encoding.
abbrev some_transactions : List (Transaction ℕ)
some_transactions =
    payment (codes "a6") ∷ sending ∷ record sending { type = stake; amount = 2 ^ 64 } ∷ []

balance-apply_transactions_example :
    balance_of (apply_transactions 9 some_transactions start).balances (codes "miner")
    ≡ foldl post
        (balance_of start.balances (codes "miner"))
        (entries (codes "miner") some_transactions)
balance-apply_transactions_example =
    balance-apply_transactions 9 (codes "miner") some_transactions start

apply_transactions-IsTracked_example :
    IsTracked start.balances start.stakes (apply_transactions 9 some_transactions start)
apply_transactions-IsTracked_example =
    apply_transactions-IsTracked start.balances start.stakes 9 some_transactions start (record {
      balances_at = λ a. unfold lookup in refl;
      stakes_at = λ a. unfold lookup in refl;
      balances_map = tt;
      stakes_map = tt;
    })

abbrev no_limits : NetworkConfig ℕ
no_limits = record sample_config { max_block_size = 0; difficulty_epoch_blocks = 0 }
