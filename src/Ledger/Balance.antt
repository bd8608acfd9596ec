-- ===== src/Ledger/Balance.antt =====
-- The balance of one address, as a statement of its own entries.
use devinsidercoin.Prelude.{
  ℕ, ◌≡◌, refl, sym, ◌∙◌, ap, Bool, List, [], ◌∷◌, ◌++◌, foldl, arith, if◌then◌else◌, Str, str_eq,
  str_eq_iff,
}
use devinsidercoin.Prelude.Dict.{insert, get_or-insert}
use devinsidercoin.Prelude.Float64.{Float64}
use devinsidercoin.Block.{
  Transaction, TxOutput, TxType, coinbase, transfer, stake, unstake, pos_reward, other,
}
use devinsidercoin.Storage.Encoding.{Json}
use devinsidercoin.Ledger.{
  Effects, balance_of, set_balance, credit_output, apply_mint, apply_transfer, apply_stake,
  apply_unstake, apply_kind, apply_transactions,
}

-- A line of the statement of an account.
pub data Entry (F : Type 0) : Type 0 where
  credit debit : F → Entry F

module _ {F : Type 0} ⦃fl : Float64 F⦄ where
  abbrev pub post : F → Entry F → F
  post balance (credit amount) = fl.add balance amount
  post balance (debit amount) = fl.sub balance amount

  abbrev pub output_entries : Str → List (TxOutput F) → List (Entry F)
  output_entries a [] = []
  output_entries a (out ∷ outputs) =
      if str_eq out.address a
      then credit out.amount ∷ output_entries a outputs
      else output_entries a outputs

  abbrev entry_if : Bool → Entry F → List (Entry F)
  entry_if here entry = if here then entry ∷ [] else []

  -- The entries of an address in a transaction: what the outputs of a coinbase or a PoS reward pay
  -- it, the amount and the fee that it sends, the amount that it receives, stakes or unstakes.
  abbrev pub kind_entries : TxType → Str → Transaction F → List (Entry F)
  kind_entries coinbase a tx = output_entries a tx.outputs
  kind_entries pos_reward a tx = output_entries a tx.outputs
  kind_entries transfer a tx =
      entry_if (str_eq tx.from a) (debit (fl.add tx.amount tx.fee))
      ++ entry_if (str_eq tx.to a) (credit tx.amount)
  kind_entries stake a tx = entry_if (str_eq tx.from a) (debit tx.amount)
  kind_entries unstake a tx = entry_if (str_eq tx.from a) (credit tx.amount)
  kind_entries (other name) a tx = []

  abbrev pub entries : Str → List (Transaction F) → List (Entry F)
  entries a [] = []
  entries a (tx ∷ txs) = kind_entries tx.type a tx ++ entries a txs

  foldl-append :
      (xs ys : List (Entry F)) (b : F) → foldl post b (xs ++ ys) ≡ foldl post (foldl post b xs) ys
  foldl-append [] ys b = refl
  foldl-append (x ∷ xs) ys b = foldl-append xs ys (post b x)

  balance-set_balance :
      (k a : Str) (v : F) (e : Effects F)
      → balance_of (set_balance k v e).balances a
        ≡ (if str_eq k a then v else balance_of e.balances a)
  unfolding set_balance
  balance-set_balance k a v e = get_or-insert k a v (fl.literal 0 0) e.balances

  balance-credit_output :
      (a : Str) (out : TxOutput F) (e : Effects F)
      → balance_of (credit_output e out).balances a
        ≡ foldl post (balance_of e.balances a) (output_entries a (out ∷ []))
  unfolding credit_output
  balance-credit_output a out e = ground (
    arith,
    str_eq_iff out.address a,
    balance-set_balance out.address a (fl.add (balance_of e.balances out.address) out.amount) e,
  )

  output_entries-cons :
      (a : Str) (out : TxOutput F) (outputs : List (TxOutput F))
      → output_entries a (out ∷ outputs) ≡ output_entries a (out ∷ []) ++ output_entries a outputs
  output_entries-cons a out outputs = ground arith

  balance-apply_mint :
      (a : Str) (outputs : List (TxOutput F)) (e : Effects F)
      → balance_of (foldl credit_output e outputs).balances a
        ≡ foldl post (balance_of e.balances a) (output_entries a outputs)
  balance-apply_mint a [] e = refl
  balance-apply_mint a (out ∷ outputs) e =
      balance-apply_mint a outputs (credit_output e out)
      ∙ ap (λ b. foldl post b (output_entries a outputs)) (balance-credit_output a out e)
      ∙ sym (foldl-append (output_entries a (out ∷ [])) (output_entries a outputs) _)
      ∙ ap (foldl post (balance_of e.balances a)) (sym (output_entries-cons a out outputs))

  balance-apply_transfer :
      (a : Str) (tx : Transaction F) (e : Effects F)
      → balance_of (apply_transfer tx e).balances a
        ≡ foldl post (balance_of e.balances a) (kind_entries transfer a tx)
  unfolding apply_transfer
  balance-apply_transfer a tx e =
      let zero_value = fl.literal 0 0 in
      let sent = fl.sub (balance_of e.balances tx.from) (fl.add tx.amount tx.fee) in
      let debited = insert tx.from sent e.balances in
      ground (
        arith,
        str_eq_iff tx.from a,
        str_eq_iff tx.to a,
        str_eq_iff tx.from tx.to,
        get_or-insert tx.to a (fl.add (balance_of debited tx.to) tx.amount) zero_value debited,
        get_or-insert tx.from a sent zero_value e.balances,
        get_or-insert tx.from tx.to sent zero_value e.balances,
      )

module _ {F : Type 0} ⦃fl : Float64 F⦄ ⦃js : Json F⦄ where
  balance-apply_stake :
      (height : ℕ) (a : Str) (tx : Transaction F) (e : Effects F)
      → balance_of (apply_stake height tx e).balances a
        ≡ foldl post (balance_of e.balances a) (kind_entries stake a tx)
  unfolding apply_stake
  balance-apply_stake height a tx e = ground (
    arith,
    str_eq_iff tx.from a,
    balance-set_balance tx.from a (fl.sub (balance_of e.balances tx.from) tx.amount) e,
  )

  balance-apply_unstake :
      (a : Str) (tx : Transaction F) (e : Effects F)
      → balance_of (apply_unstake tx e).balances a
        ≡ foldl post (balance_of e.balances a) (kind_entries unstake a tx)
  unfolding apply_unstake
  balance-apply_unstake a tx e = ground (
    arith,
    str_eq_iff tx.from a,
    balance-set_balance tx.from a (fl.add (balance_of e.balances tx.from) tx.amount) e,
  )

  balance-apply_kind :
      (type : TxType) (height : ℕ) (a : Str) (tx : Transaction F) (e : Effects F)
      → balance_of (apply_kind type height tx e).balances a
        ≡ foldl post (balance_of e.balances a) (kind_entries type a tx)
  unfolding apply_kind apply_mint
  balance-apply_kind coinbase height a tx e = balance-apply_mint a tx.outputs e
  balance-apply_kind pos_reward height a tx e = balance-apply_mint a tx.outputs e
  balance-apply_kind transfer height a tx e = balance-apply_transfer a tx e
  balance-apply_kind stake height a tx e = balance-apply_stake height a tx e
  balance-apply_kind unstake height a tx e = balance-apply_unstake a tx e
  balance-apply_kind (other name) height a tx e = refl

  -- After the transactions of a block, the balance of every address is its balance before, with its
  -- own entries posted one after the other.
  pub balance-apply_transactions :
      (height : ℕ) (a : Str) (txs : List (Transaction F)) (e : Effects F)
      → balance_of (apply_transactions height txs e).balances a
        ≡ foldl post (balance_of e.balances a) (entries a txs)
  unfolding apply_transactions
  balance-apply_transactions height a [] e = refl
  balance-apply_transactions height a (tx ∷ txs) e =
      balance-apply_transactions height a txs (apply_kind tx.type height tx e)
      ∙ ap (λ b. foldl post b (entries a txs)) (balance-apply_kind tx.type height a tx e)
      ∙ sym (foldl-append (kind_entries tx.type a tx) (entries a txs) _)

  -- The amounts that a block mints: those of the outputs of its coinbases and PoS rewards.
  abbrev pub output_amounts : List (TxOutput F) → List F
  output_amounts [] = []
  output_amounts (out ∷ outputs) = out.amount ∷ output_amounts outputs

  abbrev pub kind_minted : TxType → Transaction F → List F
  kind_minted coinbase tx = output_amounts tx.outputs
  kind_minted pos_reward tx = output_amounts tx.outputs
  kind_minted _ tx = []

  abbrev pub minted_amounts : List (Transaction F) → List F
  minted_amounts [] = []
  minted_amounts (tx ∷ txs) = kind_minted tx.type tx ++ minted_amounts txs

  foldl-add-append :
      (xs ys : List F) (b : F) → foldl fl.add b (xs ++ ys) ≡ foldl fl.add (foldl fl.add b xs) ys
  foldl-add-append [] ys b = refl
  foldl-add-append (x ∷ xs) ys b = foldl-add-append xs ys (fl.add b x)

  minted-apply_mint :
      (outputs : List (TxOutput F)) (e : Effects F)
      → (foldl credit_output e outputs).minted ≡ foldl fl.add e.minted (output_amounts outputs)
  unfolding credit_output
  minted-apply_mint [] e = refl
  minted-apply_mint (out ∷ outputs) e = minted-apply_mint outputs (credit_output e out)

  minted-apply_kind :
      (type : TxType) (height : ℕ) (tx : Transaction F) (e : Effects F)
      → (apply_kind type height tx e).minted ≡ foldl fl.add e.minted (kind_minted type tx)
  unfolding apply_kind apply_mint apply_transfer apply_stake apply_unstake set_balance
  minted-apply_kind coinbase height tx e = minted-apply_mint tx.outputs e
  minted-apply_kind pos_reward height tx e = minted-apply_mint tx.outputs e
  minted-apply_kind transfer height tx e = refl
  minted-apply_kind stake height tx e = refl
  minted-apply_kind unstake height tx e = refl
  minted-apply_kind (other name) height tx e = refl

  -- The amount minted grows by the outputs of the coinbases and PoS rewards of the block, in order,
  -- whatever their amounts are.
  pub minted-apply_transactions :
      (height : ℕ) (txs : List (Transaction F)) (e : Effects F)
      → (apply_transactions height txs e).minted ≡ foldl fl.add e.minted (minted_amounts txs)
  unfolding apply_transactions
  minted-apply_transactions height [] e = refl
  minted-apply_transactions height (tx ∷ txs) e =
      minted-apply_transactions height txs (apply_kind tx.type height tx e)
      ∙ ap (λ b. foldl fl.add b (minted_amounts txs)) (minted-apply_kind tx.type height tx e)
      ∙ sym (foldl-add-append (kind_minted tx.type tx) (minted_amounts txs) _)
