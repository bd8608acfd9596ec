-- ===== src/Wallet/Disk.antt =====
-- internal/wallet/wallet.go: the file keeps up with the wallets in memory.
use devinsidercoin.Prelude.{
  ℕ, ◌≡◌, refl, sym, ap, true, false, Option, none, some, inl, inr, Bool-cases, Option-cases, List,
  [], Str,
}
use devinsidercoin.Prelude.Dict.{Dict, lookup, insert, IsDistinct, insert-IsDistinct}
use devinsidercoin.Wallet.{
  Wallet, WalletJson, WalletManager, get_wallet, new_wallet_manager, load_from_disk, restore,
  save_to_disk, wallet_of, add_wallet, create_wallet,
}

-- What encoding/json documents: a wallet and a map of wallets, which is not nil, come back, and a decoded
-- map has each key once.
pub record IsWalletJson ⦃js : WalletJson⦄ : Type 0 where
  pub unmarshal-marshal : (w : Wallet) → js.unmarshal_wallet (js.marshal_wallet w) ≡ some w
  pub fill-marshal :
      (m : Dict Wallet) (a : Str)
      → IsDistinct m
      → (back : Dict Wallet) × (js.fill_wallets (js.marshal_wallets m) [] ≡ some back)
        × (lookup a back ≡ lookup a m)
  pub fill-IsDistinct :
      (content : List ℕ) (m back : Dict Wallet)
      → IsDistinct m
      → js.fill_wallets content m ≡ some back
      → IsDistinct back

module _ ⦃js : WalletJson⦄ (write_file : Option (List ℕ) → List ℕ → Option (List ℕ))
    (sum256 : List ℕ → List ℕ) (base58 : List ℕ → Str) where
  -- The managers that calls of `CreateWallet` and `Restore` reach, failing ones included.
  pub data Reaches (start : WalletManager) : WalletManager → Type 0 where
    at_start : Reaches start start
    after_create :
        (now : WalletManager) (keys : Option (List ℕ × List ℕ))
        → Reaches start now
        → Reaches start (create_wallet write_file sum256 base58 keys now).1
    after_restore :
        (now : WalletManager) (content : List ℕ)
        → Reaches start now
        → Reaches start (restore write_file content now).1

  -- A manager that starts on the file has the wallets of this one, and a nil map if this one has.
  pub record IsSaved (prefix : Str) (wm : WalletManager) : Type 0 where
    pub distinct : IsDistinct wm.wallets
    pub same_wallets :
        (a : Str) → get_wallet a (new_wallet_manager prefix wm.disk) ≡ get_wallet a wm
    pub same_map : (new_wallet_manager prefix wm.disk).is_nil ≡ wm.is_nil

  module _ (laws : IsWalletJson)
      (writes : (file : Option (List ℕ)) (content : List ℕ)
        → write_file file content ≡ some content) where
    -- The manager that starts on a file, by what decoding the file leaves.
    loaded :
        (prefix : Str) (content : List ℕ) (o : Option (Dict Wallet))
        → js.fill_wallets content [] ≡ o
        → new_wallet_manager prefix (some content) ≡ elim o [
          | none ↦ record { wallets = []; is_nil = true; prefix = prefix; disk = some content }
          | some m ↦ record { wallets = m; is_nil = false; prefix = prefix; disk = some content }
        ]
    unfolding new_wallet_manager load_from_disk
    loaded prefix content none e = rw (e, load_from_disk) refl
    loaded prefix content (some m) e = rw (e, load_from_disk) refl

    start-IsSaved :
        (prefix : Str) (disk : Option (List ℕ)) → IsSaved prefix (new_wallet_manager prefix disk)
    unfolding new_wallet_manager load_from_disk
    start-IsSaved prefix none = record { distinct = tt; same_wallets = λ a. refl; same_map = refl }
    start-IsSaved prefix (some content) = elim (Option-cases (js.fill_wallets content [])) [
      | inl e ↦
          let made = loaded prefix content none e in
          rw made (record {
            distinct = tt;
            same_wallets = λ a. ap (get_wallet a) made;
            same_map = ap (λ (wm : WalletManager). wm.is_nil) made;
          })
      | inr (m, e) ↦
          let made = loaded prefix content (some m) e in
          rw made (record {
            distinct = laws.fill-IsDistinct content [] m tt e;
            same_wallets = λ a. ap (get_wallet a) made;
            same_map = ap (λ (wm : WalletManager). wm.is_nil) made;
          })
    ]

    save_to_disk-IsSaved :
        (prefix : Str) (wm : WalletManager)
        → IsDistinct wm.wallets
        → wm.is_nil ≡ false
        → IsSaved prefix (save_to_disk write_file wm)
    unfolding save_to_disk get_wallet new_wallet_manager load_from_disk
    save_to_disk-IsSaved prefix wm distinct map = record {
      distinct = distinct;
      same_wallets = λ a.
          let (back, filled, same) = laws.fill-marshal wm.wallets a distinct in
          rw (writes wm.disk (js.marshal_wallets wm.wallets)) (rw filled same);
      same_map =
          let (back, filled, same) = laws.fill-marshal wm.wallets [] distinct in
          rw (writes wm.disk (js.marshal_wallets wm.wallets)) (rw filled (sym map));
    }

    add_wallet-IsSaved :
        (prefix : Str) (w : Wallet) (wm : WalletManager)
        → IsSaved prefix wm
        → IsSaved prefix (add_wallet write_file w wm).1
    unfolding add_wallet
    add_wallet-IsSaved prefix w wm saved = elim (Bool-cases wm.is_nil) [
      | inl e ↦
          let panics : (add_wallet write_file w wm).1 ≡ wm = rw (e, add_wallet) refl in
          rw panics saved
      | inr e ↦
          let next = record wm { wallets = insert w.address w wm.wallets } in
          let saves : (add_wallet write_file w wm).1 ≡ save_to_disk write_file next =
            rw (e, add_wallet) refl in
          rw saves (
            save_to_disk-IsSaved prefix next
              (insert-IsDistinct w.address w wm.wallets saved.distinct) e)
    ]

    create_wallet-IsSaved :
        (prefix : Str) (keys : Option (List ℕ × List ℕ)) (wm : WalletManager)
        → IsSaved prefix wm
        → IsSaved prefix (create_wallet write_file sum256 base58 keys wm).1
    unfolding create_wallet
    create_wallet-IsSaved prefix none wm saved = saved
    create_wallet-IsSaved prefix (some (public, private)) wm saved =
        add_wallet-IsSaved prefix (wallet_of sum256 base58 wm.prefix public private) wm saved

    restore-IsSaved :
        (prefix : Str) (content : List ℕ) (wm : WalletManager)
        → IsSaved prefix wm
        → IsSaved prefix (restore write_file content wm).1
    unfolding restore
    restore-IsSaved prefix content wm saved = elim (Option-cases (js.unmarshal_wallet content)) [
      | inl e ↦ rw (e, restore) saved
      | inr (w, e) ↦ rw (e, restore) (add_wallet-IsSaved prefix w wm saved)
    ]

    -- If every write of the file succeeds and the wallets survive their encoding, then after any
    -- calls of `CreateWallet` and `Restore` from the start, failing ones included, a manager that
    -- starts on the file has the wallets in memory, and a nil map if the one in memory is nil.
    pub Reaches-IsSaved :
        (prefix : Str) (disk : Option (List ℕ)) (wm : WalletManager)
        → Reaches (new_wallet_manager prefix disk) wm
        → IsSaved prefix wm
    Reaches-IsSaved prefix disk wm at_start = start-IsSaved prefix disk
    Reaches-IsSaved prefix disk wm (after_create now keys before) =
        create_wallet-IsSaved prefix keys now (Reaches-IsSaved prefix disk now before)
    Reaches-IsSaved prefix disk wm (after_restore now content before) =
        restore-IsSaved prefix content now (Reaches-IsSaved prefix disk now before)
