-- ===== src/Wallet/Backup.antt =====
-- internal/wallet/wallet.go: a backup restores the wallet, under its address.
use devinsidercoin.Prelude.{
  ℕ, ◌≡◌, refl, false, sym, ap, ◌∙◌, Bool-cases, Option, some, inl, inr, Option-cases, List,
  if◌then◌else◌, Str, str_eq, str_eq_iff,
}
use devinsidercoin.Prelude.Dict.{Dict, lookup, insert, lookup-insert}
use devinsidercoin.Wallet.{
  Wallet, WalletJson, WalletManager, get_wallet, backup, restore, add_wallet, save_to_disk,
}

-- Every wallet stands under its own address.
pub record IsKeyed (m : Dict Wallet) : Type 0 where
  pub keyed : (a : Str) (w : Wallet) → lookup a m ≡ some w → w.address ≡ a

pub insert-IsKeyed : (w : Wallet) (m : Dict Wallet) → IsKeyed m → IsKeyed (insert w.address w m)
insert-IsKeyed w m k = record {
  keyed = λ a v e.
      let now : (if str_eq w.address a then some w else lookup a m) ≡ some v =
        sym (lookup-insert w.address a w m) ∙ e in
      elim (Bool-cases (str_eq w.address a)) [
        | inl same ↦
            let here : w ≡ v = cc (rw same at now) in
            ap (λ x. x.address) (sym here) ∙ (str_eq_iff w.address a).0 same
        | inr apart ↦ k.keyed a v (rw apart at now)
      ];
}

module _ ⦃js : WalletJson⦄ (write_file : Option (List ℕ) → List ℕ → Option (List ℕ)) where
  -- What is backed up of a manager whose wallets stand under their addresses restores, in any
  -- manager whose map is not nil, that wallet under that address and leaves the others, if a wallet
  -- survives its encoding.
  pub restore-backup :
      ((w : Wallet) → js.unmarshal_wallet (js.marshal_wallet w) ≡ some w)
      → (a : Str) (wm other : WalletManager) (content : List ℕ) → IsKeyed wm.wallets
      → backup a wm ≡ some content
      → other.is_nil ≡ false
      → (b : Str)
      → get_wallet b (restore write_file content other).1
        ≡ (if str_eq a b then get_wallet a wm else get_wallet b other)
  unfolding backup restore add_wallet save_to_disk get_wallet
  restore-backup kept a wm other content k done map b = elim (Option-cases (lookup a wm.wallets)) [
    | inl missing ↦ absurd (cc (rw (missing, backup) at done))
    | inr (w, found) ↦
        let same : js.marshal_wallet w ≡ content = cc (rw (found, backup) at done) in
        let back : js.unmarshal_wallet content ≡ some w =
          ap js.unmarshal_wallet (sym same) ∙ kept w in
        rw (back, restore)
          (rw (map, add_wallet)
            (rw (found, lookup-insert w.address b w other.wallets, k.keyed a w found) refl))
  ]
