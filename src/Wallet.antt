-- ===== src/Wallet.antt =====
-- internal/wallet/wallet.go: the wallets and their keys. Ed25519, SHA-256, base58 and the JSON of the
-- wallets are parameters, and so are the keys that are generated and what a write leaves in the
-- file. A signature or a key of a wrong length panics, as crypto/ed25519 documents.
pub mod Signing
pub mod Backup
pub mod Disk
use devinsidercoin.Prelude.{
  ℕ, Bool, true, false, Option, none, some, List, [], ◌∷◌, ◌++◌, map, length, take, ◌==◌,
  if◌then◌else◌, Str,
}
use devinsidercoin.Prelude.Dict.{Dict, lookup, insert}
use devinsidercoin.Bytes.{decode_string, encode_to_string}

pub record Wallet : Type 0 where
  pub address : Str
  pub public_key : Str
  pub private_key : Str

-- The signatures of crypto/ed25519.
pub record Ed25519 : Type 0 where
  pub sign : List ℕ → List ℕ → List ℕ
  pub verify : List ℕ → List ℕ → List ℕ → Bool

-- The JSON of a wallet and of the map of the wallets. `fill_wallets` decodes into a map, with or
-- without an error; `none` is the nil map, which null leaves.
pub record WalletJson : Type 0 where
  pub marshal_wallet : Wallet → List ℕ
  pub unmarshal_wallet : List ℕ → Option Wallet
  pub marshal_wallets : Dict Wallet → List ℕ
  pub fill_wallets : List ℕ → Dict Wallet → Option (Dict Wallet)

-- `wallets` are the entries of the map but those with null for a wallet, which are left out; `is_nil`
-- tells whether the map is nil, which has no entries and takes none. `disk` is the content of
-- wallets.json, `none` where it cannot be read.
pub record WalletManager : Type 0 where
  pub wallets : Dict Wallet
  pub is_nil : Bool
  pub prefix : Str
  pub disk : Option (List ℕ)

-- How a call of `CreateWallet` or `Restore` ends; an assignment to a nil map panics.
pub data Added : Type 0 where
  added : Wallet → Added
  not_added map_panics : Added

-- How a call of `Sign` ends.
pub data Signed : Type 0 where
  signature : Str → Signed
  not_found sign_panics : Signed

-- `GetWallet`
unfoldable pub get_wallet : Str → WalletManager → Option Wallet
get_wallet address wm = lookup address wm.wallets

unfoldable pub list_wallets : WalletManager → List Str
list_wallets wm = map (λ e. e.0) wm.wallets

module _ (sum256 : List ℕ → List ℕ) (base58 : List ℕ → Str) where
  abbrev pub wallet_of : Str → List ℕ → List ℕ → Wallet
  wallet_of prefix public private = record {
    address = prefix ++ base58 (take 20 (sum256 public));
    public_key = encode_to_string public;
    private_key = encode_to_string private;
  }

module _ ⦃js : WalletJson⦄ where
  unfoldable pub load_from_disk : WalletManager → WalletManager
  load_from_disk wm = elim wm.disk [
    | none ↦ wm
    | some content ↦ elim (js.fill_wallets content wm.wallets) [
      | none ↦ record wm { wallets = []; is_nil = true }
      | some m ↦ record wm { wallets = m; is_nil = false }
    ]
  ]

  -- `NewWalletManager`
  unfoldable pub new_wallet_manager : Str → Option (List ℕ) → WalletManager
  unfolding load_from_disk
  new_wallet_manager prefix disk =
      load_from_disk (record { wallets = []; is_nil = false; prefix = prefix; disk = disk })

  unfoldable pub backup : Str → WalletManager → Option (List ℕ)
  backup address wm = elim (lookup address wm.wallets) [
    | none ↦ none
    | some w ↦ some (js.marshal_wallet w)
  ]

  -- What is in the file after a write of the data, which may fail: `write_file`.
  module _ (write_file : Option (List ℕ) → List ℕ → Option (List ℕ)) where
    unfoldable pub save_to_disk : WalletManager → WalletManager
    save_to_disk wm = record wm { disk = write_file wm.disk (js.marshal_wallets wm.wallets) }

    -- `wm.Wallets[w.Address] = w` and the write of the file.
    unfoldable pub add_wallet : Wallet → WalletManager → Added × WalletManager
    unfolding save_to_disk
    add_wallet w wm =
        if wm.is_nil
        then (map_panics, wm)
        else (added w, save_to_disk (record wm { wallets = insert w.address w wm.wallets }))

    unfoldable pub restore : List ℕ → WalletManager → Added × WalletManager
    unfolding add_wallet
    restore content wm = elim (js.unmarshal_wallet content) [
      | none ↦ (not_added, wm)
      | some w ↦ add_wallet w wm
    ]

    module _ (sum256 : List ℕ → List ℕ) (base58 : List ℕ → Str) where
      -- Of the keys that are generated, `none` where that fails.
      unfoldable pub create_wallet :
          Option (List ℕ × List ℕ) → WalletManager → Added × WalletManager
      unfolding add_wallet
      create_wallet none wm = (not_added, wm)
      create_wallet (some (public, private)) wm =
          add_wallet (wallet_of sum256 base58 wm.prefix public private) wm

module _ (ed : Ed25519) where
  unfoldable pub sign : Str → List ℕ → WalletManager → Signed
  sign address content wm = elim (lookup address wm.wallets) [
    | none ↦ not_found
    | some w ↦
        let private = (decode_string w.private_key).0 in
        if length private == 64
        then signature (encode_to_string (ed.sign private content))
        else sign_panics
  ]

  -- The end of `VerifySignature`; `none` is a panic.
  unfoldable pub verify_decoded : List ℕ × Bool → List ℕ → List ℕ × Bool → Option Bool
  verify_decoded (public, true) content sig = some false
  verify_decoded (public, false) content (sig, true) = some false
  verify_decoded (public, false) content (sig, false) =
      if length public == 32 then some (ed.verify public content sig) else none

  unfoldable pub verify_signature : Str → List ℕ → Str → Option Bool
  unfolding verify_decoded
  verify_signature public_hex content signature_hex =
      verify_decoded (decode_string public_hex) content (decode_string signature_hex)
