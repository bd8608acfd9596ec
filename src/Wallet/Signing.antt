-- ===== src/Wallet/Signing.antt =====
-- internal/wallet/wallet.go: what a created wallet signs can be verified.
use devinsidercoin.Prelude.{
  ℕ, ◌≡◌, refl, ap, ◌∙◌, true, false, Option, some, List, length, All, Str, str_eq_refl,
}
use devinsidercoin.Prelude.Dict.{lookup, lookup-insert}
use devinsidercoin.Bytes.{IsByte, decode_string, encode_to_string}
use devinsidercoin.Bytes.Hex.{decode_string-encode_to_string}
use devinsidercoin.Wallet.{
  Wallet, Ed25519, WalletJson, WalletManager, signature, added, wallet_of, create_wallet,
  add_wallet, save_to_disk, sign, verify_signature, verify_decoded,
}

-- A pair of keys as `GenerateKey` yields them: lengths, bytes, and signatures that verify.
pub record IsKeyPair (ed : Ed25519) (public private : List ℕ) : Type 0 where
  pub public_length : length public ≡ 32
  pub private_length : length private ≡ 64
  pub public_bytes : All IsByte public
  pub private_bytes : All IsByte private
  pub signature_bytes : (content : List ℕ) → All IsByte (ed.sign private content)
  pub verifies : (content : List ℕ) → ed.verify public content (ed.sign private content) ≡ true

verify_signature-encoded :
    (ed : Ed25519) (public private content : List ℕ)
    → IsKeyPair ed public private
    → verify_signature ed
        (encode_to_string public)
        content
        (encode_to_string (ed.sign private content))
      ≡ some true
unfolding verify_signature verify_decoded
verify_signature-encoded ed public private content pair =
    ap
      (λ d.
        verify_decoded ed d content (decode_string (encode_to_string (ed.sign private content))))
      (decode_string-encode_to_string public pair.public_bytes)
    ∙ ap (λ d. verify_decoded ed (public, false) content d)
        (decode_string-encode_to_string (ed.sign private content) (pair.signature_bytes content))
    ∙ rw (pair.public_length, pair.verifies content) refl

sign-found :
    (ed : Ed25519) (address : Str) (private content : List ℕ) (w : Wallet) (wm : WalletManager)
    → lookup address wm.wallets ≡ some w
    → decode_string w.private_key ≡ (private, false)
    → length private ≡ 64
    → sign ed address content wm ≡ signature (encode_to_string (ed.sign private content))
unfolding sign
sign-found ed address private content w wm found decoded length_ok =
    rw (found, sign) (rw decoded (rw length_ok refl))

module _ ⦃js : WalletJson⦄ (ed : Ed25519) (write_file : Option (List ℕ) → List ℕ → Option (List ℕ))
    (sum256 : List ℕ → List ℕ) (base58 : List ℕ → Str) where
  -- Where the map of the wallets is not nil, a wallet made of a pair of keys can be used at once:
  -- what it signs is a signature that verifies with the public key that was returned.
  pub create_wallet-sign :
      (public private content : List ℕ) (wm : WalletManager)
      → IsKeyPair ed public private
      → wm.is_nil ≡ false
      → (w : Wallet) × (s : Str) × ((create_wallet write_file sum256 base58
            (some (public, private))
            wm).0
          ≡ added w)
        × (sign ed w.address content
              (create_wallet write_file sum256 base58 (some (public, private)) wm).1
            ≡ signature s)
        × (verify_signature ed w.public_key content s ≡ some true)
  unfolding create_wallet add_wallet save_to_disk
  create_wallet-sign public private content wm pair map =
      let w = wallet_of sum256 base58 wm.prefix public private in
      (
        w,
        encode_to_string (ed.sign private content),
        rw (map, add_wallet) refl,
        rw (map, add_wallet)
            (sign-found ed w.address private content w _
              (lookup-insert w.address w.address w wm.wallets ∙ rw (str_eq_refl w.address) refl)
              (decode_string-encode_to_string private pair.private_bytes) pair.private_length),
        verify_signature-encoded ed public private content pair,
      )
