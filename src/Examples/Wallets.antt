-- ===== src/Examples/Wallets.antt =====
-- The theorems on the wallets, applied: texts are written with their lengths in front, and a signature
-- is 64 times the length of what is signed.
use devinsidercoin.Prelude.{
  ℕ, false, zero, suc, ◌%◌, ◌≡◌, refl, ap, ◌∙◌, true, Option, none, some, List, [], ◌∷◌, ◌++◌,
  foldl, length, take, drop, replicate, arith, All-replicate, Str, codes, str_eq, str_eq_refl,
  if◌then◌else◌,
}
use devinsidercoin.Prelude.Dict.{Dict, lookup, insert, IsDistinct}
use devinsidercoin.Bytes.{IsByte, encode_to_string}
use devinsidercoin.Storage.Listing.{lookup-fill, fill-IsDistinct}
use devinsidercoin.Wallet.{
  Wallet, Ed25519, WalletJson, WalletManager, added, signature, get_wallet, new_wallet_manager,
  create_wallet, backup, restore, sign, verify_signature,
}
use devinsidercoin.Wallet.Signing.{IsKeyPair, create_wallet-sign}
use devinsidercoin.Wallet.Backup.{IsKeyed, insert-IsKeyed, restore-backup}
use devinsidercoin.Wallet.Disk.{
  IsWalletJson, at_start, after_create, after_restore, IsSaved, Reaches-IsSaved,
}
use devinsidercoin.Examples.{checksum}

put_text : Str → List ℕ → List ℕ
put_text s rest = length s ∷ (s ++ rest)

get_text : List ℕ → Str × List ℕ
get_text [] = ([], [])
get_text (n ∷ rest) = (take n rest, drop n rest)

take-append :
    (s rest : List ℕ) → (take (length s) (s ++ rest) ≡ s) × (drop (length s) (s ++ rest) ≡ rest)
take-append [] rest = (refl, refl)
take-append (a ∷ s) rest = let ih = take-append s rest in (ap (λ t. a ∷ t) ih.0, ih.1)

get_text-put_text : (s rest : List ℕ) → get_text (put_text s rest) ≡ (s, rest)
unfolding get_text put_text
get_text-put_text s rest = let ih = take-append s rest in rw (ih.0, ih.1) refl

put_wallet : Wallet → List ℕ → List ℕ
put_wallet w rest = put_text w.address (put_text w.public_key (put_text w.private_key rest))

get_wallet_text : List ℕ → Wallet × List ℕ
get_wallet_text raw =
    let a = get_text raw in
    let p = get_text a.1 in
    let k = get_text p.1 in (record { address = a.0; public_key = p.0; private_key = k.0 }, k.1)

get_wallet_text-put_wallet :
    (w : Wallet) (rest : List ℕ) → get_wallet_text (put_wallet w rest) ≡ (w, rest)
unfolding get_wallet_text put_wallet
get_wallet_text-put_wallet w rest =
    rw
      (
        get_text-put_text w.address (put_text w.public_key (put_text w.private_key rest)),
        get_text-put_text w.public_key (put_text w.private_key rest),
        get_text-put_text w.private_key rest,
      )
      refl

put_entries : Dict Wallet → List ℕ
put_entries [] = []
put_entries ((a, w) ∷ m) = put_text a (put_wallet w (put_entries m))

get_entries : ℕ → List ℕ → Dict Wallet
get_entries zero raw = []
get_entries (suc n) raw =
    let a = get_text raw in let w = get_wallet_text a.1 in (a.0, w.0) ∷ get_entries n w.1

get_entries-put_entries : (m : Dict Wallet) → get_entries (length m) (put_entries m) ≡ m
unfolding get_entries put_entries
get_entries-put_entries [] = refl
get_entries-put_entries ((a, w) ∷ m) =
    rw
      (
        get_text-put_text a (put_wallet w (put_entries m)),
        get_wallet_text-put_wallet w (put_entries m),
        get_entries-put_entries m,
      )
      refl

instance pub with_lengths : WalletJson
with_lengths = record {
  marshal_wallet = λ w. put_wallet w [];
  unmarshal_wallet = λ raw. some (get_wallet_text raw).0;
  marshal_wallets = λ m. length m ∷ put_entries m;
  fill_wallets = λ raw m. elim raw [
    | [] ↦ none
    | n ∷ rest ↦ some (foldl (λ d e. insert e.0 e.1 d) m (get_entries n rest))
  ];
}

same_elim : (o : Option Wallet) → elim o [ none ↦ none | some v ↦ some v ] ≡ o
same_elim none = refl
same_elim (some v) = refl

with_lengths-IsWalletJson : IsWalletJson
unfolding with_lengths lookup
with_lengths-IsWalletJson = record {
  unmarshal-marshal = λ w. rw (get_wallet_text-put_wallet w []) refl;
  fill-marshal = λ m a h. (
    foldl (λ d e. insert e.0 e.1 d) [] m,
    rw (get_entries-put_entries m) refl,
    lookup-fill (λ v. v) a m [] h ∙ same_elim (lookup a m),
  );
  fill-IsDistinct = filled;
}
  where
    filled :
        (content : List ℕ) (m back : Dict Wallet)
        → IsDistinct m
        → with_lengths.fill_wallets content m ≡ some back
        → IsDistinct back
    filled [] m back h e = absurd (cc e)
    filled (n ∷ rest) m back h e =
        let same : foldl (λ d e. insert e.0 e.1 d) m (get_entries n rest) ≡ back = cc e in
        rw (← same) (fill-IsDistinct (λ v. v) (get_entries n rest) m h)

unfoldable pub by_length : Ed25519
by_length = record {
  sign = λ private content. replicate 64 (length content % 256);
  verify = λ public content sig. str_eq sig (replicate 64 (length content % 256));
}

abbrev public_bytes : List ℕ
public_bytes = replicate 32 7

abbrev private_bytes : List ℕ
private_bytes = replicate 64 9

sample-IsKeyPair : IsKeyPair by_length public_bytes private_bytes
unfolding by_length
sample-IsKeyPair = record {
  public_length = refl;
  private_length = refl;
  public_bytes = All-replicate IsByte 32 7 (omega arith);
  private_bytes = All-replicate IsByte 64 9 (omega arith);
  signature_bytes = λ content. All-replicate IsByte 64 (length content % 256) (omega arith);
  verifies = λ content. str_eq_refl (replicate 64 (length content % 256));
}

-- A file that takes every write.
abbrev pub plain_file : Option (List ℕ) → List ℕ → Option (List ℕ)
plain_file file content = some content

abbrev pub plain_base58 : List ℕ → Str
plain_base58 b = b

abbrev pub no_wallets : WalletManager
no_wallets = record { wallets = []; is_nil = false; prefix = codes "D"; disk = none }

create_wallet-sign_example :
    (w : Wallet) × (s : Str) × ((create_wallet plain_file checksum plain_base58
        (some (public_bytes, private_bytes))
        no_wallets).0
      ≡ added w)
    × (sign by_length w.address
          (codes "a:b:1.00000000:7")
          (create_wallet plain_file checksum plain_base58
            (some (public_bytes, private_bytes))
            no_wallets).1
        ≡ signature s)
    × (verify_signature by_length w.public_key (codes "a:b:1.00000000:7") s ≡ some true)
create_wallet-sign_example =
    create_wallet-sign by_length plain_file checksum plain_base58 public_bytes private_bytes
      (codes "a:b:1.00000000:7") no_wallets sample-IsKeyPair refl

abbrev pub sample_wallet : Wallet
sample_wallet = record {
  address = codes "miner";
  public_key = codes "0a";
  private_key = encode_to_string private_bytes;
}

abbrev pub one_wallet : WalletManager
one_wallet = record no_wallets { wallets = (codes "miner", sample_wallet) ∷ [] }

one_wallet-IsKeyed : IsKeyed one_wallet.wallets
unfolding lookup insert
one_wallet-IsKeyed = insert-IsKeyed sample_wallet [] (record { keyed = λ a w e. absurd (cc e) })

restore-backup_example :
    get_wallet
      (codes "miner")
      (restore plain_file (with_lengths.marshal_wallet sample_wallet) no_wallets).1
    ≡ (if str_eq (codes "miner") (codes "miner")
        then get_wallet (codes "miner") one_wallet
        else get_wallet (codes "miner") no_wallets)
restore-backup_example =
    restore-backup plain_file with_lengths-IsWalletJson.unmarshal-marshal (codes "miner") one_wallet
      no_wallets (with_lengths.marshal_wallet sample_wallet) one_wallet-IsKeyed
      (unfold backup lookup str_eq in refl) refl (codes "miner")

abbrev after_two : WalletManager
after_two =
    (restore plain_file (with_lengths.marshal_wallet sample_wallet)
      (create_wallet plain_file checksum plain_base58 (some (public_bytes, private_bytes))
        (new_wallet_manager (codes "D") none)).1).1

Reaches-IsSaved_example : IsSaved plain_file checksum plain_base58 (codes "D") after_two
Reaches-IsSaved_example =
    Reaches-IsSaved plain_file checksum plain_base58 with_lengths-IsWalletJson
      (λ file content. refl) (codes "D") none after_two
      (after_restore _ (with_lengths.marshal_wallet sample_wallet)
        (after_create _ (some (public_bytes, private_bytes)) at_start))
