-- ===== src/Stakes/Account.antt =====
-- What adding and removing stake does to the amount of every address.
use devinsidercoin.Prelude.{
  ℕ, ◌≡◌, refl, true, false, Option, none, some, inl, inr, Bool-cases, Option-cases, if◌then◌else◌,
  Str, str_eq,
}
use devinsidercoin.Prelude.Dict.{lookup, lookup-insert, lookup-erase}
use devinsidercoin.Prelude.Float64.{Float64}
use devinsidercoin.Stakes.{
  Stake, Stakes, RemoveError, no_stake, insufficient_stake, dust, add_stake, remove_stake,
}

module _ {F : Type 0} ⦃fl : Float64 F⦄ where
  -- Adding stake adds to that address alone; the first stake of an address counts from nothing, not
  -- from zero, and later ones keep the height of the first.
  pub lookup-add_stake :
      (address other : Str) (amount : F) (height : ℕ) (stakes : Stakes F)
      → lookup other (add_stake address amount height stakes) ≡ (
          if str_eq address other
          then elim (lookup address stakes) [
            | none ↦ some (record { address = address; amount = amount; block_height = height })
            | some s ↦ some (record s { amount = fl.add s.amount amount })
          ]
          else lookup other stakes)
  unfolding add_stake
  lookup-add_stake address other amount height stakes =
      elim (Option-cases (lookup address stakes)) [
        | inl e ↦ rw (e, add_stake) (lookup-insert address other _ stakes)
        | inr (s, e) ↦ rw (e, add_stake) (lookup-insert address other _ stakes)
      ]

  -- What a call of `RemoveStake` has done, by how it ended.
  abbrev pub IsRemoval : Str → F → Stakes F → Option RemoveError × Stakes F → Type 0
  IsRemoval address amount stakes (some no_stake, after) =
      (lookup address stakes ≡ none) × (after ≡ stakes)
  IsRemoval address amount stakes (some insufficient_stake, after) =
      (s : Stake F) × (lookup address stakes ≡ some s)
      × (fl.lt s.amount amount ≡ true)
      × (after ≡ stakes)
  IsRemoval address amount stakes (none, after) =
      (s : Stake F) × (lookup address stakes ≡ some s)
      × (fl.lt s.amount amount ≡ false)
      × ((other : Str)
          → lookup other after ≡ (
              if str_eq address other
              then (if fl.lt (fl.sub s.amount amount) dust
                  then none
                  else some (record s { amount = fl.sub s.amount amount }))
              else lookup other stakes))

  -- Removing stake fails and changes nothing if the address has no stake or less than the amount;
  -- otherwise it lowers that address's stake by the amount, deletes it if less than the smallest
  -- amount is left, and touches no other address.
  pub remove_stake-IsRemoval :
      (address : Str) (amount : F) (stakes : Stakes F)
      → IsRemoval address amount stakes (remove_stake address amount stakes)
  unfolding remove_stake
  remove_stake-IsRemoval address amount stakes = elim (Option-cases (lookup address stakes)) [
    | inl e ↦ rw (e, remove_stake) (e, refl)
    | inr (s, e) ↦ elim (Bool-cases (fl.lt s.amount amount)) [
      | inl short ↦ rw (e, remove_stake, short) (s, e, short, refl)
      | inr enough ↦ elim (Bool-cases (fl.lt (fl.sub s.amount amount) dust)) [
        | inl gone ↦
            rw (e, remove_stake, enough, gone)
              (s, e, enough, λ other. rw gone (lookup-erase address other stakes))
        | inr kept ↦
            rw (e, remove_stake, enough, kept)
              (s, e, enough, λ other. rw kept (lookup-insert address other _ stakes))
      ]
    ]
  ]
