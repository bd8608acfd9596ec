-- ===== src/Storage/Encoding.antt =====
-- encoding/json as an interface, at the types that the program encodes.
use devinsidercoin.Prelude.{ℕ, Option, List, some, ◌≡◌}
use devinsidercoin.Block.{Block, Transaction, TxCore}
use devinsidercoin.Stakes.{Stake}

-- `none` is a decoding error, or an encoding error, after which there are no bytes (nil); a stake whose
-- amount is infinite or not a number has no encoding. Where nil and no bytes come to the same, an
-- encoding with an error is []. `fill_block` is what decoding leaves in a block that was zero, with or
-- without an error.
pub record Json (F : Type 0) : Type 0 where
  pub marshal_float : F → List ℕ
  pub unmarshal_float : List ℕ → Option F
  pub marshal_stake : Stake F → Option (List ℕ)
  pub unmarshal_stake : List ℕ → Option (Stake F)
  pub marshal_block : Block F → List ℕ
  pub unmarshal_block : List ℕ → Option (Block F)
  pub fill_block : List ℕ → Block F
  pub marshal_tx : Transaction F → List ℕ
  pub marshal_core : TxCore F → List ℕ

-- What the program relies on: what has been decoded survives its encoding, and where decoding
-- succeeds it fills the same block.
pub record IsJson (F : Type 0) ⦃js : Json F⦄ : Type 0 where
  pub filled :
      (raw : List ℕ)
      → js.unmarshal_block (js.marshal_block (js.fill_block raw)) ≡ some (js.fill_block raw)
  pub decoded :
      (raw : List ℕ) (block : Block F)
      → js.unmarshal_block raw ≡ some block
      → js.unmarshal_block (js.marshal_block block) ≡ some block
  pub filled_as :
      (raw : List ℕ) (block : Block F)
      → js.unmarshal_block raw ≡ some block
      → js.fill_block raw ≡ block
