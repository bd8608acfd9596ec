-- ===== src/Chain/Template/Usable.antt =====
-- The parts of a template of `CreateBlockTemplate`: its reward, its bits and its transactions.
use devinsidercoin.Prelude.{
  ℕ, zero, suc, ◌-◌, ◌/◌, ◌^◌, ◌≤◌, ◌<◌, ◌≡◌, refl, ap, ◌∙◌, ◌⊎◌, Bool, true, false, Option, none,
  some, inl, inr, Bool-cases, List, [], ◌∷◌, map, length, take, get_last?, arith, ltb, ◌==◌,
  if◌then◌else◌, Str, length-append, length-take,
}
use devinsidercoin.Prelude.Int.{ℤ, pos, ◌-ℤ◌, int64, int64-pos, of_word64}
use devinsidercoin.Prelude.Float64.{Float64}
use devinsidercoin.Config.{NetworkConfig}
use devinsidercoin.Block.{Block, Transaction}
use devinsidercoin.Pow.Retarget.{IsSpan, calc_next_bits-le}
use devinsidercoin.Stakes.{dust, calc_pos_rewards}
use devinsidercoin.Storage.Database.{Bolt}
use devinsidercoin.Storage.Encoding.{Json}
use devinsidercoin.Storage.{get_recent_blocks}
use devinsidercoin.Chain.Validate.{Follows}
use devinsidercoin.Chain.Template.{
  halve, calc_block_reward, calc_next_bits_from_db, template_bits, template_prev_hash,
  reward_transactions, template_transactions,
}
use devinsidercoin.Chain.{Blockchain}

-- No interval is zero or out of range, and a block has room for the rewards.
pub record IsUsable {F : Type 0} (config : NetworkConfig F) (seconds : ℕ) : Type 0 where
  pub halving : 1 ≤ config.halving_interval
  pub time : config.block_time_seconds ≡ pos seconds
  pub span : IsSpan config.difficulty_adjust_interval seconds
  pub bits_lt : config.min_difficulty_bits < 2 ^ 32
  pub room : 2 ≤ config.max_block_transactions
  pub room_lt : config.max_block_transactions < 2 ^ 63

abbrev IsSome {ℓ} : {A : Type ℓ} → Option A → Type ℓ
IsSome {A = A} o = (a : A) × (o ≡ some a)

get_last?-IsSome {ℓ} : {A : Type ℓ} (xs : List A) → 1 ≤ length xs → IsSome (get_last? xs)
get_last?-IsSome [] h = absurd (omega arith)
get_last?-IsSome (x ∷ []) h = (x, refl)
get_last?-IsSome (x ∷ y ∷ xs) h = get_last?-IsSome (y ∷ xs) (omega arith)

if-IsSome {ℓ} :
    {A : Type ℓ} (b : Bool) (x y : Option A) → IsSome x → IsSome y → IsSome (if b then x else y)
if-IsSome true x y h k = h
if-IsSome false x y h k = k

length-map_lem {ℓ κ} :
    {A : Type ℓ} {B : Type κ} (f : A → B) (xs : List A) → length (map f xs) ≡ length xs
length-map_lem f [] = refl
length-map_lem f (x ∷ xs) = ap suc (length-map_lem f xs)

pub calc_block_reward_total :
    {F : Type 0} ⦃fl : Float64 F⦄ (config : NetworkConfig F) (minted : F) (height : ℕ)
    → 1 ≤ config.halving_interval
    → IsSome (calc_block_reward config minted height)
unfolding calc_block_reward
calc_block_reward_total ⦃fl⦄ config minted height h =
    let on : config.halving_interval == 0 ≡ false = ground arith in
    let reward = halve (height / config.halving_interval) config.initial_reward in
    let left = fl.sub config.max_supply minted in
    elim (Bool-cases (fl.le config.max_supply minted)) [
      | inl e ↦ rw e (_, refl)
      | inr e ↦ elim (Bool-cases (fl.lt reward dust)) [
        | inl f ↦ rw (e, on, f) (_, refl)
        | inr f ↦ elim (Bool-cases (fl.lt left reward)) [
          | inl g ↦ rw (e, on, f, g) (_, refl)
          | inr g ↦ rw (e, on, f, g) (_, refl)
        ]
      ]
    ]

template_prev_hash-last :
    {F : Type 0} (last : Block F) (h : ℕ) → 1 ≤ h → template_prev_hash (some last) h ≡ last.hash
unfolding template_prev_hash
template_prev_hash-last last zero h = absurd (omega arith)
template_prev_hash-last last (suc n) h = refl

List-cases {ℓ} : {A : Type ℓ} (xs : List A) → (xs ≡ []) ⊎ ((a : A) × (ys : List A) × (xs ≡ a ∷ ys))
List-cases [] = inl refl
List-cases (x ∷ xs) = inr (x, xs, refl)

pub template_prev_hash-Follows :
    {F : Type 0} (last : Option (Block F)) (block : Block F)
    → block.header.prev_hash ≡ template_prev_hash last block.header.height
    → 1 ≤ block.header.height
    → Follows last block
template_prev_hash-Follows none block e h = tt
template_prev_hash-Follows (some last) block e h =
    e ∙ template_prev_hash-last last block.header.height h

module _ {F : Type 0} ⦃fl : Float64 F⦄ ⦃js : Json F⦄ {D : Type 0} ⦃db : Bolt D⦄ where
  calc_next_bits_from_db_total :
      (bc : Blockchain F D) (seconds : ℕ)
      → IsUsable bc.config seconds
      → IsSome (calc_next_bits_from_db bc)
  unfolding calc_next_bits_from_db
  calc_next_bits_from_db_total bc seconds ok =
      let interval = bc.config.difficulty_adjust_interval in
      let raws = get_recent_blocks interval bc.store in
      elim (Bool-cases (ltb (length raws) interval)) [
        | inl few ↦ rw few (_, refl)
        | inr enough ↦
            let blocks : List (Block F) = map js.fill_block raws in
            let full : interval ≤ length blocks =
              rw (length-map_lem js.fill_block raws) (ground arith) in
            let (last, found) =
              get_last?-IsSome blocks (omega (arith, full, ok.span.interval_pos)) in
            let (bits, done, below_floor, near) =
              calc_next_bits-le interval seconds bc.config.min_difficulty_bits blocks last ok.span
                ok.bits_lt full found in
            rw (enough, ok.time) (bits, done)
      ]

  pub template_bits_total :
      (bc : Blockchain F D) (seconds height : ℕ)
      → IsUsable bc.config seconds
      → IsSome (template_bits bc height)
  unfolding template_bits
  template_bits_total bc seconds zero ok = (_, refl)
  template_bits_total bc seconds (suc below) ok =
      let on : bc.config.difficulty_adjust_interval == 0 ≡ false =
        ground (arith, ok.span.interval_pos) in
      rw on (if-IsSome _ _ _ (calc_next_bits_from_db_total bc seconds ok) (_, refl))

  module _ (sum256 : List ℕ → List ℕ) where
    pub length-reward_transactions :
        (bc : Blockchain F D) (miner : Str) (total : F) (now pos_now : ℤ)
        → length (reward_transactions sum256 bc miner total now pos_now) ≤ 2
    unfolding reward_transactions
    length-reward_transactions bc miner total now pos_now =
        let outs =
          calc_pos_rewards (fl.mul total bc.config.pos_reward_share) bc.config.pos_min_threshold
            bc.stakes in
        elim (List-cases outs) [
          | inl e ↦ rw (e, reward_transactions) (omega arith)
          | inr (out, outputs, e) ↦ rw (e, reward_transactions) (omega arith)
        ]

    pub length-template_transactions :
        (bc : Blockchain F D) (seconds : ℕ) (rewards : List (Transaction F))
        → IsUsable bc.config seconds
        → length rewards ≤ 2
        → length (template_transactions sum256 bc rewards) ≤ bc.config.max_block_transactions
    unfolding template_transactions ◌-ℤ◌
    length-template_transactions bc seconds rewards ok few =
        let max = bc.config.max_block_transactions in
        let wide : of_word64 max ≡ pos max = unfold of_word64 in ground (arith, ok.room_lt) in
        let left : pos max -ℤ pos (length rewards) ≡ pos (max - length rewards) =
          ground (arith, ok.room) in
        let room : int64 (of_word64 max -ℤ pos (length rewards)) ≡ pos (max - length rewards) =
          rw (wide, left) (int64-pos (max - length rewards) (omega (arith, ok.room_lt))) in
        rw room (
          omega (
            arith,
            length-append rewards (take (max - length rewards) bc.mempool),
            length-take (max - length rewards) bc.mempool,
          ))
