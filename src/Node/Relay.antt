-- ===== src/Node/Relay.antt =====
-- internal/network/node.go, the case "block" of `handleMessage`: what a block does to the chain and
-- to whom it is relayed.
use devinsidercoin.Prelude.{
  ℕ, suc, ◌≤◌, ◌≡◌, refl, ◌∙◌, Bool-cases, false, Option, none, some, inl, inr, List, [], ◌∷◌,
  arith, leb, ◌==◌, if◌then◌else◌, Str, str_eq, str_eq_iff,
}
use devinsidercoin.Prelude.Int.{ltb_ℤ, pos}
use devinsidercoin.Prelude.Dict.{Dict, lookup, IsDistinct}
use devinsidercoin.Prelude.Float64.{Float64}
use devinsidercoin.Block.{Block}
use devinsidercoin.Storage.Database.{Bolt}
use devinsidercoin.Storage.Encoding.{Json}
use devinsidercoin.Storage.{get_best_height, get_block_count, has_data}
use devinsidercoin.Chain.{Blockchain, BlockError, add_block, get_best}
use devinsidercoin.Chain.Growth.{add_block-bad_height}
use devinsidercoin.Storage.Reads.{best-count}
use devinsidercoin.Node.{
  Node, Peer, Wire, Message, Sent, block_message, send_others, relay_added, handle_block,
}

module _ {F : Type 0} {D : Type 0} ⦃db : Bolt D⦄ where
  pub get_best-count :
      (bc : Blockchain F D)
      → 1 ≤ get_block_count bc.store
      → suc (get_best bc) ≡ get_block_count bc.store
  unfolding get_best
  get_best-count bc some_blocks = elim (Bool-cases (ltb_ℤ (get_best_height bc.store) (pos 0))) [
    | inl e ↦
        absurd (unfold get_block_count in omega (arith, rw (e, get_block_count) at some_blocks))
    | inr e ↦ rw e (best-count bc.store (unfold has_data in ground arith))
  ]

lookup-send_others :
    (address : Str) (msg : Message) (p : Str) (peers : Dict Peer)
    → lookup p (send_others address msg peers) ≡ (
        if str_eq p address
        then none
        else elim (lookup p peers) [ none ↦ none | some q ↦ some msg ])
unfolding lookup send_others
lookup-send_others address msg p [] = ground arith
lookup-send_others address msg p ((a, q) ∷ peers) = ground (
  arith,
  str_eq_iff a address,
  str_eq_iff a p,
  str_eq_iff p address,
  lookup-send_others address msg p peers,
)

send_others-IsDistinct :
    (address : Str) (msg : Message) (peers : Dict Peer)
    → IsDistinct peers
    → IsDistinct (send_others address msg peers)
unfolding send_others
send_others-IsDistinct address msg [] h = tt
send_others-IsDistinct address msg ((a, q) ∷ peers) h =
    let rest = send_others-IsDistinct address msg peers h.1 in
    elim (Bool-cases (str_eq a address)) [
      | inl e ↦ rw e rest
      | inr e ↦ rw e (lookup-send_others address msg a peers ∙ rw (e, h.0) refl, rest)
    ]

module _ {F : Type 0} ⦃js : Json F⦄ {D : Type 0} where
  -- What a block from a peer has done, by how its addition ended: the chain is the one after the
  -- addition, and if the block was added then it is sent once to each other peer, and else to none.
  abbrev pub IsRelayed :
      Node F D → Str → Block F → Option BlockError × Blockchain F D → Node F D × Sent → Type 0
  IsRelayed n address b (none, chain) (n', sent) =
      (n' ≡ record n { chain = chain })
      × IsDistinct sent
      × ((p : Str)
          → lookup p sent ≡ (
              if str_eq p address
              then none
              else elim (lookup p n.peers) [ none ↦ none | some q ↦ some (block_message b) ]))
  IsRelayed n address b (some e, chain) (n', sent) = (n' ≡ record n { chain = chain }) × (sent ≡ [])

module _ (sum256 : List ℕ → List ℕ) {F : Type 0} ⦃fl : Float64 F⦄ ⦃js : Json F⦄ ⦃w : Wire F⦄
    {D : Type 0} ⦃db : Bolt D⦄ where
  relay_added-IsRelayed :
      (n : Node F D) (address : Str) (b : Block F) (r : Option BlockError × Blockchain F D)
      → IsDistinct n.peers
      → IsRelayed n address b r (relay_added sum256 n address b r)
  unfolding relay_added
  relay_added-IsRelayed n address b (none, chain) distinct = (
    refl,
    send_others-IsDistinct address (block_message b) n.peers distinct,
    λ p. lookup-send_others address (block_message b) p n.peers,
  )
  relay_added-IsRelayed n address b (some e, chain) distinct = (refl, refl)

  -- A block from a peer of a node that has blocks does to the chain what adding it does, although
  -- heights up to the best one are passed over. If it was added then it is sent once to every peer
  -- but the sender; otherwise nothing is sent. The addresses of the peers are distinct.
  pub handle_block-IsRelayed :
      (n : Node F D) (address : Str) (b : Block F)
      → IsDistinct n.peers
      → 1 ≤ get_block_count n.chain.store
      → IsRelayed n address b (add_block sum256 n.chain b) (handle_block sum256 n address b)
  unfolding handle_block
  handle_block-IsRelayed n address b distinct some_blocks =
      elim (Bool-cases (leb b.header.height (get_best n.chain))) [
        | inl low ↦
            let best = get_best-count n.chain some_blocks in
            let apart : b.header.height == get_block_count n.chain.store ≡ false = ground arith in
            rw (low, handle_block, add_block-bad_height sum256 n.chain b apart) (refl, refl)
        | inr high ↦
            rw (high, handle_block)
              (relay_added-IsRelayed n address b (add_block sum256 n.chain b) distinct)
      ]
