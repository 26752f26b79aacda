-- ===== src/Mempool/Selection.antt =====
-- node/src/mempool.ts, pickForBlock: which transactions go into a block. The nonce on chain is a
-- parameter, `none` where the call fails.
pub mod Picks
use coc.Prelude.{
  false, true, ℕ, Bool, Text, Dict, List, ◌+◌, leb, ◌&&◌, if◌then◌else◌, ◌∷◌, Option, ltb, not,
  ◌==◌, [], none, get, ◌||◌, some, nat_eq, insert, length, text_eq, keep, values,
}
use coc.Mempool.{MempoolTx, Mempool, remove_tx, evict_expired}

-- The arguments of pickForBlock.
pub record PickParams : Type 0 where
  pub max_tx : ℕ
  pub min_gas_price_wei : ℕ
  pub base_fee_per_gas : ℕ
  pub block_gas_limit : ℕ

unfoldable pub effective_price : ℕ → MempoolTx → ℕ
effective_price base_fee tx =
    let dynamic = base_fee + tx.max_priority_fee_per_gas in
    if ltb 0 tx.max_fee_per_gas && ltb 0 tx.max_priority_fee_per_gas
    then if ltb tx.max_fee_per_gas dynamic then tx.max_fee_per_gas else dynamic
    else tx.gas_price

unfoldable pub can_pay_base_fee : ℕ → MempoolTx → Bool
can_pay_base_fee base_fee tx =
    leb base_fee (if ltb 0 tx.max_fee_per_gas then tx.max_fee_per_gas else tx.gas_price)

unfoldable pub is_eligible : PickParams → MempoolTx → Bool
is_eligible params tx =
    can_pay_base_fee params.base_fee_per_gas tx
    && leb params.min_gas_price_wei (effective_price params.base_fee_per_gas tx)

-- The comparison of the sort is negative.
unfoldable pub goes_before : ℕ → MempoolTx → MempoolTx → Bool
goes_before base_fee a b =
    let a_price = effective_price base_fee a in
    let b_price = effective_price base_fee b in
    if not (a_price == b_price)
    then ltb b_price a_price
    else if not (a.nonce == b.nonce)
    then ltb a.nonce b.nonce
    else ltb a.received_at_ms b.received_at_ms

-- The sort, which is stable.
unfoldable pub insert_tx : ℕ → MempoolTx → List MempoolTx → List MempoolTx
insert_tx base_fee tx [] = tx ∷ []
insert_tx base_fee tx (y ∷ ys) =
    if goes_before base_fee y tx then y ∷ insert_tx base_fee tx ys else tx ∷ y ∷ ys

unfoldable pub sort_txs : ℕ → List MempoolTx → List MempoolTx
sort_txs base_fee [] = []
sort_txs base_fee (tx ∷ txs) = insert_tx base_fee tx (sort_txs base_fee txs)

-- The map `expected`; a sender whose nonce could not be fetched, -1 in the source, has no entry.
unfoldable pub expected_nonces : (Text → Option ℕ) → List MempoolTx → Dict Text ℕ
expected_nonces fetch [] = []
expected_nonces fetch (tx ∷ txs) =
    let rest = expected_nonces fetch txs in
    elim (fetch tx.from) [ none ↦ rest | some nonce ↦ insert tx.from nonce rest ]

pub data Decision : Type 0 where
  skip evict pick : Decision

-- The tests of the loop, in order.
unfoldable pub decide : PickParams → Dict Text ℕ → ℕ → MempoolTx → Decision
decide params expected gas tx =
    if ltb params.block_gas_limit (gas + tx.gas_limit) then skip else elim (get tx.from expected) [
      | none ↦ skip
      | some next ↦
          if ltb tx.nonce next then evict else if not (tx.nonce == next) then skip else pick
    ]

-- The loop, with the number picked so far and their gas; the result has the picks still to come.
unfoldable pub pick_loop :
    PickParams → List MempoolTx → Mempool → Dict Text ℕ → ℕ → ℕ → Mempool × List MempoolTx
pick_loop params [] pool expected count gas = (pool, [])
pick_loop params (tx ∷ txs) pool expected count gas = elim (leb params.max_tx count) [
  | true ↦ (pool, [])
  | false ↦ elim (decide params expected gas tx) [
    | skip ↦ pick_loop params txs pool expected count gas
    | evict ↦ pick_loop params txs (remove_tx pool tx.hash) expected count gas
    | pick ↦
        let (pool', picks) =
          pick_loop params txs pool (insert tx.from (tx.nonce + 1) expected) (count + 1)
            (gas + tx.gas_limit) in
        (pool', tx ∷ picks)
  ]
]

unfoldable pub pick_for_block :
    PickParams → (Text → Option ℕ) → Mempool → ℕ → Mempool × List MempoolTx
pick_for_block params fetch pool now =
    if params.max_tx == 0 || length pool.txs == 0
    then (pool, [])
    else let pool' = (evict_expired pool now).0 in
      let sorted =
        sort_txs params.base_fee_per_gas (keep (is_eligible params) (values pool'.txs)) in
      pick_loop params sorted pool' (expected_nonces fetch sorted) 0 0
