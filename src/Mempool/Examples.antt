-- ===== src/Mempool/Examples.antt =====
-- node/src/mempool.ts: a small pool, and the theorems applied to it.
use coc.Mempool.Queries.PendingNonce.{IsFirstFree, get_pending_nonce_returns}
use coc.Mempool.Queries.{get_pending_nonce, nonces_of, txs_of, next_free}
use coc.Mempool.Selection.Picks.{total_gas, IsPayable, IsRun, pick_for_block_lem}
use coc.Mempool.Admission.Capacity.{IsBounded, add_raw_tx-IsBounded}
use coc.Mempool.Admission.{sender_size, Transaction, add_raw_tx}
use coc.Mempool.Eviction.{
  partial_select, select_loop, partition, partition_loop, is_below, swap, set_elem, get_elem?,
}
use coc.Mempool.{
  MempoolTx, Mempool, default_mempool_config, evict_expired, evict_older, remove_tx, forget_hash,
  nonce_key_beq,
}
use coc.Mempool.Admission.Index.{IsIndexed, IsListed, hashes_of, count_from}
use coc.Prelude.{
  Text, text, ℕ, Option, length, get, ◌∷◌, some, ◌≤◌, none, [], All, ltb, arith, ◌≡◌, refl,
  text_beq, insert, erase, keep, contains, to_lower_case, lower_unit,
}
use coc.Mempool.Selection.{
  PickParams, pick_for_block, pick_loop, decide, sort_txs, insert_tx, goes_before, effective_price,
  can_pay_base_fee, is_eligible, expected_nonces,
}

abbrev ann : Text
ann = text "0xa"

abbrev tx_of : Text → ℕ → ℕ → MempoolTx
tx_of hash nonce price = record {
  hash = hash;
  raw_tx = hash;
  from = ann;
  nonce = nonce;
  gas_price = price;
  max_fee_per_gas = price;
  max_priority_fee_per_gas = 0;
  gas_limit = 21_000;
  received_at_ms = 100;
}

abbrev first : MempoolTx
first = tx_of (text "h1") 4 2_000_000_000

abbrev second : MempoolTx
second = tx_of (text "h2") 5 1_500_000_000

-- A nonce that is used up on chain.
abbrev stale : MempoolTx
stale = tx_of (text "h3") 3 3_000_000_000

abbrev pool_of_three : Mempool
pool_of_three = record {
  txs = (text "h1", first) ∷ (text "h2", second) ∷ (text "h3", stale) ∷ [];
  by_sender = (ann, (text "h1", tt) ∷ (text "h2", tt) ∷ (text "h3", tt) ∷ []) ∷ [];
  by_nonce = ((ann, 4), text "h1") ∷ ((ann, 5), text "h2") ∷ ((ann, 3), text "h3") ∷ [];
  cfg = default_mempool_config;
}

abbrev params : PickParams
params = record {
  max_tx = 10;
  min_gas_price_wei = 1;
  base_fee_per_gas = 1_000_000_000;
  block_gas_limit = 30_000_000;
}

abbrev nonce_four : Text → Option ℕ
nonce_four s = some 4

picked_in_order : (pick_for_block params nonce_four pool_of_three 200).1 ≡ first ∷ second ∷ []
unfolding pick_for_block pick_loop decide sort_txs insert_tx goes_before effective_price
    can_pay_base_fee is_eligible expected_nonces evict_expired evict_older remove_tx forget_hash
    nonce_key_beq get text_beq insert erase keep
picked_in_order = refl

two_smallest_first : partial_select (5 ∷ 3 ∷ 9 ∷ 1 ∷ []) 2 ltb ≡ some (1 ∷ 3 ∷ 9 ∷ 5 ∷ [])
unfolding partial_select select_loop partition partition_loop is_below swap set_elem get_elem?
two_smallest_first = refl

pick_for_block_example :
    let picks = (pick_for_block params nonce_four pool_of_three 200).1 in
    (length picks ≤ 10)
    × (total_gas picks ≤ 30_000_000)
    × All (IsPayable params) picks
    × IsRun ann (some 4) picks
pick_for_block_example = pick_for_block_lem params nonce_four pool_of_three 200 ann

abbrev full_pool : Mempool
full_pool = record {
  txs = (text "h1", first) ∷ [];
  by_sender = (ann, (text "h1", tt) ∷ []) ∷ [];
  by_nonce = ((ann, 4), text "h1") ∷ [];
  cfg = record default_mempool_config { max_size = 1; max_per_sender = 1 };
}

full_pool-IsIndexed : IsIndexed full_pool
unfolding IsListed hashes_of get text_beq contains
full_pool-IsIndexed = record { distinct = (refl, tt); listed = (refl, tt) }

full_pool-IsBounded : IsBounded full_pool
unfolding sender_size get
full_pool-IsBounded = record {
  small = omega arith;
  fair = λ s. ground arith;
  indexed = full_pool-IsIndexed;
}

abbrev decoded : Transaction
decoded = record {
  hash = text "h4";
  from = some (text "0xB");
  chain_id = 18780;
  nonce = 0;
  type = none;
  gas_price = some 5;
  max_fee_per_gas = none;
  max_priority_fee_per_gas = none;
  gas_limit = none;
}

abbrev undecoded : Text → Option Transaction
undecoded raw_tx = none

add_raw_tx-IsBounded_example :
    let after = (add_raw_tx undecoded full_pool (text "raw") (some decoded) 9).0 in
    IsBounded after
    × (length after.txs ≤ after.cfg.max_size)
    × ((s : Text) → count_from after s ≤ after.cfg.max_per_sender)
add_raw_tx-IsBounded_example =
    add_raw_tx-IsBounded undecoded full_pool (text "raw") (some decoded) 9 (omega arith)
      full_pool-IsBounded

next_pending_nonce : get_pending_nonce pool_of_three ann 3 ≡ some 6
unfolding get_pending_nonce nonces_of txs_of next_free contains get text_beq to_lower_case
    lower_unit
next_pending_nonce = refl

get_pending_nonce_returns_example :
    IsFirstFree (nonces_of pool_of_three ann) 3 (get_pending_nonce pool_of_three ann 3)
get_pending_nonce_returns_example = get_pending_nonce_returns pool_of_three ann 3
