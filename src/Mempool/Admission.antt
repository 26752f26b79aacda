-- ===== src/Mempool/Admission.antt =====
-- node/src/mempool.ts, addRawTx: which transactions enter the pool. The decoded transaction is the
-- one of the ethers package, of which the code reads these fields; its decoder is a parameter, `none`
-- where it throws.
pub mod Index
pub mod Shrinks
pub mod Capacity
use coc.Mempool.Eviction.{evict_lowest_fee}
use coc.Prelude.{
  Text, Option, ℕ, insert, if◌then◌else◌, none, or_else, length, leb, is_some, ◌+◌, get,
  to_lower_case, some, [], ◌&&◌, ◌*◌, ltb, not, ◌∷◌, text_eq, ◌/◌, ◌==◌, nat_eq,
}
use coc.Mempool.{nonce_key_eq, MempoolTx, Mempool, remove_tx}

pub record Transaction : Type 0 where
  pub hash : Text
  pub from : Option Text
  pub chain_id : ℕ
  pub nonce : ℕ
  pub type : Option ℕ
  pub gas_price : Option ℕ
  pub max_fee_per_gas : Option ℕ
  pub max_priority_fee_per_gas : Option ℕ
  pub gas_limit : Option ℕ

pub data AddError : Type 0 where
  undecodable missing_sender invalid_chain_id blob_not_supported gas_limit_exceeded : AddError
  replacement_underpriced sender_limit mempool_full : AddError

pub data AddResult : Type 0 where
  added : MempoolTx → AddResult
  refused : AddError → AddResult

abbrev first_of : Option ℕ → Option ℕ → ℕ
first_of a b = or_else a (or_else b 0)

abbrev pub max_tx_gas_limit : ℕ
max_tx_gas_limit = 30_000_000

pub make_item : Transaction → Text → Text → ℕ → MempoolTx
make_item tx raw_tx from now = record {
  hash = tx.hash;
  raw_tx = raw_tx;
  from = from;
  nonce = tx.nonce;
  gas_price = first_of tx.gas_price tx.max_fee_per_gas;
  max_fee_per_gas = first_of tx.max_fee_per_gas tx.gas_price;
  max_priority_fee_per_gas = or_else tx.max_priority_fee_per_gas 0;
  gas_limit = or_else tx.gas_limit 21_000;
  received_at_ms = now;
}

-- The part that writes the transaction and the two indexes.
pub insert_item : Mempool → MempoolTx → Mempool
insert_item pool item = record pool {
  txs = insert item.hash item pool.txs;
  by_nonce = insert (item.from, item.nonce) item.hash pool.by_nonce;
  by_sender =
      insert item.from (insert item.hash tt (or_else (get item.from pool.by_sender) []))
        pool.by_sender;
}

-- `this.bySender.get(from)?.size`
unfoldable pub sender_size : Mempool → Text → ℕ
sender_size pool from = length (or_else (get from pool.by_sender) [])

-- From the capacity check on.
pub insert_or_evict : Mempool → MempoolTx → Mempool × AddResult
insert_or_evict pool item =
    let pool' = if leb pool.cfg.max_size (length pool.txs) then evict_lowest_fee pool else pool in
    if leb pool.cfg.max_size (length pool'.txs)
    then (pool', refused mempool_full)
    else (insert_item pool' item, added item)

-- From the limit per sender on. A sender without a set passes, whatever the limit is.
pub check_sender : Mempool → MempoolTx → Mempool × AddResult
check_sender pool item =
    if is_some (get item.from pool.by_sender)
      && leb pool.cfg.max_per_sender (sender_size pool item.from)
    then (pool, refused sender_limit)
    else insert_or_evict pool item

-- The least price that replaces a transaction: the bump is rounded up.
pub min_replacement_price : Mempool → MempoolTx → ℕ
min_replacement_price pool existing =
    existing.gas_price + (existing.gas_price * pool.cfg.min_gas_bump + 99) / 100

-- The transaction with the same sender and nonce, if there is one.
pub existing_tx : Mempool → MempoolTx → Option MempoolTx
existing_tx pool item = elim (get (item.from, item.nonce) pool.by_nonce) [
  | none ↦ none
  | some hash ↦ get hash pool.txs
]

-- From the check for a replacement on. The existing transaction goes by the hash of the index.
pub replace_or_add : Mempool → MempoolTx → Mempool × AddResult
replace_or_add pool item = elim (existing_tx pool item) [
  | none ↦ check_sender pool item
  | some existing ↦
      if ltb item.gas_price (min_replacement_price pool existing)
      then (pool, refused replacement_underpriced)
      else check_sender (remove_tx pool (or_else (get (item.from, item.nonce) pool.by_nonce) []))
          item
]

pub add_decoded : Mempool → Transaction → Text → Text → ℕ → Mempool × AddResult
add_decoded pool tx raw_tx from now =
    let item = make_item tx raw_tx (to_lower_case from) now in
    if not (tx.chain_id == pool.cfg.chain_id)
    then (pool, refused invalid_chain_id)
    else if or_else tx.type 0 == 3
    then (pool, refused blob_not_supported)
    else if ltb max_tx_gas_limit item.gas_limit
    then (pool, refused gas_limit_exceeded)
    else replace_or_add pool item

-- `!tx.from`: missing or empty
pub add_from : Mempool → Transaction → Text → Option Text → ℕ → Mempool × AddResult
add_from pool tx raw_tx none now = (pool, refused missing_sender)
add_from pool tx raw_tx (some []) now = (pool, refused missing_sender)
add_from pool tx raw_tx (some (c ∷ s)) now = add_decoded pool tx raw_tx (c ∷ s) now

pub decode_tx : (Text → Option Transaction) → Text → Option Transaction → Option Transaction
decode_tx decode raw_tx none = decode raw_tx
decode_tx decode raw_tx (some tx) = some tx

pub add_raw_tx :
    (Text → Option Transaction) → Mempool → Text → Option Transaction → ℕ → Mempool × AddResult
add_raw_tx decode pool raw_tx pre_decoded now = elim (decode_tx decode raw_tx pre_decoded) [
  | none ↦ (pool, refused undecodable)
  | some tx ↦ add_from pool tx raw_tx tx.from now
]
