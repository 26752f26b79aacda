-- ===== src/Mempool.antt =====
-- node/src/mempool.ts: the pending transactions with their two indexes, their removal and expiry.
pub mod Eviction
pub mod Admission
pub mod Selection
pub mod Queries
pub mod Examples
use coc.Prelude.{
  ◌∷◌, ℕ, Text, ◌*◌, Bool, ◌≡◌, Eq, Dict, [], ◌-◌, ◌==◌, true, get, ◌&&◌, ◌↔◌, none, arith, some,
  text_eq, erase, nat_eq, if◌then◌else◌, length, insert, ltb, ◌+◌,
}

pub record MempoolTx : Type 0 where
  pub hash : Text
  pub raw_tx : Text
  pub from : Text
  pub nonce : ℕ
  pub gas_price : ℕ
  pub max_fee_per_gas : ℕ
  pub max_priority_fee_per_gas : ℕ
  pub gas_limit : ℕ
  pub received_at_ms : ℕ

pub record MempoolConfig : Type 0 where
  pub max_size : ℕ
  pub max_per_sender : ℕ
  pub min_gas_bump : ℕ
  pub eviction_batch_size : ℕ
  pub tx_ttl_ms : ℕ
  pub chain_id : ℕ

abbrev pub default_mempool_config : MempoolConfig
default_mempool_config = record {
  max_size = 4096;
  max_per_sender = 64;
  min_gas_bump = 10;
  eviction_batch_size = 16;
  tx_ttl_ms = 6 * 60 * 60 * 1000;
  chain_id = 18780;
}

-- The text `${from}:${nonce}` as the pair of its parts.
abbrev pub NonceKey : Type 0
NonceKey = Text × ℕ

pub nonce_key_beq : NonceKey → NonceKey → Bool
nonce_key_beq a b = a.0 == b.0 && a.1 == b.1

pub nonce_key_beq_iff : (a b : NonceKey) → (nonce_key_beq a b ≡ true) ↔ (a ≡ b)
unfolding nonce_key_beq
nonce_key_beq_iff (f, n) (g, k) = ground (arith, text_eq.beq_iff f g)

instance abbrev pub nonce_key_eq : Eq NonceKey
nonce_key_eq = record { beq = nonce_key_beq; beq_iff = nonce_key_beq_iff }

pub record Mempool : Type 0 where
  pub txs : Dict Text MempoolTx
  pub by_sender : Dict Text (Dict Text (Unit {0}))
  pub by_nonce : Dict NonceKey Text
  pub cfg : MempoolConfig

pub new_mempool : MempoolConfig → Mempool
new_mempool config = record { txs = []; by_sender = []; by_nonce = []; cfg = config }

-- The part of removeTx on the index by sender: a set that has become empty goes.
pub forget_hash : Text → Text → Dict Text (Dict Text (Unit {0})) → Dict Text (Dict Text (Unit {0}))
forget_hash from hash by_sender = elim (get from by_sender) [
  | none ↦ by_sender
  | some hashes ↦
      let left = erase hash hashes in
      if length left == 0 then erase from by_sender else insert from left by_sender
]

pub remove_tx : Mempool → Text → Mempool
remove_tx pool hash = elim (get hash pool.txs) [
  | none ↦ pool
  | some tx ↦ record pool {
    txs = erase hash pool.txs;
    by_nonce = erase (tx.from, tx.nonce) pool.by_nonce;
    by_sender = forget_hash tx.from hash pool.by_sender;
  }
]

-- The loop of evictExpired over the entries, with the number removed.
pub evict_older : ℕ → Dict Text MempoolTx → Mempool → Mempool × ℕ
evict_older cutoff [] pool = (pool, 0)
evict_older cutoff ((hash, tx) ∷ txs) pool =
    let expired = ltb tx.received_at_ms cutoff in
    let (pool', evicted) = evict_older cutoff txs (if expired then remove_tx pool hash else pool) in
    (pool', if expired then evicted + 1 else evicted)

pub evict_expired : Mempool → ℕ → Mempool × ℕ
evict_expired pool now = evict_older (now - pool.cfg.tx_ttl_ms) pool.txs pool
