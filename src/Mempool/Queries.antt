-- ===== src/Mempool/Queries.antt =====
-- node/src/mempool.ts: getPendingByAddress, getPendingNonce, getAll and stats.
pub mod PendingNonce
use coc.Prelude.{
  false, true, Dict, Bool, Text, ℕ, List, ◌∷◌, get, Option, if◌then◌else◌, length, to_lower_case,
  none, ◌+◌, not, ltb, [], ◌==◌, values, some, suc, contains, map, text_eq, nat_eq, zero,
}
use coc.Mempool.{MempoolTx, Mempool}

-- The transactions of the hashes that are in the pool.
unfoldable pub txs_of : Mempool → Dict Text (Unit {0}) → List MempoolTx
txs_of pool [] = []
txs_of pool ((hash, _) ∷ hashes) =
    let rest = txs_of pool hashes in elim (get hash pool.txs) [ none ↦ rest | some tx ↦ tx ∷ rest ]

-- A stable sort by a comparison that is negative.
unfoldable pub insert_by :
    (MempoolTx → MempoolTx → Bool) → MempoolTx → List MempoolTx → List MempoolTx
insert_by less tx [] = tx ∷ []
insert_by less tx (y ∷ ys) = if less y tx then y ∷ insert_by less tx ys else tx ∷ y ∷ ys

unfoldable pub sort_by : (MempoolTx → MempoolTx → Bool) → List MempoolTx → List MempoolTx
sort_by less [] = []
sort_by less (tx ∷ txs) = insert_by less tx (sort_by less txs)

unfoldable pub get_pending_by_address : Mempool → Text → List MempoolTx
get_pending_by_address pool address = elim (get (to_lower_case address) pool.by_sender) [
  | none ↦ []
  | some hashes ↦ sort_by (λ a b. ltb a.nonce b.nonce) (txs_of pool hashes)
]

-- The loop on fuel; `none` means that the fuel ran out.
unfoldable pub next_free : ℕ → List ℕ → ℕ → Option ℕ
next_free zero nonces next = none
next_free (suc fuel) nonces next = elim (contains next nonces) [
  | true ↦ next_free fuel nonces (next + 1)
  | false ↦ some next
]

-- A sender without transactions has no nonces, and the loop then ends at once.
unfoldable pub nonces_of : Mempool → Text → List ℕ
nonces_of pool from = elim (get (to_lower_case from) pool.by_sender) [
  | none ↦ []
  | some hashes ↦ map (λ tx. tx.nonce) (txs_of pool hashes)
]

unfoldable pub get_pending_nonce : Mempool → Text → ℕ → Option ℕ
get_pending_nonce pool from onchain_nonce =
    let nonces = nonces_of pool from in next_free (length nonces + 1) nonces onchain_nonce

pub get_all : Mempool → List MempoolTx
get_all pool =
    sort_by
      (λ a b.
        if not (a.gas_price == b.gas_price)
        then ltb b.gas_price a.gas_price
        else ltb a.received_at_ms b.received_at_ms)
      (values pool.txs)

pub record MempoolStats : Type 0 where
  pub size : ℕ
  pub senders : ℕ
  pub oldest_ms : ℕ

oldest_of : ℕ → List MempoolTx → ℕ
oldest_of oldest [] = oldest
oldest_of oldest (tx ∷ txs) =
    oldest_of (if ltb tx.received_at_ms oldest then tx.received_at_ms else oldest) txs

pub stats : Mempool → ℕ → MempoolStats
stats pool now = record {
  size = length pool.txs;
  senders = length pool.by_sender;
  oldest_ms = if ltb 0 (length pool.txs) then oldest_of now (values pool.txs) else 0;
}
