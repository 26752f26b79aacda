-- ===== src/Mempool/Admission/Index.antt =====
-- node/src/mempool.ts: the index by sender lists every transaction of the pool under its sender.
use coc.Prelude.{
  subst, ◌≡◌, arith, Text, ◌≤◌, Dict, Option-cases, ℕ, or_else, get, has, insert, erase, get-insert,
  get-erase, inl, inr, text_eq, true, false, Distinct, keys, All, All-map, All-insert, All-erase_ne,
  erase-Distinct, insert-Distinct, has-empty, ◌==◌, count_entries, count_entries-le, nat_eq, [],
  ◌∷◌,
}
use coc.Mempool.Admission.{insert_item, sender_size}
use coc.Mempool.{nonce_key_eq, Mempool, MempoolTx, forget_hash, remove_tx}

-- The set of a sender's hashes.
unfoldable pub hashes_of : Text → Dict Text (Dict Text (Unit {0})) → Dict Text (Unit {0})
hashes_of from by_sender = or_else (get from by_sender) []

unfoldable pub IsListed : Dict Text (Dict Text (Unit {0})) → Text × MempoolTx → Type 0
IsListed by_sender entry = has entry.0 (hashes_of entry.1.from by_sender) ≡ true

-- Each hash has one transaction, and it is in the set of its sender.
pub record IsIndexed (pool : Mempool) : Type 0 where
  pub distinct : Distinct (keys pool.txs)
  pub listed : All (IsListed pool.by_sender) pool.txs

-- The number of a sender's transactions in the pool.
unfoldable pub count_from : Mempool → Text → ℕ
count_from pool from = count_entries (λ entry. entry.1.from == from) pool.txs

-- A sender has at most as many transactions as hashes in its set.
pub count_from-le :
    (pool : Mempool) (s : Text) → IsIndexed pool → count_from pool s ≤ sender_size pool s
unfolding count_from sender_size hashes_of IsListed
count_from-le pool s h =
    count_entries-le (λ entry. entry.1.from == s) (hashes_of s pool.by_sender) pool.txs h.distinct
      (counted pool.txs h.listed)
  where
    counted :
        (txs : Dict Text MempoolTx)
        → All (IsListed pool.by_sender) txs
        → All
            (λ entry. (entry.1.from == s) ≡ true → has entry.0 (hashes_of s pool.by_sender) ≡ true)
            txs
    counted [] k = tt
    counted (entry ∷ txs) k = (
      (λ same.
          subst (λ f. has entry.0 (or_else (get f pool.by_sender) []) ≡ true)
            ((text_eq.beq_iff entry.1.from s).0 same) k.0),
      counted txs k.1,
    )

IsListed-forget_hash :
    (from hash : Text) (m : Dict Text (Dict Text (Unit {0}))) (entry : Text × MempoolTx)
    → (entry.0 == hash) ≡ false
    → IsListed m entry
    → IsListed (forget_hash from hash m) entry
unfolding IsListed forget_hash hashes_of
IsListed-forget_hash from hash m entry other h = elim (Option-cases (get from m)) [
  | inl absent ↦ rw (absent, forget_hash) h
  | inr (hashes, found) ↦ ground (
    arith,
    found,
    get-erase hash entry.0 hashes,
    has-empty entry.0 (erase hash hashes),
    get-erase from entry.1.from m,
    get-insert from entry.1.from (erase hash hashes) m,
    text_eq.beq_iff from entry.1.from,
    text_eq.beq_iff hash entry.0,
    text_eq.beq_iff entry.0 hash,
  )
]

pub remove_tx-IsIndexed :
    (pool : Mempool) (hash : Text) → IsIndexed pool → IsIndexed (remove_tx pool hash)
unfolding remove_tx
remove_tx-IsIndexed pool hash h = elim (Option-cases (get hash pool.txs)) [
  | inl absent ↦ rw (absent, remove_tx) h
  | inr (tx, found) ↦
      rw (found, remove_tx)
        (record {
          distinct = erase-Distinct hash pool.txs h.distinct;
          listed =
              All-erase_ne (IsListed pool.by_sender)
                (IsListed (forget_hash tx.from hash pool.by_sender)) hash pool.txs
                (IsListed-forget_hash tx.from hash pool.by_sender) h.listed;
        })
]

IsListed-insert :
    (item : MempoolTx) (m : Dict Text (Dict Text (Unit {0}))) (entry : Text × MempoolTx)
    → IsListed m entry
    → IsListed (insert item.from (insert item.hash tt (hashes_of item.from m)) m) entry
unfolding IsListed hashes_of
IsListed-insert item m entry h = ground (
  arith,
  get-insert item.from entry.1.from (insert item.hash tt (hashes_of item.from m)) m,
  get-insert item.hash entry.0 tt (hashes_of item.from m),
  text_eq.beq_iff item.from entry.1.from,
)

IsListed-inserted :
    (item : MempoolTx) (m : Dict Text (Dict Text (Unit {0})))
    → IsListed (insert item.from (insert item.hash tt (hashes_of item.from m)) m) (item.hash, item)
unfolding IsListed hashes_of
IsListed-inserted item m = ground (
  arith,
  get-insert item.from item.from (insert item.hash tt (hashes_of item.from m)) m,
  get-insert item.hash item.hash tt (hashes_of item.from m),
  text_eq.beq_iff item.from item.from,
  text_eq.beq_iff item.hash item.hash,
)

pub insert_item-IsIndexed :
    (pool : Mempool) (item : MempoolTx) → IsIndexed pool → IsIndexed (insert_item pool item)
unfolding insert_item hashes_of
insert_item-IsIndexed pool item h =
    let sets =
      insert item.from (insert item.hash tt (hashes_of item.from pool.by_sender)) pool.by_sender in
    record {
      distinct = insert-Distinct item.hash item pool.txs h.distinct;
      listed =
          All-insert (IsListed sets) item.hash item pool.txs (IsListed-inserted item pool.by_sender)
            (All-map (IsListed pool.by_sender) (IsListed sets) pool.txs
              (IsListed-insert item pool.by_sender) h.listed);
    }
