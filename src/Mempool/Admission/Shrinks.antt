-- ===== src/Mempool/Admission/Shrinks.antt =====
-- node/src/mempool.ts: what removal and eviction leave of the pool.
use coc.Mempool.Eviction.Returns.{partial_select_returns}
use coc.Mempool.Admission.Index.{IsIndexed, remove_tx-IsIndexed}
use coc.Prelude.{
  ap, ◌≡◌, arith, ◌∙◌, Text, length, ◌≤◌, Dict, Option-cases, or_else, get, refl, [], get-insert,
  inl, ◌∷◌, Bool-cases, inr, length-erase-le, text_eq, get-erase, erase, List, values, min, ◌==◌,
  take, nat_eq,
}
use coc.Mempool.Admission.{sender_size}
use coc.Mempool.Eviction.{remove_all, evict_lowest_fee, is_cheaper}
use coc.Mempool.{nonce_key_eq, Mempool, forget_hash, remove_tx, MempoolTx}

-- Fewer or as many transactions, of each sender too, under the same configuration, with the index
-- by sender as good as before.
pub record Shrinks (pool pool' : Mempool) : Type 0 where
  pub same_size : pool'.cfg.max_size ≡ pool.cfg.max_size
  pub same_limit : pool'.cfg.max_per_sender ≡ pool.cfg.max_per_sender
  pub fewer : length pool'.txs ≤ length pool.txs
  pub fewer_of : (s : Text) → sender_size pool' s ≤ sender_size pool s
  pub indexed : IsIndexed pool → IsIndexed pool'

pub Shrinks-refl : (pool : Mempool) → Shrinks pool pool
Shrinks-refl pool = record {
  same_size = refl;
  same_limit = refl;
  fewer = omega arith;
  fewer_of = λ s. omega arith;
  indexed = λ i. i;
}

pub Shrinks-trans : (p q r : Mempool) → Shrinks p q → Shrinks q r → Shrinks p r
Shrinks-trans p q r h k = record {
  same_size = k.same_size ∙ h.same_size;
  same_limit = k.same_limit ∙ h.same_limit;
  fewer = omega (arith, h.fewer, k.fewer);
  fewer_of = λ s. omega (arith, h.fewer_of s, k.fewer_of s);
  indexed = λ i. k.indexed (h.indexed i);
}

forget_hash-le :
    (from hash s : Text) (m : Dict Text (Dict Text (Unit {0})))
    → length (or_else (get s (forget_hash from hash m)) []) ≤ length (or_else (get s m) [])
unfolding forget_hash
forget_hash-le from hash s m = elim (Option-cases (get from m)) [
  | inl absent ↦ rw (absent, forget_hash) (omega arith)
  | inr (hashes, found) ↦ ground (
    arith,
    length-erase-le hash hashes,
    get-erase from s m,
    get-insert from s (erase hash hashes) m,
    text_eq.beq_iff from s,
  )
]

remove_tx-fewer :
    (pool : Mempool) (hash : Text)
    → ((remove_tx pool hash).cfg ≡ pool.cfg)
      × (length (remove_tx pool hash).txs ≤ length pool.txs)
      × ((s : Text) → sender_size (remove_tx pool hash) s ≤ sender_size pool s)
unfolding remove_tx sender_size
remove_tx-fewer pool hash = elim (Option-cases (get hash pool.txs)) [
  | inl absent ↦ rw (absent, remove_tx) (refl, omega arith, λ s. omega arith)
  | inr (tx, found) ↦
      rw (found, remove_tx)
        (refl, length-erase-le hash pool.txs, λ s. forget_hash-le tx.from hash s pool.by_sender)
]

pub remove_tx-Shrinks : (pool : Mempool) (hash : Text) → Shrinks pool (remove_tx pool hash)
remove_tx-Shrinks pool hash =
    let (config, fewer, fewer_of) = remove_tx-fewer pool hash in
    record {
      same_size = ap (λ c. c.max_size) config;
      same_limit = ap (λ c. c.max_per_sender) config;
      fewer = fewer;
      fewer_of = fewer_of;
      indexed = remove_tx-IsIndexed pool hash;
    }

remove_all-Shrinks : (txs : List MempoolTx) (pool : Mempool) → Shrinks pool (remove_all pool txs)
unfolding remove_all
remove_all-Shrinks [] pool = Shrinks-refl pool
remove_all-Shrinks (tx ∷ txs) pool =
    Shrinks-trans pool (remove_tx pool tx.hash) _ (remove_tx-Shrinks pool tx.hash)
      (remove_all-Shrinks txs (remove_tx pool tx.hash))

pub evict_lowest_fee-Shrinks : (pool : Mempool) → Shrinks pool (evict_lowest_fee pool)
unfolding evict_lowest_fee
evict_lowest_fee-Shrinks pool =
    let all = values pool.txs in
    let count = min pool.cfg.eviction_batch_size (length all) in
    elim (Bool-cases (count == 0)) [
      | inl nothing ↦ rw nothing (Shrinks-refl pool)
      | inr something ↦
          let (arr, found) = partial_select_returns all count is_cheaper in
          rw (something, found, evict_lowest_fee) (remove_all-Shrinks (take count arr) pool)
    ]
