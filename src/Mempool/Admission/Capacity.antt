-- ===== src/Mempool/Admission/Capacity.antt =====
-- node/src/mempool.ts: the pool and each sender's part of it stay within their limits.
use coc.Mempool.Admission.Index.{IsIndexed, insert_item-IsIndexed, count_from, count_from-le}
use coc.Prelude.{
  ◌≡◌, arith, Text, length, ◌≤◌, Option-cases, ◌<◌, ℕ, Option, or_else, get, length-insert, leb,
  is_some, some, [], get-insert, if◌then◌else◌, ◌&&◌, to_lower_case, inl, ◌∷◌, insert, Bool-cases,
  false, inr, none, text_eq, ltb, nat_eq,
}
use coc.Mempool.Admission.{
  insert_item, insert_or_evict, check_sender, replace_or_add, add_decoded, add_from, add_raw_tx,
  sender_size, Transaction, existing_tx, make_item, decode_tx, min_replacement_price,
}
use coc.Mempool.Eviction.{evict_lowest_fee}
use coc.Mempool.{nonce_key_eq, Mempool, remove_tx, MempoolTx}
use coc.Mempool.Admission.Shrinks.{
  Shrinks, Shrinks-refl, remove_tx-Shrinks, evict_lowest_fee-Shrinks,
}

-- Within the limits of the configuration, those of a sender by its set, and indexed.
pub record IsBounded (pool : Mempool) : Type 0 where
  pub small : length pool.txs ≤ pool.cfg.max_size
  pub fair : (s : Text) → sender_size pool s ≤ pool.cfg.max_per_sender
  pub indexed : IsIndexed pool

Shrinks-IsBounded : (p q : Mempool) → Shrinks p q → IsBounded p → IsBounded q
Shrinks-IsBounded p q h b = record {
  small = omega (arith, h.same_size, h.fewer, b.small);
  fair = λ s. omega (arith, h.same_limit, h.fewer_of s, b.fair s);
  indexed = h.indexed b.indexed;
}

insert_item-IsBounded :
    (pool : Mempool) (item : MempoolTx)
    → length pool.txs < pool.cfg.max_size
    → sender_size pool item.from < pool.cfg.max_per_sender
    → IsBounded pool
    → IsBounded (insert_item pool item)
unfolding insert_item sender_size
insert_item-IsBounded pool item room allowed b = record {
  small = ground (arith, length-insert item.hash item pool.txs);
  fair = λ s. ground (
    arith,
    b.fair s,
    get-insert item.from s (insert item.hash tt (or_else (get item.from pool.by_sender) []))
        pool.by_sender,
    length-insert item.hash tt (or_else (get item.from pool.by_sender) []),
    text_eq.beq_iff item.from s,
  );
  indexed = insert_item-IsIndexed pool item b.indexed;
}

insert_or_evict-IsBounded :
    (pool : Mempool) (item : MempoolTx)
    → sender_size pool item.from < pool.cfg.max_per_sender
    → IsBounded pool
    → IsBounded (insert_or_evict pool item).0
unfolding insert_or_evict
insert_or_evict-IsBounded pool item allowed b =
    let full = leb pool.cfg.max_size (length pool.txs) in
    let pool' = if full then evict_lowest_fee pool else pool in
    let shrinks : Shrinks pool pool' = elim (Bool-cases full) [
      | inl yes_full ↦ rw yes_full (evict_lowest_fee-Shrinks pool)
      | inr not_full ↦ rw not_full (Shrinks-refl pool)
    ] in
    let b' = Shrinks-IsBounded pool pool' shrinks b in
    elim (Bool-cases (leb pool.cfg.max_size (length pool'.txs))) [
      | inl still ↦ rw still b'
      | inr room ↦ rw room (
          insert_item-IsBounded pool' item (ground (arith, shrinks.same_size))
            (omega (arith, shrinks.same_limit, shrinks.fewer_of item.from)) b')
    ]

check_sender-IsBounded :
    (pool : Mempool) (item : MempoolTx)
    → 0 < pool.cfg.max_per_sender
    → IsBounded pool
    → IsBounded (check_sender pool item).0
unfolding check_sender sender_size
check_sender-IsBounded pool item positive b =
    elim (Bool-cases (
      is_some (get item.from pool.by_sender)
      && leb pool.cfg.max_per_sender (sender_size pool item.from))) [
        | inl over ↦ rw over b
        | inr under ↦ rw under (insert_or_evict-IsBounded pool item (allowed under) b)
      ]
  where
    allowed :
        (is_some (get item.from pool.by_sender)
            && leb pool.cfg.max_per_sender (sender_size pool item.from))
          ≡ false
        → sender_size pool item.from < pool.cfg.max_per_sender
    allowed h = ground (arith, Option-cases (get item.from pool.by_sender))

replace_or_add-IsBounded :
    (pool : Mempool) (item : MempoolTx)
    → 0 < pool.cfg.max_per_sender
    → IsBounded pool
    → IsBounded (replace_or_add pool item).0
unfolding replace_or_add
replace_or_add-IsBounded pool item positive b = elim (Option-cases (existing_tx pool item)) [
  | inl absent ↦ rw (absent, replace_or_add) (check_sender-IsBounded pool item positive b)
  | inr (existing, found) ↦
      let hash = or_else (get (item.from, item.nonce) pool.by_nonce) [] in
      let s = remove_tx-Shrinks pool hash in
      elim (Bool-cases (ltb item.gas_price (min_replacement_price pool existing))) [
        | inl low ↦ rw (found, low, replace_or_add) b
        | inr high ↦
            rw (found, high, replace_or_add)
              (check_sender-IsBounded (remove_tx pool hash) item (omega (arith, s.same_limit))
                (Shrinks-IsBounded pool (remove_tx pool hash) s b))
      ]
]

add_decoded-IsBounded :
    (pool : Mempool) (tx : Transaction) (raw_tx from : Text) (now : ℕ)
    → 0 < pool.cfg.max_per_sender
    → IsBounded pool
    → IsBounded (add_decoded pool tx raw_tx from now).0
unfolding add_decoded
add_decoded-IsBounded pool tx raw_tx from now positive b =
    ground (
      arith,
      replace_or_add-IsBounded pool (make_item tx raw_tx (to_lower_case from) now) positive b,
    )

add_from-IsBounded :
    (pool : Mempool) (tx : Transaction) (raw_tx : Text) (from : Option Text) (now : ℕ)
    → 0 < pool.cfg.max_per_sender
    → IsBounded pool
    → IsBounded (add_from pool tx raw_tx from now).0
unfolding add_from
add_from-IsBounded pool tx raw_tx none now positive b = b
add_from-IsBounded pool tx raw_tx (some []) now positive b = b
add_from-IsBounded pool tx raw_tx (some (c ∷ s)) now positive b =
    add_decoded-IsBounded pool tx raw_tx (c ∷ s) now positive b

-- In a pool that is indexed and within its limits, no sender has more transactions than its limit.
pub IsBounded-fair :
    (pool : Mempool) (s : Text) → IsBounded pool → count_from pool s ≤ pool.cfg.max_per_sender
IsBounded-fair pool s b = omega (arith, count_from-le pool s b.indexed, b.fair s)

add_raw_tx-IsKept :
    (decode : Text → Option Transaction) (pool : Mempool) (raw_tx : Text)
    (pre_decoded : Option Transaction) (now : ℕ)
    → 0 < pool.cfg.max_per_sender
    → IsBounded pool
    → IsBounded (add_raw_tx decode pool raw_tx pre_decoded now).0
unfolding add_raw_tx
add_raw_tx-IsKept decode pool raw_tx pre_decoded now positive b =
    elim (Option-cases (decode_tx decode raw_tx pre_decoded)) [
      | inl failed ↦ rw (failed, add_raw_tx) b
      | inr (tx, found) ↦
          rw (found, add_raw_tx) (add_from-IsBounded pool tx raw_tx tx.from now positive b)
    ]

-- Whatever transaction is added, and whether it is accepted or refused, a pool that is within its
-- limits and whose index by sender lists each of its transactions under its sender stays so, where the
-- limit per sender is not zero: it has no more transactions than the maximum in all, and none of the
-- senders has more transactions in it than the limit.
pub add_raw_tx-IsBounded :
    (decode : Text → Option Transaction) (pool : Mempool) (raw_tx : Text)
    (pre_decoded : Option Transaction) (now : ℕ)
    → 0 < pool.cfg.max_per_sender
    → IsBounded pool
    → let after = (add_raw_tx decode pool raw_tx pre_decoded now).0 in
      IsBounded after
      × (length after.txs ≤ after.cfg.max_size)
      × ((s : Text) → count_from after s ≤ after.cfg.max_per_sender)
add_raw_tx-IsBounded decode pool raw_tx pre_decoded now positive b =
    let b' = add_raw_tx-IsKept decode pool raw_tx pre_decoded now positive b in
    (b', b'.small, λ s. IsBounded-fair (add_raw_tx decode pool raw_tx pre_decoded now).0 s b')
