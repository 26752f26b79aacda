-- ===== src/Mempool/Selection/Picks.antt =====
-- node/src/mempool.ts, pickForBlock: what holds of the transactions picked for a block.
use coc.Mempool.Selection.{
  decide, PickParams, Decision, pick_loop, insert_tx, sort_txs, expected_nonces, goes_before,
  can_pay_base_fee, is_eligible, pick_for_block, effective_price,
}
use coc.Prelude.{
  List, Text, keep, ℕ, Option, Dict, ◌≡◌, Bool, get, some, ◌+◌, ◌≤◌, [], ◌<◌, ◌⊎◌, All, ◌∷◌,
  if◌then◌else◌, Bool-cases, arith, length, insert, true, Option-cases, ◌==◌, leb, inl, text_eq,
  get-insert, inr, ◌||◌, values, nat_eq,
}
use coc.Mempool.{MempoolTx, Mempool, remove_tx, evict_expired}

-- The gas of all transactions of a list.
pub total_gas : List MempoolTx → ℕ
total_gas [] = 0
total_gas (tx ∷ txs) = tx.gas_limit + total_gas txs

-- The sender's transactions have consecutive nonces, in the order of the list, from the given one
-- on; without a nonce the sender has none.
abbrev pub IsRun : Text → Option ℕ → List MempoolTx → Type 0
IsRun sender next [] = Unit
IsRun sender next (tx ∷ txs) =
    if tx.from == sender
    then (next ≡ some tx.nonce) × IsRun sender (some (tx.nonce + 1)) txs
    else IsRun sender next txs

IsRun-weaken :
    (sender : Text) (o o' : Option ℕ) (txs : List MempoolTx)
    → ((n : ℕ) → o ≡ some n → o' ≡ some n)
    → IsRun sender o txs
    → IsRun sender o' txs
IsRun-weaken sender o o' [] w h = tt
IsRun-weaken sender o o' (tx ∷ txs) w h = elim (Bool-cases (tx.from == sender)) [
  | inl own ↦ rw own (w tx.nonce (rw own at h).0, (rw own at h).1)
  | inr other ↦ rw other (IsRun-weaken sender o o' txs w (rw other at h))
]

decide-pick :
    (params : PickParams) (expected : Dict Text ℕ) (gas : ℕ) (tx : MempoolTx)
    → decide params expected gas tx ≡ Decision.pick
    → (gas + tx.gas_limit ≤ params.block_gas_limit) × (get tx.from expected ≡ some tx.nonce)
unfolding decide
decide-pick params expected gas tx h = ground arith

-- What holds of the picks of the loop from a number and an amount of gas on.
record IsPick (params : PickParams) (expected : Dict Text ℕ) (P : MempoolTx → Type 0)
    (count gas : ℕ) (picks : List MempoolTx) : Type 0 where
  few : count ≤ params.max_tx → count + length picks ≤ params.max_tx
  light : gas ≤ params.block_gas_limit → gas + total_gas picks ≤ params.block_gas_limit
  chosen : All P picks
  runs : (sender : Text) → IsRun sender (get sender expected) picks

no_picks :
    (params : PickParams) (expected : Dict Text ℕ) (P : MempoolTx → Type 0) (count gas : ℕ)
    → IsPick params expected P count gas []
unfolding total_gas
no_picks params expected P count gas = record {
  few = λ h. omega arith;
  light = λ h. omega arith;
  chosen = tt;
  runs = λ sender. tt;
}

one_pick :
    (params : PickParams) (expected : Dict Text ℕ) (P : MempoolTx → Type 0) (count gas : ℕ)
    (tx : MempoolTx) (picks : List MempoolTx)
    → count < params.max_tx
    → decide params expected gas tx ≡ Decision.pick
    → P tx
    → IsPick params
        (insert tx.from (tx.nonce + 1) expected)
        P
        (count + 1)
        (gas + tx.gas_limit)
        picks
    → IsPick params expected P count gas (tx ∷ picks)
unfolding total_gas
one_pick params expected P count gas tx picks below decided good rest =
    let (fits, next) = decide-pick params expected gas tx decided in
    record {
      few = λ h. omega (arith, rest.few (omega arith));
      light = λ h. omega (arith, rest.light fits);
      chosen = (good, rest.chosen);
      runs = λ sender. elim (Bool-cases (tx.from == sender)) [
        | inl own ↦
            let same : tx.from ≡ sender = (text_eq.beq_iff tx.from sender).0 own in
            let after : get sender (insert tx.from (tx.nonce + 1) expected) ≡ some (tx.nonce + 1) =
              ground (arith, get-insert tx.from sender (tx.nonce + 1) expected) in
            rw own (ground arith, rw after at (rest.runs sender))
        | inr other ↦
            let after : get sender (insert tx.from (tx.nonce + 1) expected) ≡ get sender expected =
              ground (arith, get-insert tx.from sender (tx.nonce + 1) expected) in
            rw other (rw after at (rest.runs sender))
      ];
    }

Decision-cases : (d : Decision) → (d ≡ Decision.skip) ⊎ ((d ≡ Decision.evict) ⊎ (d ≡ Decision.pick))
Decision-cases d = ground arith

pick_loop-IsPick :
    (params : PickParams) (P : MempoolTx → Type 0) (txs : List MempoolTx) (pool : Mempool)
    (expected : Dict Text ℕ) (count gas : ℕ)
    → All P txs
    → IsPick params expected P count gas (pick_loop params txs pool expected count gas).1
unfolding pick_loop
pick_loop-IsPick params P [] pool expected count gas h = no_picks params expected P count gas
pick_loop-IsPick params P (tx ∷ txs) pool expected count gas h =
    elim (Bool-cases (leb params.max_tx count)) [
      | inl full ↦ rw (full, pick_loop) (no_picks params expected P count gas)
      | inr room ↦ elim (Decision-cases (decide params expected gas tx)) [
        | inl skipped ↦
            rw (room, skipped, pick_loop)
              (pick_loop-IsPick params P txs pool expected count gas h.1)
        | inr (inl evicted) ↦
            rw (room, evicted, pick_loop)
              (pick_loop-IsPick params P txs (remove_tx pool tx.hash) expected count gas h.1)
        | inr (inr picked) ↦
            rw (room, picked, pick_loop)
              (one_pick params expected P count gas tx _ (ground arith) picked h.0 (
                pick_loop-IsPick params P txs pool (insert tx.from (tx.nonce + 1) expected)
                  (count + 1) (gas + tx.gas_limit) h.1))
      ]
    ]

insert_tx-All :
    (P : MempoolTx → Type 0) (base_fee : ℕ) (tx : MempoolTx) (txs : List MempoolTx)
    → P tx
    → All P txs
    → All P (insert_tx base_fee tx txs)
unfolding insert_tx
insert_tx-All P base_fee tx [] p h = (p, tt)
insert_tx-All P base_fee tx (y ∷ ys) p h = elim (Bool-cases (goes_before base_fee y tx)) [
  | inl before ↦ rw before (h.0, insert_tx-All P base_fee tx ys p h.1)
  | inr after ↦ rw after (p, h)
]

sort_txs-All :
    (P : MempoolTx → Type 0) (base_fee : ℕ) (txs : List MempoolTx)
    → All P txs
    → All P (sort_txs base_fee txs)
unfolding sort_txs
sort_txs-All P base_fee [] h = tt
sort_txs-All P base_fee (tx ∷ txs) h =
    insert_tx-All P base_fee tx (sort_txs base_fee txs) h.0 (sort_txs-All P base_fee txs h.1)

keep-eligible : (p : MempoolTx → Bool) (txs : List MempoolTx) → All (λ tx. p tx ≡ true) (keep p txs)
unfolding keep
keep-eligible p [] = tt
keep-eligible p (tx ∷ txs) = elim (Bool-cases (p tx)) [
  | inl kept ↦ rw kept (kept, keep-eligible p txs)
  | inr dropped ↦ rw dropped (keep-eligible p txs)
]

-- An expected nonce is the one that was fetched.
expected_nonces-fetched :
    (fetch : Text → Option ℕ) (txs : List MempoolTx) (sender : Text) (n : ℕ)
    → get sender (expected_nonces fetch txs) ≡ some n
    → fetch sender ≡ some n
unfolding expected_nonces get
expected_nonces-fetched fetch [] sender n h = cc
expected_nonces-fetched fetch (tx ∷ txs) sender n h = elim (Option-cases (fetch tx.from)) [
  | inl failed ↦ expected_nonces-fetched fetch txs sender n (rw (failed, expected_nonces) at h)
  | inr (k, found) ↦ ground (
    arith,
    text_eq.beq_iff tx.from sender,
    get-insert tx.from sender k (expected_nonces fetch txs),
    expected_nonces-fetched fetch txs sender n,
  )
]

abbrev pub IsPayable : PickParams → MempoolTx → Type 0
IsPayable params tx =
    (can_pay_base_fee params.base_fee_per_gas tx ≡ true)
    × (params.min_gas_price_wei ≤ effective_price params.base_fee_per_gas tx)

IsPayable-of_eligible :
    (params : PickParams) (tx : MempoolTx) → is_eligible params tx ≡ true → IsPayable params tx
unfolding is_eligible
IsPayable-of_eligible params tx h = ground arith

All-IsPayable :
    (params : PickParams) (txs : List MempoolTx)
    → All (λ tx. is_eligible params tx ≡ true) txs
    → All (IsPayable params) txs
All-IsPayable params [] h = tt
All-IsPayable params (tx ∷ txs) h =
    (IsPayable-of_eligible params tx h.0, All-IsPayable params txs h.1)

-- The transactions picked for a block are no more than asked for and fit its gas limit together;
-- each pays the base fee and the minimum price; and those of one sender have consecutive nonces
-- from the sender's nonce on chain on, so that a sender whose nonce is not known has none.
pub pick_for_block_lem :
    (params : PickParams) (fetch : Text → Option ℕ) (pool : Mempool) (now : ℕ) (sender : Text)
    → let picks = (pick_for_block params fetch pool now).1 in
      (length picks ≤ params.max_tx)
      × (total_gas picks ≤ params.block_gas_limit)
      × All (IsPayable params) picks
      × IsRun sender (fetch sender) picks
unfolding pick_for_block
pick_for_block_lem params fetch pool now sender =
    elim (Bool-cases (params.max_tx == 0 || length pool.txs == 0)) [
      | inl nothing ↦ rw nothing (omega arith, unfold total_gas in omega arith, tt, tt)
      | inr something ↦
          let pool' = (evict_expired pool now).0 in
          let eligible = keep (is_eligible params) (values pool'.txs) in
          let sorted = sort_txs params.base_fee_per_gas eligible in
          let expected = expected_nonces fetch sorted in
          let payable = sort_txs-All (IsPayable params) params.base_fee_per_gas eligible (
            All-IsPayable params eligible
              (keep-eligible (is_eligible params) (values pool'.txs))) in
          let p = pick_loop-IsPick params (IsPayable params) sorted pool' expected 0 0 payable in
          rw something (
            omega (arith, p.few (omega arith)),
            omega (arith, p.light (omega arith)),
            p.chosen,
            IsRun-weaken sender (get sender expected) (fetch sender) _
                (expected_nonces-fetched fetch sorted sender) (p.runs sender),
          )
    ]
