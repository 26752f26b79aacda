-- ===== src/Mempool/Eviction.antt =====
-- node/src/mempool.ts: partialSelect, the quickselect, and evictLowestFee, which removes what it
-- brings to the front.
pub mod Returns
use coc.Prelude.{
  ℕ, Bool, List, values, Option, ◌-◌, if◌then◌else◌, min, ◌∷◌, suc, none, some, false, ◌+◌, ltb,
  ◌==◌, not, length, [], ◌/◌, ◌||◌, take, zero, nat_eq, leb, true,
}
use coc.Mempool.{MempoolTx, Mempool, remove_tx}

module _ {ℓ} {A : Type ℓ} where
  unfoldable pub get_elem? : ℕ → List A → Option A
  get_elem? i [] = none
  get_elem? zero (x ∷ xs) = some x
  get_elem? (suc i) (x ∷ xs) = get_elem? i xs

  unfoldable pub set_elem : ℕ → A → List A → List A
  set_elem i y [] = []
  set_elem zero y (x ∷ xs) = y ∷ xs
  set_elem (suc i) y (x ∷ xs) = x ∷ set_elem i y xs

  -- `[arr[i], arr[j]] = [arr[j], arr[i]]`; both places are in range.
  unfoldable pub swap : ℕ → ℕ → List A → List A
  swap i j arr = elim (get_elem? i arr) [
    | none ↦ arr
    | some x ↦ elim (get_elem? j arr) [ none ↦ arr | some y ↦ set_elem j x (set_elem i y arr) ]
  ]

  -- Whether the element at a place is smaller than the pivot.
  unfoldable pub is_below : (A → A → Bool) → A → ℕ → List A → Bool
  is_below less pivot i arr = elim (get_elem? i arr) [ none ↦ false | some x ↦ less x pivot ]

  -- The inner loop: the number of places left, the place and the place to store at.
  unfoldable pub partition_loop : (A → A → Bool) → A → ℕ → ℕ → ℕ → List A → List A × ℕ
  partition_loop less pivot zero i store arr = (arr, store)
  partition_loop less pivot (suc n) i store arr =
      let hit = is_below less pivot i arr in
      partition_loop less pivot n (i + 1) (if hit then store + 1 else store)
        (if hit then swap store i arr else arr)

  -- One round of the outer loop: the pivot goes to its place.
  unfoldable pub partition : (A → A → Bool) → ℕ → ℕ → A → List A → List A × ℕ
  partition less lo hi pivot arr =
      let (arr', store) =
        partition_loop less pivot (hi - lo) lo lo (swap (lo + (hi - lo) / 2) hi arr) in
      (swap store hi arr', store)

  -- The outer loop on fuel; `none` means that the fuel ran out.
  unfoldable pub select_loop : ℕ → (A → A → Bool) → ℕ → ℕ → ℕ → List A → Option (List A)
  select_loop zero less k lo hi arr = none
  select_loop (suc fuel) less k lo hi arr = elim (ltb lo hi) [
    | false ↦ some arr
    | true ↦ elim (get_elem? (lo + (hi - lo) / 2) arr) [
      | none ↦ some arr
      | some pivot ↦
          let (arr', store) = partition less lo hi pivot arr in
          elim (ltb store (k - 1)) [
            | true ↦ select_loop fuel less k (store + 1) hi arr'
            | false ↦ elim (ltb (k - 1) store) [
              | true ↦ select_loop fuel less k lo (store - 1) arr'
              | false ↦ some arr'
            ]
          ]
    ]
  ]

  unfoldable pub partial_select : List A → ℕ → (A → A → Bool) → Option (List A)
  partial_select arr k less =
      if k == 0 || leb (length arr) k
      then some arr
      else select_loop (length arr + 1) less k 0 (length arr - 1) arr

-- The comparison of evictLowestFee is negative.
pub is_cheaper : MempoolTx → MempoolTx → Bool
is_cheaper a b =
    if not (a.gas_price == b.gas_price)
    then ltb a.gas_price b.gas_price
    else ltb a.received_at_ms b.received_at_ms

unfoldable pub remove_all : Mempool → List MempoolTx → Mempool
remove_all pool [] = pool
remove_all pool (tx ∷ txs) = remove_all (remove_tx pool tx.hash) txs

unfoldable pub evict_lowest_fee : Mempool → Mempool
evict_lowest_fee pool =
    let all = values pool.txs in
    let count = min pool.cfg.eviction_batch_size (length all) in
    if count == 0 then pool else elim (partial_select all count is_cheaper) [
      | none ↦ pool
      | some arr ↦ remove_all pool (take count arr)
    ]
