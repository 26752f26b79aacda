-- ===== src/Mempool/Eviction/Returns.antt =====
-- node/src/mempool.ts, partialSelect: the loop ends.
use coc.Prelude.{
  Option, Bool, List, ℕ, ◌≤◌, ◌≡◌, ◌<◌, ◌+◌, ◌-◌, some, arith, Bool-cases, ◌/◌, ◌==◌, suc, ltb,
  ◌||◌, if◌then◌else◌, leb, inr, length, inl, zero, Option-cases, nat_eq, refl, ltb→lt,
}
use coc.Mempool.Eviction.{
  partition_loop, partition, select_loop, partial_select, swap, is_below, get_elem?,
}

partition_loop-store {ℓ} :
    {A : Type ℓ} (less : A → A → Bool) (pivot : A) (n i store : ℕ) (arr : List A)
    → (store ≤ (partition_loop less pivot n i store arr).1)
      × ((partition_loop less pivot n i store arr).1 ≤ store + n)
unfolding partition_loop
partition_loop-store less pivot zero i store arr = (omega arith, omega arith)
partition_loop-store less pivot (suc n) i store arr =
    let hit = is_below less pivot i arr in
    let next : ℕ = if hit then store + 1 else store in
    let (low, high) =
      partition_loop-store less pivot n (i + 1) next (if hit then swap store i arr else arr) in
    let step : (store ≤ next) × (next ≤ store + 1) = ground arith in
    (omega (arith, low, step), omega (arith, high, step))

partition-store {ℓ} :
    {A : Type ℓ} (less : A → A → Bool) (lo hi : ℕ) (pivot : A) (arr : List A)
    → lo ≤ hi
    → (lo ≤ (partition less lo hi pivot arr).1) × ((partition less lo hi pivot arr).1 ≤ hi)
unfolding partition
partition-store less lo hi pivot arr h =
    let (low, high) =
      partition_loop-store less pivot (hi - lo) lo lo (swap (lo + (hi - lo) / 2) hi arr) in
    (low, omega (arith, high))

abbrev Returns {ℓ} : {A : Type ℓ} → Option (List A) → Type ℓ
Returns {A = A} o = (arr : List A) × (o ≡ some arr)

select_loop-Returns {ℓ} :
    {A : Type ℓ} (fuel : ℕ) (less : A → A → Bool) (k lo hi : ℕ) (arr : List A)
    → hi < lo + fuel
    → 0 < fuel
    → Returns (select_loop fuel less k lo hi arr)
unfolding select_loop
select_loop-Returns zero less k lo hi arr h p = absurd (omega arith)
select_loop-Returns (suc fuel) less k lo hi arr h p = elim (Bool-cases (ltb lo hi)) [
  | inr done ↦ (arr, rw (done, select_loop) refl)
  | inl more ↦ elim (Option-cases (get_elem? (lo + (hi - lo) / 2) arr)) [
    | inl outside ↦ (arr, rw (more, outside, select_loop) refl)
    | inr (pivot, found) ↦
        let arr' = (partition less lo hi pivot arr).0 in
        let store = (partition less lo hi pivot arr).1 in
        let (low, high) = partition-store less lo hi pivot arr (ground arith) in
        let below : lo < hi = ltb→lt lo hi more in
        elim (Bool-cases (ltb store (k - 1))) [
          | inl right ↦
              rw (more, found, right, select_loop)
                (select_loop-Returns fuel less k (store + 1) hi arr' (omega arith) (omega arith))
          | inr left ↦ elim (Bool-cases (ltb (k - 1) store)) [
            | inl over ↦
                rw (more, found, left, over, select_loop)
                  (select_loop-Returns fuel less k lo (store - 1) arr' (omega arith) (omega arith))
            | inr there ↦ (arr', rw (more, found, left, there, select_loop) refl)
          ]
        ]
  ]
]

-- The quickselect always comes back: its fuel, one more than the length of the array, is enough.
pub partial_select_returns {ℓ} :
    {A : Type ℓ} (arr : List A) (k : ℕ) (less : A → A → Bool)
    → (arr' : List A) × (partial_select arr k less ≡ some arr')
unfolding partial_select
partial_select_returns arr k less = elim (Bool-cases (k == 0 || leb (length arr) k)) [
  | inl all ↦ (arr, rw all refl)
  | inr part ↦ rw part (
      select_loop-Returns (length arr + 1) less k 0 (length arr - 1) arr (omega arith)
        (omega arith))
]
