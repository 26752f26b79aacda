-- ===== src/Mempool/Queries/PendingNonce.antt =====
-- node/src/mempool.ts, getPendingNonce: the first nonce from the one on chain on that is not pending.
use coc.Mempool.{Mempool}
use coc.Mempool.Queries.{next_free, get_pending_nonce, nonces_of}
use coc.Prelude.{
  ℕ, contains, List, [], ◌≤◌, ◌+◌, ◌≡◌, Option, ◌<◌, ◌∷◌, if◌then◌else◌, length, arith, true, some,
  Text, suc, leb, false, Bool-cases, zero, nat_eq, All, inr, inl, refl,
}

-- The numbers from one on, so many of them.
pub range : ℕ → ℕ → List ℕ
range from zero = []
range from (suc n) = from ∷ range (from + 1) n

-- How many entries are no smaller.
count_from : ℕ → List ℕ → ℕ
count_from k [] = 0
count_from k (x ∷ xs) = (if leb k x then 1 else 0) + count_from k xs

count_from-le : (k : ℕ) (xs : List ℕ) → count_from k xs ≤ length xs
unfolding count_from
count_from-le k [] = omega arith
count_from-le k (x ∷ xs) = ground (arith, count_from-le k xs)

count_from-next : (k : ℕ) (xs : List ℕ) → count_from (k + 1) xs ≤ count_from k xs
unfolding count_from
count_from-next k [] = omega arith
count_from-next k (x ∷ xs) = ground (arith, count_from-next k xs)

count_from-contains :
    (k : ℕ) (xs : List ℕ) → contains k xs ≡ true → count_from (k + 1) xs < count_from k xs
unfolding count_from contains
count_from-contains k [] h = ground arith
count_from-contains k (x ∷ xs) h = ground (arith, count_from-contains k xs, count_from-next k xs)

-- The first free number: it is free, and all those before it are taken.
abbrev pub IsFirstFree : List ℕ → ℕ → Option ℕ → Type 0
IsFirstFree nonces next o =
    (n free : ℕ) × (o ≡ some free)
    × (free ≡ next + n)
    × (contains free nonces ≡ false)
    × All (λ k. contains k nonces ≡ true) (range next n)

next_free-IsFirstFree :
    (fuel : ℕ) (nonces : List ℕ) (next : ℕ)
    → count_from next nonces < fuel
    → IsFirstFree nonces next (next_free fuel nonces next)
unfolding next_free range
next_free-IsFirstFree zero nonces next h = absurd (omega arith)
next_free-IsFirstFree (suc fuel) nonces next h = elim (Bool-cases (contains next nonces)) [
  | inr unused ↦ (0, next, rw (unused, next_free) refl, omega arith, unused, tt)
  | inl taken ↦
      let (n, free, found, sum, unused, before) =
        next_free-IsFirstFree fuel nonces (next + 1)
          (omega (arith, count_from-contains next nonces taken)) in
      (suc n, free, rw (taken, next_free) found, omega (arith, sum), unused, (taken, before))
]

-- The loop comes back, with the first nonce from the one on chain on that the sender has no
-- transaction for; all the nonces before it are pending.
pub get_pending_nonce_returns :
    (pool : Mempool) (from : Text) (onchain_nonce : ℕ)
    → IsFirstFree (nonces_of pool from) onchain_nonce (get_pending_nonce pool from onchain_nonce)
unfolding get_pending_nonce
get_pending_nonce_returns pool from onchain_nonce =
    let nonces = nonces_of pool from in
    next_free-IsFirstFree (length nonces + 1) nonces onchain_nonce
      (omega (arith, count_from-le onchain_nonce nonces))
