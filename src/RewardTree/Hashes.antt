-- ===== src/RewardTree/Hashes.antt =====
-- services/common/reward-tree.ts: the hashes of the leaves, at the places of the leaves.
use coc.Prelude.{
  ◌<◌, ◌^◌, ◌≡◌, ℕ, zero, suc, ◌+◌, arith, List, [], ◌∷◌, Text, some, Option-cases, inl, inr,
  item_at, refl, subst,
}
use coc.Relay.{key_eq, encode_u64, key_eq}
use coc.RewardTree.{RewardLeaf, hash_reward_leaf, hash_all}
use coc.RewardTree.Leaves.{AllEncodable}

module _ (keccak256_hex : List ℕ → Text) where
  -- The hashes of some leaves at the positions from one on.
  unfoldable pub IsHashed : List Text → ℕ → List RewardLeaf → Type 0
  IsHashed hashes i leaves =
      (j : ℕ) (leaf : RewardLeaf)
      → item_at j leaves ≡ some leaf
      → (hash : Text) × ((hash_reward_leaf keccak256_hex leaf ≡ some hash)
          × (item_at (i + j) hashes ≡ some hash))

  hash_all-parts :
      (first : RewardLeaf) (leaves : List RewardLeaf) (hashes : List Text)
      → hash_all keccak256_hex (first ∷ leaves) ≡ some hashes
      → (hash : Text) × (rest : List Text) × ((hash_reward_leaf keccak256_hex first ≡ some hash)
          × ((hash_all keccak256_hex leaves ≡ some rest) × (hashes ≡ hash ∷ rest)))
  unfolding hash_all
  hash_all-parts first leaves hashes h =
      elim (Option-cases (hash_reward_leaf keccak256_hex first)) [
        | inl failed ↦ absurd (ground (arith, h, failed))
        | inr (hash, hashed) ↦ elim (Option-cases (hash_all keccak256_hex leaves)) [
          | inl failed ↦ absurd (ground (arith, h, failed, hashed))
          | inr (rest, found) ↦ (hash, rest, (hashed, (found, ground (arith, h, hashed, found))))
        ]
      ]

  IsHashed-at :
      (first : RewardLeaf) (leaves : List RewardLeaf) (hash : Text) (rest : List Text)
      → hash_reward_leaf keccak256_hex first ≡ some hash
      → IsHashed rest 0 leaves
      → IsHashed (hash ∷ rest) 0 (first ∷ leaves)
  unfolding IsHashed item_at
  IsHashed-at first leaves hash rest hashed h zero leaf at =
      (hash, (ground (arith, at, hashed), refl))
  IsHashed-at first leaves hash rest hashed h (suc j) leaf at =
      let (x, (hx, ax)) = h j leaf at in
      let inner : item_at j rest ≡ some x = subst (λ n. item_at n rest ≡ some x) (omega arith) ax in
      let later : suc j ≡ 0 + suc j = omega arith in
      (x, (hx, subst (λ n. item_at n (hash ∷ rest) ≡ some x) later inner))

  pub hash_all-IsHashed :
      (leaves : List RewardLeaf) (hashes : List Text)
      → hash_all keccak256_hex leaves ≡ some hashes
      → IsHashed hashes 0 leaves
  unfolding hash_all IsHashed item_at
  hash_all-IsHashed [] hashes h j leaf at = absurd (ground (arith, at))
  hash_all-IsHashed (first ∷ leaves) hashes h j leaf at =
      let (hash, rest, (hashed, (found, whole))) = hash_all-parts first leaves hashes h in
      rw whole
        (IsHashed-at first leaves hash rest hashed (hash_all-IsHashed leaves rest found) j leaf at)

  hash_reward_leaf-some :
      (leaf : RewardLeaf)
      → leaf.epoch_id < 2 ^ 64
      → (hash : Text) × (hash_reward_leaf keccak256_hex leaf ≡ some hash)
  unfolding hash_reward_leaf encode_u64
  hash_reward_leaf-some leaf fits = elim (Option-cases (hash_reward_leaf keccak256_hex leaf)) [
    | inl failed ↦ absurd (ground (arith, failed, fits))
    | inr found ↦ found
  ]

  pub hash_all-some :
      (leaves : List RewardLeaf)
      → AllEncodable leaves
      → (hashes : List Text) × (hash_all keccak256_hex leaves ≡ some hashes)
  unfolding hash_all AllEncodable
  hash_all-some [] k = ([], refl)
  hash_all-some (leaf ∷ leaves) k =
      let (hash, hashed) = hash_reward_leaf-some leaf k.0 in
      let (rest, found) = hash_all-some leaves k.1 in
      (hash ∷ rest, rw (hash_all, hashed, found) refl)
