-- ===== src/RewardTree/Leaves.antt =====
-- services/common/reward-tree.ts: the leaves of an epoch and their order.
use coc.Prelude.{
  Bool-cases, text_lt, to_lower_case, ◌↔◌, All-of_items, ◌<◌, ◌^◌, ◌≡◌, ℕ, arith, List, [], ◌∷◌,
  Text, some, inl, inr, Dict, All, item_at,
}
use coc.Relay.{key_eq, key_eq}
use coc.RewardTree.{reward_leaves, insert_leaf, RewardLeaf, sort_leaves}

-- One of some leaves.
unfoldable pub IsAmong : List RewardLeaf → RewardLeaf → Type 0
IsAmong leaves leaf = (j : ℕ) × (item_at j leaves ≡ some leaf)

pub All-IsAmong : (all : List RewardLeaf) → All (IsAmong all) all
unfolding IsAmong
All-IsAmong all = All-of_items (IsAmong all) all (λ j leaf at. (j, at))

insert_leaf-All :
    (P : RewardLeaf → Type 0) (leaf : RewardLeaf) (leaves : List RewardLeaf)
    → All P (insert_leaf leaf leaves) ↔ (P leaf × All P leaves)
unfolding insert_leaf
insert_leaf-All P leaf [] = ((λ h. h), (λ h. h))
insert_leaf-All P leaf (other ∷ leaves) =
    let (there, back) = insert_leaf-All P leaf leaves in
    elim (Bool-cases (text_lt (to_lower_case other.node_id) (to_lower_case leaf.node_id))) [
      | inl less ↦
          rw less ((λ h. ((there h.1).0, (h.0, (there h.1).1))), (λ h. (h.1.0, back (h.0, h.1.1))))
      | inr not_less ↦ rw not_less ((λ h. h), (λ h. h))
    ]

-- The sorted leaves are the same leaves.
pub sort_leaves-All :
    (P : RewardLeaf → Type 0) (leaves : List RewardLeaf) → All P (sort_leaves leaves) ↔ All P leaves
unfolding sort_leaves
sort_leaves-All P [] = ((λ h. h), (λ h. h))
sort_leaves-All P (leaf ∷ leaves) =
    let (there, back) = sort_leaves-All P leaves in
    let (out, into) = insert_leaf-All P leaf (sort_leaves leaves) in
    ((λ h. ((out h).0, there (out h).1)), (λ h. into (h.0, back h.1)))

-- The epochs of the leaves are 64-bit numbers.
unfoldable pub AllEncodable : List RewardLeaf → Type 0
AllEncodable leaves = All (λ leaf. leaf.epoch_id < 2 ^ 64) leaves

pub reward_leaves-AllPaid :
    (epoch_id : ℕ) (rewards : Dict Text ℕ)
    → All (λ leaf. (leaf.epoch_id ≡ epoch_id) × (0 < leaf.amount)) (reward_leaves epoch_id rewards)
unfolding reward_leaves
reward_leaves-AllPaid epoch_id [] = tt
reward_leaves-AllPaid epoch_id ((node_id, amount) ∷ rewards) =
    ground (arith, reward_leaves-AllPaid epoch_id rewards)

pub reward_leaves-AllEncodable :
    (epoch_id : ℕ) (rewards : Dict Text ℕ)
    → epoch_id < 2 ^ 64
    → AllEncodable (reward_leaves epoch_id rewards)
unfolding reward_leaves AllEncodable
reward_leaves-AllEncodable epoch_id [] h = tt
reward_leaves-AllEncodable epoch_id ((node_id, amount) ∷ rewards) h =
    ground (arith, h, reward_leaves-AllEncodable epoch_id rewards h)
