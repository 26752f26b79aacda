-- ===== src/RewardTree.antt =====
-- services/common/reward-tree.ts: the tree of the rewards of an epoch. The digest of bytes is a parameter.
pub mod Leaves
pub mod Hashes
pub mod Proofs
pub mod Examples
use coc.Prelude.{
  ℕ, zero, suc, ◌+◌, ◌-◌, ◌/◌, ◌%◌, leb, ltb, if◌then◌else◌, List, [], ◌∷◌, ◌++◌, Text, text,
  text_lt, text_eq, to_lower_case, Option, none, some, drop, take, length, Dict, insert,
}
use coc.Merkle.{hex_pairs, ProofResult, proof, refused, build_merkle_root, build_merkle_proof}
use coc.Relay.{encode_u64, ChannelKey, key_eq}
use coc.Scoring.{EpochRewardResult}

pub record RewardLeaf : Type 0 where
  pub epoch_id : ℕ
  pub node_id : Text
  pub amount : ℕ

pub hex_digit : ℕ → ℕ
hex_digit d = if ltb d 10 then 48 + d else 87 + d

-- The hex digits before the last ones `s`, on fuel.
pub hex_digits : ℕ → ℕ → Text → Text
hex_digits zero n s = s
hex_digits (suc fuel) n s =
    let shown = hex_digit (n % 16) ∷ s in
    let longer = hex_digits fuel (n / 16) shown in if ltb n 16 then shown else longer

-- `amount.toString(16).padStart(64, "0")`
pub zeros_text : ℕ → Text
zeros_text zero = []
zeros_text (suc n) = 48 ∷ zeros_text n

pub amount_hex : ℕ → Text
amount_hex amount =
    let shown = hex_digits (suc amount) amount [] in zeros_text (64 - length shown) ++ shown

-- The copy into a buffer of 32 bytes drops what is beyond them.
pub amount_bytes : ℕ → List ℕ
amount_bytes amount = take 32 (hex_pairs (amount_hex amount))

-- `${epochId}:${nodeId.toLowerCase()}`, as its two parts
pub reward_key : RewardLeaf → ChannelKey
reward_key leaf = (leaf.epoch_id, to_lower_case leaf.node_id)

-- The stable sort by the node's id in lower case.
pub insert_leaf : RewardLeaf → List RewardLeaf → List RewardLeaf
insert_leaf leaf [] = leaf ∷ []
insert_leaf leaf (other ∷ leaves) =
    let rest = insert_leaf leaf leaves in
    if text_lt (to_lower_case other.node_id) (to_lower_case leaf.node_id)
    then other ∷ rest
    else leaf ∷ other ∷ leaves

pub sort_leaves : List RewardLeaf → List RewardLeaf
sort_leaves [] = []
sort_leaves (leaf ∷ leaves) = insert_leaf leaf (sort_leaves leaves)

pub record RewardTree : Type 0 where
  pub root : Option Text
  pub leaf_hashes : List Text
  pub proofs : Dict ChannelKey (List (Option Text))

pub record RewardRoot : Type 0 where
  pub root : Option Text
  pub leaves : List RewardLeaf
  pub proofs : Dict ChannelKey (List (Option Text))

-- `leaves.push` for every reward that is not zero
pub reward_leaves : ℕ → Dict Text ℕ → List RewardLeaf
reward_leaves epoch_id [] = []
reward_leaves epoch_id ((node_id, amount) ∷ rewards) =
    let rest = reward_leaves epoch_id rewards in
    if ltb 0 amount
    then record { epoch_id = epoch_id; node_id = node_id; amount = amount } ∷ rest
    else rest

pub scoring_result_to_reward_leaves : ℕ → EpochRewardResult → List RewardLeaf
scoring_result_to_reward_leaves epoch_id result = reward_leaves epoch_id result.rewards

module _ (keccak256_hex : List ℕ → Text) where
  -- `none` where the epoch is no 64-bit number, for which the write throws.
  pub hash_reward_leaf : RewardLeaf → Option Text
  hash_reward_leaf leaf = elim (encode_u64 leaf.epoch_id) [
    | none ↦ none
    | some epoch ↦ some (
        text "0x"
        ++ keccak256_hex (epoch ++ hex_pairs (drop 2 leaf.node_id) ++ amount_bytes leaf.amount))
  ]

  pub hash_all : List RewardLeaf → Option (List Text)
  hash_all [] = some []
  hash_all (leaf ∷ leaves) =
      let rest = hash_all leaves in
      elim (hash_reward_leaf leaf) [
        | none ↦ none
        | some hash ↦ elim rest [ none ↦ none | some hashes ↦ some (hash ∷ hashes) ]
      ]

  -- The loop over the proofs from a position on, `none` where a proof throws.
  pub set_proofs :
      List Text
      → ℕ
      → List RewardLeaf
      → Dict ChannelKey (List (Option Text))
      → Option (Dict ChannelKey (List (Option Text)))
  set_proofs hashes i [] proofs = some proofs
  set_proofs hashes i (leaf ∷ leaves) proofs = elim (build_merkle_proof keccak256_hex hashes i) [
    | refused err ↦ none
    | proof siblings ↦ set_proofs hashes (suc i) leaves (insert (reward_key leaf) siblings proofs)
  ]

  pub tree_of : List RewardLeaf → Option RewardTree
  tree_of sorted = elim (hash_all sorted) [
    | none ↦ none
    | some hashes ↦ elim (set_proofs hashes 0 sorted []) [
      | none ↦ none
      | some proofs ↦ some record {
        root = build_merkle_root keccak256_hex hashes;
        leaf_hashes = hashes;
        proofs = proofs;
      }
    ]
  ]

  pub build_reward_tree : List RewardLeaf → Option RewardTree
  build_reward_tree [] =
      some record { root = some (text "0x" ++ zeros_text 64); leaf_hashes = []; proofs = [] }
  build_reward_tree (leaf ∷ leaves) = tree_of (sort_leaves (leaf ∷ leaves))

  pub build_reward_root : ℕ → EpochRewardResult → Option RewardRoot
  build_reward_root epoch_id result =
      let leaves = scoring_result_to_reward_leaves epoch_id result in
      elim (build_reward_tree leaves) [
        | none ↦ none
        | some tree ↦ some record { root = tree.root; leaves = leaves; proofs = tree.proofs }
      ]
