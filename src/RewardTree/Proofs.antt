-- ===== src/RewardTree/Proofs.antt =====
-- services/common/reward-tree.ts: every proof of the tree leads to its root.
use coc.Prelude.{
  has, get, get-insert, true, ◌<◌, ◌^◌, ◌≡◌, ℕ, suc, arith, List, [], ◌∷◌, Text, Option, some, Dict,
  insert, All, All-insert, item_at, refl, sym, ◌∙◌, subst,
}
use coc.Merkle.{build_merkle_root}
use coc.Merkle.Proofs.{fold_proof, build_merkle_proof-root}
use coc.Relay.{key_beq_iff, key_eq, ChannelKey, key_eq}
use coc.RewardTree.{
  RewardRoot, RewardLeaf, RewardTree, reward_key, hash_reward_leaf, set_proofs, tree_of,
  build_reward_tree, sort_leaves,
}
use coc.RewardTree.Leaves.{IsAmong, AllEncodable, All-IsAmong, sort_leaves-All}
use coc.RewardTree.Hashes.{IsHashed, hash_all-IsHashed, hash_all-some}

module _ (keccak256_hex : List ℕ → Text) where
  -- A proof on file leads from the hash of one of the leaves, which has its key, to the root.
  unfoldable pub LeadsTo : List RewardLeaf → Option Text → ChannelKey × List (Option Text) → Type 0
  LeadsTo all root entry =
      (leaf : RewardLeaf) × (hash : Text) × (IsAmong all leaf
        × ((reward_key leaf ≡ entry.0)
            × ((hash_reward_leaf keccak256_hex leaf ≡ some hash)
                × (fold_proof keccak256_hex entry.1 hash ≡ root))))

  -- A leaf has a proof on file, which leads to the root.
  unfoldable pub IsProved : RewardRoot → RewardLeaf → Type 0
  IsProved out leaf =
      (siblings : List (Option Text)) × ((get (reward_key leaf) out.proofs ≡ some siblings)
        × LeadsTo out.leaves out.root (reward_key leaf, siblings))

  -- The loop files a proof for each leaf, keeps the keys on file, and each proof leads to the root.
  set_proofs-LeadsTo :
      (all : List RewardLeaf) (hashes : List Text) (i : ℕ) (leaves : List RewardLeaf)
      (proofs : Dict ChannelKey (List (Option Text)))
      → IsHashed keccak256_hex hashes i leaves
      → All (IsAmong all) leaves
      → All (LeadsTo all (build_merkle_root keccak256_hex hashes)) proofs
      → (found : Dict ChannelKey (List (Option Text))) × ((set_proofs keccak256_hex hashes i leaves
              proofs
            ≡ some found)
          × (All (λ leaf. has (reward_key leaf) found ≡ true) leaves
              × (((key : ChannelKey) → has key proofs ≡ true → has key found ≡ true)
                  × All (LeadsTo all (build_merkle_root keccak256_hex hashes)) found)))
  unfolding set_proofs IsHashed LeadsTo item_at
  set_proofs-LeadsTo all hashes i [] proofs h among k =
      (proofs, (refl, (tt, ((λ key there. there), k))))
  set_proofs-LeadsTo all hashes i (leaf ∷ leaves) proofs h among k =
      let (hash, (hashed, at)) = h 0 leaf refl in
      let here : item_at i hashes ≡ some hash =
        subst (λ n. item_at n hashes ≡ some hash) (omega arith) at in
      let (siblings, root, (made, (followed, rooted))) =
        build_merkle_proof-root keccak256_hex hashes i hash here in
      let key = reward_key leaf in
      let (found, (done, (filed, (kept, leads)))) =
        set_proofs-LeadsTo all hashes (suc i) leaves (insert key siblings proofs)
          (λ j other there.
            let (x, (hx, ax)) = h (suc j) other there in
            (x, (hx, subst (λ n. item_at n hashes ≡ some x) (omega arith) ax)))
          among.1
          (All-insert _ key siblings proofs
            (leaf, hash, (among.0, (refl, (hashed, followed ∙ sym rooted)))) k) in
      let own : has key (insert key siblings proofs) ≡ true =
        ground (arith, get-insert key key siblings proofs, key_beq_iff key key) in
      (
        found,
        (
          rw (set_proofs, made) done,
          (
            (kept key own, filed),
            (
              (λ other there. kept other (ground (arith, get-insert key other siblings proofs))),
              leads,
            ),
          ),
        ),
      )

  tree_of-LeadsTo :
      (all sorted : List RewardLeaf)
      → AllEncodable sorted
      → All (IsAmong all) sorted
      → (tree : RewardTree) × ((tree_of keccak256_hex sorted ≡ some tree)
          × (All (λ leaf. has (reward_key leaf) tree.proofs ≡ true) sorted
              × All (LeadsTo all tree.root) tree.proofs))
  unfolding tree_of
  tree_of-LeadsTo all sorted k among =
      let (hashes, hashed) = hash_all-some keccak256_hex sorted k in
      let (proofs, (set, (filed, (_, leads)))) =
        set_proofs-LeadsTo all hashes 0 sorted []
          (hash_all-IsHashed keccak256_hex sorted hashes hashed) among tt in
      (
        record {
          root = build_merkle_root keccak256_hex hashes;
          leaf_hashes = hashes;
          proofs = proofs;
        },
        (rw (tree_of, hashed, set) refl, (filed, leads)),
      )

  pub build_reward_tree-LeadsTo :
      (leaves : List RewardLeaf)
      → AllEncodable leaves
      → (tree : RewardTree) × ((build_reward_tree keccak256_hex leaves ≡ some tree)
          × (All (λ leaf. has (reward_key leaf) tree.proofs ≡ true) leaves
              × All (LeadsTo leaves tree.root) tree.proofs))
  unfolding build_reward_tree AllEncodable
  build_reward_tree-LeadsTo [] k = (_, (refl, (tt, tt)))
  build_reward_tree-LeadsTo (leaf ∷ leaves) k =
      let all = leaf ∷ leaves in
      let (tree, (built, (filed, leads))) =
        tree_of-LeadsTo all (sort_leaves all) ((sort_leaves-All (λ l. l.epoch_id < 2 ^ 64) all).1 k)
          ((sort_leaves-All (IsAmong all) all).1 (All-IsAmong all)) in
      (
        tree,
        (
          built,
          ((sort_leaves-All (λ l. has (reward_key l) tree.proofs ≡ true) all).0 filed, leads),
        ),
      )
