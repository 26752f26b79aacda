-- ===== src/StorageProof.antt =====
-- node/src/ipfs-merkle.ts, getProof of node/src/ipfs-unixfs.ts, and the check of a storage proof in
-- runtime/coc-agent.ts. The digest of bytes is a parameter.
pub mod Paths
pub mod Acceptance
pub mod Examples
use coc.Prelude.{
  ℕ, zero, suc, ◌+◌, ◌/◌, ◌%◌, ◌==◌, nat_eq, text_eq, leb, ltb, Bool, true, false, not, ◌&&◌, ◌||◌,
  if◌then◌else◌, List, [], ◌∷◌, ◌++◌, Text, text, Option, none, some, drop, take, length, item_at,
}
use coc.Merkle.{hex_pairs}

-- What a node answers to a storage challenge.
pub record StorageProof : Type 0 where
  pub chunk_index : ℕ
  pub leaf_hash : Text
  pub merkle_root : Text
  pub merkle_path : List Text

unfoldable pub starts_0x : Text → Bool
starts_0x s = take 2 s == text "0x"

-- `expectedRoot && expectedRoot !== root`: a missing or an empty root in the challenge is not compared.
pub root_differs : Option Text → Text → Bool
root_differs none root = false
root_differs (some expected) root = not (expected == []) && not (expected == root)

abbrev pub zero_hash : Text
zero_hash = text "0x0000000000000000000000000000000000000000000000000000000000000000"

module _ (keccak256_hex : List ℕ → Text) where
  pub hash_leaf : List ℕ → Text
  hash_leaf bytes = text "0x" ++ keccak256_hex (0 ∷ bytes)

  pub hash_pair : Text → Text → Text
  hash_pair left right =
      text "0x" ++ keccak256_hex (1 ∷ hex_pairs (drop 2 left) ++ hex_pairs (drop 2 right))

  -- The inner loop of buildMerkleRoot.
  pub next_level : List Text → List Text
  next_level [] = []
  next_level (left ∷ []) = hash_pair left left ∷ []
  next_level (left ∷ right ∷ rest) = hash_pair left right ∷ next_level rest

  -- The outer loop, on fuel, and `level[0]`.
  pub root_of_level : ℕ → List Text → Option Text
  root_of_level zero level = item_at 0 level
  root_of_level (suc fuel) level =
      let above = root_of_level fuel (next_level level) in
      if ltb 1 (length level) then above else item_at 0 level

  pub merkle_root : List Text → Option Text
  merkle_root [] = some zero_hash
  merkle_root (leaf ∷ leaves) = root_of_level (length (leaf ∷ leaves)) (leaf ∷ leaves)

  -- The inner loop of buildMerklePath from position i on: the next level, the path and the index, of which the last
  -- two change where the index is one of the pair's.
  pub path_level : ℕ → ℕ → List Text → List Text → List Text × List Text × ℕ
  path_level i idx path [] = ([], path, idx)
  path_level i idx path (left ∷ []) =
      if (i == idx) || (i + 1 == idx)
      then (hash_pair left left ∷ [], path ++ left ∷ [], i / 2)
      else (hash_pair left left ∷ [], path, idx)
  path_level i idx path (left ∷ right ∷ rest) =
      let hit = (i == idx) || (i + 1 == idx) in
      let sibling = if i == idx then right else left in
      let after =
        path_level (i + 2) (if hit then i / 2 else idx) (if hit then path ++ sibling ∷ [] else path)
          rest in
      (hash_pair left right ∷ after.0, after.1, after.2)

  -- The outer loop of buildMerklePath, on fuel.
  pub path_loop : ℕ → ℕ → List Text → List Text → List Text
  path_loop zero idx path level = path
  path_loop (suc fuel) idx path level =
      let after = path_level 0 idx path level in
      let rest = path_loop fuel after.2 after.1 after.0 in
      if ltb 1 (length level) then rest else path

  -- `none` is the thrown error on an index out of bounds.
  pub merkle_path : List Text → ℕ → Option (List Text)
  merkle_path [] index = some []
  merkle_path (leaf ∷ leaves) index =
      if leb (length (leaf ∷ leaves)) index
      then none
      else some (path_loop (length (leaf ∷ leaves)) index [] (leaf ∷ leaves))

  -- The proof of a chunk; an empty leaf hash is refused like a missing one.
  pub get_proof : List Text → Text → ℕ → Option StorageProof
  get_proof leaves root chunk_index = elim (item_at chunk_index leaves) [
    | none ↦ none
    | some leaf ↦ elim (merkle_path leaves chunk_index) [
      | none ↦ none
      | some path ↦
          if leaf == []
          then none
          else some record {
            chunk_index = chunk_index;
            leaf_hash = leaf;
            merkle_root = root;
            merkle_path = path;
          }
    ]
  ]

  -- The loop of computeMerkleRoot: the hash and the index.
  pub follow_path : List Text → Text × ℕ → Text × ℕ
  follow_path [] (hash, idx) = (hash, idx)
  follow_path (sibling ∷ path) (hash, idx) =
      follow_path path
        ((if idx % 2 == 0 then hash_pair hash sibling else hash_pair sibling hash), idx / 2)

  pub compute_merkle_root : Text → List Text → ℕ → Text
  compute_merkle_root leaf_hash path chunk_index = (follow_path path (leaf_hash, chunk_index)).0

  pub verify_storage_proof : Option Text → StorageProof → Bool
  verify_storage_proof expected_root receipt =
      if not (starts_0x receipt.leaf_hash)
      then false
      else if not (starts_0x receipt.merkle_root)
      then false
      else if root_differs expected_root receipt.merkle_root
      then false
      else compute_merkle_root receipt.leaf_hash receipt.merkle_path receipt.chunk_index
        == receipt.merkle_root
