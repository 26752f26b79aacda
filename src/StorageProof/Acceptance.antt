-- ===== src/StorageProof/Acceptance.antt =====
-- runtime/coc-agent.ts, verifyStorageProof: what is accepted as a proof of storage.
use coc.Prelude.{
  ◌≡◌, ℕ, arith, leb, true, false, List, [], ◌∷◌, Text, text_eq, text_beq, text_beq_iff, some,
  length, item_at, refl,
}
use coc.Merkle.Proofs.{item_at-lt}
use coc.StorageProof.{
  StorageProof, starts_0x, root_differs, merkle_root, merkle_path, path_loop, get_proof,
  follow_path, compute_merkle_root, verify_storage_proof,
}
use coc.StorageProof.Paths.{Leads, path_loop-Leads}

starts_0x-nonempty : (s : Text) → starts_0x s ≡ true → text_beq s [] ≡ false
unfolding starts_0x text_beq
starts_0x-nonempty [] h = absurd (ground arith)
starts_0x-nonempty (c ∷ s) h = refl

root_differs_same : (root : Text) → root_differs (some root) root ≡ false
unfolding root_differs
root_differs_same root = ground (arith, text_beq_iff root root)

module _ (keccak256_hex : List ℕ → Text) where
  accepted_by :
      (root : Text) (receipt : StorageProof)
      → starts_0x receipt.leaf_hash ≡ true
      → starts_0x root ≡ true
      → receipt.merkle_root ≡ root
      → compute_merkle_root keccak256_hex receipt.leaf_hash receipt.merkle_path receipt.chunk_index
        ≡ root
      → verify_storage_proof keccak256_hex (some root) receipt ≡ true
  unfolding verify_storage_proof
  accepted_by root receipt h k e c =
      rw (h, e, k, root_differs_same root, c, (text_beq_iff root root).1 refl) refl

  get_proof-found :
      (first : Text) (leaves : List Text) (index : ℕ) (leaf root : Text)
      → item_at index (first ∷ leaves) ≡ some leaf
      → starts_0x leaf ≡ true
      → get_proof keccak256_hex (first ∷ leaves) root index
        ≡ some record {
          chunk_index = index;
          leaf_hash = leaf;
          merkle_root = root;
          merkle_path = path_loop keccak256_hex (length (first ∷ leaves)) index [] (first ∷ leaves);
        }
  unfolding get_proof merkle_path
  get_proof-found first leaves index leaf root h z =
      let inside : leb (length (first ∷ leaves)) index ≡ false =
        ground (arith, item_at-lt index (first ∷ leaves) leaf h) in
      let written = starts_0x-nonempty leaf z in rw (get_proof, h, inside, written) refl

  -- The proof that a node gets for a chunk of a file is accepted for the root of that file, where the leaf is written
  -- with 0x.
  pub get_proof-verify_storage_proof :
      (leaves : List Text) (index : ℕ) (leaf : Text)
      → item_at index leaves ≡ some leaf
      → starts_0x leaf ≡ true
      → (root : Text) × (receipt : StorageProof) × ((merkle_root keccak256_hex leaves ≡ some root)
          × ((get_proof keccak256_hex leaves root index ≡ some receipt)
              × (verify_storage_proof keccak256_hex (some root) receipt ≡ true)))
  unfolding get_proof merkle_root merkle_path compute_merkle_root Leads follow_path
  get_proof-verify_storage_proof [] index leaf h z =
      absurd (omega (arith, item_at-lt index [] leaf h))
  get_proof-verify_storage_proof (first ∷ leaves) index leaf h z =
      let all = first ∷ leaves in
      let path = path_loop keccak256_hex (length all) index [] all in
      let (root, (followed, (rooted, prefixed))) =
        path_loop-Leads keccak256_hex (length all) index [] all (leaf, index) leaf refl h
          (omega arith) z in
      let receipt : StorageProof = record {
        chunk_index = index;
        leaf_hash = leaf;
        merkle_root = root;
        merkle_path = path;
      } in
      (
        root,
        receipt,
        (
          rooted,
          (
            get_proof-found first leaves index leaf root h z,
            accepted_by root receipt z prefixed refl followed,
          ),
        ),
      )

  -- The root itself, with an empty path and any index, is accepted as a proof of storage for that root.
  pub verify_storage_proof_accepts_root :
      (root : Text) (chunk_index : ℕ)
      → starts_0x root ≡ true
      → verify_storage_proof keccak256_hex (some root) record {
        chunk_index = chunk_index;
        leaf_hash = root;
        merkle_root = root;
        merkle_path = [];
      }
        ≡ true
  unfolding compute_merkle_root follow_path
  verify_storage_proof_accepts_root root chunk_index z =
      accepted_by root
        record { chunk_index = chunk_index; leaf_hash = root; merkle_root = root; merkle_path = [] }
        z z refl refl
