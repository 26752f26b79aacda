-- ===== src/StorageProof/Examples.antt =====
-- The theorems on storage proofs at three leaves, with a concrete function for the digest.
use coc.Prelude.{
  ◌≡◌, ℕ, ◌∷◌, [], some, true, List, refl, Text, text, item_at, ◌+◌, ◌%◌, length, text_beq,
}
use coc.StorageProof.{StorageProof, starts_0x, merkle_root, get_proof, verify_storage_proof}
use coc.StorageProof.Acceptance.{get_proof-verify_storage_proof, verify_storage_proof_accepts_root}

-- One hex letter by the number of bytes.
abbrev short_digest : List ℕ → Text
short_digest bytes = (97 + length bytes % 6) ∷ []

abbrev three_leaves : List Text
three_leaves = text "0xab" ∷ text "0x01" ∷ text "0xcdef" ∷ []

last_leaf : item_at 2 three_leaves ≡ some (text "0xcdef")
unfolding item_at
last_leaf = refl

last_leaf_starts_0x : starts_0x (text "0xcdef") ≡ true
unfolding starts_0x text_beq
last_leaf_starts_0x = refl

get_proof-verify_storage_proof_example :
    (root : Text) × (receipt : StorageProof) × ((merkle_root short_digest three_leaves ≡ some root)
      × ((get_proof short_digest three_leaves root 2 ≡ some receipt)
          × (verify_storage_proof short_digest (some root) receipt ≡ true)))
get_proof-verify_storage_proof_example =
    get_proof-verify_storage_proof short_digest three_leaves 2 (text "0xcdef") last_leaf
      last_leaf_starts_0x

verify_storage_proof_accepts_root_example :
    verify_storage_proof short_digest (some (text "0xcdef")) record {
      chunk_index = 4;
      leaf_hash = text "0xcdef";
      merkle_root = text "0xcdef";
      merkle_path = [];
    }
    ≡ true
verify_storage_proof_accepts_root_example =
    verify_storage_proof_accepts_root short_digest (text "0xcdef") 4 last_leaf_starts_0x
