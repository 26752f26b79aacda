-- ===== src/Merkle/Examples.antt =====
-- The theorem on Merkle proofs at three leaves, with a concrete function for the digest.
use coc.Prelude.{item_at, ◌≡◌, ℕ, ◌∷◌, [], some, List, Option, refl, ◌+◌, ◌%◌, length, Text, text}
use coc.Merkle.{proof, build_merkle_proof, build_merkle_root}
use coc.Merkle.Proofs.{fold_proof, build_merkle_proof-root}

-- One hex letter by the number of bytes.
abbrev digest : List ℕ → Text
digest bytes = (97 + length bytes % 6) ∷ []

abbrev three_leaves : List Text
three_leaves = text "0xab" ∷ text "0x01" ∷ text "0xcdef" ∷ []

third_leaf : item_at 2 three_leaves ≡ some (text "0xcdef")
unfolding item_at
third_leaf = refl

build_merkle_proof-root_example :
    (siblings_found : List (Option Text)) × (root : Text) × ((build_merkle_proof digest three_leaves
          2
        ≡ proof siblings_found)
      × ((fold_proof digest siblings_found (text "0xcdef") ≡ some root)
          × (build_merkle_root digest three_leaves ≡ some root)))
build_merkle_proof-root_example =
    build_merkle_proof-root digest three_leaves 2 (text "0xcdef") third_leaf
