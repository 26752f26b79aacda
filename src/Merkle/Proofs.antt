-- ===== src/Merkle/Proofs.antt =====
-- services/common/merkle.ts: buildMerkleProof against buildMerkleRoot.
use coc.Prelude.{
  item_at, ◌≡◌, ℕ, zero, suc, ◌∷◌, [], none, some, List, Option, arith, ◌≤◌, ◌<◌, length, refl, ◌+◌,
  ◌/◌, sym, ap, ◌∙◌, Bool-cases, inl, inr, ltb, Text, text_lt, text_lt_asymm, text_lt_connected,
  false, leb, nat_beq, ◌⊎◌,
}
use coc.Merkle.{
  proof, parent_hash, next_layer, layers_from, build_merkle_layers, top, build_merkle_root, sibling,
  siblings, build_merkle_proof, sibling_index, refused, empty_leaves, invalid_index,
}

pub item_at-lt : {A : Type 0} (i : ℕ) (xs : List A) (x : A) → item_at i xs ≡ some x → i < length xs
unfolding item_at
item_at-lt i [] x h = absurd (ground arith)
item_at-lt zero (y ∷ xs) x h = omega arith
item_at-lt (suc i) (y ∷ xs) x h = omega (arith, item_at-lt i xs x h)

sibling_index-suc-suc :
    (cursor : ℕ) → sibling_index (suc (suc cursor)) ≡ suc (suc (sibling_index cursor))
unfolding sibling_index
sibling_index-suc-suc cursor = ground arith

module _ (keccak256_hex : List ℕ → Text) where
  -- The order of the pair does not matter to its hash.
  pub parent_hash_comm :
      (left right : Text)
      → parent_hash keccak256_hex left right ≡ parent_hash keccak256_hex right left
  unfolding parent_hash
  parent_hash_comm left right = elim (Bool-cases (text_lt right left)) [
    | inl h ↦ rw (h, text_lt_asymm right left h) refl
    | inr h ↦ elim (Bool-cases (text_lt left right)) [
      | inl k ↦ rw (h, k) refl
      | inr k ↦ rw (text_lt_connected left right k h) refl
    ]
  ]

  -- What a verifier computes from a hash and its proof: the hash is combined with each sibling in turn.
  unfoldable pub fold_proof : List (Option Text) → Text → Option Text
  fold_proof [] hash = some hash
  fold_proof (none ∷ siblings_left) hash = none
  fold_proof (some other ∷ siblings_left) hash =
      fold_proof siblings_left (parent_hash keccak256_hex hash other)

  sibling-suc-suc :
      (cursor : ℕ) (x y : Text) (layer : List Text)
      → sibling keccak256_hex (suc (suc cursor)) (x ∷ y ∷ layer)
        ≡ sibling keccak256_hex cursor layer
  unfolding sibling item_at
  sibling-suc-suc cursor x y layer = rw (sibling, sibling_index-suc-suc cursor) refl

  -- A hash and its sibling have their parent in the next layer, at half the position.
  sibling-next_layer :
      (cursor : ℕ) (layer : List Text) (hash : Text)
      → item_at cursor layer ≡ some hash
      → (other : Text) × ((sibling keccak256_hex cursor layer ≡ some other)
          × (item_at (cursor / 2) (next_layer keccak256_hex layer)
              ≡ some (parent_hash keccak256_hex hash other)))
  unfolding sibling sibling_index next_layer item_at
  sibling-next_layer cursor [] hash h = absurd (ground arith)
  sibling-next_layer zero (x ∷ []) hash h =
      let same : x ≡ hash = ground arith in
      (hash, (h, ap (λ w. some (parent_hash keccak256_hex w w)) same))
  sibling-next_layer zero (x ∷ y ∷ layer) hash h =
      let same : x ≡ hash = ground arith in
      (y, (refl, ap (λ w. some (parent_hash keccak256_hex w y)) same))
  sibling-next_layer (suc cursor) (x ∷ []) hash h = absurd (ground arith)
  sibling-next_layer (suc zero) (x ∷ y ∷ layer) hash h =
      let same : y ≡ hash = ground arith in
      (
        x,
        (
          refl,
          ap some (parent_hash_comm x y) ∙ ap (λ w. some (parent_hash keccak256_hex w x)) same,
        ),
      )
  sibling-next_layer (suc (suc cursor)) (x ∷ y ∷ layer) hash h =
      let (other, (beside, above)) = sibling-next_layer cursor layer hash h in
      let half : suc (suc cursor) / 2 ≡ suc (cursor / 2) = omega arith in
      (other, (sibling-suc-suc cursor x y layer ∙ beside, rw half above))

  length-next_layer :
      (layer : List Text) → length (next_layer keccak256_hex layer) ≡ (length layer + 1) / 2
  unfolding next_layer
  length-next_layer [] = refl
  length-next_layer (x ∷ []) = refl
  length-next_layer (x ∷ y ∷ layer) = omega (arith, length-next_layer layer)

  top-layers_from :
      (fuel : ℕ) (layer above : List Text)
      → top keccak256_hex (layer ∷ layers_from keccak256_hex fuel above)
        ≡ top keccak256_hex (layers_from keccak256_hex fuel above)
  unfolding top layers_from
  top-layers_from zero layer above = refl
  top-layers_from (suc fuel) layer above = refl

  siblings-layers_from :
      (cursor fuel : ℕ) (layer above : List Text)
      → siblings keccak256_hex cursor (layer ∷ layers_from keccak256_hex fuel above)
        ≡ sibling keccak256_hex cursor layer
          ∷ siblings keccak256_hex (cursor / 2) (layers_from keccak256_hex fuel above)
  unfolding siblings layers_from
  siblings-layers_from cursor zero layer above = refl
  siblings-layers_from cursor (suc fuel) layer above = refl

  -- Where the proof leads from a hash, along the layers.
  pub Leads : ℕ → Text → List (List Text) → Type 0
  Leads cursor hash layers =
      (root : Text) × ((fold_proof (siblings keccak256_hex cursor layers) hash ≡ some root)
        × (top keccak256_hex layers ≡ some root))

  single-Leads :
      (cursor : ℕ) (layer : List Text) (hash : Text)
      → item_at cursor layer ≡ some hash
      → length layer ≤ 1
      → Leads cursor hash (layer ∷ [])
  unfolding Leads siblings top fold_proof item_at
  single-Leads cursor [] hash h k = absurd (ground arith)
  single-Leads zero (x ∷ []) hash h k = (hash, (refl, h))
  single-Leads (suc cursor) (x ∷ []) hash h k = absurd (ground arith)
  single-Leads cursor (x ∷ y ∷ layer) hash h k = absurd (omega arith)

  layers_from-Leads :
      (fuel cursor : ℕ) (layer : List Text) (hash : Text)
      → item_at cursor layer ≡ some hash
      → length layer ≤ suc fuel
      → Leads cursor hash (layers_from keccak256_hex fuel layer)
  unfolding layers_from Leads fold_proof
  layers_from-Leads zero cursor layer hash h k = single-Leads cursor layer hash h k
  layers_from-Leads (suc fuel) cursor layer hash h k = elim (Bool-cases (ltb 1 (length layer))) [
    | inr one ↦ rw one (single-Leads cursor layer hash h (ground arith))
    | inl more ↦
        let (other, (beside, above)) = sibling-next_layer cursor layer hash h in
        let next = next_layer keccak256_hex layer in
        let half = length-next_layer layer in
        let (root, (climbed, found)) =
          layers_from-Leads fuel (cursor / 2) next (parent_hash keccak256_hex hash other) above
            (omega (arith, half)) in
        rw more (
          root,
          (
            rw (siblings-layers_from cursor fuel layer next, beside) climbed,
            top-layers_from fuel layer next ∙ found,
          ),
        )
  ]

  -- For every position of a leaf build_merkle_proof returns a proof, and following it from the leaf gives
  -- the root that build_merkle_root returns, for every digest function.
  pub build_merkle_proof-root :
      (leaves : List Text) (index : ℕ) (leaf : Text)
      → item_at index leaves ≡ some leaf
      → (siblings_found : List (Option Text)) × (root : Text) × ((build_merkle_proof keccak256_hex
              leaves index
            ≡ proof siblings_found)
          × ((fold_proof siblings_found leaf ≡ some root)
              × (build_merkle_root keccak256_hex leaves ≡ some root)))
  unfolding build_merkle_proof build_merkle_root build_merkle_layers fold_proof Leads item_at
  build_merkle_proof-root [] index leaf h = absurd (omega (arith, item_at-lt index [] leaf h))
  build_merkle_proof-root (only ∷ []) (suc index) leaf h =
      absurd (omega (arith, item_at-lt (suc index) (only ∷ []) leaf h))
  build_merkle_proof-root (only ∷ []) zero leaf h =
      let same : only ≡ leaf = ground arith in
      (
        some only ∷ [],
        parent_hash keccak256_hex only only,
        (refl, (ap (λ w. some (parent_hash keccak256_hex w only)) (sym same), refl)),
      )
  build_merkle_proof-root (first ∷ second ∷ leaves) index leaf h =
      let all = first ∷ second ∷ leaves in
      let inside : leb (length all) index ≡ false = ground (arith, item_at-lt index all leaf h) in
      let several : nat_beq (length all) 1 ≡ false = ground arith in
      let (root, (followed, found)) =
        layers_from-Leads (length all) index all leaf h (omega arith) in
      (
        siblings keccak256_hex index (layers_from keccak256_hex (length all) all),
        root,
        (rw (inside, several) refl, (followed, found)),
      )

  -- A position past the leaves, and a list with no leaf, are refused.
  pub build_merkle_proof-refused :
      (leaves : List Text) (index : ℕ)
      → length leaves ≤ index
      → (build_merkle_proof keccak256_hex leaves index ≡ refused empty_leaves)
        ⊎ (build_merkle_proof keccak256_hex leaves index ≡ refused invalid_index)
  unfolding build_merkle_proof
  build_merkle_proof-refused [] index h = inl refl
  build_merkle_proof-refused (leaf ∷ leaves) index h = inr (ground arith)
