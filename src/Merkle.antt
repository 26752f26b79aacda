-- ===== src/Merkle.antt =====
-- services/common/merkle.ts: the Merkle tree over hex digests with sorted pairs. The digest of bytes is a parameter.
pub mod Proofs
pub mod Examples
use coc.Prelude.{
  item_at, take, drop, text_eq, ℕ, zero, suc, ◌∷◌, [], none, some, List, Option, if◌then◌else◌, ◌/◌,
  ◌++◌, length, ◌+◌, ◌==◌, ◌%◌, ltb, leb, nat_eq, not, ◌-◌, ◌*◌, ◌&&◌, text, Text, text_lt,
}

-- The value of a hex digit, of either case.
unfoldable pub hex_value : ℕ → Option ℕ
hex_value c =
    if leb 48 c && leb c 57
    then some (c - 48)
    else if leb 97 c && leb c 102
    then some (c - 87)
    else if leb 65 c && leb c 70
    then some (c - 55)
    else none

-- `Buffer.from(s, "hex")`: the bytes of the pairs before the first pair that is not hex
unfoldable pub hex_pairs : Text → List ℕ
hex_pairs [] = []
hex_pairs (a ∷ []) = []
hex_pairs (a ∷ b ∷ s) =
    let rest = hex_pairs s in
    elim (hex_value a) [
      | none ↦ []
      | some high ↦ elim (hex_value b) [ none ↦ [] | some low ↦ (high * 16 + low) ∷ rest ]
    ]

-- A leading 0x is left out.
pub hex_to_bytes : Text → List ℕ
hex_to_bytes s = if take 2 s == text "0x" then hex_pairs (drop 2 s) else hex_pairs s

pub sibling_index : ℕ → ℕ
sibling_index cursor = if cursor % 2 == 0 then cursor + 1 else cursor - 1

pub data ProofError : Type 0 where
  empty_leaves invalid_index : ProofError

pub data ProofResult : Type 0 where
  proof : List (Option Text) → ProofResult
  refused : ProofError → ProofResult

module _ (keccak256_hex : List ℕ → Text) where
  pub to_hex32 : Text → Text
  to_hex32 hex = text "0x" ++ hex

  pub parent_hash : Text → Text → Text
  parent_hash left right =
      if not (text_lt right left)
      then to_hex32 (keccak256_hex (hex_to_bytes left ++ hex_to_bytes right))
      else to_hex32 (keccak256_hex (hex_to_bytes right ++ hex_to_bytes left))

  -- The inner loop: the last hash of an odd layer is paired with itself.
  pub next_layer : List Text → List Text
  next_layer [] = []
  next_layer (left ∷ []) = parent_hash left left ∷ []
  next_layer (left ∷ right ∷ rest) = parent_hash left right ∷ next_layer rest

  -- The layers from one on, on fuel.
  pub layers_from : ℕ → List Text → List (List Text)
  layers_from zero layer = layer ∷ []
  layers_from (suc fuel) layer =
      let rest = layers_from fuel (next_layer layer) in
      layer ∷ (if ltb 1 (length layer) then rest else [])

  pub build_merkle_layers : List Text → List (List Text)
  build_merkle_layers leaves = layers_from (length leaves) leaves

  -- `layers.at(-1)![0]`
  pub top : List (List Text) → Option Text
  top [] = none
  top (layer ∷ []) = item_at 0 layer
  top (layer ∷ above ∷ layers) = top (above ∷ layers)

  pub build_merkle_root : List Text → Option Text
  build_merkle_root [] = some (to_hex32 (keccak256_hex []))
  build_merkle_root (leaf ∷ []) = some (parent_hash leaf leaf)
  build_merkle_root (leaf ∷ next ∷ leaves) = top (build_merkle_layers (leaf ∷ next ∷ leaves))

  -- `layer[siblingIndex] ?? layer[cursor]`
  pub sibling : ℕ → List Text → Option Text
  sibling cursor layer = elim (item_at (sibling_index cursor) layer) [
    | some hash ↦ some hash
    | none ↦ item_at cursor layer
  ]

  -- The loop over all layers but the last.
  pub siblings : ℕ → List (List Text) → List (Option Text)
  siblings cursor [] = []
  siblings cursor (layer ∷ []) = []
  siblings cursor (layer ∷ above ∷ layers) =
      sibling cursor layer ∷ siblings (cursor / 2) (above ∷ layers)

  pub build_merkle_proof : List Text → ℕ → ProofResult
  build_merkle_proof [] index = refused empty_leaves
  build_merkle_proof (leaf ∷ leaves) index =
      if leb (length (leaf ∷ leaves)) index
      then refused invalid_index
      else if length (leaf ∷ leaves) == 1
      then proof (some leaf ∷ [])
      else proof (siblings index (build_merkle_layers (leaf ∷ leaves)))
