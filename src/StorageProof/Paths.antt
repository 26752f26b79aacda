-- ===== src/StorageProof/Paths.antt =====
-- node/src/ipfs-merkle.ts and runtime/coc-agent.ts: following the path of a leaf gives the root.
use coc.Prelude.{
  ◌≡◌, ℕ, zero, suc, ◌+◌, ◌/◌, ◌%◌, ◌<◌, ◌==◌, nat_beq, arith, true, false, if◌then◌else◌, ◌||◌,
  List, [], ◌∷◌, ◌++◌, Text, text_beq, some, item_at, refl, Bool-cases, inl, inr, nat_eq, subst,
  length, ◌≤◌, ap, ltb, ◌∙◌,
}
use coc.StorageProof.{
  starts_0x, hash_pair, next_level, path_level, follow_path, root_of_level, path_loop,
}

module _ (keccak256_hex : List ℕ → Text) where
  -- A hash and its sibling in the order of their positions.
  unfoldable pub paired : ℕ → Text → Text → Text
  paired idx hash sibling =
      if idx % 2 == 0
      then hash_pair keccak256_hex hash sibling
      else hash_pair keccak256_hex sibling hash

  paired-starts_0x : (idx : ℕ) (hash sibling : Text) → starts_0x (paired idx hash sibling) ≡ true
  unfolding paired hash_pair starts_0x text_beq
  paired-starts_0x idx hash sibling = elim (Bool-cases (nat_beq (idx % 2) 0)) [
    | inl even ↦ rw even refl
    | inr odd ↦ rw odd refl
  ]

  follow_path-snoc :
      (path : List Text) (sibling : Text) (start : Text × ℕ)
      → follow_path keccak256_hex (path ++ sibling ∷ []) start ≡ (
        paired
            (follow_path keccak256_hex path start).1
            (follow_path keccak256_hex path start).0
            sibling,
        (follow_path keccak256_hex path start).1 / 2,
      )
  unfolding follow_path paired
  follow_path-snoc [] sibling (hash, idx) = refl
  follow_path-snoc (other ∷ path) sibling (hash, idx) = follow_path-snoc path sibling (
    (if idx % 2 == 0
        then hash_pair keccak256_hex hash other
        else hash_pair keccak256_hex other hash),
    idx / 2,
  )

  -- Past the index the inner loop only hashes.
  path_level-past :
      (i idx : ℕ) (path level : List Text)
      → idx < i
      → path_level keccak256_hex i idx path level ≡ (next_level keccak256_hex level, path, idx)
  unfolding path_level next_level
  path_level-past i idx path [] h = refl
  path_level-past i idx path (left ∷ []) h =
      let no_hit : (nat_beq i idx || nat_beq (i + 1) idx) ≡ false = ground arith in rw no_hit refl
  path_level-past i idx path (left ∷ right ∷ rest) h =
      let no_hit : (nat_beq i idx || nat_beq (i + 1) idx) ≡ false = ground arith in
      rw (no_hit, path_level-past (i + 2) idx path rest (omega arith)) refl

  -- What the inner loop does at offset d from an even position i: it takes the sibling, halves the index, and puts
  -- the parent at half the offset.
  unfoldable pub Takes : ℕ → ℕ → List Text → List Text → Text → Type 0
  Takes i d path level x =
      (sibling : Text) × ((path_level keccak256_hex i (i + d) path level
          ≡ (next_level keccak256_hex level, path ++ sibling ∷ [], (i + d) / 2))
        × (item_at (d / 2) (next_level keccak256_hex level) ≡ some (paired (i + d) x sibling)))

  Takes-first :
      (i : ℕ) (path : List Text) (left right : Text) (rest : List Text)
      → i % 2 ≡ 0
      → Takes i 0 path (left ∷ right ∷ rest) left
  unfolding Takes path_level next_level item_at paired
  Takes-first i path left right rest e =
      let here : i + 0 ≡ i = omega arith in
      let self : nat_beq i i ≡ true = ground arith in
      let even : nat_beq (i % 2) 0 ≡ true = ground arith in
      rw here (
        right,
        (
          rw (self, path_level-past (i + 2) (i / 2) (path ++ right ∷ []) rest (omega arith)) refl,
          rw even refl,
        ),
      )

  Takes-last :
      (i : ℕ) (path : List Text) (left : Text) → i % 2 ≡ 0 → Takes i 0 path (left ∷ []) left
  unfolding Takes path_level next_level item_at paired
  Takes-last i path left e =
      let here : i + 0 ≡ i = omega arith in
      let self : nat_beq i i ≡ true = ground arith in
      let even : nat_beq (i % 2) 0 ≡ true = ground arith in
      rw here (left, (rw self refl, rw even refl))

  Takes-second :
      (i : ℕ) (path : List Text) (left right : Text) (rest : List Text)
      → i % 2 ≡ 0
      → Takes i 1 path (left ∷ right ∷ rest) right
  unfolding Takes path_level next_level item_at paired
  Takes-second i path left right rest e =
      let other : nat_beq i (i + 1) ≡ false = ground arith in
      let self : nat_beq (i + 1) (i + 1) ≡ true = ground arith in
      let odd : nat_beq ((i + 1) % 2) 0 ≡ false = ground arith in
      let half : (i + 1) / 2 ≡ i / 2 = omega arith in
      (
        left,
        (
          rw
              (
                other,
                self,
                half,
                path_level-past (i + 2) (i / 2) (path ++ left ∷ []) rest (omega arith),
              )
              refl,
          rw odd refl,
        ),
      )

  Takes-later :
      (i d : ℕ) (path : List Text) (left right x : Text) (rest : List Text)
      → Takes (i + 2) d path rest x
      → Takes i (suc (suc d)) path (left ∷ right ∷ rest) x
  unfolding Takes path_level next_level item_at
  Takes-later i d path left right x rest (sibling, (taken, above)) =
      let there : i + suc (suc d) ≡ i + 2 + d = omega arith in
      let not_first : nat_beq i (i + 2 + d) ≡ false = ground arith in
      let not_second : nat_beq (i + 1) (i + 2 + d) ≡ false = ground arith in
      let half : suc (suc d) / 2 ≡ suc (d / 2) = omega arith in
      rw there (sibling, (rw (not_first, not_second, taken) refl, rw half above))

  path_level-Takes :
      (i d : ℕ) (path level : List Text) (x : Text)
      → i % 2 ≡ 0
      → item_at d level ≡ some x
      → Takes i d path level x
  unfolding item_at
  path_level-Takes i d path [] x e k = absurd (ground arith)
  path_level-Takes i zero path (left ∷ []) x e k =
      subst (λ w. Takes i 0 path (left ∷ []) w) (ground arith) (Takes-last i path left e)
  path_level-Takes i (suc d) path (left ∷ []) x e k = absurd (ground arith)
  path_level-Takes i zero path (left ∷ right ∷ rest) x e k =
      subst (λ w. Takes i 0 path (left ∷ right ∷ rest) w) (ground arith)
        (Takes-first i path left right rest e)
  path_level-Takes i (suc zero) path (left ∷ right ∷ rest) x e k =
      subst (λ w. Takes i 1 path (left ∷ right ∷ rest) w) (ground arith)
        (Takes-second i path left right rest e)
  path_level-Takes i (suc (suc d)) path (left ∷ right ∷ rest) x e k =
      Takes-later i d path left right x rest
        (path_level-Takes (i + 2) d path rest x (omega arith) k)

  length-next_level :
      (level : List Text) → length (next_level keccak256_hex level) ≡ (length level + 1) / 2
  unfolding next_level
  length-next_level [] = refl
  length-next_level (x ∷ []) = refl
  length-next_level (x ∷ y ∷ level) = omega (arith, length-next_level level)

  -- Where a path leads, against the root of the same level.
  unfoldable pub Leads : ℕ → List Text → Text × ℕ → List Text → Type 0
  Leads fuel path start level =
      (root : Text) × (((follow_path keccak256_hex path start).0 ≡ root)
        × ((root_of_level keccak256_hex fuel level ≡ some root) × (starts_0x root ≡ true)))

  single-Leads :
      (idx : ℕ) (path level : List Text) (start : Text × ℕ) (x : Text)
      → follow_path keccak256_hex path start ≡ (x, idx)
      → item_at idx level ≡ some x
      → length level ≤ 1
      → starts_0x x ≡ true
      → Leads 0 path start level
  unfolding Leads root_of_level item_at
  single-Leads idx path [] start x f k l z = absurd (ground arith)
  single-Leads (suc idx) path (y ∷ []) start x f k l z = absurd (ground arith)
  single-Leads zero path (y ∷ []) start x f k l z = (x, (ap (λ r. r.0) f, (k, z)))
  single-Leads idx path (y ∷ w ∷ level) start x f k l z = absurd (omega arith)

  pub path_loop-Leads :
      (fuel idx : ℕ) (path level : List Text) (start : Text × ℕ) (x : Text)
      → follow_path keccak256_hex path start ≡ (x, idx)
      → item_at idx level ≡ some x
      → length level ≤ suc fuel
      → starts_0x x ≡ true
      → Leads fuel (path_loop keccak256_hex fuel idx path level) start level
  unfolding path_loop root_of_level Leads Takes
  path_loop-Leads zero idx path level start x f k l z = single-Leads idx path level start x f k l z
  path_loop-Leads (suc fuel) idx path level start x f k l z =
      elim (Bool-cases (ltb 1 (length level))) [
        | inr one ↦ rw one (single-Leads idx path level start x f k (ground arith) z)
        | inl more ↦
            let here : 0 + idx ≡ idx = omega arith in
            let (sibling, (taken, above)) =
              subst
                (λ n.
                  (s : Text) × ((path_level keccak256_hex 0 n path level
                      ≡ (next_level keccak256_hex level, path ++ s ∷ [], n / 2))
                    × (item_at (idx / 2) (next_level keccak256_hex level) ≡ some (paired n x s))))
                here (path_level-Takes 0 idx path level x refl k) in
            let followed =
              follow_path-snoc path sibling start
              ∙ ap (λ (r : Text × ℕ). (paired r.1 r.0 sibling, r.1 / 2)) f in
            let rest =
              path_loop-Leads fuel (idx / 2) (path ++ sibling ∷ []) (next_level keccak256_hex level)
                start (paired idx x sibling) followed above (omega (arith, length-next_level level))
                (paired-starts_0x idx x sibling) in
            rw (more, taken) rest
      ]
