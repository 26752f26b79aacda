-- ===== src/Bft/Equivocation/Heights.antt =====
-- node/src/bft.ts, EquivocationDetector.pruneOldHeights: how many heights are tracked, and which.
use coc.Prelude.{
  ℕ, Text, [], ◌∷◌, true, false, List, ◌≡◌, inl, inr, refl, Bool-cases, nat_eq, text_eq, arith,
  to_lower_case, contains, Dict, Distinct, ◌==◌, length, ◌∙◌, All, keys, ◌||◌, has, erase, ◌≤◌, leb,
  ◌+◌, get-erase, erase-Distinct, leb→le, length-erase, take, or_else, ◌-◌, insert-Distinct,
  Distinct-take, All-take, All-of_contains, sym, contains-keys, length-take,
}
use coc.Bft.Equivocation.{
  EquivocationDetector, VotePhase, record_vote, insert_sorted, sort_heights, erase_all,
  prune_old_heights, store_evidence, with_vote, make_room, conflicts, evict_one, existing_vote,
  EquivocationEvidence, evidence_of,
}

insert_sorted_lem :
    (n k : ℕ) (ns : List ℕ)
    → (contains k (insert_sorted n ns) ≡ (n == k || contains k ns))
      × (length (insert_sorted n ns) ≡ length ns + 1)
unfolding insert_sorted contains
insert_sorted_lem n k [] = ground arith
insert_sorted_lem n k (m ∷ ms) = ground (arith, insert_sorted_lem n k ms)

sort_heights_lem :
    (k : ℕ) (ns : List ℕ)
    → (contains k (sort_heights ns) ≡ contains k ns) × (length (sort_heights ns) ≡ length ns)
unfolding sort_heights contains
sort_heights_lem k [] = ground arith
sort_heights_lem k (n ∷ ns) =
    ground (arith, sort_heights_lem k ns, insert_sorted_lem n k (sort_heights ns))

insert_sorted-Distinct :
    (n : ℕ) (ns : List ℕ) → contains n ns ≡ false → Distinct ns → Distinct (insert_sorted n ns)
unfolding insert_sorted contains
insert_sorted-Distinct n [] c d = ground arith
insert_sorted-Distinct n (m ∷ ms) c d =
    ground (arith, insert_sorted-Distinct n ms, insert_sorted_lem n m ms)

sort_heights-Distinct : (ns : List ℕ) → Distinct ns → Distinct (sort_heights ns)
unfolding sort_heights
sort_heights-Distinct [] d = tt
sort_heights-Distinct (n ∷ ns) d =
    insert_sorted-Distinct n (sort_heights ns) ((sort_heights_lem n ns).0 ∙ d.0)
      (sort_heights-Distinct ns d.1)

module _ {ℓ} {V : Type ℓ} where
  has_after_erase :
      (n : ℕ) (ns : List ℕ) (m : Dict ℕ V)
      → contains n ns ≡ false
      → All (λ k. has k m ≡ true) ns
      → All (λ k. has k (erase n m) ≡ true) ns
  unfolding contains
  has_after_erase n [] m c h = tt
  has_after_erase n (k ∷ ks) m c h =
      (ground (arith, get-erase n k m), has_after_erase n ks m (ground arith) h.1)

  length-erase_all :
      (ns : List ℕ) (m : Dict ℕ V)
      → Distinct ns
      → Distinct (keys m)
      → All (λ k. has k m ≡ true) ns
      → length (erase_all ns m) + length ns ≡ length m
  unfolding erase_all
  length-erase_all [] m dn dm h = omega arith
  length-erase_all (n ∷ ns) m dn dm h = omega (
    arith,
    length-erase_all ns (erase n m) dn.1 (erase-Distinct n m dm) (has_after_erase n ns m dn.0 h.1),
    length-erase n m dm h.0,
  )

  erase_all-Distinct :
      (ns : List ℕ) (m : Dict ℕ V) → Distinct (keys m) → Distinct (keys (erase_all ns m))
  unfolding erase_all
  erase_all-Distinct [] m d = d
  erase_all-Distinct (n ∷ ns) m d = erase_all-Distinct ns (erase n m) (erase-Distinct n m d)

length-keys {ℓ} : {V : Type ℓ} (m : Dict ℕ V) → length (keys m) ≡ length m
length-keys [] = refl
length-keys (x ∷ m) = omega (arith, length-keys m)

-- The tracked heights are different, and no more than the limit.
pub record IsTracked (d : EquivocationDetector) : Type 0 where
  pub distinct : Distinct (keys d.votes)
  pub within : length d.votes ≤ d.max_tracked_heights

prune-IsTracked :
    (d : EquivocationDetector) → Distinct (keys d.votes) → IsTracked (prune_old_heights d)
unfolding prune_old_heights
prune-IsTracked d distinct = elim (Bool-cases (leb (length d.votes) d.max_tracked_heights)) [
  | inl few ↦ rw few (record { distinct = distinct; within = leb→le _ _ few })
  | inr many ↦
      let heights = keys d.votes in
      let old = take (length d.votes - d.max_tracked_heights) (sort_heights heights) in
      rw many (record {
        distinct = erase_all-Distinct old d.votes distinct;
        within = omega (
          arith,
          length-erase_all old d.votes
              (Distinct-take _ (sort_heights heights) (sort_heights-Distinct heights distinct))
              distinct
              (All-take _ _ (sort_heights heights) (
                All-of_contains _ (sort_heights heights) λ k c.
                  sym (contains-keys k d.votes) ∙ (sym ((sort_heights_lem k heights).0) ∙ c))),
          length-take (length d.votes - d.max_tracked_heights) (sort_heights heights),
          (sort_heights_lem 0 heights).1,
          length-keys d.votes,
        );
      })
]

store_evidence-limits :
    (d : EquivocationDetector) (id : Text) (ev : EquivocationEvidence)
    → ((store_evidence d id ev).votes ≡ d.votes)
      × ((store_evidence d id ev).max_tracked_heights ≡ d.max_tracked_heights)
unfolding store_evidence make_room evict_one
store_evidence-limits d id ev = ground arith

-- Where no more heights are tracked than the limit, each once, that is so after a recorded vote.
pub record_vote-IsTracked :
    (d : EquivocationDetector) (id : Text) (height : ℕ) (phase : VotePhase) (hash : Text) (now : ℕ)
    → IsTracked d
    → IsTracked (record_vote d id height phase hash now).0
unfolding record_vote with_vote
record_vote-IsTracked d id height phase hash now t =
    elim (Bool-cases (conflicts (existing_vote d id height phase) hash)) [
      | inl found ↦ rw found (
          ground (
            arith,
            store_evidence-limits d (to_lower_case id) (
                evidence_of id height phase (or_else (existing_vote d id height phase) []) hash
                  now),
          ))
      | inr quiet ↦ rw quiet (prune-IsTracked _ (insert-Distinct height _ d.votes t.distinct))
    ]
