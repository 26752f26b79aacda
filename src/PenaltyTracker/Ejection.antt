-- ===== src/PenaltyTracker/Ejection.antt =====
-- services/dispute/penalty-tracker.ts: who is ejected, and that it is for good.
-- The nodes on file that are not ejected have fewer points than ejection takes.
use coc.Prelude.{
  All, Text, has, ◌<◌, ◌≡◌, false, Option-cases, get, text_eq, inr, inl, All-insert, refl, ℕ, Dict,
  insert, Bool-cases, true, leb, ◌≤◌, arith, List, get-insert, ◌∷◌, ap, [],
}
use coc.PenaltyTracker.{
  PenaltyTracker, get_or_create_state, fresh_state, check_thresholds, record_penalty, decayed,
  decay_nodes, step, run_operations, NodePenaltyState, PenaltyConfig, apply_decay, is_ejected,
  Operation, is_penalized, Until,
}

abbrev pub IsSound : PenaltyTracker → Type 0
IsSound t =
    All (λ e. has e.0 t.ejected_nodes ≡ false → e.1.total_points < t.config.eject_threshold) t.nodes

get_or_create_state-IsSound :
    (t : PenaltyTracker) (id : Text)
    → 0 < t.config.eject_threshold
    → IsSound t
    → IsSound (get_or_create_state t id).0
      × ((get_or_create_state t id).0.ejected_nodes ≡ t.ejected_nodes)
      × ((get_or_create_state t id).0.config ≡ t.config)
unfolding get_or_create_state
get_or_create_state-IsSound t id positive sound = elim (Option-cases (get id t.nodes)) [
  | inr (state, found) ↦ rw (found, get_or_create_state) (sound, refl, refl)
  | inl absent ↦
      rw (absent, get_or_create_state)
        (All-insert _ id (fresh_state id) t.nodes (λ h. positive) sound, refl, refl)
]

-- More ejected nodes leave the others as they were.
more_ejected :
    (id : Text) (k : ℕ) (ejected : Dict Text (Unit {0})) (m : Dict Text NodePenaltyState)
    → All (λ e. has e.0 ejected ≡ false → e.1.total_points < k) m
    → All (λ e. has e.0 (insert id tt ejected) ≡ false → e.1.total_points < k) m
more_ejected id k ejected [] h = tt
more_ejected id k ejected ((i, s) ∷ m) h =
    ((λ f. h.0 (ground (arith, get-insert id i tt ejected))), more_ejected id k ejected m h.1)

has-insert : (id : Text) (m : Dict Text (Unit {0})) → has id (insert id tt m) ≡ true
has-insert id m = ground (arith, get-insert id id tt m, text_eq.beq_iff id id)

check_thresholds-IsSound :
    (t : PenaltyTracker) (id : Text) (state : NodePenaltyState) (now : ℕ)
    → IsSound t
    → IsSound (check_thresholds t id state now)
unfolding check_thresholds
check_thresholds-IsSound t id state now sound =
    elim (Bool-cases (leb t.config.eject_threshold state.total_points)) [
      | inl over ↦
          let ejected : NodePenaltyState = record state {
            suspended = true;
            suspended_until = Until.forever;
          } in
          rw over (
            All-insert _ id ejected t.nodes (λ h. ground (arith, has-insert id t.ejected_nodes))
              (more_ejected id t.config.eject_threshold t.ejected_nodes t.nodes sound))
      | inr under ↦ elim (Bool-cases (leb t.config.suspend_threshold state.total_points)) [
        | inl high ↦ rw (under, high) (All-insert _ id _ t.nodes (λ h. ground arith) sound)
        | inr low ↦ rw (under, low) (All-insert _ id state t.nodes (λ h. ground arith) sound)
      ]
    ]

record_penalty-IsSound :
    (t : PenaltyTracker) (id : Text) (reason_code epoch_id now : ℕ)
    → 0 < t.config.eject_threshold
    → IsSound t
    → IsSound (record_penalty t id reason_code epoch_id now)
unfolding record_penalty
record_penalty-IsSound t id reason_code epoch_id now positive sound =
    let (sound', _, _) = get_or_create_state-IsSound t id positive sound in
    elim (Bool-cases (has id t.ejected_nodes)) [
      | inl gone ↦ rw gone sound'
      | inr stays ↦ rw stays (check_thresholds-IsSound (get_or_create_state t id).0 id _ now sound')
    ]

decayed-le :
    (config : PenaltyConfig) (now : ℕ) (state : NodePenaltyState)
    → (decayed config now state).total_points ≤ state.total_points
unfolding decayed
decayed-le config now state = ground arith

decay_nodes-IsSound :
    (t : PenaltyTracker) (now k : ℕ) (m : Dict Text NodePenaltyState)
    → All (λ e. has e.0 t.ejected_nodes ≡ false → e.1.total_points < k) m
    → All (λ e. has e.0 t.ejected_nodes ≡ false → e.1.total_points < k) (decay_nodes t now m)
unfolding decay_nodes
decay_nodes-IsSound t now k [] h = tt
decay_nodes-IsSound t now k ((i, s) ∷ m) h =
    ((λ f. ground (arith, decayed-le t.config now s)), decay_nodes-IsSound t now k m h.1)

-- The configuration stays, and so does who is ejected.
step_keeps :
    (t : PenaltyTracker) (op : Operation) (id : Text)
    → ((step t op).config ≡ t.config)
      × (has id t.ejected_nodes ≡ true → has id (step t op).ejected_nodes ≡ true)
unfolding step record_penalty get_or_create_state check_thresholds apply_decay
step_keeps t (Operation.penalty node reason_code epoch_id now) id =
    (ground arith, λ h. ground (arith, get-insert node id tt t.ejected_nodes))
step_keeps t (Operation.decay now) id = (refl, λ h. h)

step-IsSound :
    (t : PenaltyTracker) (op : Operation)
    → 0 < t.config.eject_threshold
    → IsSound t
    → IsSound (step t op)
unfolding step apply_decay
step-IsSound t (Operation.penalty node reason_code epoch_id now) positive sound =
    record_penalty-IsSound t node reason_code epoch_id now positive sound
step-IsSound t (Operation.decay now) positive sound =
    decay_nodes-IsSound t now t.config.eject_threshold t.nodes sound

-- Whatever penalties and decays come after: where every node on file that is not ejected has fewer
-- points than ejection takes, that is still so; the threshold for ejection is above zero.
pub run_operations-IsSound :
    (ops : List Operation) (t : PenaltyTracker)
    → 0 < t.config.eject_threshold
    → IsSound t
    → IsSound (run_operations t ops)
unfolding run_operations
run_operations-IsSound [] t positive sound = sound
run_operations-IsSound (op ∷ ops) t positive sound =
    run_operations-IsSound ops (step t op)
      (ground (arith, ap (λ c. c.eject_threshold) (step_keeps t op []).0))
      (step-IsSound t op positive sound)

-- An ejected node is penalised for good: whatever penalties and decays come after, and at any time.
pub ejected_for_good :
    (ops : List Operation) (t : PenaltyTracker) (id : Text) (now : ℕ)
    → is_ejected t id ≡ true
    → is_penalized (run_operations t ops) id now ≡ true
unfolding run_operations is_ejected is_penalized
ejected_for_good [] t id now gone = rw gone refl
ejected_for_good (op ∷ ops) t id now gone =
    ejected_for_good ops (step t op) id now ((step_keeps t op id).1 gone)
