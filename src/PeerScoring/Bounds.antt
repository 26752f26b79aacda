-- ===== src/PeerScoring/Bounds.antt =====
-- node/src/peer-scoring.ts: the scores stay within their bounds, and the peers within their number.
use coc.Prelude.{
  ◌≡◌, ℕ, List, [], ◌∷◌, Text, text_eq, get, erase, All, All-insert, All-erase, All-get,
  Option-cases, Bool-cases, inl, inr, leb, ltb, if◌then◌else◌, true, false, length, Bool,
}
use coc.PeerScoring.Score.{
  ℤ, leb_int, plus_nat, minus_nat, min_int, max_int, IsBetween, min_int-IsBetween,
  max_int-IsBetween, leb-plus_nat, leb-minus_nat, leb_int_trans,
}
use coc.PeerScoring.{
  PeerScore, PeerScoringConfig, Peers, new_peer, evict_worst, worst_id, add_peer, with_success,
  change_peer, record_success, with_penalty, record_failure, record_invalid_data, record_timeout,
  remove_peer, decayed_score, decayed_peer, apply_decay,
}

-- A configuration whose bounds are in order, with the initial score between them.
pub record IsOrdered (cfg : PeerScoringConfig) : Type 0 where
  pub low : leb_int cfg.min_score cfg.initial_score ≡ true
  pub high : leb_int cfg.initial_score cfg.max_score ≡ true

unfoldable pub IsScored : PeerScoringConfig → PeerScore → Type 0
IsScored cfg peer = IsBetween cfg.min_score cfg.max_score peer.score

unfoldable pub AllScored : PeerScoringConfig → Peers → Type 0
AllScored cfg peers = All (λ e. IsScored cfg e.1) peers

with_success-IsScored :
    (cfg : PeerScoringConfig) (now : ℕ) (peer : PeerScore)
    → IsOrdered cfg
    → IsScored cfg peer
    → IsScored cfg (with_success cfg now peer)
unfolding with_success IsScored IsBetween
with_success-IsScored cfg now peer o h =
    let above = leb-plus_nat peer.score cfg.success_reward in
    let raised = plus_nat peer.score cfg.success_reward in
    min_int-IsBetween cfg.min_score cfg.max_score raised
      (leb_int_trans cfg.min_score peer.score raised h.0 above)
      (leb_int_trans cfg.min_score cfg.initial_score cfg.max_score o.low o.high)

with_penalty-IsScored :
    (cfg : PeerScoringConfig) (penalty now : ℕ) (peer : PeerScore)
    → IsOrdered cfg
    → IsScored cfg peer
    → IsScored cfg (with_penalty cfg penalty now peer)
unfolding with_penalty IsScored IsBetween
with_penalty-IsScored cfg penalty now peer o h =
    let lowered = minus_nat peer.score penalty in
    max_int-IsBetween cfg.min_score cfg.max_score lowered
      (leb_int_trans lowered peer.score cfg.max_score (leb-minus_nat peer.score penalty) h.1)
      (leb_int_trans cfg.min_score cfg.initial_score cfg.max_score o.low o.high)

decayed_score-IsBetween :
    (cfg : PeerScoringConfig) (score : ℤ)
    → IsOrdered cfg
    → IsBetween cfg.min_score cfg.max_score score
    → IsBetween cfg.min_score cfg.max_score (decayed_score cfg score)
unfolding decayed_score IsBetween
decayed_score-IsBetween cfg score o h = elim (Bool-cases (leb_int score cfg.initial_score)) [
  | inr above ↦
      let lowered = minus_nat score cfg.decay_amount in
      let (up, down) =
        max_int-IsBetween cfg.initial_score cfg.max_score lowered
          (leb_int_trans lowered score cfg.max_score (leb-minus_nat score cfg.decay_amount) h.1)
          o.high in
      rw above (
        leb_int_trans cfg.min_score cfg.initial_score (max_int lowered cfg.initial_score) o.low up,
        down,
      )
  | inl within ↦ elim (Bool-cases (leb_int cfg.initial_score score)) [
    | inl same ↦ rw (within, same) h
    | inr below ↦
        let raised = plus_nat score cfg.decay_amount in
        let (up, down) =
          min_int-IsBetween cfg.min_score cfg.initial_score raised
            (leb_int_trans cfg.min_score score raised h.0 (leb-plus_nat score cfg.decay_amount))
            o.low in
        rw (within, below)
          (
            up,
            leb_int_trans (min_int raised cfg.initial_score) cfg.initial_score cfg.max_score down
                o.high,
          )
  ]
]

decayed_peer-IsScored :
    (cfg : PeerScoringConfig) (now : ℕ) (peer : PeerScore)
    → IsOrdered cfg
    → IsScored cfg peer
    → IsScored cfg (decayed_peer cfg now peer)
unfolding decayed_peer IsScored
decayed_peer-IsScored cfg now peer o h = elim (Bool-cases (ltb now peer.banned_until_ms)) [
  | inl banned ↦ rw banned h
  | inr free ↦ rw free (decayed_score-IsBetween cfg peer.score o h)
]

change_peer-AllScored :
    (cfg : PeerScoringConfig) (id : Text) (change : PeerScore → PeerScore) (peers : Peers)
    → ((peer : PeerScore) → IsScored cfg peer → IsScored cfg (change peer))
    → AllScored cfg peers
    → AllScored cfg (change_peer id change peers)
unfolding change_peer AllScored
change_peer-AllScored cfg id change peers keeps h = elim (Option-cases (get id peers)) [
  | inl unknown ↦ rw (change_peer, unknown) h
  | inr (peer, known) ↦
      let good = All-get (λ e. IsScored cfg e.1) id {v = peer} peers h known in
      rw (change_peer, known)
        (All-insert (λ e. IsScored cfg e.1) id (change peer) peers (keeps peer good) h)
]

evict_worst-AllScored :
    (cfg : PeerScoringConfig) (peers : Peers)
    → AllScored cfg peers
    → AllScored cfg (evict_worst peers)
unfolding evict_worst AllScored
evict_worst-AllScored cfg peers h = evicted (worst_id peers)
  where
    evicted :
        (worst : Text)
        → All (λ e. IsScored cfg e.1) (elim worst [ [] ↦ peers | c ∷ cs ↦ erase (c ∷ cs) peers ])
    evicted [] = h
    evicted (c ∷ cs) = All-erase (λ e. IsScored cfg e.1) (c ∷ cs) peers h

room-AllScored :
    (cfg : PeerScoringConfig) (full : Bool) (peers : Peers)
    → AllScored cfg peers
    → AllScored cfg (if full then evict_worst peers else peers)
room-AllScored cfg true peers h = evict_worst-AllScored cfg peers h
room-AllScored cfg false peers h = h

add_peer-AllScored :
    (cfg : PeerScoringConfig) (id url : Text) (now : ℕ) (peers : Peers)
    → IsOrdered cfg
    → AllScored cfg peers
    → AllScored cfg (add_peer cfg id url now peers)
unfolding add_peer new_peer AllScored IsScored IsBetween
add_peer-AllScored cfg id url now peers o h =
    let room = if leb cfg.max_peers (length peers) then evict_worst peers else peers in
    let roomy = room-AllScored cfg (leb cfg.max_peers (length peers)) peers h in
    elim (Option-cases (get id peers)) [
      | inl unknown ↦
          rw (add_peer, unknown)
            (All-insert (λ e. IsScored cfg e.1) id (new_peer cfg id url now) room (o.low, o.high)
              roomy)
      | inr (peer, known) ↦
          let good = All-get (λ e. IsScored cfg e.1) id {v = peer} peers h known in
          rw (add_peer, known)
            (All-insert (λ e. IsScored cfg e.1) id (record peer { url = url }) peers good h)
    ]

apply_decay-AllScored :
    (cfg : PeerScoringConfig) (now : ℕ) (peers : Peers)
    → IsOrdered cfg
    → AllScored cfg peers
    → AllScored cfg (apply_decay cfg now peers)
unfolding apply_decay AllScored
apply_decay-AllScored cfg now [] o h = tt
apply_decay-AllScored cfg now ((id, peer) ∷ peers) o h =
    (decayed_peer-IsScored cfg now peer o h.0, apply_decay-AllScored cfg now peers o h.1)

-- What may happen to the peers, each with the time at which it happens.
pub data Operation : Type 0 where
  added : Text → Text → ℕ → Operation
  succeeded failed sent_invalid_data timed_out : Text → ℕ → Operation
  removed : Text → Operation
  decayed_at : ℕ → Operation

unfoldable pub apply_operation : PeerScoringConfig → Operation → Peers → Peers
apply_operation cfg (added id url now) peers = add_peer cfg id url now peers
apply_operation cfg (succeeded id now) peers = record_success cfg id now peers
apply_operation cfg (failed id now) peers = record_failure cfg id now peers
apply_operation cfg (sent_invalid_data id now) peers = record_invalid_data cfg id now peers
apply_operation cfg (timed_out id now) peers = record_timeout cfg id now peers
apply_operation cfg (removed id) peers = remove_peer id peers
apply_operation cfg (decayed_at now) peers = apply_decay cfg now peers

unfoldable pub apply_operations : PeerScoringConfig → List Operation → Peers → Peers
apply_operations cfg [] peers = peers
apply_operations cfg (operation ∷ operations) peers =
    apply_operations cfg operations (apply_operation cfg operation peers)

apply_operation-AllScored :
    (cfg : PeerScoringConfig) (operation : Operation) (peers : Peers)
    → IsOrdered cfg
    → AllScored cfg peers
    → AllScored cfg (apply_operation cfg operation peers)
unfolding apply_operation record_success record_failure record_invalid_data record_timeout
    remove_peer AllScored
apply_operation-AllScored cfg (added id url now) peers o h =
    add_peer-AllScored cfg id url now peers o h
apply_operation-AllScored cfg (succeeded id now) peers o h =
    change_peer-AllScored cfg id (with_success cfg now) peers
      (λ peer good. with_success-IsScored cfg now peer o good) h
apply_operation-AllScored cfg (failed id now) peers o h =
    change_peer-AllScored cfg id (with_penalty cfg cfg.failure_penalty now) peers
      (λ peer good. with_penalty-IsScored cfg cfg.failure_penalty now peer o good) h
apply_operation-AllScored cfg (sent_invalid_data id now) peers o h =
    change_peer-AllScored cfg id (with_penalty cfg cfg.invalid_data_penalty now) peers
      (λ peer good. with_penalty-IsScored cfg cfg.invalid_data_penalty now peer o good) h
apply_operation-AllScored cfg (timed_out id now) peers o h =
    change_peer-AllScored cfg id (with_penalty cfg cfg.timeout_penalty now) peers
      (λ peer good. with_penalty-IsScored cfg cfg.timeout_penalty now peer o good) h
apply_operation-AllScored cfg (removed id) peers o h = All-erase (λ e. IsScored cfg e.1) id peers h
apply_operation-AllScored cfg (decayed_at now) peers o h = apply_decay-AllScored cfg now peers o h

-- Whatever happens to the peers, every score stays between the minimum and the maximum, where the initial score is
-- between them and the scores were before.
pub apply_operations-AllScored :
    (cfg : PeerScoringConfig) (operations : List Operation) (peers : Peers)
    → IsOrdered cfg
    → AllScored cfg peers
    → AllScored cfg (apply_operations cfg operations peers)
unfolding apply_operations
apply_operations-AllScored cfg [] peers o h = h
apply_operations-AllScored cfg (operation ∷ operations) peers o h =
    apply_operations-AllScored cfg operations (apply_operation cfg operation peers) o
      (apply_operation-AllScored cfg operation peers o h)
