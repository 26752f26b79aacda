-- ===== src/PeerScoring/Bans.antt =====
-- node/src/peer-scoring.ts: when a peer is banned, for how long, and what a ban keeps away.
use coc.Prelude.{
  ◌≡◌, ℕ, ◌≤◌, ◌+◌, ◌*◌, ◌^◌, ◌-◌, arith, List, [], ◌∷◌, some, Text, text_eq, get, get-insert, All,
  Bool-cases, inl, inr, leb, ltb, if◌then◌else◌, true, refl, ◌∙◌, text_beq_iff, values, keep, min,
  Bool,
}
use coc.PeerScoring.Score.{ℤ, leb_int, minus_nat, max_int, leb_int_total, leb_int_trans}
use coc.PeerScoring.{
  PeerScore, PeerScoringConfig, Peers, max_ban_ms, exponential_ban_ms, with_penalty, change_peer,
  record_failure, is_banned, insert_peer, sort_peers, get_active_peers,
}

-- A ban is at most a day long.
exponential_ban_ms_le : (cfg : PeerScoringConfig) (n : ℕ) → exponential_ban_ms cfg n ≤ max_ban_ms
unfolding exponential_ban_ms
exponential_ban_ms_le cfg n =
    let ban_ms = cfg.ban_duration_ms * 2 ^ min (n - 1) 10 in
    elim (Bool-cases (ltb ban_ms (2 ^ 53))) [
      | inl safe ↦ rw safe (omega arith)
      | inr unsafe ↦ rw unsafe (omega arith)
    ]

get-change_peer :
    (id : Text) (change : PeerScore → PeerScore) (peers : Peers) (peer : PeerScore)
    → get id peers ≡ some peer
    → get id (change_peer id change peers) ≡ some (change peer)
unfolding change_peer
get-change_peer id change peers peer h =
    rw (change_peer, h)
      (get-insert id id (change peer) peers ∙ rw ((text_beq_iff id id).1 refl) refl)

-- The end of a peer's ban after a penalty, as it is compared with a time.
with_penalty-banned_until_ms :
    (cfg : PeerScoringConfig) (penalty now later : ℕ) (peer : PeerScore)
    → ltb later (with_penalty cfg penalty now peer).banned_until_ms ≡ (
        if leb_int (max_int (minus_nat peer.score penalty) cfg.min_score) cfg.ban_threshold
        then ltb later (now + exponential_ban_ms cfg (peer.ban_count + 1))
        else ltb later peer.banned_until_ms)
unfolding with_penalty
with_penalty-banned_until_ms cfg penalty now later peer =
    elim (Bool-cases
      (leb_int (max_int (minus_nat peer.score penalty) cfg.min_score) cfg.ban_threshold)) [
        | inl low ↦ rw low refl
        | inr high ↦ rw high refl
      ]

-- A failure that takes the score to the threshold bans the peer from then on for the time that its number of bans
-- gives, and a failure that does not leaves its ban as it was.
pub is_banned-record_failure :
    (cfg : PeerScoringConfig) (id : Text) (now later : ℕ) (peers : Peers) (peer : PeerScore)
    → get id peers ≡ some peer
    → is_banned id later (record_failure cfg id now peers) ≡ (
        if leb_int
          (max_int (minus_nat peer.score cfg.failure_penalty) cfg.min_score)
          cfg.ban_threshold
        then ltb later (now + exponential_ban_ms cfg (peer.ban_count + 1))
        else ltb later peer.banned_until_ms)
unfolding is_banned record_failure
is_banned-record_failure cfg id now later peers peer h =
    rw (is_banned, get-change_peer id (with_penalty cfg cfg.failure_penalty now) peers peer h)
      (with_penalty-banned_until_ms cfg cfg.failure_penalty now later peer)

-- The peers from the highest score down.
unfoldable pub IsDescending : List PeerScore → Type 0
IsDescending [] = Unit
IsDescending (peer ∷ peers) =
    All (λ p. leb_int p.score peer.score ≡ true) peers × IsDescending peers

insert_peer-All :
    (P : PeerScore → Type 0) (peer : PeerScore) (peers : List PeerScore)
    → P peer
    → All P peers
    → All P (insert_peer peer peers)
unfolding insert_peer
insert_peer-All P peer [] p h = (p, tt)
insert_peer-All P peer (other ∷ peers) p h = elim (Bool-cases (leb_int other.score peer.score)) [
  | inl first ↦ rw first (p, h)
  | inr later ↦ rw later (h.0, insert_peer-All P peer peers p h.1)
]

sort_peers-All :
    (P : PeerScore → Type 0) (peers : List PeerScore) → All P peers → All P (sort_peers peers)
unfolding sort_peers
sort_peers-All P [] h = tt
sort_peers-All P (peer ∷ peers) h =
    insert_peer-All P peer (sort_peers peers) h.0 (sort_peers-All P peers h.1)

below-All :
    (high low : ℤ) (peers : List PeerScore)
    → leb_int low high ≡ true
    → All (λ p. leb_int p.score low ≡ true) peers
    → All (λ p. leb_int p.score high ≡ true) peers
below-All high low [] h k = tt
below-All high low (peer ∷ peers) h k =
    (leb_int_trans peer.score low high k.0 h, below-All high low peers h k.1)

insert_peer-IsDescending :
    (peer : PeerScore) (peers : List PeerScore)
    → IsDescending peers
    → IsDescending (insert_peer peer peers)
unfolding insert_peer IsDescending
insert_peer-IsDescending peer [] h = (tt, tt)
insert_peer-IsDescending peer (other ∷ peers) h =
    elim (Bool-cases (leb_int other.score peer.score)) [
      | inl first ↦ rw first ((first, below-All peer.score other.score peers first h.0), h)
      | inr later ↦
          let under = leb_int_total other.score peer.score later in
          rw later (
            insert_peer-All (λ p. leb_int p.score other.score ≡ true) peer peers under h.0,
            insert_peer-IsDescending peer peers h.1,
          )
    ]

sort_peers-IsDescending : (peers : List PeerScore) → IsDescending (sort_peers peers)
unfolding sort_peers IsDescending
sort_peers-IsDescending [] = tt
sort_peers-IsDescending (peer ∷ peers) =
    insert_peer-IsDescending peer (sort_peers peers) (sort_peers-IsDescending peers)

keep-All : (p : PeerScore → Bool) (peers : List PeerScore) → All (λ e. p e ≡ true) (keep p peers)
unfolding keep
keep-All p [] = tt
keep-All p (peer ∷ peers) = elim (Bool-cases (p peer)) [
  | inl kept ↦ rw kept (kept, keep-All p peers)
  | inr dropped ↦ rw dropped (keep-All p peers)
]

-- The active peers are none that is banned, from the highest score down.
pub get_active_peers_lem :
    (now : ℕ) (peers : Peers)
    → All (λ p. leb p.banned_until_ms now ≡ true) (get_active_peers now peers)
      × IsDescending (get_active_peers now peers)
unfolding get_active_peers
get_active_peers_lem now peers =
    let active = keep (λ p. leb p.banned_until_ms now) (values peers) in
    (
      sort_peers-All (λ p. leb p.banned_until_ms now ≡ true) active
          (keep-All (λ p. leb p.banned_until_ms now) (values peers)),
      sort_peers-IsDescending active,
    )
