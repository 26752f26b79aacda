-- ===== src/PeerScoring.antt =====
-- node/src/peer-scoring.ts: class PeerScoring. The clock is an argument.
pub mod Score
pub mod Bounds
pub mod Bans
pub mod Examples
use coc.Prelude.{
  ℕ, ◌+◌, ◌*◌, ◌^◌, ◌-◌, ◌≤◌, min, max, ltb, leb, Bool, true, false, not, ◌&&◌, if◌then◌else◌, none,
  some, Option, List, [], ◌∷◌, Text, text_eq, Dict, get, has, insert, erase, keys, values, keep,
  length, map,
}
use coc.PeerScoring.Score.{ℤ, pos, negsuc, leb_int, plus_nat, minus_nat, min_int, max_int}

pub record PeerScore : Type 0 where
  pub id : Text
  pub url : Text
  pub score : ℤ
  pub success_count : ℕ
  pub failure_count : ℕ
  pub last_seen_ms : ℕ
  pub banned_until_ms : ℕ
  pub ban_count : ℕ

pub record PeerScoringConfig : Type 0 where
  pub initial_score : ℤ
  pub max_score : ℤ
  pub min_score : ℤ
  pub ban_threshold : ℤ
  pub ban_duration_ms : ℕ
  pub decay_interval_ms : ℕ
  pub decay_amount : ℕ
  pub success_reward : ℕ
  pub failure_penalty : ℕ
  pub invalid_data_penalty : ℕ
  pub timeout_penalty : ℕ
  pub max_peers : ℕ

abbrev pub default_scoring : PeerScoringConfig
default_scoring = record {
  initial_score = pos 100;
  max_score = pos 200;
  min_score = negsuc 99;
  ban_threshold = pos 0;
  ban_duration_ms = 30 * 60 * 1000;
  decay_interval_ms = 60 * 1000;
  decay_amount = 1;
  success_reward = 2;
  failure_penalty = 5;
  invalid_data_penalty = 20;
  timeout_penalty = 10;
  max_peers = 10_000;
}

abbrev pub Peers : Type 0
Peers = Dict Text PeerScore

-- The loop for the first peer of the lowest score.
pub worst_from : Text → ℤ → Peers → Text
worst_from worst worst_score [] = worst
worst_from worst worst_score ((id, peer) ∷ peers) =
    if leb_int worst_score peer.score
    then worst_from worst worst_score peers
    else worst_from id peer.score peers

-- The text is empty where there is no peer.
pub worst_id : Peers → Text
worst_id [] = []
worst_id ((id, peer) ∷ peers) = worst_from id peer.score peers

-- `if (worstId)` passes over a peer whose id is the empty text.
pub evict_worst : Peers → Peers
evict_worst peers = elim (worst_id peers) [ [] ↦ peers | c ∷ cs ↦ erase (c ∷ cs) peers ]

pub new_peer : PeerScoringConfig → Text → Text → ℕ → PeerScore
new_peer cfg id url now = record {
  id = id;
  url = url;
  score = cfg.initial_score;
  success_count = 0;
  failure_count = 0;
  last_seen_ms = now;
  banned_until_ms = 0;
  ban_count = 0;
}

pub add_peer : PeerScoringConfig → Text → Text → ℕ → Peers → Peers
add_peer cfg id url now peers =
    let room = if leb cfg.max_peers (length peers) then evict_worst peers else peers in
    elim (get id peers) [
      | some peer ↦ insert id (record peer { url = url }) peers
      | none ↦ insert id (new_peer cfg id url now) room
    ]

pub with_success : PeerScoringConfig → ℕ → PeerScore → PeerScore
with_success cfg now peer = record peer {
  score = min_int (plus_nat peer.score cfg.success_reward) cfg.max_score;
  success_count = peer.success_count + 1;
  last_seen_ms = now;
}

-- `this.peers.get(id)`, a change of it, and the write back
pub change_peer : Text → (PeerScore → PeerScore) → Peers → Peers
change_peer id change peers = elim (get id peers) [
  | none ↦ peers
  | some peer ↦ insert id (change peer) peers
]

pub record_success : PeerScoringConfig → Text → ℕ → Peers → Peers
record_success cfg id now peers = change_peer id (with_success cfg now) peers

abbrev pub max_ban_ms : ℕ
max_ban_ms = 24 * 60 * 60 * 1000

pub exponential_ban_ms : PeerScoringConfig → ℕ → ℕ
exponential_ban_ms cfg ban_count =
    let exponent = min (ban_count - 1) 10 in
    let ban_ms = cfg.ban_duration_ms * 2 ^ exponent in
    if ltb ban_ms (2 ^ 53) then min ban_ms max_ban_ms else max_ban_ms

-- recordFailure, recordInvalidData and recordTimeout, which differ in the penalty
pub with_penalty : PeerScoringConfig → ℕ → ℕ → PeerScore → PeerScore
with_penalty cfg penalty now peer =
    let new_score = max_int (minus_nat peer.score penalty) cfg.min_score in
    let should_ban = leb_int new_score cfg.ban_threshold in
    let new_ban_count = if should_ban then peer.ban_count + 1 else peer.ban_count in
    record peer {
      score = new_score;
      failure_count = peer.failure_count + 1;
      ban_count = new_ban_count;
      banned_until_ms =
          if should_ban then now + exponential_ban_ms cfg new_ban_count else peer.banned_until_ms;
    }

pub record_failure : PeerScoringConfig → Text → ℕ → Peers → Peers
record_failure cfg id now peers = change_peer id (with_penalty cfg cfg.failure_penalty now) peers

pub record_invalid_data : PeerScoringConfig → Text → ℕ → Peers → Peers
record_invalid_data cfg id now peers =
    change_peer id (with_penalty cfg cfg.invalid_data_penalty now) peers

pub record_timeout : PeerScoringConfig → Text → ℕ → Peers → Peers
record_timeout cfg id now peers = change_peer id (with_penalty cfg cfg.timeout_penalty now) peers

pub is_banned : Text → ℕ → Peers → Bool
is_banned id now peers = elim (get id peers) [
  | none ↦ false
  | some peer ↦ ltb now peer.banned_until_ms
]

pub get_score : Text → Peers → ℤ
get_score id peers = elim (get id peers) [ none ↦ pos 0 | some peer ↦ peer.score ]

-- A stable sort by score, the highest first.
pub insert_peer : PeerScore → List PeerScore → List PeerScore
insert_peer peer [] = peer ∷ []
insert_peer peer (other ∷ peers) =
    let rest = insert_peer peer peers in
    if leb_int other.score peer.score then peer ∷ other ∷ peers else other ∷ rest

pub sort_peers : List PeerScore → List PeerScore
sort_peers [] = []
sort_peers (peer ∷ peers) = insert_peer peer (sort_peers peers)

pub get_active_peers : ℕ → Peers → List PeerScore
get_active_peers now peers = sort_peers (keep (λ p. leb p.banned_until_ms now) (values peers))

pub get_all_peers : Peers → List PeerScore
get_all_peers peers = values peers

pub remove_peer : Text → Peers → Peers
remove_peer id peers = erase id peers

-- The score one step nearer to the initial score.
pub decayed_score : PeerScoringConfig → ℤ → ℤ
decayed_score cfg score =
    if not (leb_int score cfg.initial_score)
    then max_int (minus_nat score cfg.decay_amount) cfg.initial_score
    else if not (leb_int cfg.initial_score score)
    then min_int (plus_nat score cfg.decay_amount) cfg.initial_score
    else score

pub decayed_peer : PeerScoringConfig → ℕ → PeerScore → PeerScore
decayed_peer cfg now peer =
    if ltb now peer.banned_until_ms
    then peer
    else record peer { score = decayed_score cfg peer.score }

-- Every entry is written back under its own key; a write of an equal score changes nothing.
pub apply_decay : PeerScoringConfig → ℕ → Peers → Peers
apply_decay cfg now [] = []
apply_decay cfg now ((id, peer) ∷ peers) =
    (id, decayed_peer cfg now peer) ∷ apply_decay cfg now peers
