-- ===== src/NonceRegistry.antt =====
-- services/verifier/nonce-registry.ts: class NonceRegistry in memory. The clock and the digest of bytes are
-- arguments; the file that keeps the keys over a restart is left out.
pub mod Fresh
pub mod Examples
use coc.Prelude.{
  Option, none, some, drop, ◌++◌, max, ℕ, zero, suc, ◌+◌, ◌≤◌, leb, ltb, Bool, true, false, not,
  ◌==◌, nat_eq, if◌then◌else◌, List, [], ◌∷◌, Text, text_eq, Dict, has, insert, keep, length,
}
use coc.Merkle.{hex_pairs}
use coc.Relay.{encode_u64}

pub record NonceRegistry : Type 0 where
  pub used : Dict Text ℕ
  pub ttl_ms : ℕ
  pub max_entries : ℕ

-- `ts < now - ttlMs`, without the difference, which may be negative
unfoldable pub is_expired : ℕ → ℕ → ℕ → Bool
is_expired ttl_ms now ts = ltb (ts + ttl_ms) now

-- A time to live that is not positive keeps every key.
unfoldable pub prune_expired : ℕ → ℕ → Dict Text ℕ → Dict Text ℕ
prune_expired ttl_ms now used =
    if ttl_ms == 0 then used else keep (λ e. not (is_expired ttl_ms now e.1)) used

-- The oldest keys go while there is no room; a Map is in the order in which its keys were set.
unfoldable pub evict_if_needed : ℕ → Dict Text ℕ → Dict Text ℕ
evict_if_needed max_entries [] = []
evict_if_needed max_entries (entry ∷ used) =
    let rest = evict_if_needed max_entries used in
    if leb max_entries (length (entry ∷ used)) then rest else entry ∷ used

-- The second part is what consume returns: whether the nonce is new.
unfoldable pub consume : Text → ℕ → NonceRegistry → NonceRegistry × Bool
consume key now registry =
    let pruned = prune_expired registry.ttl_ms now registry.used in
    let room = evict_if_needed registry.max_entries pruned in
    if has key pruned
    then (record registry { used = pruned }, false)
    else (record registry { used = insert key now room }, true)

pub cleanup_nonces : ℕ → NonceRegistry → NonceRegistry
cleanup_nonces now registry = record registry {
  used = prune_expired registry.ttl_ms now registry.used;
}

pub new_registry : ℕ → ℕ → NonceRegistry
new_registry ttl_ms max_entries = record {
  used = [];
  ttl_ms = ttl_ms;
  max_entries = max 1 max_entries;
}

-- The fields of a ChallengeMessage that the key is made of.
pub record ChallengeMessage : Type 0 where
  pub challenger_id : Text
  pub node_id : Text
  pub nonce : Text
  pub challenge_type : Text
  pub epoch_id : ℕ

-- `none` where the epoch is no 64-bit number, for which the write throws. The type is one ASCII letter.
pub build_key : (List ℕ → Text) → ChallengeMessage → Option Text
build_key keccak256_hex challenge = elim (encode_u64 challenge.epoch_id) [
  | none ↦ none
  | some epoch ↦ some (
      keccak256_hex (
        hex_pairs (drop 2 challenge.challenger_id)
        ++ hex_pairs (drop 2 challenge.node_id)
        ++ hex_pairs (drop 2 challenge.nonce)
        ++ challenge.challenge_type
        ++ epoch))
]

-- The whole of consume: the expired keys go before the key is built.
pub consume_challenge :
    (List ℕ → Text) → ChallengeMessage → ℕ → NonceRegistry → NonceRegistry × Option Bool
consume_challenge keccak256_hex challenge now registry = elim (build_key keccak256_hex challenge) [
  | none ↦ (cleanup_nonces now registry, none)
  | some key ↦ ((consume key now registry).0, some (consume key now registry).1)
]
