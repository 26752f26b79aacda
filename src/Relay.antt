-- ===== src/Relay.antt =====
-- services/relayer/replay-guard.ts and relay-engine.ts: messages between chains, each relayed once.
-- The digest of bytes is a parameter; the file that keeps the state over a restart is left out.
pub mod Engine
pub mod Once
pub mod Overlap
pub mod Examples
use coc.Prelude.{
  ℕ, zero, suc, ◌∷◌, [], none, some, List, Option, if◌then◌else◌, ◌/◌, ◌++◌, length, ◌+◌, ◌==◌, ◌%◌,
  ltb, leb, nat_eq, ◌*◌, ◌^◌, ◌&&◌, Text, text, text_eq, Eq, Dict, get, insert, take, drop, Bool,
  true, false, contains, is_some, ◌↔◌, ◌≡◌, arith,
}
use coc.Merkle.{hex_value, hex_pairs}

pub data CrossLayerMessageType : Type 0 where
  node_registered commitment_updated batch_submitted batch_challenged : CrossLayerMessageType
  epoch_finalized node_slashed : CrossLayerMessageType

-- Without the JSON payload, which neither the guard nor the engine reads.
pub record CrossLayerEnvelope : Type 0 where
  pub src_chain_id : ℕ
  pub dst_chain_id : ℕ
  pub channel_id : Text
  pub nonce : ℕ
  pub payload_hash : Text
  pub source_block_number : ℕ
  pub source_tx_hash : Text
  pub message_type : CrossLayerMessageType

-- The text `${srcChainId}:${channelId}`, which determines both, as a pair
abbrev pub ChannelKey : Type 0
ChannelKey = ℕ × Text

unfoldable pub key_beq : ChannelKey → ChannelKey → Bool
key_beq a b = (a.0 == b.0) && (a.1 == b.1)

pub key_beq_iff : (a b : ChannelKey) → (key_beq a b ≡ true) ↔ (a ≡ b)
unfolding key_beq
key_beq_iff (a, c) (b, d) = ground (arith, text_eq.beq_iff c d)

instance abbrev pub key_eq : Eq ChannelKey
key_eq = record { beq = key_beq; beq_iff = key_beq_iff }

pub channel_key : CrossLayerEnvelope → ChannelKey
channel_key envelope = (envelope.src_chain_id, envelope.channel_id)

-- The bytes of a number, big-endian, in as many places as asked for
unfoldable pub be_bytes : ℕ → ℕ → List ℕ
be_bytes zero n = []
be_bytes (suc places) n = be_bytes places (n / 256) ++ (n % 256) ∷ []

-- `none` is a thrown error.
unfoldable pub encode_u64 : ℕ → Option (List ℕ)
encode_u64 value = if ltb value (2 ^ 64) then some (be_bytes 8 value) else none

unfoldable pub all_hex : Text → Bool
all_hex [] = true
all_hex (c ∷ s) = is_some (hex_value c) && all_hex s

unfoldable pub encode_bytes32 : Text → Option (List ℕ)
encode_bytes32 hex =
    let normalized = if take 2 hex == text "0x" then drop 2 hex else hex in
    if (length normalized == 64) && all_hex normalized then some (hex_pairs normalized) else none

-- `Buffer.concat` of what has been encoded, `none` where an encoding throws
unfoldable pub concat_encoded : List (Option (List ℕ)) → Option (List ℕ)
concat_encoded [] = some []
concat_encoded (none ∷ parts) = none
concat_encoded (some bytes ∷ parts) = elim (concat_encoded parts) [
  | none ↦ none
  | some rest ↦ some (bytes ++ rest)
]

-- The replay keys are in the order in which they were added.
pub record ReplayGuard : Type 0 where
  pub last_nonce_by_channel : Dict ChannelKey ℕ
  pub replay_keys : List Text
  pub max_replay_keys : ℕ

pub data Check : Type 0 where
  passed : Text → Check
  invalid_route nonce_not_monotonic key_already_seen encoding_thrown : Check

-- The eviction loop: the oldest keys go while there is no room.
pub evict_oldest : ℕ → List Text → List Text
evict_oldest max_keys [] = []
evict_oldest max_keys (key ∷ keys_left) =
    let rest = evict_oldest max_keys keys_left in
    if leb max_keys (length (key ∷ keys_left)) then rest else key ∷ keys_left

-- `replayKeys.add(key)`
pub add_key : Text → List Text → List Text
add_key key keys_seen = if contains key keys_seen then keys_seen else keys_seen ++ key ∷ []

pub commit : CrossLayerEnvelope → Text → ReplayGuard → ReplayGuard
commit envelope replay_key guard = record {
  last_nonce_by_channel = insert (channel_key envelope) envelope.nonce guard.last_nonce_by_channel;
  replay_keys = add_key replay_key (evict_oldest guard.max_replay_keys guard.replay_keys);
  max_replay_keys = guard.max_replay_keys;
}

-- `last !== undefined && nonce <= last`
unfoldable pub is_stale : Option ℕ → ℕ → Bool
is_stale none nonce = false
is_stale (some last) nonce = leb nonce last

pub data RelayResult : Type 0 where
  accepted relay_failed : RelayResult
  refused : Check → RelayResult

module _ (keccak256_hex : List ℕ → Text) where
  unfoldable pub build_replay_key : CrossLayerEnvelope → Option Text
  build_replay_key envelope =
      elim (concat_encoded (
        encode_u64 envelope.src_chain_id
        ∷ encode_u64 envelope.dst_chain_id
        ∷ encode_bytes32 envelope.channel_id
        ∷ encode_u64 envelope.nonce
        ∷ encode_bytes32 envelope.payload_hash
        ∷ [])) [ none ↦ none | some encoded ↦ some (keccak256_hex encoded) ]

  unfoldable pub validate : CrossLayerEnvelope → ReplayGuard → Check
  validate envelope guard =
      if envelope.src_chain_id == envelope.dst_chain_id
      then invalid_route
      else if is_stale (get (channel_key envelope) guard.last_nonce_by_channel) envelope.nonce
      then nonce_not_monotonic
      else elim (build_replay_key envelope) [
        | none ↦ encoding_thrown
        | some key ↦ if contains key guard.replay_keys then key_already_seen else passed key
      ]
