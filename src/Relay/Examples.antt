-- ===== src/Relay/Examples.antt =====
-- The theorems on the relay at a guard with no message yet, with a concrete function for the digest.
use coc.Merkle.{hex_value, hex_pairs}
use coc.Prelude.{
  remove_at, some, ◌⊎◌, All, insert, item_at, false, ◌≡◌, ℕ, ◌∷◌, [], List, refl, Text, text, true,
  arith, ◌%◌, ◌+◌, length, get, contains, text_beq,
}
use coc.Relay.{
  commit, channel_key, key_eq, key_beq, refused, invalid_route, nonce_not_monotonic,
  CrossLayerEnvelope, ReplayGuard, passed, validate, batch_submitted, build_replay_key,
  concat_encoded, encode_u64, encode_bytes32, be_bytes, all_hex, is_stale,
}
use coc.Relay.Engine.{Engine, begins, ends, begin_relay, end_relay, handle_all}
use coc.Relay.Once.{IsAbove, relay_once}
use coc.Relay.Overlap.{overlapping_relays_forward_twice}

abbrev digest : List ℕ → Text
digest bytes = (97 + length bytes % 6) ∷ []

abbrev zeros_text : Text
zeros_text = text "0000000000000000000000000000000000000000000000000000000000000000"

abbrev message : CrossLayerEnvelope
message = record {
  src_chain_id = 1;
  dst_chain_id = 2;
  channel_id = zeros_text;
  nonce = 7;
  payload_hash = zeros_text;
  source_block_number = 10;
  source_tx_hash = text "0xab";
  message_type = batch_submitted;
}

abbrev new_guard : ReplayGuard
new_guard = record { last_nonce_by_channel = []; replay_keys = []; max_replay_keys = 100 }

message_passes : validate digest message new_guard ≡ passed (text "e")
unfolding validate build_replay_key concat_encoded encode_u64 encode_bytes32 be_bytes all_hex
    is_stale hex_value hex_pairs get contains text_beq
message_passes = refl

abbrev new_engine : Engine
new_engine = record { guard = new_guard; waiting = []; forwarded = [] }

-- The message and one with the next nonce wait for the sink.
abbrev next_message : CrossLayerEnvelope
next_message = record message { nonce = 8 }

abbrev two_waiting : Engine
two_waiting = record {
  guard = new_guard;
  waiting = (message, text "e") ∷ (next_message, text "f") ∷ [];
  forwarded = next_message ∷ message ∷ [];
}

waiting_IsAbove : All (IsAbove (channel_key message) 7) two_waiting.waiting
unfolding IsAbove
waiting_IsAbove = ((λ e. omega arith), ((λ e. omega arith), tt))

-- The second call ends with an error of the sink before the message comes again.
relay_once_example :
    let after =
      handle_all digest
        (ends 0 false ∷ begins next_message ∷ [])
        (end_relay 0 true two_waiting).0 in
    (begin_relay digest message after ≡ (after, some (refused invalid_route)))
    ⊎ (begin_relay digest message after ≡ (after, some (refused nonce_not_monotonic)))
unfolding item_at
relay_once_example =
    relay_once digest two_waiting 0 {call = (message, text "e")}
      (ends 0 false ∷ begins next_message ∷ []) message refl waiting_IsAbove refl (omega arith)

-- The two calls end in the other order, and the channel is back at the smaller nonce.
late_commit_lowers_nonce :
    get
      (channel_key message)
      (end_relay 0 true (end_relay 1 true two_waiting).0).0.guard.last_nonce_by_channel
    ≡ some 7
unfolding end_relay remove_at item_at commit channel_key insert get text_beq key_beq
late_commit_lowers_nonce = refl

overlapping_relays_forward_twice_example :
    (end_relay 1 true
      (begin_relay digest message (begin_relay digest message new_engine).0).0).0.forwarded
    ≡ message ∷ message ∷ []
overlapping_relays_forward_twice_example =
    overlapping_relays_forward_twice digest message new_engine (text "e") 1 true message_passes
