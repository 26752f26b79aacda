-- ===== src/Relay/Engine.antt =====
-- services/relayer/relay-engine.ts, RelayEngine.relay: a call checks and gives the envelope to the sink, waits
-- for it, and commits. Calls overlap, and the sink ends them in any order.
use coc.Prelude.{
  ℕ, ◌∷◌, [], List, Text, ◌++◌, Option, none, some, Bool, if◌then◌else◌, item_at, remove_at,
}
use coc.Relay.{
  CrossLayerEnvelope, ReplayGuard, passed, validate, commit, invalid_route, nonce_not_monotonic,
  key_already_seen, encoding_thrown, RelayResult, accepted, relay_failed, refused,
}

-- The guard, the calls that wait for the sink with their keys, and what the sink has been given, the last first.
pub record Engine : Type 0 where
  pub guard : ReplayGuard
  pub waiting : List (CrossLayerEnvelope × Text)
  pub forwarded : List CrossLayerEnvelope

-- A waiting call goes on, by its place among them: the sink has forwarded its envelope, or has thrown.
unfoldable pub end_relay : ℕ → Bool → Engine → Engine × Option RelayResult
end_relay i forwards engine = elim (item_at i engine.waiting) [
  | none ↦ (engine, none)
  | some call ↦
      let left = remove_at i engine.waiting in
      if forwards
      then (
        record {
          guard = commit call.0 call.1 engine.guard;
          waiting = left;
          forwarded = engine.forwarded;
        },
        some accepted,
      )
      else (
        record { guard = engine.guard; waiting = left; forwarded = engine.forwarded },
        some relay_failed,
      )
]

-- What happens at the engine: a call begins, or a waiting one ends.
pub data Event : Type 0 where
  begins : CrossLayerEnvelope → Event
  ends : ℕ → Bool → Event

module _ (keccak256_hex : List ℕ → Text) where
  -- A call up to its await: the check, and the envelope given to the sink. A refused call returns.
  unfoldable pub begin_relay : CrossLayerEnvelope → Engine → Engine × Option RelayResult
  begin_relay envelope engine = elim (validate keccak256_hex envelope engine.guard) [
    | passed key ↦ (
      record {
        guard = engine.guard;
        waiting = engine.waiting ++ (envelope, key) ∷ [];
        forwarded = envelope ∷ engine.forwarded;
      },
      none,
    )
    | invalid_route ↦ (engine, some (refused invalid_route))
    | nonce_not_monotonic ↦ (engine, some (refused nonce_not_monotonic))
    | key_already_seen ↦ (engine, some (refused key_already_seen))
    | encoding_thrown ↦ (engine, some (refused encoding_thrown))
  ]

  unfoldable pub handle : Event → Engine → Engine × Option RelayResult
  handle (begins envelope) engine = begin_relay envelope engine
  handle (ends i forwards) engine = end_relay i forwards engine

  unfoldable pub handle_all : List Event → Engine → Engine
  handle_all [] engine = engine
  handle_all (event ∷ events) engine = handle_all events (handle event engine).0
