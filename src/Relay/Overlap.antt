-- ===== src/Relay/Overlap.antt =====
-- services/relayer/relay-engine.ts: calls of relay that overlap while the sink forwards.
use coc.Prelude.{◌≡◌, ℕ, ◌∷◌, [], List, Text, refl, ◌++◌, Bool, arith}
use coc.Relay.{CrossLayerEnvelope, passed, validate}
use coc.Relay.Engine.{Engine, begin_relay, end_relay}

end_relay-forwarded :
    (i : ℕ) (forwards : Bool) (engine : Engine)
    → (end_relay i forwards engine).0.forwarded ≡ engine.forwarded
unfolding end_relay
end_relay-forwarded i forwards engine = ground arith

module _ (keccak256_hex : List ℕ → Text) where
  begin_relay-passed :
      (envelope : CrossLayerEnvelope) (engine : Engine) (key : Text)
      → validate keccak256_hex envelope engine.guard ≡ passed key
      → (begin_relay keccak256_hex envelope engine).0 ≡ record {
        guard = engine.guard;
        waiting = engine.waiting ++ (envelope, key) ∷ [];
        forwarded = envelope ∷ engine.forwarded;
      }
  unfolding begin_relay
  begin_relay-passed envelope engine key h = rw (begin_relay, h) refl

  -- Two calls with the same envelope that pass the check before either ends both give it to the sink, and
  -- whichever waiting call ends next, and however, does not take the second envelope back.
  pub overlapping_relays_forward_twice :
      (envelope : CrossLayerEnvelope) (engine : Engine) (key : Text) (i : ℕ) (forwards : Bool)
      → validate keccak256_hex envelope engine.guard ≡ passed key
      → (end_relay i forwards
          (begin_relay keccak256_hex envelope
            (begin_relay keccak256_hex envelope engine).0).0).0.forwarded
        ≡ envelope ∷ envelope ∷ engine.forwarded
  overlapping_relays_forward_twice envelope engine key i forwards h =
      let once : Engine = record {
        guard = engine.guard;
        waiting = engine.waiting ++ (envelope, key) ∷ [];
        forwarded = envelope ∷ engine.forwarded;
      } in
      rw (begin_relay-passed envelope engine key h, begin_relay-passed envelope once key h)
        (end_relay-forwarded i forwards record {
          guard = engine.guard;
          waiting = (engine.waiting ++ (envelope, key) ∷ []) ++ (envelope, key) ∷ [];
          forwarded = envelope ∷ envelope ∷ engine.forwarded;
        })
