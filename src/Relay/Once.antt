-- ===== src/Relay/Once.antt =====
-- services/relayer/replay-guard.ts and relay-engine.ts: what is refused after an envelope has been accepted.
use coc.Prelude.{
  All-remove_at, All-item_at, All-append, ◌≡◌, ℕ, ◌∷◌, [], some, List, arith, ◌≤◌, Bool, true,
  false, Text, get, get-insert, Bool-cases, inl, inr, refl, sym, ap, ◌∙◌, ◌⊎◌, All, item_at,
  Option-cases, ◌==◌, nat_eq,
}
use coc.Relay.{
  key_already_seen, encoding_thrown, CrossLayerEnvelope, ReplayGuard, Check, passed, channel_key,
  ChannelKey, key_eq, commit, is_stale, validate, nonce_not_monotonic, invalid_route, refused,
  key_beq, key_beq_iff,
}
use coc.Relay.Engine.{Engine, Event, begins, ends, begin_relay, end_relay, handle, handle_all}

-- The last nonce of a channel is at least a number.
unfoldable pub HasReached : ChannelKey → ℕ → ReplayGuard → Type 0
HasReached key bound guard =
    (last : ℕ) × ((get key guard.last_nonce_by_channel ≡ some last) × (bound ≤ last))

-- A call that is on the channel has at least a nonce.
unfoldable pub IsAbove : ChannelKey → ℕ → CrossLayerEnvelope × Text → Type 0
IsAbove key bound call = channel_key call.0 ≡ key → bound ≤ call.0.nonce

-- The channel has reached a nonce, and no waiting call takes it back below.
unfoldable pub IsSettled : ChannelKey → ℕ → Engine → Type 0
IsSettled key bound engine =
    HasReached key bound engine.guard × All (IsAbove key bound) engine.waiting

is_stale-lt :
    (last nonce bound : ℕ) → is_stale (some last) nonce ≡ false → bound ≤ last → bound ≤ nonce
unfolding is_stale
is_stale-lt last nonce bound h k = ground arith

commit-HasReached :
    (call : CrossLayerEnvelope × Text) (guard : ReplayGuard) (key : ChannelKey) (bound : ℕ)
    → IsAbove key bound call
    → HasReached key bound guard
    → HasReached key bound (commit call.0 call.1 guard)
unfolding commit HasReached IsAbove
commit-HasReached call guard key bound above (last, (known, k)) =
    let sent = channel_key call.0 in
    let written = get-insert sent key call.0.nonce guard.last_nonce_by_channel in
    elim (Bool-cases (key_beq sent key)) [
      | inl same ↦ (call.0.nonce, (written ∙ rw same refl, above ((key_beq_iff sent key).0 same)))
      | inr other ↦ (last, (written ∙ rw other known, k))
    ]

-- A commit brings its channel to its nonce.
commit-reaches :
    (call : CrossLayerEnvelope × Text) (guard : ReplayGuard)
    → HasReached (channel_key call.0) call.0.nonce (commit call.0 call.1 guard)
unfolding commit HasReached
commit-reaches call guard =
    let sent = channel_key call.0 in
    (
      call.0.nonce,
      (
        get-insert sent sent call.0.nonce guard.last_nonce_by_channel
            ∙ rw ((key_beq_iff sent sent).1 refl) refl,
        omega arith,
      ),
    )

end_relay-IsSettled :
    (i : ℕ) (forwards : Bool) (engine : Engine) (key : ChannelKey) (bound : ℕ)
    → IsSettled key bound engine
    → IsSettled key bound (end_relay i forwards engine).0
unfolding end_relay IsSettled
end_relay-IsSettled i forwards engine key bound (reached, above) =
    elim (Option-cases (item_at i engine.waiting)) [
      | inl none_there ↦ rw (end_relay, none_there) (reached, above)
      | inr (call, there) ↦
          let left = All-remove_at (IsAbove key bound) i engine.waiting above in
          let own = All-item_at (IsAbove key bound) i engine.waiting {x = call} above there in
          elim (Bool-cases forwards) [
            | inl fine ↦
                rw (end_relay, there, fine)
                  (commit-HasReached call engine.guard key bound own reached, left)
            | inr thrown ↦ rw (end_relay, there, thrown) (reached, left)
          ]
    ]

module _ (keccak256_hex : List ℕ → Text) where
  -- A check that passes is on a nonce above the last one of the channel.
  validate-passed :
      (envelope : CrossLayerEnvelope) (guard : ReplayGuard) (key : Text)
      → validate keccak256_hex envelope guard ≡ passed key
      → is_stale (get (channel_key envelope) guard.last_nonce_by_channel) envelope.nonce ≡ false
  unfolding validate
  validate-passed envelope guard key h = ground arith

  validate-IsAbove :
      (envelope : CrossLayerEnvelope) (guard : ReplayGuard) (replay_key : Text) (key : ChannelKey)
      (bound : ℕ)
      → HasReached key bound guard
      → validate keccak256_hex envelope guard ≡ passed replay_key
      → IsAbove key bound (envelope, replay_key)
  unfolding HasReached IsAbove
  validate-IsAbove envelope guard replay_key key bound (last, (known, k)) h same =
      let fresh : is_stale (some last) envelope.nonce ≡ false =
        sym (
          ap (λ o. is_stale o envelope.nonce)
            (ap (λ c. get c guard.last_nonce_by_channel) same ∙ known))
        ∙ validate-passed envelope guard replay_key h in
      is_stale-lt last envelope.nonce bound fresh k

  begin_relay-IsSettled :
      (envelope : CrossLayerEnvelope) (engine : Engine) (key : ChannelKey) (bound : ℕ)
      (check : Check)
      → validate keccak256_hex envelope engine.guard ≡ check
      → IsSettled key bound engine
      → IsSettled key bound (begin_relay keccak256_hex envelope engine).0
  unfolding begin_relay IsSettled
  begin_relay-IsSettled envelope engine key bound (passed k) h (reached, above) =
      let own = validate-IsAbove envelope engine.guard k key bound reached h in
      rw (begin_relay, h)
        (
          reached,
          All-append (IsAbove key bound) engine.waiting ((envelope, k) ∷ []) above (own, tt),
        )
  begin_relay-IsSettled envelope engine key bound invalid_route h s = rw (begin_relay, h) s
  begin_relay-IsSettled envelope engine key bound nonce_not_monotonic h s = rw (begin_relay, h) s
  begin_relay-IsSettled envelope engine key bound key_already_seen h s = rw (begin_relay, h) s
  begin_relay-IsSettled envelope engine key bound encoding_thrown h s = rw (begin_relay, h) s

  handle_all-IsSettled :
      (events : List Event) (engine : Engine) (key : ChannelKey) (bound : ℕ)
      → IsSettled key bound engine
      → IsSettled key bound (handle_all keccak256_hex events engine)
  unfolding handle_all handle
  handle_all-IsSettled [] engine key bound s = s
  handle_all-IsSettled (begins envelope ∷ events) engine key bound s =
      handle_all-IsSettled events (begin_relay keccak256_hex envelope engine).0 key bound (
        begin_relay-IsSettled envelope engine key bound
          (validate keccak256_hex envelope engine.guard) refl s)
  handle_all-IsSettled (ends i forwards ∷ events) engine key bound s =
      handle_all-IsSettled events (end_relay i forwards engine).0 key bound
        (end_relay-IsSettled i forwards engine key bound s)

  -- On a settled channel a nonce that is not above is refused.
  validate-stale :
      (envelope : CrossLayerEnvelope) (guard : ReplayGuard) (bound : ℕ)
      → HasReached (channel_key envelope) bound guard
      → envelope.nonce ≤ bound
      → (validate keccak256_hex envelope guard ≡ invalid_route)
        ⊎ (validate keccak256_hex envelope guard ≡ nonce_not_monotonic)
  unfolding validate HasReached is_stale
  validate-stale envelope guard bound (last, (known, k)) h =
      elim (Bool-cases (envelope.src_chain_id == envelope.dst_chain_id)) [
        | inl loop ↦ inl (rw (validate, loop) refl)
        | inr route ↦
            let stale : is_stale (some last) envelope.nonce ≡ true = ground arith in
            inr (rw (validate, route, known, stale) refl)
      ]

  end_relay-reaches :
      (engine : Engine) (i : ℕ) {call : CrossLayerEnvelope × Text}
      → item_at i engine.waiting ≡ some call
      → All (IsAbove (channel_key call.0) call.0.nonce) engine.waiting
      → IsSettled (channel_key call.0) call.0.nonce (end_relay i true engine).0
  unfolding end_relay IsSettled
  end_relay-reaches engine i {call} there above =
      rw (end_relay, there)
        (
          commit-reaches call engine.guard,
          All-remove_at (IsAbove (channel_key call.0) call.0.nonce) i engine.waiting above,
        )

  -- The sink has forwarded the envelope of a waiting call, and at that time no waiting call is on its
  -- channel with a smaller nonce. Then, whatever calls begin and end in whatever order after that, a
  -- further call with an envelope of the channel that has that nonce or a smaller one is refused: it
  -- returns at once, and neither the guard nor the sink sees it.
  pub relay_once :
      (engine : Engine) (i : ℕ) {call : CrossLayerEnvelope × Text} (events : List Event)
      (second : CrossLayerEnvelope)
      → item_at i engine.waiting ≡ some call
      → All (IsAbove (channel_key call.0) call.0.nonce) engine.waiting
      → channel_key second ≡ channel_key call.0
      → second.nonce ≤ call.0.nonce
      → let after = handle_all keccak256_hex events (end_relay i true engine).0 in
        (begin_relay keccak256_hex second after ≡ (after, some (refused invalid_route)))
        ⊎ (begin_relay keccak256_hex second after ≡ (after, some (refused nonce_not_monotonic)))
  unfolding begin_relay IsSettled
  relay_once engine i {call} events second there above same older =
      let after = handle_all keccak256_hex events (end_relay i true engine).0 in
      let settled =
        handle_all-IsSettled events (end_relay i true engine).0 (channel_key call.0) call.0.nonce
          (end_relay-reaches engine i {call = call} there above) in
      elim (validate-stale second after.guard call.0.nonce (rw same settled.0) older) [
        | inl loop ↦ inl (rw (begin_relay, loop) refl)
        | inr stale ↦ inr (rw (begin_relay, stale) refl)
      ]
