-- ===== src/NonceRegistry/Fresh.antt =====
-- services/verifier/nonce-registry.ts: a nonce that has been consumed is refused while it is remembered.
use coc.Prelude.{
  ◌≡◌, ◌≢◌, ℕ, suc, ◌+◌, ◌≤◌, ◌<◌, arith, leb, ltb, Bool, true, false, not, List, [], ◌∷◌, ◌++◌,
  Text, text_eq, text_beq, text_beq_iff, Dict, has, get, insert, keep, length, refl, sym, ap, ◌∙◌,
  Bool-cases, inl, inr, length-insert, nat_beq, All, length-keep-le, subst,
}
use coc.NonceRegistry.{NonceRegistry, is_expired, prune_expired, evict_if_needed, consume}

-- The key with its time, and no more than so many keys after it.
pub record IsKept (key : Text) (ts bound : ℕ) (used : Dict Text ℕ) : Type 0 where
  pub before : Dict Text ℕ
  pub after : Dict Text ℕ
  pub parts : used ≡ before ++ (key, ts) ∷ after
  pub few : length after ≤ bound

true≢false : true ≢ false
true≢false e = absurd (ground arith)

has-middle :
    (key : Text) (ts : ℕ) (before after : Dict Text ℕ)
    → has key (before ++ (key, ts) ∷ after) ≡ true
unfolding get
has-middle key ts [] after = rw ((text_beq_iff key key).1 refl) refl
has-middle key ts ((k, v) ∷ before) after = ground (arith, has-middle key ts before after)

keep-append :
    (p : Text × ℕ → Bool) (xs ys : Dict Text ℕ) → keep p (xs ++ ys) ≡ keep p xs ++ keep p ys
unfolding keep
keep-append p [] ys = refl
keep-append p (x ∷ xs) ys = elim (Bool-cases (p x)) [
  | inl kept ↦ rw kept (ap (◌∷◌ x) (keep-append p xs ys))
  | inr dropped ↦ rw dropped (keep-append p xs ys)
]

evict-middle :
    (max_entries : ℕ) (entry : Text × ℕ) (before after : Dict Text ℕ)
    → length after + 1 < max_entries
    → (left : Dict Text ℕ) × (evict_if_needed max_entries (before ++ entry ∷ after)
        ≡ left ++ entry ∷ after)
unfolding evict_if_needed
evict-middle max_entries entry [] after h =
    let room : leb max_entries (suc (length after)) ≡ false = ground arith in ([], rw room refl)
evict-middle max_entries entry (x ∷ before) after h =
    let (left, rest) = evict-middle max_entries entry before after h in
    elim (Bool-cases (leb max_entries (length (x ∷ before ++ entry ∷ after)))) [
      | inl full ↦ (left, rw full rest)
      | inr room ↦ (x ∷ before, rw room refl)
    ]

insert-middle :
    (k key : Text) (v ts : ℕ) (before after : Dict Text ℕ)
    → text_beq key k ≡ false
    → IsKept key ts (length after + 1) (insert k v (before ++ (key, ts) ∷ after))
unfolding insert
insert-middle k key v ts [] after h = record {
  before = [];
  after = insert k v after;
  parts = rw h refl;
  few = ground (arith, length-insert k v after);
}
insert-middle k key v ts ((j, w) ∷ before) after h = elim (Bool-cases (text_beq j k)) [
  | inl same ↦
      rw same record { before = (j, v) ∷ before; after = after; parts = refl; few = omega arith }
  | inr other ↦
      let g = insert-middle k key v ts before after h in
      rw other record {
        before = (j, w) ∷ g.before;
        after = g.after;
        parts = ap (◌∷◌ (j, w)) g.parts;
        few = g.few;
      }
]

weaken :
    (key : Text) (ts low high : ℕ) (used : Dict Text ℕ)
    → low ≤ high
    → IsKept key ts low used
    → IsKept key ts high used
weaken key ts low high used h g = record {
  before = g.before;
  after = g.after;
  parts = g.parts;
  few = omega (arith, g.few);
}

-- A key that is not expired stays when the expired ones go.
prune-IsKept :
    (key : Text) (ts bound ttl_ms now : ℕ) (used : Dict Text ℕ)
    → IsKept key ts bound used
    → now ≤ ts + ttl_ms
    → IsKept key ts bound (prune_expired ttl_ms now used)
unfolding prune_expired is_expired keep
prune-IsKept key ts bound ttl_ms now used g h =
    let p = λ (e : Text × ℕ). not (is_expired ttl_ms now e.1) in
    let fresh : ltb (ts + ttl_ms) now ≡ false = ground arith in
    let head : keep p ((key, ts) ∷ g.after) ≡ (key, ts) ∷ keep p g.after = rw fresh refl in
    elim (Bool-cases (nat_beq ttl_ms 0)) [
      | inl forever ↦ rw forever g
      | inr limited ↦ rw limited record {
        before = keep p g.before;
        after = keep p g.after;
        parts =
            ap (keep p) g.parts
            ∙ keep-append p g.before ((key, ts) ∷ g.after)
            ∙ ap (λ l. keep p g.before ++ l) head;
        few = omega (arith, g.few, length-keep-le p g.after);
      }
    ]

other_key :
    (key k : Text) (ts bound : ℕ) (used : Dict Text ℕ)
    → IsKept key ts bound used
    → has k used ≡ false
    → text_beq key k ≡ false
other_key key k ts bound used g unseen =
    let seen = ap (has key) g.parts ∙ has-middle key ts g.before g.after in
    elim (Bool-cases (text_beq key k)) [
      | inl same ↦
          let e = (text_beq_iff key k).0 same in
          absurd (true≢false (sym seen ∙ ap (λ t. has t used) e ∙ unseen))
      | inr other ↦ other
    ]

consume-config :
    (k : Text) (now : ℕ) (registry : NonceRegistry)
    → ((consume k now registry).0.ttl_ms ≡ registry.ttl_ms)
      × ((consume k now registry).0.max_entries ≡ registry.max_entries)
unfolding consume
consume-config k now registry =
    elim (Bool-cases (has k (prune_expired registry.ttl_ms now registry.used))) [
      | inl seen ↦ rw seen (refl, refl)
      | inr unseen ↦ rw unseen (refl, refl)
    ]

consume-IsKept :
    (key k : Text) (ts bound now : ℕ) (registry : NonceRegistry)
    → IsKept key ts bound registry.used
    → now ≤ ts + registry.ttl_ms
    → bound + 1 < registry.max_entries
    → IsKept key ts (bound + 1) (consume k now registry).0.used
unfolding consume
consume-IsKept key k ts bound now registry g h l =
    let pruned = prune_expired registry.ttl_ms now registry.used in
    let kept = prune-IsKept key ts bound registry.ttl_ms now registry.used g h in
    elim (Bool-cases (has k pruned)) [
      | inl seen ↦ rw seen (weaken key ts bound (bound + 1) pruned (omega arith) kept)
      | inr unseen ↦
          let (left, evicted) =
            evict-middle registry.max_entries (key, ts) kept.before kept.after
              (omega (arith, kept.few, l)) in
          let room = ap (evict_if_needed registry.max_entries) kept.parts ∙ evicted in
          let different = other_key key k ts bound pruned kept unseen in
          let placed = insert-middle k key now ts left kept.after different in
          rw (unseen, room)
            (weaken key ts (length kept.after + 1) (bound + 1)
              (insert k now (left ++ (key, ts) ∷ kept.after)) (omega (arith, kept.few)) placed)
    ]

-- Calls of consume one after the other, each with its time.
unfoldable pub consume_all : List (Text × ℕ) → NonceRegistry → NonceRegistry
consume_all [] registry = registry
consume_all (call ∷ calls) registry = consume_all calls (consume call.0 call.1 registry).0

consume_all-IsKept :
    (calls : List (Text × ℕ)) (key : Text) (ts bound : ℕ) (registry : NonceRegistry)
    → IsKept key ts bound registry.used
    → All (λ call. call.1 ≤ ts + registry.ttl_ms) calls
    → bound + length calls < registry.max_entries
    → IsKept key ts (bound + length calls) (consume_all calls registry).used
      × (((consume_all calls registry).ttl_ms ≡ registry.ttl_ms)
          × ((consume_all calls registry).max_entries ≡ registry.max_entries))
unfolding consume_all
consume_all-IsKept [] key ts bound registry g h l =
    (weaken key ts bound (bound + 0) registry.used (omega arith) g, (refl, refl))
consume_all-IsKept (call ∷ calls) key ts bound registry g h l =
    let next = (consume call.0 call.1 registry).0 in
    let one = consume-IsKept key call.0 ts bound call.1 registry g h.0 (omega arith) in
    let (ttl, cap) = consume-config call.0 call.1 registry in
    let times = subst (λ t. All (λ c. c.1 ≤ ts + t) calls) (sym ttl) h.1 in
    let (kept, (ttl_after, cap_after)) =
      consume_all-IsKept calls key ts (bound + 1) next one times (omega (arith, cap)) in
    (
      weaken key ts (bound + 1 + length calls) (bound + suc (length calls))
          (consume_all calls next).used (omega arith) kept,
      (ttl_after ∙ ttl, cap_after ∙ cap),
    )

has-evict :
    (max_entries : ℕ) (key : Text) (used : Dict Text ℕ)
    → has key used ≡ false
    → has key (evict_if_needed max_entries used) ≡ false
unfolding evict_if_needed get
has-evict max_entries key [] h = h
has-evict max_entries key ((k, v) ∷ used) h = ground (arith, has-evict max_entries key used)

insert-absent :
    (key : Text) (ts : ℕ) (used : Dict Text ℕ)
    → has key used ≡ false
    → insert key ts used ≡ used ++ (key, ts) ∷ []
unfolding insert get
insert-absent key ts [] h = refl
insert-absent key ts ((k, v) ∷ used) h = elim (Bool-cases (text_beq k key)) [
  | inl same ↦ absurd (ground arith)
  | inr other ↦ rw other (ap (◌∷◌ (k, v)) (insert-absent key ts used (ground arith)))
]

-- A nonce that is new is the last key afterwards.
consume-first :
    (key : Text) (now : ℕ) (registry : NonceRegistry)
    → (consume key now registry).1 ≡ true
    → IsKept key now 0 (consume key now registry).0.used
unfolding consume
consume-first key now registry h =
    let pruned = prune_expired registry.ttl_ms now registry.used in
    let room = evict_if_needed registry.max_entries pruned in
    elim (Bool-cases (has key pruned)) [
      | inl seen ↦ absurd (true≢false (sym h ∙ rw seen refl))
      | inr unseen ↦ rw unseen record {
        before = room;
        after = [];
        parts = insert-absent key now room (has-evict registry.max_entries key pruned unseen);
        few = omega arith;
      }
    ]

-- A nonce that has been consumed is refused at any time until its time to live is over, whatever calls come between
-- within that time, as long as these are fewer than the registry has entries for.
pub consume_once :
    (key : Text) (first later : ℕ) (calls : List (Text × ℕ)) (registry : NonceRegistry)
    → (consume key first registry).1 ≡ true
    → All (λ call. call.1 ≤ first + registry.ttl_ms) calls
    → later ≤ first + registry.ttl_ms
    → length calls < registry.max_entries
    → (consume key later (consume_all calls (consume key first registry).0)).1 ≡ false
unfolding consume
consume_once key first later calls registry h k l m =
    let next = (consume key first registry).0 in
    let (ttl, cap) = consume-config key first registry in
    let times = subst (λ t. All (λ c. c.1 ≤ first + t) calls) (sym ttl) k in
    let (kept, (ttl_after, cap_after)) =
      consume_all-IsKept calls key first 0 next (consume-first key first registry h) times
        (omega (arith, cap, m)) in
    let after = consume_all calls next in
    let still =
      prune-IsKept key first (0 + length calls) after.ttl_ms later after.used kept
        (omega (arith, ttl, ttl_after, l)) in
    let seen = ap (has key) still.parts ∙ has-middle key first still.before still.after in
    rw seen refl
