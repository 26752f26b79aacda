-- ===== src/Challenges/Quota.antt =====
-- services/challenger/challenge-quota.ts: ChallengeQuota, and the bound on what it lets through.
use coc.Prelude.{
  ◌∷◌, [], nat_eq, Bool, true, false, text_eq, ◌≡◌, Text, ◌==◌, Eq, ℕ, Dict, All, keep, ◌↔◌, ◌&&◌,
  Option, get, insert, not, ◌≤◌, ◌<◌, arith, ltb, ◌+◌, if◌then◌else◌, some, leb, length, none, ◌-◌,
  get-insert, All-insert, refl, ◌∙◌, subst, sym,
}

pub data ChallengeType : Type 0 where
  uptime storage relay : ChallengeType

unfoldable pub type_beq : ChallengeType → ChallengeType → Bool
type_beq uptime uptime = true
type_beq storage storage = true
type_beq relay relay = true
type_beq _ _ = false

pub type_beq_iff : (a b : ChallengeType) → (type_beq a b ≡ true) ↔ (a ≡ b)
unfolding type_beq
type_beq_iff a b = ground arith

-- The text `${nodeId}:${epochId}:${challengeType}`, as the three parts that it determines
pub record QuotaKey : Type 0 where
  pub node_id : Text
  pub epoch_id : ℕ
  pub challenge_type : ChallengeType

unfoldable pub quota_key_beq : QuotaKey → QuotaKey → Bool
quota_key_beq a b =
    (a.node_id == b.node_id)
    && ((a.epoch_id == b.epoch_id) && type_beq a.challenge_type b.challenge_type)

pub quota_key_beq_iff : (a b : QuotaKey) → (quota_key_beq a b ≡ true) ↔ (a ≡ b)
unfolding quota_key_beq
quota_key_beq_iff a b =
    ground
      (arith, text_eq.beq_iff a.node_id b.node_id, type_beq_iff a.challenge_type b.challenge_type)

instance abbrev pub quota_key_eq : Eq QuotaKey
quota_key_eq = record { beq = quota_key_beq; beq_iff = quota_key_beq_iff }

pub record QuotaConfig : Type 0 where
  pub max_per_epoch : ChallengeType → ℕ
  pub min_interval_ms : ChallengeType → ℕ

pub record Counter : Type 0 where
  pub count : ℕ
  pub last_issued_at_ms : ℕ

abbrev pub Counters : Type 0
Counters = Dict QuotaKey Counter

pub data Permit : Type 0 where
  granted quota_exceeded rate_limited : Permit

pub permit_after : QuotaConfig → ChallengeType → ℕ → Option Counter → Permit
permit_after cfg challenge_type now_ms none = granted
permit_after cfg challenge_type now_ms (some current) =
    if leb (cfg.max_per_epoch challenge_type) current.count
    then quota_exceeded
    else if ltb now_ms (current.last_issued_at_ms + cfg.min_interval_ms challenge_type)
    then rate_limited
    else granted

-- `now - last < interval` is written without the difference, which may be negative.
pub can_issue : QuotaConfig → QuotaKey → ℕ → Counters → Permit
can_issue cfg key now_ms counters = permit_after cfg key.challenge_type now_ms (get key counters)

pub counter_after : ℕ → Option Counter → Counter
counter_after now_ms none = record { count = 1; last_issued_at_ms = now_ms }
counter_after now_ms (some current) = record {
  count = current.count + 1;
  last_issued_at_ms = now_ms;
}

pub commit_issue : QuotaKey → ℕ → Counters → Counters
commit_issue key now_ms counters = insert key (counter_after now_ms (get key counters)) counters

-- The counters without those of older epochs, and how many these were.
pub prune_epochs_before : ℕ → Counters → Counters × ℕ
prune_epochs_before epoch_id counters =
    let kept = keep (λ e. not (ltb (e.0.epoch_id) epoch_id)) counters in
    (kept, length counters - length kept)

-- The issue by the permit, for each permit.
issue_by : Permit → QuotaKey → ℕ → Counters → Counters
issue_by permit key now_ms counters = elim permit [
  | granted ↦ commit_issue key now_ms counters
  | quota_exceeded ↦ counters
  | rate_limited ↦ counters
]

-- What a challenger does: it commits an issue where it is granted one.
pub issue : QuotaConfig → QuotaKey → ℕ → Counters → Counters
issue cfg key now_ms counters = issue_by (can_issue cfg key now_ms counters) key now_ms counters

-- No counter is above the quota of its type.
unfoldable pub IsBounded : QuotaConfig → Counters → Type 0
IsBounded cfg counters = All (λ e. e.1.count ≤ cfg.max_per_epoch e.0.challenge_type) counters

permit_after-some_iff :
    (cfg : QuotaConfig) (challenge_type : ChallengeType) (now_ms : ℕ) (c : Counter)
    → (permit_after cfg challenge_type now_ms (some c) ≡ granted) ↔ (
        (c.count < cfg.max_per_epoch challenge_type)
        × (c.last_issued_at_ms + cfg.min_interval_ms challenge_type ≤ now_ms))
unfolding permit_after
permit_after-some_iff cfg challenge_type now_ms c = ground arith

counter_after-count :
    (cfg : QuotaConfig) (challenge_type : ChallengeType) (now_ms : ℕ) (o : Option Counter)
    → 0 < cfg.max_per_epoch challenge_type
    → permit_after cfg challenge_type now_ms o ≡ granted
    → (counter_after now_ms o).count ≤ cfg.max_per_epoch challenge_type
unfolding permit_after counter_after
counter_after-count cfg challenge_type now_ms none h e = omega arith
counter_after-count cfg challenge_type now_ms (some c) h e = ground arith

counter_after-last :
    (now_ms : ℕ) (o : Option Counter) → (counter_after now_ms o).last_issued_at_ms ≡ now_ms
unfolding counter_after
counter_after-last now_ms none = refl
counter_after-last now_ms (some c) = refl

-- An issue right after another one of the same node, epoch and type is granted exactly when the quota leaves one more
-- and the interval has passed.
pub can_issue-commit_issue_iff :
    (cfg : QuotaConfig) (key : QuotaKey) (first later : ℕ) (counters : Counters)
    → (can_issue cfg key later (commit_issue key first counters) ≡ granted) ↔ (
        ((counter_after first (get key counters)).count < cfg.max_per_epoch key.challenge_type)
        × (first + cfg.min_interval_ms key.challenge_type ≤ later))
unfolding can_issue commit_issue permit_after counter_after
can_issue-commit_issue_iff cfg key first later counters =
    let stored = counter_after first (get key counters) in
    let found : get key (insert key stored counters) ≡ some stored =
      get-insert key key stored counters ∙ rw ((quota_key_beq_iff key key).1 refl) refl in
    let exact = permit_after-some_iff cfg key.challenge_type later stored in
    subst
      (λ o. (permit_after cfg key.challenge_type later o ≡ granted) ↔ (
        (stored.count < cfg.max_per_epoch key.challenge_type)
        × (first + cfg.min_interval_ms key.challenge_type ≤ later)))
      (sym found)
      (subst
        (λ t. (permit_after cfg key.challenge_type later (some stored) ≡ granted) ↔ (
          (stored.count < cfg.max_per_epoch key.challenge_type)
          × (t + cfg.min_interval_ms key.challenge_type ≤ later)))
        (counter_after-last first (get key counters)) exact)

issue_by-IsBounded :
    (cfg : QuotaConfig) (key : QuotaKey) (now_ms : ℕ) (counters : Counters) (permit : Permit)
    → 0 < cfg.max_per_epoch key.challenge_type
    → IsBounded cfg counters
    → can_issue cfg key now_ms counters ≡ permit
    → IsBounded cfg (issue_by permit key now_ms counters)
unfolding IsBounded issue_by can_issue commit_issue
issue_by-IsBounded cfg key now_ms counters granted h k e =
    All-insert (λ entry. entry.1.count ≤ cfg.max_per_epoch entry.0.challenge_type) key
      (counter_after now_ms (get key counters)) counters
      (counter_after-count cfg key.challenge_type now_ms (get key counters) h e) k
issue_by-IsBounded cfg key now_ms counters quota_exceeded h k e = k
issue_by-IsBounded cfg key now_ms counters rate_limited h k e = k

-- Whatever a challenger issues, each within its quota of at least one, no counter passes its quota.
pub issue-IsBounded :
    (cfg : QuotaConfig) (key : QuotaKey) (now_ms : ℕ) (counters : Counters)
    → 0 < cfg.max_per_epoch key.challenge_type
    → IsBounded cfg counters
    → IsBounded cfg (issue cfg key now_ms counters)
unfolding IsBounded issue issue_by can_issue commit_issue
issue-IsBounded cfg key now_ms counters h k =
    issue_by-IsBounded cfg key now_ms counters (can_issue cfg key now_ms counters) h k refl

-- Pruning forgets exactly the counters of the epochs before the one given.
pub get-prune_epochs_before :
    (epoch_id : ℕ) (key : QuotaKey) (counters : Counters)
    → get key (prune_epochs_before epoch_id counters).0
      ≡ (if ltb key.epoch_id epoch_id then none else get key counters)
unfolding prune_epochs_before keep get
get-prune_epochs_before epoch_id key [] = ground arith
get-prune_epochs_before epoch_id key ((other, counter) ∷ counters) =
    ground (arith, quota_key_beq_iff other key, get-prune_epochs_before epoch_id key counters)
