-- ===== src/PenaltyTracker.antt =====
-- services/dispute/penalty-tracker.ts: penalty points per node, suspension and ejection. The clock is
-- an argument and never runs backwards; the decay is the exact quotient, rounded down.
pub mod Ejection
pub mod Examples
use coc.Prelude.{
  ℕ, Text, true, false, Bool, List, Dict, [], get, ◌+◌, if◌then◌else◌, or_else, none, ltb, ◌∷◌,
  ◌==◌, ◌++◌, leb, has, Option, keep, some, insert, drop, ◌-◌, ◌&&◌, nat_eq, text_eq, length, ◌*◌,
  ◌||◌, ◌/◌, values,
}

pub record PenaltyRecord : Type 0 where
  pub node_id : Text
  pub reason_code : ℕ
  pub points : ℕ
  pub timestamp : ℕ
  pub epoch_id : ℕ

-- `suspendedUntil`: a time, or Infinity.
pub data Until : Type 0 where
  until : ℕ → Until
  forever : Until

pub is_before : ℕ → Until → Bool
is_before now (until t) = ltb now t
is_before now forever = true

pub record NodePenaltyState : Type 0 where
  pub node_id : Text
  pub total_points : ℕ
  pub records : List PenaltyRecord
  pub suspended : Bool
  pub suspended_until : Until

pub record PenaltyConfig : Type 0 where
  pub suspend_threshold : ℕ
  pub eject_threshold : ℕ
  pub decay_rate_per_hour : ℕ
  pub suspend_duration_ms : ℕ
  pub max_records_per_node : ℕ

abbrev pub default_penalty_config : PenaltyConfig
default_penalty_config = record {
  suspend_threshold = 50;
  eject_threshold = 100;
  decay_rate_per_hour = 2;
  suspend_duration_ms = 3_600_000;
  max_records_per_node = 100;
}

-- The points of the reasons ReplayNonce to MissingReceipt, by their codes.
abbrev pub penalty_points : Dict ℕ ℕ
penalty_points = (1, 20) ∷ (2, 15) ∷ (3, 5) ∷ (4, 30) ∷ (5, 10) ∷ []

pub record PenaltyTracker : Type 0 where
  pub config : PenaltyConfig
  pub nodes : Dict Text NodePenaltyState
  pub ejected_nodes : Dict Text (Unit {0})

pub new_tracker : PenaltyConfig → PenaltyTracker
new_tracker config = record { config = config; nodes = []; ejected_nodes = [] }

abbrev pub fresh_state : Text → NodePenaltyState
fresh_state node_id = record {
  node_id = node_id;
  total_points = 0;
  records = [];
  suspended = false;
  suspended_until = until 0;
}

pub get_or_create_state : PenaltyTracker → Text → PenaltyTracker × NodePenaltyState
get_or_create_state tracker node_id = elim (get node_id tracker.nodes) [
  | some state ↦ (tracker, state)
  | none ↦ (
    record tracker { nodes = insert node_id (fresh_state node_id) tracker.nodes },
    fresh_state node_id,
  )
]

-- `slice(-max)`, which keeps everything for 0.
pub keep_last : ℕ → List PenaltyRecord → List PenaltyRecord
keep_last max records = if max == 0 then records else drop (length records - max) records

pub with_points : PenaltyConfig → NodePenaltyState → PenaltyRecord → NodePenaltyState
with_points config state penalty = record state {
  total_points = state.total_points + penalty.points;
  records = keep_last config.max_records_per_node (state.records ++ penalty ∷ []);
}

-- The thresholds of recordPenalty; `state` has the new points.
pub check_thresholds : PenaltyTracker → Text → NodePenaltyState → ℕ → PenaltyTracker
check_thresholds tracker node_id state now =
    if leb tracker.config.eject_threshold state.total_points
    then record tracker {
      ejected_nodes = insert node_id tt tracker.ejected_nodes;
      nodes =
          insert node_id (record state { suspended = true; suspended_until = forever })
            tracker.nodes;
    }
    else if leb tracker.config.suspend_threshold state.total_points
    then record tracker {
      nodes =
          insert node_id
            (record state {
              suspended = true;
              suspended_until = until (now + tracker.config.suspend_duration_ms);
            })
            tracker.nodes;
    }
    else record tracker { nodes = insert node_id state tracker.nodes }

-- The state returned is the one that is then on file.
pub record_penalty : PenaltyTracker → Text → ℕ → ℕ → ℕ → PenaltyTracker
record_penalty tracker node_id reason_code epoch_id now =
    let (tracker', state) = get_or_create_state tracker node_id in
    let penalty : PenaltyRecord = record {
      node_id = node_id;
      reason_code = reason_code;
      points = or_else (get reason_code penalty_points) 10;
      timestamp = now;
      epoch_id = epoch_id;
    } in
    if has node_id tracker.ejected_nodes
    then tracker'
    else check_thresholds tracker' node_id (with_points tracker.config state penalty) now

pub last_record : List PenaltyRecord → Option PenaltyRecord
last_record [] = none
last_record (r ∷ []) = some r
last_record (r ∷ s ∷ rs) = last_record (s ∷ rs)

pub decayed : PenaltyConfig → ℕ → NodePenaltyState → NodePenaltyState
decayed config now state = elim (last_record state.records) [
  | none ↦ state
  | some last ↦
      let decay = (now - last.timestamp) * config.decay_rate_per_hour / 3_600_000 in
      let new_total = state.total_points - decay in
      let suspended =
        leb config.suspend_threshold new_total || is_before now state.suspended_until in
      record state {
        total_points = new_total;
        suspended = suspended;
        suspended_until = if suspended then state.suspended_until else until 0;
      }
]

-- The loop of applyDecay; each node is written in its own place.
pub decay_nodes : PenaltyTracker → ℕ → Dict Text NodePenaltyState → Dict Text NodePenaltyState
decay_nodes tracker now [] = []
decay_nodes tracker now ((node_id, state) ∷ nodes) =
    (node_id, if has node_id tracker.ejected_nodes then state else decayed tracker.config now state)
    ∷ decay_nodes tracker now nodes

pub apply_decay : PenaltyTracker → ℕ → PenaltyTracker
apply_decay tracker now = record tracker { nodes = decay_nodes tracker now tracker.nodes }

pub is_penalized : PenaltyTracker → Text → ℕ → Bool
is_penalized tracker node_id now =
    if has node_id tracker.ejected_nodes then true else elim (get node_id tracker.nodes) [
      | none ↦ false
      | some state ↦ state.suspended && is_before now state.suspended_until
    ]

pub is_ejected : PenaltyTracker → Text → Bool
is_ejected tracker node_id = has node_id tracker.ejected_nodes

pub get_penalized_nodes : PenaltyTracker → ℕ → List NodePenaltyState
get_penalized_nodes tracker now =
    keep
      (λ s. s.suspended && (is_before now s.suspended_until || has s.node_id tracker.ejected_nodes))
      (values tracker.nodes)

pub record PenaltyStats : Type 0 where
  pub tracked : ℕ
  pub suspended : ℕ
  pub ejected : ℕ

pub stats : PenaltyTracker → ℕ → PenaltyStats
stats tracker now = record {
  tracked = length tracker.nodes;
  suspended =
      length (keep (λ s. s.suspended && is_before now s.suspended_until) (values tracker.nodes));
  ejected = length tracker.ejected_nodes;
}

-- What can happen to a tracker.
pub data Operation : Type 0 where
  penalty : Text → ℕ → ℕ → ℕ → Operation
  decay : ℕ → Operation

pub step : PenaltyTracker → Operation → PenaltyTracker
step tracker (penalty node_id reason_code epoch_id now) =
    record_penalty tracker node_id reason_code epoch_id now
step tracker (decay now) = apply_decay tracker now

pub run_operations : PenaltyTracker → List Operation → PenaltyTracker
run_operations tracker [] = tracker
run_operations tracker (op ∷ ops) = run_operations (step tracker op) ops
