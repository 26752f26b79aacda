-- ===== src/RewardTree/Examples.antt =====
-- The theorem on the tree of rewards at an epoch with two rewards, with a concrete digest.
use coc.Prelude.{ℕ, ◌∷◌, [], List, ◌+◌, ◌%◌, length, Text, text}
use coc.Scoring.{EpochRewardResult}

-- One hex letter by the number of bytes.
abbrev digest : List ℕ → Text
digest bytes = (97 + length bytes % 6) ∷ []

abbrev result : EpochRewardResult
result = record {
  rewards = (text "0xBB", 40) ∷ (text "0x0a", 5) ∷ (text "0x07", 0) ∷ [];
  bucket_rewards = record { uptime = 45; storage = 0; relay = 0 };
  capped_nodes = [];
  treasury_overflow = 0;
}
