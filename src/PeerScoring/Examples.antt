-- ===== src/PeerScoring/Examples.antt =====
-- The theorems on peer scores at two peers, one of them banned.
use coc.Prelude.{[], ◌∷◌, List, text, refl}
use coc.PeerScoring.Score.{pos, negsuc, leb_int, IsBetween}
use coc.PeerScoring.{PeerScore, default_scoring, Peers}
use coc.PeerScoring.Bounds.{
  AllScored, IsOrdered, Operation, succeeded, failed, decayed_at, apply_operations,
  apply_operations-AllScored, IsScored,
}

abbrev good_peer : PeerScore
good_peer = record {
  id = text "a";
  url = text "http://a";
  score = pos 120;
  success_count = 10;
  failure_count = 0;
  last_seen_ms = 5000;
  banned_until_ms = 0;
  ban_count = 0;
}

abbrev bad_peer : PeerScore
bad_peer = record {
  id = text "b";
  url = text "http://b";
  score = negsuc 3;
  success_count = 1;
  failure_count = 30;
  last_seen_ms = 900;
  banned_until_ms = 90_000;
  ban_count = 1;
}

abbrev two_peers : Peers
two_peers = (text "a", good_peer) ∷ (text "b", bad_peer) ∷ []

abbrev three_operations : List Operation
three_operations = succeeded (text "a") 6000 ∷ failed (text "b") 7000 ∷ decayed_at 8000 ∷ []

default-IsOrdered : IsOrdered default_scoring
unfolding leb_int
default-IsOrdered = record { low = refl; high = refl }

two_peers-AllScored : AllScored default_scoring two_peers
unfolding leb_int AllScored IsScored IsBetween
two_peers-AllScored = ((refl, refl), ((refl, refl), tt))

apply_operations-AllScored_example :
    AllScored default_scoring (apply_operations default_scoring three_operations two_peers)
apply_operations-AllScored_example =
    apply_operations-AllScored default_scoring three_operations two_peers default-IsOrdered
      two_peers-AllScored
