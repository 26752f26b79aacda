-- ===== src/NonceRegistry/Examples.antt =====
-- The theorem on consumed nonces at a new registry.
use coc.Prelude.{◌≡◌, ℕ, [], ◌∷◌, List, true, false, refl, text, Text, arith, keep, get}
use coc.NonceRegistry.{NonceRegistry, consume, prune_expired, evict_if_needed, is_expired}
use coc.NonceRegistry.Fresh.{consume_all, consume_once}

abbrev small_registry : NonceRegistry
small_registry = record { used = []; ttl_ms = 1000; max_entries = 2 }

abbrev one_call : List (Text × ℕ)
one_call = (text "b", 60) ∷ []

first_is_new : (consume (text "a") 50 small_registry).1 ≡ true
unfolding consume prune_expired evict_if_needed is_expired keep get
first_is_new = refl

consume_once_example :
    (consume (text "a") 900 (consume_all one_call (consume (text "a") 50 small_registry).0)).1
    ≡ false
consume_once_example =
    consume_once (text "a") 50 900 one_call small_registry first_is_new (omega arith, tt)
      (omega arith) (omega arith)
