-- ===== src/Tests/Dhts.antt =====
-- A bucket of the hash table on concrete inputs.

use lan_link.Prelude.{ℕ, ◌≡◌, refl, replicate, List, [], ◌∷◌, ℕ_discrete}
use lan_link.Prelude.Bytes.{both_eq, bytes_eq}
use lan_link.Vpn.Identity.{NodeId}
use lan_link.Vpn.Dht.Bucket.{
  BucketEntry, KBucket, new, refresh_entry, insert, take_out, touch, remove, clear,
}
use lan_link.Vpn.Dht.Bucket.Invariant.{Call, inserts, touches, step, run, nodes_of}

program : Unit {0}
unfolding both_eq bytes_eq new refresh_entry insert take_out touch remove clear step run ℕ_discrete
program = tt

abbrev a : NodeId
a = replicate 32 1

abbrev b : NodeId
b = replicate 32 2

abbrev c : NodeId
c = replicate 32 3

-- The bucket has room for two; a touch moves its node to the end, a repeated insertion does not.
abbrev calls : List Call
calls = inserts a [] 1 ∷ inserts b [] 2 ∷ inserts a [] 3 ∷ inserts c [] 4 ∷ touches a 5 ∷ []

order_after : nodes_of (run (new 2) calls).entries ≡ b ∷ a ∷ []
unfolding program
order_after = refl

abbrev entry : NodeId → ℕ → BucketEntry
entry id at = record { node_id = id; addr = []; last_seen = at }

abbrev full : KBucket
full = record { entries = entry a 1 ∷ entry b 2 ∷ []; capacity = 2 }
