-- ===== src/Tests/DhtTables.antt =====
-- The hash table on concrete inputs, with a constant hash.
use lan_link.Prelude.{
  ℕ, ◌+◌, ◌-◌, ◌%◌, ◌^◌, ◌<◌, ◌≤◌, ◌≡◌, refl, List, [], ◌∷◌, ◌++◌, min, length, replicate, leb,
  if◌then◌else◌, arith, ℕ_discrete,
}
use lan_link.Prelude.Words.{u64_mod}
use lan_link.Prelude.Utf8.{is_utf8}
use lan_link.Prelude.Bytes.{be_bytes, le_bytes, from_le, from_be, both_eq, bytes_eq}
use lan_link.Prelude.Assoc
use mathlib.Core.List.{Perm}
use lan_link.Vpn.Identity.{NodeId}
use lan_link.Vpn.Relay.{MessageType}
use lan_link.Vpn.Dht.Bucket.{refresh_entry, take_out, least_recently_seen}
use lan_link.Vpn.Dht.Bucket
use lan_link.Vpn.Dht.Distance.{xor_distance, leading_zeros, first_bit, bucket_index, cmp_xor}
use lan_link.Vpn.Dht.Distance.Numbers.{bucket_index-range}
use lan_link.Vpn.Dht.Manager.{
  DhtManager, Candidate, candidates, insert_sorted, sort_candidates, find_nearest, insert_node,
  touch_node, remove_node, bucket_at, change_at, count_nodes, node_count, bootstrap_from_nodes,
  remove_each, stale_nodes, refresh_buckets, refresh, put_value, get_value_by_hash, is_expired,
  retain_fresh, cleanup_values, find_node,
}
use lan_link.Vpn.Dht.Manager
use lan_link.Vpn.Dht.Manager.Nearest.{nodes_in, IsNearFirst, AreCloser, find_nearest-closest}
use lan_link.Vpn.Dht.NodeList.{
  encode_nodes, encode_node_list, text_or_empty, decode_nodes, decode_node_list,
  decode_node_list-encode_node_list,
}
use lan_link.Vpn.Dht.Messages.{
  process_message, from_u8, to_u8, on_type, on_get, on_find_node, handle_put, insert_all,
  create_dht_message,
}
use lan_link.Vpn.Dht.Messages.Storing.{put_bytes, put_then_get}
use lan_link.Vpn.Dht.Placement.{Call, inserts, bootstraps, step, run, IsTable, run-IsTable}

program : Unit {0}
unfolding both_eq bytes_eq le_bytes from_le ℕ_discrete is_utf8 refresh_entry take_out
    least_recently_seen Bucket.insert Bucket.new Bucket.touch Bucket.remove xor_distance
    leading_zeros first_bit bucket_index cmp_xor candidates insert_sorted sort_candidates
    find_nearest find_node insert_node touch_node remove_node bucket_at change_at count_nodes
    node_count bootstrap_from_nodes remove_each stale_nodes refresh_buckets refresh put_value
    get_value_by_hash is_expired retain_fresh cleanup_values Manager.new Assoc.insert Assoc.lookup
    encode_nodes encode_node_list text_or_empty decode_nodes decode_node_list process_message
    from_u8 to_u8 on_type on_get on_find_node handle_put insert_all create_dht_message step run
program = tt

abbrev hash : List ℕ → List ℕ
hash bytes = replicate 32 255

abbrev node : ℕ → NodeId
node n = n ∷ replicate 31 0

abbrev local : NodeId
local = node 1

-- The ids differ in the fourth bit from the top.
index_of_17 : bucket_index local (node 17) ≡ 3
unfolding program
index_of_17 = refl

bucket_index-range_example :
    (bucket_index local (node 17) < 256)
    × (2 ^ (255 - bucket_index local (node 17)) ≤ from_be (xor_distance local (node 17)))
    × (from_be (xor_distance local (node 17)) < 2 ^ (256 - bucket_index local (node 17)))
bucket_index-range_example =
    bucket_index-range local (node 17) refl refl (omega arith) (omega arith) (λ e. cc)

abbrev calls : List Call
calls = inserts (node 2) (65 ∷ []) 5 ∷ inserts (node 17) [] 6 ∷ inserts local [] 7 ∷ []

abbrev table : DhtManager
table = run hash (Manager.new local) calls

two_nodes : node_count table ≡ 2
unfolding program
two_nodes = refl

-- Three bootstrap nodes are one node of the table.
bootstrapped :
    node_count
      (run hash (Manager.new local) (bootstraps ((65 ∷ []) ∷ (66 ∷ []) ∷ (67 ∷ []) ∷ []) 5 ∷ []))
    ≡ 1
unfolding program
bootstrapped = refl

run-IsTable_example : IsTable local table
run-IsTable_example = run-IsTable hash local calls

nearest_to_16 : find_nearest table (node 16) 1 ≡ (node 17, []) ∷ []
unfolding program
nearest_to_16 = refl

find_nearest-closest_example :
    (others : List (NodeId × List ℕ)) × Perm
      (find_nearest table (node 16) 1 ++ others)
      (nodes_in table.buckets)
    × (length (find_nearest table (node 16) 1) ≡ min 1 (length (nodes_in table.buckets)))
    × IsNearFirst (node 16) (find_nearest table (node 16) 1)
    × AreCloser (node 16) (find_nearest table (node 16) 1) others
unfolding program
find_nearest-closest_example =
    find_nearest-closest table (node 16) 1 (refl, omega arith) (omega arith)

abbrev nodes : List (NodeId × List ℕ)
nodes = (node 2, 65 ∷ 66 ∷ []) ∷ (node 3, 0xc3 ∷ 0xa9 ∷ []) ∷ []

decode_node_list-encode_node_list_example :
    decode_node_list (encode_node_list nodes ++ (9 ∷ [])) ≡ nodes
unfolding program
decode_node_list-encode_node_list_example =
    decode_node_list-encode_node_list nodes (9 ∷ []) (omega arith)
      ((refl, omega arith, refl), ((refl, omega arith, refl), tt))

put_then_get_example :
    (process_message hash
      (process_message hash table (node 2) (5 ∷ put_bytes hash (7 ∷ []) (8 ∷ 9 ∷ []) 60) 10 1000).0
      (node 3)
      (6 ∷ hash (7 ∷ []))
      11
      1030).1
    ≡ (if leb ((1000 + 60) % u64_mod) 1030
        then []
        else record {
          msg_type = MessageType.dht;
          payload = 7 ∷ (hash (7 ∷ []) ++ (be_bytes 4 2 ++ (8 ∷ 9 ∷ [])));
        }
          ∷ [])
put_then_get_example =
    put_then_get hash table (node 2) (node 3) (7 ∷ []) (8 ∷ 9 ∷ []) 60 10 1000 11 1030 (omega arith)
      (omega arith) (omega arith) refl
