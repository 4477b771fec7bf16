-- ===== src/Vpn/Dht/NodeList.antt =====
-- The list of nodes in a message of the hash table (crates/vpn/src/vpn/dht.rs). An address is the
-- bytes of its text.
use lan_link.Prelude.{
  ℕ, zero, suc, ◌+◌, ◌-◌, ◌<◌, ◌≡◌, refl, ap, ◌∙◌, min, List, [], ◌∷◌, ◌++◌, append_assoc, length,
  length-append, take, take-append, take_all, drop, drop-append, All, Bool, true, false, ltb,
  if◌then◌else◌, arith,
}
use lan_link.Prelude.Words.{u16_mod}
use lan_link.Prelude.Utf8.{is_utf8}
use lan_link.Prelude.Bytes.{be_bytes, from_be, length-be_bytes, from_be-be_bytes}
use lan_link.Vpn.Identity.{NodeId}

unfoldable pub encode_nodes : List (NodeId × List ℕ) → List ℕ
encode_nodes [] = []
encode_nodes ((node_id, addr) ∷ nodes) =
    let addr_len = min (length addr) (u16_mod - 1) in
    node_id ++ (be_bytes 2 addr_len ++ (take addr_len addr ++ encode_nodes nodes))

unfoldable pub encode_node_list : List (NodeId × List ℕ) → List ℕ
unfolding encode_nodes
encode_node_list nodes =
    let count = min (length nodes) (u16_mod - 1) in
    be_bytes 2 count ++ encode_nodes (take count nodes)

-- `String::from_utf8(…).unwrap_or_default()`
unfoldable pub text_or_empty : List ℕ → List ℕ
text_or_empty bytes = if is_utf8 bytes then bytes else []

-- The rounds that are left, and what is left of the bytes.
unfoldable pub decode_nodes : ℕ → List ℕ → List (NodeId × List ℕ)
unfolding text_or_empty
decode_nodes zero bytes = []
decode_nodes (suc n) bytes =
    let body = drop 2 (drop 32 bytes) in
    let addr_len = from_be (take 2 (drop 32 bytes)) in
    let rest = decode_nodes n (drop addr_len body) in
    if ltb (length bytes) (32 + 2)
    then []
    else if ltb (length body) addr_len
    then []
    else (take 32 bytes, text_or_empty (take addr_len body)) ∷ rest

unfoldable pub decode_node_list : List ℕ → List (NodeId × List ℕ)
unfolding decode_nodes
decode_node_list bytes =
    if ltb (length bytes) 2 then [] else decode_nodes (from_be (take 2 bytes)) (drop 2 bytes)

-- The id has its 32 bytes, and the address is a text whose length fits a u16.
abbrev pub IsListed : NodeId × List ℕ → Type 0
IsListed node = (length node.0 ≡ 32) × (length node.1 < u16_mod) × (is_utf8 node.1 ≡ true)

if_true {ℓ} : {A : Type ℓ} (b : Bool) (x y : A) → b ≡ true → (if b then x else y) ≡ x
if_true b x y e = rw e refl

if_false {ℓ} : {A : Type ℓ} (b : Bool) (x y : A) → b ≡ false → (if b then x else y) ≡ y
if_false b x y e = rw e refl

-- A round reads the node that the bytes begin with.
decode_one :
    (n : ℕ) (id len addr tail : List ℕ)
    → length id ≡ 32
    → length len ≡ 2
    → from_be len ≡ length addr
    → is_utf8 addr ≡ true
    → decode_nodes (suc n) (id ++ (len ++ (addr ++ tail))) ≡ (id, addr) ∷ decode_nodes n tail
unfolding decode_nodes text_or_empty
decode_one n id len addr tail hi hl hv hu =
    let body = addr ++ tail in
    let e₁ = drop-append id (len ++ body) 32 hi in
    let e₂ = drop-append len body 2 hl in
    let e₃ = take-append len body 2 hl in
    let e₄ = take-append id (len ++ body) 32 hi in
    let e₅ = take-append addr tail (length addr) refl in
    let e₆ = drop-append addr tail (length addr) refl in
    let long = length-append id (len ++ body) in
    let mid = length-append len body in
    let short = length-append addr tail in
    rw (e₁, e₂, e₃, hv, e₄, e₅, e₆)
      (if_false (ltb (length (id ++ (len ++ body))) (32 + 2)) _ _ (ground (arith, long, mid))
        ∙ if_false (ltb (length body) (length addr)) _ _ (ground (arith, short))
        ∙ ap (λ t. (id, t) ∷ decode_nodes n tail) (if_true (is_utf8 addr) addr [] hu))

decode_nodes-encode_nodes :
    (nodes : List (NodeId × List ℕ)) (rest : List ℕ)
    → All IsListed nodes
    → decode_nodes (length nodes) (encode_nodes nodes ++ rest) ≡ nodes
decode_nodes-encode_nodes [] rest a = unfold decode_nodes in refl
decode_nodes-encode_nodes ((id, addr) ∷ nodes) rest a =
    let len : min (length addr) (u16_mod - 1) ≡ length addr = omega (arith, a.0.1) in
    let lb = be_bytes 2 (length addr) in
    let tail_ = encode_nodes nodes ++ rest in
    let whole : encode_nodes ((id, addr) ∷ nodes) ++ rest ≡ id ++ (lb ++ (addr ++ tail_)) =
      unfold encode_nodes in
      (rw (len, take_all (length addr) addr (omega arith)) (simp append_assoc)) in
    ap (decode_nodes (suc (length nodes))) whole
    ∙ decode_one (length nodes) id lb addr tail_ a.0.0 (length-be_bytes 2 (length addr))
        (from_be-be_bytes 2 (length addr) (omega (arith, a.0.1))) a.0.2
    ∙ ap (λ ns. (id, addr) ∷ ns) (decode_nodes-encode_nodes nodes rest a.1)

-- At most 65535 nodes, with ids of 32 bytes and addresses that are texts of at most 65535 bytes, are
-- read back from their encoding, whatever follows it.
pub decode_node_list-encode_node_list :
    (nodes : List (NodeId × List ℕ)) (rest : List ℕ)
    → length nodes < u16_mod
    → All IsListed nodes
    → decode_node_list (encode_node_list nodes ++ rest) ≡ nodes
unfolding decode_node_list
decode_node_list-encode_node_list nodes rest h a =
    let len : min (length nodes) (u16_mod - 1) ≡ length nodes = omega (arith, h) in
    let lb = be_bytes 2 (length nodes) in
    let size = length-be_bytes 2 (length nodes) in
    let tail_ = encode_nodes nodes ++ rest in
    let whole : encode_node_list nodes ++ rest ≡ lb ++ tail_ =
      unfold encode_node_list in
      (rw (len, take_all (length nodes) nodes (omega arith))
        (append_assoc lb (encode_nodes nodes) rest)) in
    rw
      (
        whole,
        take-append lb tail_ 2 size,
        drop-append lb tail_ 2 size,
        from_be-be_bytes 2 (length nodes) (omega (arith, h)),
      )
      (if_false (ltb (length (lb ++ tail_)) 2) _ _ (ground (arith, length-append lb tail_, size))
        ∙ decode_nodes-encode_nodes nodes rest a)
