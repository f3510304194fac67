-- ===== src/Nat/Stun.antt =====
-- The parser of STUN answers: crates/hivebear-mesh/src/nat/stun.rs. The buffer is the list of its 512
-- bytes; reading beyond it is a panic of the code. The loop over the attributes runs on fuel.
pub mod Bounds
mod Tests
use hive_bear.Prelude.{
  ℕ, zero, suc, ◌+◌, ◌*◌, ◌/◌, ◌%◌, ◌^◌, Bool, true, false, ◌&&◌, ◌||◌, Option, none, some, List,
  get_elem?, ltb, leb, ◌==◌, if◌then◌else◌, min,
}
use Prim.Native.Nat.{bit_xor}
use hive_bear.Prelude.Text.{codes}
use hive_bear.MeshError.{MeshError}

-- An IPv4 socket address: `Ipv4Addr` as a number, and the port.
pub record Address : Type 0 where
  pub ip : ℕ
  pub port : ℕ

pub data Answer : Type 0 where
  found : Address → Answer
  refused : MeshError → Answer
  panicked out_of_fuel : Answer

-- What an address attribute gives: an address, another family than IPv4, or a read beyond the buffer.
pub data Attempt : Type 0 where
  address : Address → Attempt
  other_family beyond : Attempt

unfoldable pub join : ℕ → Option ℕ → Option ℕ → Option ℕ
join base none low = none
join base (some high) none = none
join base (some high) (some low) = some (high * base + low)

-- `u16::from_be_bytes` and `u32::from_be_bytes` of the bytes from an index.
unfoldable pub u16_at : List ℕ → ℕ → Option ℕ
unfolding join
u16_at buf i = join 256 (get_elem? buf i) (get_elem? buf (i + 1))

unfoldable pub u32_at : List ℕ → ℕ → Option ℕ
unfolding join u16_at
u32_at buf i = join 65536 (u16_at buf i) (u16_at buf (i + 2))

unfoldable pub unmask : Bool → ℕ → ℕ → ℕ
unmask true mask x = bit_xor x mask
unmask false mask x = x

unfoldable pub address_of : Bool → Option ℕ → Option ℕ → Attempt
unfolding unmask
address_of xored none ip = beyond
address_of xored (some port) none = beyond
address_of xored (some port) (some ip) =
    address (record { ip = unmask xored 554869826 ip; port = unmask xored 8466 port })

unfoldable pub read_family : Bool → List ℕ → ℕ → Option ℕ → Attempt
read_family xored buf start none = beyond
read_family xored buf start (some family) =
    if family == 1
    then address_of xored (u16_at buf (start + 2)) (u32_at buf (start + 4))
    else other_family

-- The value of an attribute from its start: XOR-MAPPED-ADDRESS is 32, MAPPED-ADDRESS is 1.
unfoldable pub read_attribute : List ℕ → ℕ → ℕ → ℕ → Attempt
read_attribute buf attr_type attr_len start =
    if attr_type == 32 && leb 8 attr_len
    then read_family true buf start (get_elem? buf (start + 1))
    else if attr_type == 1 && leb 8 attr_len
    then read_family false buf start (get_elem? buf (start + 1))
    else other_family

-- The end of a round, before the later ones.
unfoldable pub after_attempt : Attempt → Answer → Answer
after_attempt (address a) rest = found a
after_attempt other_family rest = rest
after_attempt beyond rest = panicked

-- One round from the type and the length, with the answer of the later rounds from a position on.
unfoldable pub round : List ℕ → ℕ → Option ℕ → Option ℕ → (ℕ → Answer) → Answer
round buf start none attr_len later = panicked
round buf start (some attr_type) none later = panicked
round buf start (some attr_type) (some attr_len) later =
    after_attempt (read_attribute buf attr_type attr_len start)
      (later (start + (attr_len + 3) / 4 * 4))

unfoldable pub attributes : ℕ → List ℕ → ℕ → ℕ → Answer
attributes zero buf attrs_end pos = out_of_fuel
attributes (suc n) buf attrs_end pos =
    let next =
      round buf (pos + 4) (u16_at buf pos) (u16_at buf (pos + 2)) (attributes n buf attrs_end) in
    if leb (pos + 4) attrs_end
    then next
    else refused (MeshError.nat_traversal (codes "No MAPPED-ADDRESS found in STUN response"))

-- From the message length on.
unfoldable pub parse_body : List ℕ → ℕ → Option ℕ → Answer
parse_body buf n none = panicked
parse_body buf n (some msg_len) = attributes 512 buf (min (20 + msg_len) n) 20

unfoldable pub check_cookie : List ℕ → ℕ → Option ℕ → Answer
check_cookie buf n none = panicked
check_cookie buf n (some cookie) =
    if cookie == 554869826
    then parse_body buf n (u16_at buf 2)
    else refused (MeshError.nat_traversal (codes "Invalid STUN magic cookie"))

-- `discover_external_addr`, from the n bytes that were read on.
unfoldable pub parse_response : List ℕ → ℕ → Answer
parse_response buf n =
    if ltb n 20
    then refused (MeshError.nat_traversal (codes "STUN response too short"))
    else check_cookie buf n (u32_at buf 4)
