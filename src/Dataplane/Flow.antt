-- ===== src/Dataplane/Flow.antt =====
-- bpf/natra.bpf.c: `parse_flow` and `cms_hash`. A packet is the bytes from `skb->data` on, and a flow
-- key the 16 bytes of `struct flow_key` as they lie in memory, so that byte order does not matter.
use Prim.Native.Nat.{bit_xor}
use natra.Base.{
  ℕ, zero, suc, ◌+◌, ◌*◌, ◌%◌, ◌^◌, Bool, not, ◌&&◌, Option, none, some, List, [], ◌∷◌, ◌++◌,
  length, leb, ltb, ◌==◌, if◌then◌else◌,
}

abbrev pub Bytes : Type 0
Bytes = List ℕ

unfoldable pub byte_at : Bytes → ℕ → ℕ
byte_at [] n = 0
byte_at (b ∷ bs) zero = b
byte_at (b ∷ bs) (suc n) = byte_at bs n

unfoldable pub bytes_at : Bytes → ℕ → ℕ → Bytes
bytes_at bs from zero = []
bytes_at bs from (suc n) = byte_at bs from ∷ bytes_at bs (from + 1) n

abbrev pub zeros : ℕ → Bytes
zeros zero = []
zeros (suc n) = 0 ∷ zeros n

-- `struct flow_key`: addresses, ports, protocol, padding.
unfoldable pub flow_key : Bytes → Bytes → ℕ → Bytes
flow_key addresses ports proto = addresses ++ (ports ++ (proto ∷ zeros 3))

-- The ports, if the transport header lies within the packet. Both headers begin with them.
unfoldable pub ports_at : Bytes → ℕ → ℕ → Option Bytes
ports_at packet l4 header =
    if leb (l4 + header) (length packet) then some (bytes_at packet l4 4) else none

-- What follows the checks of the two headers.
unfoldable pub parse_transport : Bytes → ℕ → ℕ → Option Bytes
parse_transport packet l4 proto =
    if proto == 6
    then ports_at packet l4 20
    else if proto == 17
    then ports_at packet l4 8
    else some (zeros 4)

unfoldable pub with_ports : Bytes → ℕ → Option Bytes → Option Bytes
with_ports packet proto none = none
with_ports packet proto (some ports) = some (flow_key (bytes_at packet 26 8) ports proto)

-- `eth->h_proto != bpf_htons(ETH_P_IP)`
abbrev pub is_ipv4 : ℕ → ℕ → Bool
is_ipv4 hi lo = (hi == 8) && (lo == 0)

-- `none` is the return value -1.
unfoldable pub parse_flow : Bytes → Option Bytes
parse_flow packet =
    let ihl = byte_at packet 14 % 16 in
    let proto = byte_at packet 23 in
    if ltb (length packet) 14
    then none
    else if not (is_ipv4 (byte_at packet 12) (byte_at packet 13))
    then none
    else if ltb (length packet) 34
    then none
    else if ltb ihl 5
    then none
    else with_ports packet proto (parse_transport packet (14 + ihl * 4) proto)

-- FNV-1a on 32 bits, from a state.
unfoldable pub fnv : ℕ → Bytes → ℕ
fnv h [] = h
fnv h (b ∷ bs) = fnv (bit_xor h b * 16777619 % 2 ^ 32) bs

unfoldable pub cms_hash : Bytes → ℕ → ℕ
cms_hash key seed = fnv (bit_xor 2166136261 seed) key
