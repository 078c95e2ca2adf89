-- ===== src/Packet.antt =====
-- nfqueue_example/squash_packet.c: `corrupt_packet`, which overwrites the payload of a TCP packet, and the
-- callback `process_packet`, over the bytes of the packet. `libnet_do_checksum`, `strstr` and what
-- libnetfilter_queue answers are parameters. Queue has the set-up of the queue and the loop.
pub mod Corrupted
pub mod Verdicts
pub mod Overrun
pub mod Queue
mod Samples
use divers.Base.{
  ℕ, ◌+◌, ◌-◌, ◌*◌, ◌/◌, ◌%◌, ◌^◌, Bool, ◌&&◌, not, Option, none, some, List, [], ◌∷◌, length,
  get_elem?, ltb, leb, ◌==◌, if◌then◌else◌,
}
use divers.Memory.{Mem, poke}

-- Arithmetic on `size_t`.
abbrev pub sub_size : ℕ → ℕ → ℕ
sub_size a b = (a + 2 ^ 64 - b) % 2 ^ 64

abbrev pub ipproto_ip : ℕ
ipproto_ip = 0

abbrev pub ipproto_tcp : ℕ
ipproto_tcp = 6

-- The fields of `struct ip` and `struct tcphdr`, at the header's address. Both bit fields are half a byte.
abbrev pub ip_hl : Mem → ℕ → ℕ
ip_hl m ip = m ip % 16

abbrev pub ip_len : Mem → ℕ → ℕ
ip_len m ip = m (ip + 2) * 256 + m (ip + 3)

abbrev pub ip_p : Mem → ℕ → ℕ
ip_p m ip = m (ip + 9)

abbrev pub doff : Mem → ℕ → ℕ
doff m tcp = m (tcp + 12) / 16 % 16

-- `http_payload`.
abbrev pub http_payload : List ℕ
http_payload =
    10 ∷ 106 ∷ 101 ∷ 32 ∷ 115 ∷ 117 ∷ 105 ∷ 115 ∷ 32 ∷ 117 ∷ 110 ∷ 101 ∷ 32 ∷ 102 ∷ 105 ∷ 111 ∷ 116
    ∷ 116 ∷ 101 ∷ 10 ∷ []

-- `memset(a, 0, n)` and `memcpy`.
unfoldable pub clear : Mem → (a n : ℕ) → Mem
clear m a n x = if leb a x && ltb x (a + n) then 0 else m x

unfoldable pub copy : Mem → (a : ℕ) → List ℕ → Mem
copy m a bs x =
    if leb a x && ltb x (a + length bs)
    then (elim (get_elem? bs (x - a)) [ none ↦ m x | some b ↦ b ])
    else m x

-- A 16-bit field in the order of the network.
unfoldable pub store_net : Mem → (a v : ℕ) → Mem
unfolding poke
store_net m a v = poke (poke m a (v / 256 % 256)) (a + 1) (v % 256)

-- The lengths that `corrupt_packet` computes.
unfoldable pub data_len : Mem → (ip tcp : ℕ) → ℕ
data_len m ip tcp = sub_size (sub_size (ip_len m ip) (ip_hl m ip * 4)) (doff m tcp * 4)

unfoldable pub new_ip_len : Mem → (ip tcp : ℕ) → ℕ
unfolding data_len
new_ip_len m ip tcp = sub_size (ip_len m ip) (sub_size (data_len m ip tcp) (length http_payload))

-- `libnet_do_checksum(libnet, iphdr, proto, len)`: the bytes behind it, or `none` for an error.
abbrev pub Checksum : Type 0
Checksum = Mem → (ip proto len : ℕ) → Option Mem

-- `corrupt_packet`: `none` is the end of the process.
unfoldable pub corrupt_packet : Checksum → Mem → (ip tcp : ℕ) → Option (ℕ × Mem)
unfolding data_len new_ip_len clear copy store_net
corrupt_packet do_checksum m ip tcp =
    let iphdr_len = ip_hl m ip * 4 in
    let payload = tcp + doff m tcp * 4 in
    let len = data_len m ip tcp in
    let new_len = new_ip_len m ip tcp in
    let cleared = clear m payload len in
    if ltb len (length http_payload)
    then some (0, cleared)
    else (let filled = store_net (copy cleared payload http_payload) (ip + 2) new_len in
        elim (do_checksum filled ip ipproto_tcp (sub_size new_len iphdr_len)) [
          | none ↦ none
          | some m1 ↦ elim (do_checksum (store_net m1 (ip + 10) 0) ip ipproto_ip iphdr_len) [
            | none ↦ none
            | some m2 ↦ some (new_len, m2)
          ]
        ])

abbrev pub nf_accept : ℕ
nf_accept = 1

-- What `nfq_set_verdict` is given: the packet's number, the verdict, the length, `none` for a negative one, and the
-- bytes.
pub record Verdict : Type 0 where
  pub id : ℕ
  pub verdict : ℕ
  pub len : Option ℕ
  pub mem : Mem

-- `process_packet`: the number is in the header if there is one, and `tlen` is what `nfq_get_payload` returns
-- for the packet at `buff`.
unfoldable pub process_packet :
    Checksum
    → (strstr : Mem → ℕ → Bool) → (packet_id : Option ℕ) → (tlen : Option ℕ) → Mem
    → (buff : ℕ) → Option Verdict
unfolding corrupt_packet
process_packet do_checksum strstr packet_id tlen m buff =
    let id : ℕ = elim packet_id [ none ↦ 0 | some n ↦ n ] in
    let tcp = buff + 4 * ip_hl m buff in
    let same : Option Verdict =
      some (record { id = id; verdict = nf_accept; len = tlen; mem = m }) in
    elim tlen [
      | none ↦ same
      | some n ↦
          if (ip_p m buff == ipproto_tcp) && strstr m (tcp + doff m tcp * 4)
          then elim (corrupt_packet do_checksum m buff tcp) [
            | none ↦ none
            | some (len, m') ↦
                some (record { id = id; verdict = nf_accept; len = some len; mem = m' })
          ]
          else same
    ]
