-- ===== src/Packet/Verdicts.antt =====
-- nfqueue_example/squash_packet.c: what `process_packet` tells the queue.
use divers.Base.{
  ℕ, ◌+◌, ◌*◌, ◌≤◌, ◌≡◌, refl, inl, inr, arith, Bool, true, false, ◌&&◌, Option, none, some, ◌==◌,
}
use divers.Memory.{Mem}
use divers.Packet.{
  ip_hl, ip_len, ip_p, doff, ipproto_tcp, Checksum, corrupt_packet, Verdict, process_packet,
}
use divers.Packet.Corrupted.{IsChecksum, IsPacket, IsCorrupted, corrupt_packet-IsCorrupted}

-- The header of TCP, and whether the packet is one that the program looks for.
abbrev pub tcphdr : Mem → ℕ → ℕ
tcphdr m buff = buff + 4 * ip_hl m buff

abbrev pub is_sought : (strstr : Mem → ℕ → Bool) → Mem → ℕ → Bool
is_sought strstr m buff =
    (ip_p m buff == ipproto_tcp) && strstr m (tcphdr m buff + doff m (tcphdr m buff) * 4)

abbrev pub number_of : Option ℕ → ℕ
number_of none = 0
number_of (some n) = n

-- The verdict on a packet of `n` bytes that is sought.
abbrev pub IsChanged :
    {m : Mem} {buff : ℕ}
    → IsPacket m buff (tcphdr m buff)
    → Checksum
    → (id : ℕ) → Option Verdict
    → Type 0
IsChanged packet do_checksum id none = IsCorrupted packet do_checksum none
IsChanged {m} {buff} packet do_checksum id (some v) =
    (v.id ≡ id)
    × (v.verdict ≡ 1)
    × ((len : ℕ) × (v.len ≡ some len)
        × (len ≤ ip_len m buff)
        × IsCorrupted packet do_checksum (some (len, v.mem)))

module _ {m : Mem} {buff : ℕ} (packet : IsPacket m buff (tcphdr m buff)) (do_checksum : Checksum)
    (sums : IsChecksum do_checksum) where
  bounded :
      (len : ℕ) (m' : Mem) → IsCorrupted packet do_checksum (some (len, m')) → len ≤ ip_len m buff
  bounded len m' (inl (short, (z, _, _))) = omega arith
  bounded len m' (inr (long, r)) = omega (arith, r.length_of)

  changed :
      (id : ℕ) (o : Option (ℕ × Mem))
      → IsCorrupted packet do_checksum o
      → IsChanged packet do_checksum id (elim o [
        | none ↦ none
        | some (len, m') ↦ some (record { id = id; verdict = 1; len = some len; mem = m' })
      ])
  changed id none c = c
  changed id (some (len, m')) c = (refl, refl, (len, refl, bounded len m' c, c))

  -- Of a packet whose headers are whole and fit in its length, with a checksum that writes its own field only:
  -- `process_packet` gives it the verdict 1, NF_ACCEPT, under its number, and leaves it as it is when it is no TCP
  -- packet with the word or has no payload. When it is sought, the text stands in place of its data, the rest of the
  -- data is zero, the length is corrected and no longer than it was, and else only the checksums change; if the data
  -- is shorter than the text it is cleared and the length is 0. The process ends only when a checksum cannot be
  -- computed.
  pub process_packet-IsVerdict :
      (strstr : Mem → ℕ → Bool) (packet_id : Option ℕ) (n : ℕ)
      → let process =
          λ (tlen : Option ℕ). process_packet do_checksum strstr packet_id tlen m buff in
        let id = number_of packet_id in
        (process none ≡ some (record { id = id; verdict = 1; len = none; mem = m }))
        × (is_sought strstr m buff ≡ false
            → process (some n) ≡ some (record { id = id; verdict = 1; len = some n; mem = m }))
        × (is_sought strstr m buff ≡ true → IsChanged packet do_checksum id (process (some n)))
  unfolding process_packet
  process_packet-IsVerdict strstr none n = (
    refl,
    λ no. rw no refl,
    λ yes'.
        rw (yes', process_packet)
          (changed 0 (corrupt_packet do_checksum m buff (tcphdr m buff))
            (corrupt_packet-IsCorrupted packet do_checksum sums)),
  )
  process_packet-IsVerdict strstr (some k) n = (
    refl,
    λ no. rw no refl,
    λ yes'.
        rw (yes', process_packet)
          (changed k (corrupt_packet do_checksum m buff (tcphdr m buff))
            (corrupt_packet-IsCorrupted packet do_checksum sums)),
  )
