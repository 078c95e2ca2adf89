-- ===== src/Packet/Overrun.antt =====
-- nfqueue_example/squash_packet.c: a packet whose headers claim to be longer than the packet.
use divers.Base.{
  ℕ, ◌+◌, ◌*◌, ◌%◌, ◌^◌, ◌<◌, ◌≤◌, ◌≡◌, ◌∙◌, inl, inr, arith, false, Option, none, some, length,
  ltb, ge→ltb, ap, Option-cases,
}
use divers.Memory.{Mem, IsBytes}
use divers.Packet.{
  ip_hl, ip_len, doff, http_payload, clear, copy, store_net, data_len, new_ip_len, sub_size,
  ipproto_tcp, ipproto_ip, Checksum, corrupt_packet,
}
use divers.Packet.Corrupted.{IsChecksum, clear_in, clear_out, copy_out, store_net_out}

-- The process ends, or 2^63 bytes behind the headers are zero, but the text.
abbrev pub IsOverrun : Mem → (tcp : ℕ) → Option (ℕ × Mem) → Type 0
IsOverrun m tcp none = Unit
IsOverrun m tcp (some (len, m')) =
    (x : ℕ)
    → tcp + doff m tcp * 4 + length http_payload ≤ x
    → x < tcp + doff m tcp * 4 + 2 ^ 63
    → m' x ≡ 0

module _ (m : Mem) (ip tcp : ℕ) (bytes : IsBytes m) (behind : tcp ≡ ip + ip_hl m ip * 4)
    (ip_whole : 20 ≤ ip_hl m ip * 4) (tcp_whole : 20 ≤ doff m tcp * 4)
    (short : ip_len m ip < ip_hl m ip * 4 + doff m tcp * 4) where
  data_len_wraps : 2 ^ 63 ≤ data_len m ip tcp
  unfolding data_len
  data_len_wraps = omega (arith, bytes (ip + 2), bytes (ip + 3))

  abbrev payload : ℕ
  payload = tcp + doff m tcp * 4

  abbrev filled : Mem
  filled =
      store_net (copy (clear m payload (data_len m ip tcp)) payload http_payload) (ip + 2)
        (new_ip_len m ip tcp)

  filled_first : filled ip ≡ m ip
  filled_first =
      store_net_out (copy (clear m payload (data_len m ip tcp)) payload http_payload) (ip + 2)
        (new_ip_len m ip tcp) ip (omega arith)
      ∙ copy_out (clear m payload (data_len m ip tcp)) payload http_payload ip (omega arith)
      ∙ clear_out m payload (data_len m ip tcp) ip (omega arith)

  filled_zero : (x : ℕ) → payload + length http_payload ≤ x → x < payload + 2 ^ 63 → filled x ≡ 0
  filled_zero x lo hi =
      store_net_out (copy (clear m payload (data_len m ip tcp)) payload http_payload) (ip + 2)
        (new_ip_len m ip tcp) x (omega arith)
      ∙ copy_out (clear m payload (data_len m ip tcp)) payload http_payload x (omega arith)
      ∙ clear_in m payload (data_len m ip tcp) x (omega arith) (omega (arith, data_len_wraps))

  -- When both headers claim 20 bytes or more and together more than the packet's length, and the checksum writes
  -- its own field only, the length of the data wraps: unless the process ends at a checksum, `corrupt_packet`
  -- leaves zero all bytes from the text behind the headers up to 2^63 bytes behind them, whatever lay there.
  pub corrupt_packet-IsOverrun :
      (do_checksum : Checksum)
      → IsChecksum do_checksum
      → IsOverrun m tcp (corrupt_packet do_checksum m ip tcp)
  unfolding corrupt_packet
  corrupt_packet-IsOverrun do_checksum sums =
      let long : ltb (data_len m ip tcp) (length http_payload) ≡ false =
        ge→ltb (data_len m ip tcp) (length http_payload) (omega (arith, data_len_wraps)) in
      let tcp_len = sub_size (new_ip_len m ip tcp) (ip_hl m ip * 4) in
      let hl : ip_hl filled ip ≡ ip_hl m ip = ap (λ (b : ℕ). b % 16) filled_first in
      elim (Option-cases (do_checksum filled ip ipproto_tcp tcp_len)) [
        | inl n ↦ rw (long, n, corrupt_packet) tt
        | inr (m1, e1) ↦
            let zeroed = store_net m1 (ip + 10) 0 in
            elim (Option-cases (do_checksum zeroed ip ipproto_ip (ip_hl m ip * 4))) [
              | inl n ↦ rw (long, e1, n, corrupt_packet) tt
              | inr (m2, e2) ↦
                  rw (long, e1, e2, corrupt_packet)
                    (λ x lo hi.
                      sums.ip zeroed ip (ip_hl m ip * 4) m2 e2 x (omega arith)
                      ∙ store_net_out m1 (ip + 10) 0 x (omega arith)
                      ∙ sums.tcp filled ip tcp_len m1 e1 x (omega (arith, hl))
                      ∙ filled_zero x lo hi)
            ]
      ]
