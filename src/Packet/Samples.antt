-- ===== src/Packet/Samples.antt =====
-- nfqueue_example/squash_packet.c: the theorems at a packet of 80 bytes with 40 bytes of data.
use divers.Base.{
  ℕ, ◌+◌, ◌*◌, ◌≡◌, ◌≢◌, List, [], ◌∷◌, Bool-cases, inl, inr, refl, arith, Bool, true, false,
  Option, none, some, ◌==◌, if◌then◌else◌,
}
use mathlib.Core.Option.{some-injective}
use divers.Memory.{Mem, poke}
use divers.Packet.{ip_hl, Checksum, Verdict, corrupt_packet, process_packet}
use divers.Packet.Corrupted.{IsChecksum, IsPacket}
use divers.Packet.Verdicts.{is_sought, IsChanged, process_packet-IsVerdict}
use divers.Packet.Queue.{
  Answers, Turn, IsReady, main, running, returned, exited, verdict_ids, received_ids, each,
  main-answered,
}
use divers.Packet.Overrun.{IsOverrun, corrupt_packet-IsOverrun}

-- The headers at 100, with the number of words in TCP's.
abbrev packet_of : ℕ → Mem
packet_of words x =
    if x == 100
    then 69
    else (if x == 103
        then 80
        else (if x == 109
            then 6
            else (if x == 132 then 16 * words else (if x == 140 then 80 else 0))))

-- Both checksums are a 7 in the first byte of their field.
abbrev do_checksum : Checksum
do_checksum m ip proto len =
    if proto == 6 then some (poke m (ip + ip_hl m ip * 4 + 16) 7) else some (poke m (ip + 10) 7)

do_checksum-IsChecksum : IsChecksum do_checksum
unfolding poke
do_checksum-IsChecksum = record {
  tcp = λ m ip len m' e x out.
      rw⁻¹ (some-injective (λ y. if y == ip + ip_hl m ip * 4 + 16 then 7 else m y) m' e)
        (ground arith);
  ip = λ m ip len m' e x out.
      rw⁻¹ (some-injective (λ y. if y == ip + 10 then 7 else m y) m' e) (ground arith);
}

good-IsPacket : IsPacket (packet_of 5) 100 120
good-IsPacket = record {
  bytes = λ x. ground arith;
  behind = refl;
  ip_whole = omega arith;
  tcp_whole = omega arith;
  fits = omega arith;
}

abbrev is_word : Mem → ℕ → Bool
is_word m x = m x == 80

process_packet-IsVerdict_example :
    let process =
      λ (tlen : Option ℕ). process_packet do_checksum is_word (some 3) tlen (packet_of 5) 100 in
    (process none ≡ some (record { id = 3; verdict = 1; len = none; mem = packet_of 5 }))
    × (is_sought is_word (packet_of 5) 100 ≡ false
        → process (some 80)
          ≡ some (record { id = 3; verdict = 1; len = some 80; mem = packet_of 5 }))
    × (is_sought is_word (packet_of 5) 100 ≡ true
        → IsChanged good-IsPacket do_checksum 3 (process (some 80)))
process_packet-IsVerdict_example =
    process_packet-IsVerdict good-IsPacket do_checksum do_checksum-IsChecksum is_word (some 3) 80

-- The packet has 70 bytes, and its TCP header claims 60.
abbrev long_header : Mem
long_header x = if x == 103 then 70 else packet_of 15 x

corrupt_packet-IsOverrun_example :
    IsOverrun long_header 120 (corrupt_packet do_checksum long_header 100 120)
corrupt_packet-IsOverrun_example =
    corrupt_packet-IsOverrun long_header 100 120 (λ x. ground arith) refl (omega arith)
      (omega arith) (omega arith) do_checksum do_checksum-IsChecksum

abbrev started : Answers
started = record {
  open' = some 4096;
  unbind_ok = true;
  bind_ok = true;
  queue = some 8192;
  mode_ok = true;
  fd = some 3;
}

started-IsReady : IsReady started
started-IsReady = (refl, refl, refl, refl, refl)

-- A turn without a packet, then one with the packet under the number 9.
abbrev turns : List Turn
turns =
    record { polled = 0; packets = [] }
    ∷ record {
      polled = 1;
      packets = record { packet_id = some 9; tlen = some 80; mem = packet_of 5; buff = 100 } ∷ [];
    }
    ∷ []

sums : (m : Mem) (ip proto len : ℕ) → do_checksum m ip proto len ≢ none
sums m ip proto len = elim (Bool-cases (proto == 6)) [
  | inl t ↦ rw t (λ e. cc)
  | inr f ↦ rw f (λ e. cc)
]

main-answered_example :
    (IsReady started
      → false ≡ false
      → (vs : List Verdict) × (main each do_checksum is_word started turns ≡ running vs)
        × (verdict_ids vs ≡ received_ids turns))
    × (IsReady started → false ≡ true → main each do_checksum is_word started turns ≡ returned)
    × (¬ IsReady started → main each do_checksum is_word started turns ≡ exited)
main-answered_example = main-answered each (λ f gs. refl) do_checksum is_word sums started turns
