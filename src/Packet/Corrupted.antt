-- ===== src/Packet/Corrupted.antt =====
-- nfqueue_example/squash_packet.c: what the rewritten packet is.
use divers.Base.{
  ℕ, zero, suc, ◌+◌, ◌-◌, ◌*◌, ◌/◌, ◌%◌, ◌<◌, ◌≤◌, ◌≡◌, refl, ap, ap₂, ◌∙◌, ◌⊎◌, inl, inr, arith,
  true, false, Option, none, some, List, [], ◌∷◌, length, get_elem?, ltb, leb, ◌==◌, if◌then◌else◌,
  ◌&&◌, Option-cases, Bool-cases,
}
use divers.Memory.{Mem, poke, IsBytes, SameOutside}
use divers.Packet.{
  sub_size, ipproto_ip, ipproto_tcp, ip_hl, ip_len, doff, http_payload, clear, copy, store_net,
  data_len, new_ip_len, Checksum, corrupt_packet,
}

-- What is documented of `libnet_do_checksum`: it writes the field of the checksum, and nothing else.
pub record IsChecksum (do_checksum : Checksum) : Type 0 where
  pub tcp :
      (m : Mem) (ip len : ℕ) (m' : Mem)
      → do_checksum m ip ipproto_tcp len ≡ some m'
      → SameOutside (ip + ip_hl m ip * 4 + 16) 2 m m'
  pub ip :
      (m : Mem) (ip len : ℕ) (m' : Mem)
      → do_checksum m ip ipproto_ip len ≡ some m'
      → SameOutside (ip + 10) 2 m m'

-- A packet of bytes whose headers are whole and fit in its length.
pub record IsPacket (m : Mem) (ip tcp : ℕ) : Type 0 where
  pub bytes : IsBytes m
  pub behind : tcp ≡ ip + ip_hl m ip * 4
  pub ip_whole : 20 ≤ ip_hl m ip * 4
  pub tcp_whole : 20 ≤ doff m tcp * 4
  pub fits : ip_hl m ip * 4 + doff m tcp * 4 ≤ ip_len m ip

pub clear_in : (m : Mem) (a n x : ℕ) → a ≤ x → x < a + n → clear m a n x ≡ 0
unfolding clear
clear_in m a n x lo hi = ground arith

pub clear_out : (m : Mem) (a n x : ℕ) → (x < a) ⊎ (a + n ≤ x) → clear m a n x ≡ m x
unfolding clear
clear_out m a n x out = ground arith

get_elem?-length : (bs : List ℕ) (k b : ℕ) → get_elem? bs k ≡ some b → k < length bs
get_elem?-length [] k b e = absurd cc
get_elem?-length (c ∷ bs) zero b e = omega arith
get_elem?-length (c ∷ bs) (suc k) b e = omega (arith, get_elem?-length bs k b e)

copy_in :
    (m : Mem) (a : ℕ) (bs : List ℕ) (k b : ℕ) → get_elem? bs k ≡ some b → copy m a bs (a + k) ≡ b
unfolding copy
copy_in m a bs k b e =
    let lt = get_elem?-length bs k b e in
    let lo : leb a (a + k) ≡ true = ground arith in
    let hi : ltb (a + k) (a + length bs) ≡ true = ground arith in
    let at : a + k - a ≡ k = omega arith in rw (lo, hi, at, e) refl

pub copy_out :
    (m : Mem) (a : ℕ) (bs : List ℕ) (x : ℕ) → (x < a) ⊎ (a + length bs ≤ x) → copy m a bs x ≡ m x
unfolding copy
copy_out m a bs x out =
    let outside : leb a x && ltb x (a + length bs) ≡ false = ground arith in rw outside refl

pub store_net_out : (m : Mem) (a v x : ℕ) → (x < a) ⊎ (a + 2 ≤ x) → store_net m a v x ≡ m x
unfolding store_net poke
store_net_out m a v x out = ground arith

store_net_value :
    (m : Mem) (a v : ℕ) → v < 65536 → store_net m a v a * 256 + store_net m a v (a + 1) ≡ v
unfolding store_net poke
store_net_value m a v lt =
    let first : (if a == a + 1 then v % 256 else (if a == a then v / 256 % 256 else m a))
        ≡ v / 256 % 256 =
      ground arith in
    let second : (if a + 1 == a + 1
          then v % 256
          else (if a + 1 == a then v / 256 % 256 else m (a + 1)))
        ≡ v % 256 =
      ground arith in
    rw (first, second) (omega arith)

-- The packet that is sent on: its length counts the headers and the text, which stands in place of the data;
-- the rest of the data is zero, and of the headers only the length and the two checksums change.
pub record IsRewritten (m : Mem) (ip tcp len : ℕ) (m' : Mem) : Type 0 where
  pub length_of : len ≡ ip_hl m ip * 4 + doff m tcp * 4 + length http_payload
  pub field : ip_len m' ip ≡ len
  pub text : (k b : ℕ) → get_elem? http_payload k ≡ some b → m' (tcp + doff m tcp * 4 + k) ≡ b
  pub zeros :
      (x : ℕ) → tcp + doff m tcp * 4 + length http_payload ≤ x → x < ip + ip_len m ip → m' x ≡ 0
  pub same :
      (x : ℕ)
      → (x < ip + 2) ⊎ (ip + 4 ≤ x)
      → (x < ip + 10) ⊎ (ip + 12 ≤ x)
      → (x < tcp + 16) ⊎ (tcp + 18 ≤ x)
      → (x < tcp + doff m tcp * 4) ⊎ (ip + ip_len m ip ≤ x)
      → m' x ≡ m x

module _ {m : Mem} {ip tcp : ℕ} (packet : IsPacket m ip tcp) where
  open packet use {bytes, behind, ip_whole, tcp_whole, fits}

  -- Where the data begins.
  abbrev payload : ℕ
  payload = tcp + doff m tcp * 4

  ip_len_small : ip_len m ip < 65536
  ip_len_small = omega (arith, bytes (ip + 2), bytes (ip + 3))

  data_len-eq : data_len m ip tcp ≡ ip_len m ip - (ip_hl m ip * 4 + doff m tcp * 4)
  unfolding data_len
  data_len-eq = omega (arith, ip_len_small)

  data_end : payload + data_len m ip tcp ≡ ip + ip_len m ip
  data_end = omega (arith, data_len-eq)

  new_ip_len-eq :
      length http_payload ≤ data_len m ip tcp
      → new_ip_len m ip tcp ≡ ip_hl m ip * 4 + doff m tcp * 4 + length http_payload
  unfolding new_ip_len
  new_ip_len-eq le = omega (arith, data_len-eq, ip_len_small)

  -- The bytes before the checksums are computed.
  abbrev filled : Mem
  filled =
      store_net (copy (clear m payload (data_len m ip tcp)) payload http_payload) (ip + 2)
        (new_ip_len m ip tcp)

  module _ (enough : length http_payload ≤ data_len m ip tcp) where
    filled_text : (k b : ℕ) → get_elem? http_payload k ≡ some b → filled (payload + k) ≡ b
    filled_text k b e =
        store_net_out (copy (clear m payload (data_len m ip tcp)) payload http_payload) (ip + 2)
          (new_ip_len m ip tcp) (payload + k) (omega arith)
        ∙ copy_in (clear m payload (data_len m ip tcp)) payload http_payload k b e

    filled_zeros : (x : ℕ) → payload + length http_payload ≤ x → x < ip + ip_len m ip → filled x ≡ 0
    filled_zeros x lo hi =
        store_net_out (copy (clear m payload (data_len m ip tcp)) payload http_payload) (ip + 2)
          (new_ip_len m ip tcp) x (omega arith)
        ∙ copy_out (clear m payload (data_len m ip tcp)) payload http_payload x (omega arith)
        ∙ clear_in m payload (data_len m ip tcp) x (omega arith) (omega (arith, data_end))

    filled_same :
        (x : ℕ)
        → (x < ip + 2) ⊎ (ip + 4 ≤ x)
        → (x < payload) ⊎ (ip + ip_len m ip ≤ x)
        → filled x ≡ m x
    filled_same x out out' =
        store_net_out (copy (clear m payload (data_len m ip tcp)) payload http_payload) (ip + 2)
          (new_ip_len m ip tcp) x (omega arith)
        ∙ copy_out (clear m payload (data_len m ip tcp)) payload http_payload x
            (omega (arith, data_end))
        ∙ clear_out m payload (data_len m ip tcp) x (omega (arith, data_end))

    filled_field : ip_len filled ip ≡ new_ip_len m ip tcp
    filled_field =
        let next : ip + 3 ≡ ip + 2 + 1 = omega arith in
        rw next (
          store_net_value (copy (clear m payload (data_len m ip tcp)) payload http_payload) (ip + 2)
            (new_ip_len m ip tcp) (omega (arith, new_ip_len-eq enough, ip_len_small, data_len-eq)))

    filled_hl : ip_hl filled ip ≡ ip_hl m ip
    filled_hl = ap (λ b. b % 16) (filled_same ip (omega arith) (omega arith))

    module _ (m1 m2 : Mem) (c1 : SameOutside (ip + ip_hl filled ip * 4 + 16) 2 filled m1)
        (c2 : SameOutside (ip + 10) 2 (store_net m1 (ip + 10) 0) m2) where
      -- The checksums change their fields only.
      summed :
          (x : ℕ)
          → (x < ip + 10) ⊎ (ip + 12 ≤ x)
          → (x < tcp + 16) ⊎ (tcp + 18 ≤ x)
          → m2 x ≡ filled x
      summed x out out' =
          c2 x (omega arith)
          ∙ store_net_out m1 (ip + 10) 0 x (omega arith)
          ∙ c1 x (omega (arith, filled_hl))

      rewritten : IsRewritten m ip tcp (new_ip_len m ip tcp) m2
      rewritten = record {
        length_of = new_ip_len-eq enough;
        field =
            ap₂ (λ (a b : ℕ). a * 256 + b) (summed (ip + 2) (omega arith) (omega arith))
              (summed (ip + 3) (omega arith) (omega arith))
            ∙ filled_field;
        text = λ k b e.
            summed (tcp + doff m tcp * 4 + k) (omega arith) (omega arith) ∙ filled_text k b e;
        zeros = λ x lo hi. summed x (omega arith) (omega arith) ∙ filled_zeros x lo hi;
        same = λ x o1 o2 o3 o4. summed x o2 o3 ∙ filled_same x o1 o4;
      }

  -- A packet whose data is shorter than the text: the data is cleared, and 0 is returned.
  abbrev pub IsCleared : (len : ℕ) → Mem → Type 0
  IsCleared len m' =
      (len ≡ 0)
      × ((x : ℕ) → tcp + doff m tcp * 4 ≤ x → x < ip + ip_len m ip → m' x ≡ 0)
      × ((x : ℕ) → (x < tcp + doff m tcp * 4) ⊎ (ip + ip_len m ip ≤ x) → m' x ≡ m x)

  abbrev pub IsShort : Type 0
  IsShort = ip_len m ip < ip_hl m ip * 4 + doff m tcp * 4 + length http_payload

  abbrev pub IsCorrupted : Checksum → Option (ℕ × Mem) → Type 0
  IsCorrupted do_checksum none =
      (¬ IsShort) × ((m' : Mem) × (proto : ℕ) × (len : ℕ) × (do_checksum m' ip proto len ≡ none))
  IsCorrupted do_checksum (some (len, m')) =
      (IsShort × IsCleared len m') ⊎ ((¬ IsShort) × IsRewritten m ip tcp len m')

  -- `corrupt_packet` of a packet whose headers fit in its length: when its data is shorter than the text it
  -- clears the data and returns 0; else it puts the text in place of the data, clears the rest, corrects the
  -- length and returns it, and changes nothing else but the two checksums; or the process ends, when
  -- a checksum cannot be computed.
  pub corrupt_packet-IsCorrupted :
      (do_checksum : Checksum)
      → IsChecksum do_checksum
      → IsCorrupted do_checksum (corrupt_packet do_checksum m ip tcp)
  unfolding corrupt_packet
  corrupt_packet-IsCorrupted do_checksum sums =
      elim (Bool-cases (ltb (data_len m ip tcp) (length http_payload))) [
        | inl t ↦
            let few : data_len m ip tcp < length http_payload = ground arith in
            rw (t, corrupt_packet)
              (inl (
                omega (arith, data_len-eq),
                (
                  refl,
                  λ x lo hi. clear_in m payload (data_len m ip tcp) x lo (omega (arith, data_end)),
                  λ x out. clear_out m payload (data_len m ip tcp) x (omega (arith, data_end)),
                ),
              ))
        | inr f ↦
            let enough : length http_payload ≤ data_len m ip tcp = ground arith in
            let long : ¬ IsShort = λ h. omega (arith, data_len-eq) in
            let tcp_len = sub_size (new_ip_len m ip tcp) (ip_hl m ip * 4) in
            elim (Option-cases (do_checksum filled ip ipproto_tcp tcp_len)) [
              | inl n ↦ rw (f, n, corrupt_packet) (long, (filled, ipproto_tcp, tcp_len, n))
              | inr (m1, e1) ↦
                  let zeroed = store_net m1 (ip + 10) 0 in
                  elim (Option-cases (do_checksum zeroed ip ipproto_ip (ip_hl m ip * 4))) [
                    | inl n ↦
                        rw (f, e1, n, corrupt_packet)
                          (long, (zeroed, ipproto_ip, ip_hl m ip * 4, n))
                    | inr (m2, e2) ↦
                        rw (f, e1, e2, corrupt_packet)
                          (inr (
                            long,
                            rewritten enough m1 m2 (sums.tcp filled ip tcp_len m1 e1)
                                (sums.ip zeroed ip (ip_hl m ip * 4) m2 e2),
                          ))
                  ]
            ]
      ]
