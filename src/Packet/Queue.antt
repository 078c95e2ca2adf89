-- ===== src/Packet/Queue.antt =====
-- nfqueue_example/squash_packet.c: `init_appz`, `appz_main_loop` and `main`. What libnetfilter_queue, libnet, `poll`
-- and `recv` answer are parameters; what was received is the packets in it, none when that was an error, which
-- `nfq_handle_packet` is given with the length -1. The loop has no end; a run is a list of its first turns.
use divers.Base.{
  ℕ, ◌≡◌, ◌≢◌, refl, ap, ap₂, ◌∙◌, inl, inr, Bool, true, false, not, Option, none, some, List, [],
  ◌∷◌, ◌++◌, ◌==◌, if◌then◌else◌, Bool-cases, Option-cases, arith,
}
use divers.Memory.{Mem}
use divers.Resources.{◌>>=◌}
use divers.Packet.{Checksum, Verdict, process_packet, corrupt_packet}

-- The answers to the calls of `init_appz`: NULL and a negative number are failures.
pub record Answers : Type 0 where
  pub open' : Option ℕ
  pub unbind_ok : Bool
  pub bind_ok : Bool
  pub queue : Option ℕ
  pub mode_ok : Bool
  pub fd : Option ℕ

-- `nfq_ctx`; NULL is 0 and -1 is `none`.
pub record NfqCtx : Type 0 where
  pub handle : ℕ
  pub qhandle : ℕ
  pub qfd : Option ℕ

-- `exit_if`, with the rest of the function: `none` is the end of the process.
abbrev pub exit_if : Bool → Option NfqCtx → Option NfqCtx
exit_if cond rest = if cond then none else rest

abbrev pub is_null : Option ℕ → Bool
is_null none = true
is_null (some p) = p == 0

abbrev pub pointer : Option ℕ → ℕ
pointer none = 0
pointer (some p) = p

-- `init_appz`, by the context that it fills; it returns `qfd`.
unfoldable pub init_appz : Answers → Option NfqCtx
init_appz a = exit_if (is_null a.open') (
    exit_if (not a.unbind_ok) (
      exit_if (not a.bind_ok) (
        exit_if (is_null a.queue) (
          exit_if (not a.mode_ok)
            (some (record { handle = pointer a.open'; qhandle = pointer a.queue; qfd = a.fd }))))))

-- A packet as the callback finds it.
pub record Message : Type 0 where
  pub packet_id : Option ℕ
  pub tlen : Option ℕ
  pub mem : Mem
  pub buff : ℕ

-- One turn of the loop: what `poll` returns, 1 for -1, and the packets in what was received.
pub record Turn : Type 0 where
  pub polled : ℕ
  pub packets : List Message

-- `nfq_handle_packet`, with the callback of its queue: the verdicts given, or `none` if the callback ends the process.
abbrev pub Handler : Type 0
Handler = (Message → Option Verdict) → List Message → Option (List Verdict)

-- The callback on each packet, in their order.
abbrev pub each : Handler
each callback [] = some []
each callback (g ∷ gs) =
    callback g >>= λ (v : Verdict). each callback gs >>= λ (vs : List Verdict). some (v ∷ vs)

-- What the library documents.
abbrev pub CallsEach : Handler → Type 0
CallsEach nfq_handle_packet =
    (callback : Message → Option Verdict) (gs : List Message)
    → nfq_handle_packet callback gs ≡ each callback gs

module _ (nfq_handle_packet : Handler) (do_checksum : Checksum) (strstr : Mem → ℕ → Bool) where
  abbrev pub callback : Message → Option Verdict
  callback g = process_packet do_checksum strstr g.packet_id g.tlen g.mem g.buff

  -- The verdicts of the first turns of `appz_main_loop`; `none` is the end of the process in one.
  unfoldable pub appz_main_loop : List Turn → Option (List Verdict)
  appz_main_loop [] = some []
  appz_main_loop (t ∷ ts) =
      let rest = appz_main_loop ts in
      if t.polled == 0
      then rest
      else (nfq_handle_packet callback t.packets >>= λ (vs : List Verdict).
          rest >>= λ (ws : List Verdict). some (vs ++ ws))

-- How `main` ends, or what it has done in its first turns.
pub data Outcome : Type 0 where
  exited : Outcome
  returned : Outcome
  running : List Verdict → Outcome

abbrev pub outcome : Option (List Verdict) → Outcome
outcome none = exited
outcome (some vs) = running vs

unfoldable pub main : Handler → Checksum → (strstr : Mem → ℕ → Bool) → Answers → List Turn → Outcome
unfolding init_appz appz_main_loop
main nfq_handle_packet do_checksum strstr a turns = elim (init_appz a) [
  | none ↦ exited
  | some ctx ↦
      if is_null ctx.qfd
      then returned
      else outcome (appz_main_loop nfq_handle_packet do_checksum strstr turns)
]

-- The numbers of the packets that the turns receive.
abbrev pub id_of : Option ℕ → ℕ
id_of none = 0
id_of (some n) = n

abbrev pub message_ids : List Message → List ℕ
message_ids [] = []
message_ids (g ∷ gs) = id_of g.packet_id ∷ message_ids gs

abbrev pub received_ids : List Turn → List ℕ
received_ids [] = []
received_ids (t ∷ ts) =
    let rest = received_ids ts in if t.polled == 0 then rest else message_ids t.packets ++ rest

abbrev pub verdict_ids : List Verdict → List ℕ
verdict_ids [] = []
verdict_ids (v ∷ vs) = v.id ∷ verdict_ids vs

abbrev pub IsReady : Answers → Type 0
IsReady a =
    (is_null a.open' ≡ false)
    × (a.unbind_ok ≡ true)
    × (a.bind_ok ≡ true)
    × (is_null a.queue ≡ false)
    × (a.mode_ok ≡ true)

abbrev ready : Answers → NfqCtx
ready a = record { handle = pointer a.open'; qhandle = pointer a.queue; qfd = a.fd }

init_appz-ready : (a : Answers) → IsReady a → init_appz a ≡ some (ready a)
unfolding init_appz
init_appz-ready a (o, u, b, q, m) = rw (o, u, b, q, m) refl

init_appz-exits : (a : Answers) → ¬ IsReady a → init_appz a ≡ none
unfolding init_appz
init_appz-exits a n = ground (arith, n)

verdict_ids-append :
    (vs ws : List Verdict) → verdict_ids (vs ++ ws) ≡ verdict_ids vs ++ verdict_ids ws
verdict_ids-append [] ws = refl
verdict_ids-append (v ∷ vs) ws = ap (λ is. v.id ∷ is) (verdict_ids-append vs ws)

module _ (nfq_handle_packet : Handler) (calls : CallsEach nfq_handle_packet)
    (do_checksum : Checksum) (strstr : Mem → ℕ → Bool)
    (sums : (m : Mem) (ip proto len : ℕ) → do_checksum m ip proto len ≢ none) where
  corrupt_packet-returns : (m : Mem) (ip tcp : ℕ) → corrupt_packet do_checksum m ip tcp ≢ none
  unfolding corrupt_packet
  corrupt_packet-returns m ip tcp e = grind (arith, e, sums)

  process_packet-returns :
      (packet_id tlen : Option ℕ) (m : Mem) (buff : ℕ)
      → process_packet do_checksum strstr packet_id tlen m buff ≢ none
  unfolding process_packet
  process_packet-returns packet_id tlen m buff e = grind (arith, e, corrupt_packet-returns)

  process_packet-id :
      (packet_id tlen : Option ℕ) (m : Mem) (buff : ℕ) (v : Verdict)
      → process_packet do_checksum strstr packet_id tlen m buff ≡ some v
      → v.id ≡ id_of packet_id
  unfolding process_packet
  process_packet-id packet_id tlen m buff v e = grind (arith, e)

  each-ids :
      (gs : List Message)
      → (vs : List Verdict) × (each (callback nfq_handle_packet do_checksum strstr) gs ≡ some vs)
        × (verdict_ids vs ≡ message_ids gs)
  each-ids [] = ([], refl, refl)
  each-ids (g ∷ gs) =
      let (vs, e, ids) = each-ids gs in
      elim (Option-cases (process_packet do_checksum strstr g.packet_id g.tlen g.mem g.buff)) [
        | inl n ↦ absurd (process_packet-returns g.packet_id g.tlen g.mem g.buff n)
        | inr (v, e1) ↦ (
          v ∷ vs,
          rw (e1, e) refl,
          ap₂ ◌∷◌ (process_packet-id g.packet_id g.tlen g.mem g.buff v e1) ids,
        )
      ]

  appz_main_loop-ids :
      (ts : List Turn)
      → (vs : List Verdict) × (appz_main_loop nfq_handle_packet do_checksum strstr ts ≡ some vs)
        × (verdict_ids vs ≡ received_ids ts)
  unfolding appz_main_loop
  appz_main_loop-ids [] = ([], refl, refl)
  appz_main_loop-ids (t ∷ ts) =
      let (ws, e, ids) = appz_main_loop-ids ts in
      let (vs, e1, ids1) = each-ids t.packets in
      let called = calls (callback nfq_handle_packet do_checksum strstr) t.packets ∙ e1 in
      elim (Bool-cases (t.polled == 0)) [
        | inl z ↦ (ws, rw (z, e) refl, rw z ids)
        | inr f ↦
            (vs ++ ws, rw (f, called, e) refl, rw f (verdict_ids-append vs ws ∙ ap₂ ◌++◌ ids1 ids))
      ]

  -- If libnet can compute the checksums and `nfq_handle_packet` calls the callback on each packet, the program runs
  -- exactly when each call of its set-up succeeds and the queue's descriptor is positive; then each packet that is
  -- received gets one verdict, under its number, in the order in which the packets come. A failure of the set-up ends
  -- the process; without a positive descriptor `main` returns.
  pub main-answered :
      (a : Answers) (turns : List Turn)
      → (IsReady a
          → is_null a.fd ≡ false
          → (vs : List Verdict) × (main nfq_handle_packet do_checksum strstr a turns ≡ running vs)
            × (verdict_ids vs ≡ received_ids turns))
        × (IsReady a
            → is_null a.fd ≡ true
            → main nfq_handle_packet do_checksum strstr a turns ≡ returned)
        × (¬ IsReady a → main nfq_handle_packet do_checksum strstr a turns ≡ exited)
  unfolding main
  main-answered a turns =
      let (vs, e, ids) = appz_main_loop-ids turns in
      (
        λ ok fd. (vs, rw (init_appz-ready a ok, main) (rw (fd, e) refl), ids),
        λ ok fd. rw (init_appz-ready a ok, main) (rw fd refl),
        λ n. rw (init_appz-exits a n, main) refl,
      )
