-- ===== src/DoubleBuffer/Invariant/Rounds.antt =====
-- double_buffering/dblbuffering/src/lib.rs: the writer's steps in the loop and behind it keep what holds.
use mathlib.Core.Option.{some-injective}
use mathlib.Core.List.{append_assoc, append-nil}
use divers.Base.{
  Option-cases, ℕ, suc, ◌+◌, ◌*◌, ◌%◌, ◌≤◌, ◌<◌, ◌≡◌, inl, inr, refl, sym, ◌∙◌, subst, true, some,
  ◌==◌, arith, Bool-cases, ==_iff, ==→ne, lt→ltb, ltb→lt, ltb→ge, if◌then◌else◌, ltb, bit_and,
}
use divers.Base.Bits.{and_one}
use divers.DoubleBuffer.Reader.{
  File, usize_mod, get_bank, Place, receiving, holding, answering, ended, panicked,
}
use divers.DoubleBuffer.{
  EceWorker, Setting, WriterPlace, opening, starting, waiting, sending, writing, returned,
  finishing, joining, dropped, failed, send_work, process_writer, writer_step, join,
}
use divers.DoubleBuffer.Flow.{AreOpened, IsFlow, IsFlow-sends, IsFlow-same}
use divers.DoubleBuffer.Running.{IsReader-chunk}
use divers.DoubleBuffer.Banks.{chunk, get_bank-parity}
use divers.DoubleBuffer.Output.{row, output, last_len}
use divers.DoubleBuffer.Invariant.{AreAnswered, IsPlaced, IsWorking, IsBehind, IsReturned, Kept}

next-bank : (b k : ℕ) → b ≡ k % 2 → bit_and ((b + 1) % usize_mod) 1 ≡ suc k % 2
next-bank b k e = omega (arith, and_one ((b + 1) % usize_mod))

module _ (c : Setting) (file : ℕ → File) (o : AreOpened c file) where
  pub sending-Kept :
      (k i : ℕ) (acked : ℕ → ℕ) (w v : EceWorker)
      → w.place ≡ sending i
      → IsWorking c file k acked w
      → writer_step c w ≡ some v
      → Kept c file acked v
  unfolding writer_step send_work row
  sending-Kept k i acked w v at inv e =
      let (le, p, all) = subst (IsPlaced c file k acked w.printed) at inv.placed in
      let flow = rw at at inv.flow in
      elim (Bool-cases (ltb i c.nr)) [
        | inl lt ↦ subst (Kept c file acked) (some-injective _ v (rw (at, lt) at e)) (
            inl (
              k,
              record {
                flow = IsFlow-sends c file acked (c.nr * suc k) (suc k) i w (ltb→lt i c.nr lt) flow;
                bank = inv.bank;
                full = inv.full;
                placed = (omega (arith, ltb→lt i c.nr lt), p, all);
              },
            ))
        | inr ge ↦
            let full = ltb→ge i c.nr ge in
            subst (Kept c file acked) (some-injective _ v (rw (at, ge) at e)) (
              inl (
                k,
                record {
                  flow =
                      IsFlow-same c file (λ _. true) (λ _. true)
                        (λ j. if ltb j i then suc (suc k) else suc k) (λ _. suc (suc k)) acked
                        (c.nr * suc k) (c.nr * suc k) w.readers w.listener w.listener flow
                        (λ j lt. (refl, rw (lt→ltb j i (omega arith)) refl)) refl;
                  bank = inv.bank;
                  full = inv.full;
                  placed = (omega arith, p ∙ sym (append-nil (output c file k)), all, refl);
                },
              ))
      ]

  -- The bank that the writer prints.
  printed_bank :
      (k i : ℕ) (acked : ℕ → ℕ) (w : EceWorker)
      → i < c.nr
      → w.bank_read ≡ k % 2
      → IsFlow c file (λ _. true) (λ _. suc (suc k)) (c.nr * suc k) acked w.readers w.listener
      → AreAnswered c file k acked
      → get_bank w.bank_read (w.readers i).buffers ≡ chunk c.capacity (file i) k
  printed_bank k i acked w lt bank flow all =
      get_bank-parity w.bank_read k (w.readers i).buffers (omega (arith, bank))
      ∙ IsReader-chunk c.capacity (c.filename i) (file i) k (acked i) (w.readers i) (flow.each i lt)
          (all i lt)

  pub writing-Kept :
      (k i len : ℕ) (acked : ℕ → ℕ) (w v : EceWorker)
      → w.place ≡ writing i len
      → IsWorking c file k acked w
      → writer_step c w ≡ some v
      → Kept c file acked v
  unfolding writer_step process_writer row output
  writing-Kept k i len acked w v at inv e =
      let (le, p, all, l) = subst (IsPlaced c file k acked w.printed) at inv.placed in
      let flow = rw at at inv.flow in
      elim (Bool-cases (ltb i c.nr)) [
        | inl lt ↦
            let next : i + 1 ≡ suc i = omega arith in
            let b = printed_bank k i acked w (ltb→lt i c.nr lt) inv.bank flow all in
            subst (Kept c file acked) (some-injective _ v (rw (at, lt) at e)) (
              inl (
                k,
                record {
                  flow = flow;
                  bank = inv.bank;
                  full = inv.full;
                  placed = (
                    omega (arith, ltb→lt i c.nr lt),
                    rw (p, b, next) (append_assoc (output c file k) (row c file k i) _),
                    all,
                    rw (b, next) refl,
                  );
                },
              ))
        | inr ge ↦
            let last : i ≡ c.nr = omega (arith, ltb→ge i c.nr ge) in
            let printed : w.printed ≡ output c file (suc k) = rw last at p in
            let len_last : len ≡ last_len c file k c.nr = rw last at l in
            elim (Bool-cases (ltb len c.capacity)) [
              | inl short ↦
                  subst (Kept c file acked) (some-injective _ v (rw (at, ge, short) at e)) (
                    inr (
                      k,
                      (tt, inv.full, omega (arith, ltb→lt len c.capacity short, len_last), printed),
                    ))
              | inr long ↦ subst (Kept c file acked) (some-injective _ v (rw (at, ge, long) at e)) (
                  inl (
                    suc k,
                    record {
                      flow =
                          IsFlow-same c file (λ _. true) (λ _. true) (λ _. suc (suc k))
                            (λ _. suc (suc k)) acked (c.nr * suc k) (c.nr * suc k + 0) w.readers
                            w.listener w.listener flow (λ j lt. (refl, refl)) (omega arith);
                      bank = next-bank w.bank_read k inv.bank;
                      full = λ j lt. elim (Bool-cases (j == k)) [
                        | inl same ↦
                            subst (λ x. c.capacity ≤ last_len c file x c.nr)
                              (sym ((==_iff j k).0 same))
                              (omega (arith, ltb→ge len c.capacity long, len_last))
                        | inr less ↦ inv.full j (omega (arith, ==→ne j k less))
                      ];
                      placed = (o.some_reader, printed);
                    },
                  ))
            ]
      ]

join-IsBehind : (p : Place) (n : ℕ) (q : WriterPlace) → join p (joining n) ≡ some q → IsBehind q
unfolding join
join-IsBehind ended n q e = subst IsBehind (some-injective (joining n) q e) tt
join-IsBehind panicked n q e = subst IsBehind (some-injective failed q e) tt
join-IsBehind receiving n q e = absurd (cc)
join-IsBehind (holding _) n q e = absurd (cc)
join-IsBehind (answering _) n q e = absurd (cc)

module _ (c : Setting) where
  abbrev Silent : EceWorker → EceWorker → Type 0
  Silent w v = IsBehind v.place × (v.printed ≡ w.printed)

  behind-Silent :
      (p : WriterPlace) (w v : EceWorker)
      → w.place ≡ p
      → IsBehind p
      → writer_step c w ≡ some v
      → Silent w v
  unfolding writer_step send_work
  behind-Silent returned w v at b e = subst (Silent w) (some-injective _ v (rw at at e)) (tt, refl)
  behind-Silent (finishing i) w v at b e = elim (Bool-cases (ltb i c.nr)) [
    | inl lt ↦ subst (Silent w) (some-injective _ v (rw (at, lt) at e)) (tt, refl)
    | inr ge ↦ subst (Silent w) (some-injective _ v (rw (at, ge) at e)) (tt, refl)
  ]
  behind-Silent (joining i) w v at b e = elim (Bool-cases (ltb i c.nr)) [
    | inl lt ↦ elim (Option-cases (join (w.readers i).place (joining (i + 1)))) [
      | inl n ↦ absurd (grind (arith, rw (at, lt, n) at e))
      | inr (q, j) ↦
          subst (Silent w) (some-injective _ v (rw (at, lt, j) at e))
            (join-IsBehind (w.readers i).place (i + 1) q j, refl)
    ]
    | inr ge ↦ subst (Silent w) (some-injective _ v (rw (at, ge) at e)) (tt, refl)
  ]
  behind-Silent dropped w v at b e = absurd (grind (arith, rw at at e))
  behind-Silent failed w v at b e = absurd (grind (arith, rw at at e))
  behind-Silent (opening _) w v at b e = absurd b
  behind-Silent (starting _) w v at b e = absurd b
  behind-Silent (waiting _) w v at b e = absurd b
  behind-Silent (sending _) w v at b e = absurd b
  behind-Silent (writing _ _) w v at b e = absurd b

  -- Behind `work` nothing is printed any more.
  pub IsReturned-Kept :
      (file : ℕ → File) (k : ℕ) (w v : EceWorker)
      → IsReturned c file k w
      → writer_step c w ≡ some v
      → IsReturned c file k v
  IsReturned-Kept file k w v (b, full, short, printed) e =
      let (b', same) = behind-Silent w.place w v refl b e in (b', full, short, same ∙ printed)
