-- ===== src/DoubleBuffer/Printed.antt =====
-- double_buffering/dblbuffering/src/lib.rs: what is printed, in any order of the threads' steps.
use mathlib.Core.List.{append-nil}
use divers.Base.{
  ℕ, zero, suc, ◌+◌, ◌≤◌, ◌<◌, ◌≡◌, ◌⊎◌, inl, inr, refl, sym, ◌∙◌, subst, some, List, ◌++◌, length,
  arith, ge→ltb,
}
use divers.DoubleBuffer.Reader.{File}
use divers.DoubleBuffer.{
  EceWorker, Setting, WriterPlace, opening, starting, waiting, sending, writing, returned,
  finishing, joining, dropped, failed, writer_step, new_worker, update, Step, writes, reads, Reach,
  here, more,
}
use divers.DoubleBuffer.Flow.{AreOpened, IsFlow-reads, total}
use divers.DoubleBuffer.Output.{row, output, last_len, AreFull}
use divers.DoubleBuffer.Invariant.{named, sent, consumed, IsPlaced, IsWorking, IsBehind, Kept}
use divers.DoubleBuffer.Invariant.Steps.{opening-Kept, starting-Kept, waiting-Kept}
use divers.DoubleBuffer.Invariant.Rounds.{sending-Kept, writing-Kept, IsReturned-Kept}

total-zeros : (n : ℕ) → total n (λ _. 0) ≡ 0
unfolding total
total-zeros zero = refl
total-zeros (suc n) = omega (arith, total-zeros n)

module _ (c : Setting) (file : ℕ → File) where
  -- What was printed of `work`, up to some buffer of a round, or up to the end of a round that ends the loop.
  abbrev pub IsPrinted : EceWorker → Type 0
  IsPrinted w =
      (k : ℕ) × AreFull c file k
      × (((¬ IsBehind w.place)
            × ((i : ℕ) × (i ≤ c.nr) × (w.printed ≡ output c file k ++ row c file k i)))
          ⊎ (IsBehind w.place
              × (last_len c file k c.nr < c.capacity)
              × (w.printed ≡ output c file (suc k))))

module _ (c : Setting) (file : ℕ → File) (o : AreOpened c file) where
  writer-Kept :
      (k : ℕ) (acked : ℕ → ℕ) (p : WriterPlace) (w v : EceWorker)
      → w.place ≡ p
      → IsWorking c file k acked w
      → writer_step c w ≡ some v
      → Kept c file acked v
  writer-Kept k acked (opening i) w v at inv e = opening-Kept c file o k i acked w v at inv e
  writer-Kept k acked (starting i) w v at inv e = starting-Kept c file o k i acked w v at inv e
  writer-Kept k acked (waiting d) w v at inv e = waiting-Kept c file o k d acked w v at inv e
  writer-Kept k acked (sending i) w v at inv e = sending-Kept c file o k i acked w v at inv e
  writer-Kept k acked (writing i len) w v at inv e =
      writing-Kept c file o k i len acked w v at inv e
  writer-Kept k acked returned w v at inv e =
      absurd (subst (IsPlaced c file k acked w.printed) at inv.placed)
  writer-Kept k acked (finishing _) w v at inv e =
      absurd (subst (IsPlaced c file k acked w.printed) at inv.placed)
  writer-Kept k acked (joining _) w v at inv e =
      absurd (subst (IsPlaced c file k acked w.printed) at inv.placed)
  writer-Kept k acked dropped w v at inv e =
      absurd (subst (IsPlaced c file k acked w.printed) at inv.placed)
  writer-Kept k acked failed w v at inv e =
      absurd (subst (IsPlaced c file k acked w.printed) at inv.placed)

  -- Answers only become more.
  placed_later :
      (k : ℕ) (acked acked' : ℕ → ℕ) (printed : List (List ℕ)) (p : WriterPlace)
      → ((j : ℕ) → acked j ≤ acked' j)
      → IsPlaced c file k acked printed p
      → IsPlaced c file k acked' printed p
  placed_later k acked acked' printed (opening i) le v = v
  placed_later k acked acked' printed (starting i) le v = v
  placed_later k acked acked' printed (waiting d) le v = v
  placed_later k acked acked' printed (sending i) le (a, b, all) =
      (a, b, λ j lt. omega (arith, all j lt, le j))
  placed_later k acked acked' printed (writing i len) le (a, b, all, l) =
      (a, b, (λ j lt. omega (arith, all j lt, le j)), l)
  placed_later k acked acked' printed returned le v = v
  placed_later k acked acked' printed (finishing _) le v = v
  placed_later k acked acked' printed (joining _) le v = v
  placed_later k acked acked' printed dropped le v = v
  placed_later k acked acked' printed failed le v = v

  new-IsWorking : IsWorking c file 0 (λ _. 0) (new_worker c)
  unfolding output
  new-IsWorking = record {
    flow = record {
      each = λ i lt. rw (ge→ltb i 0 (omega arith)) (refl, refl, refl);
      count = omega (arith, total-zeros c.nr);
    };
    bank = refl;
    full = λ j lt. absurd (omega arith);
    placed = (omega arith, refl, refl);
  }

  step-Kept :
      (acked : ℕ → ℕ) (w v : EceWorker)
      → Kept c file acked w
      → Step c w v
      → (acked' : ℕ → ℕ) × Kept c file acked' v
  step-Kept acked w v (inl (k, inv)) (writes _ e) =
      (acked, writer-Kept k acked w.place w v refl inv e)
  step-Kept acked w v (inr (k, r)) (writes _ e) = (acked, inr (k, IsReturned-Kept c file k w v r e))
  step-Kept acked w v (inr (k, r)) (reads i _ _ lt e) = (acked, inr (k, r))
  step-Kept acked w v (inl (k, inv)) (reads i r answers lt e) = (
    update acked i (acked i + length answers),
    inl (
      k,
      record {
        flow =
            IsFlow-reads c file (named w.place) (sent k w.place) acked (consumed c.nr k w.place) i
              w.readers r w.listener answers o inv.flow lt e;
        bank = inv.bank;
        full = inv.full;
        placed =
            placed_later k acked (update acked i (acked i + length answers)) w.printed w.place
              (λ j. ground arith) inv.placed;
      },
    ),
  )

  pub Reach-Kept : (w : EceWorker) → Reach c w → (acked : ℕ → ℕ) × Kept c file acked w
  Reach-Kept w here = ((λ _. 0), inl (0, new-IsWorking))
  Reach-Kept v (more {w} r s) = let (acked, kept) = Reach-Kept w r in step-Kept acked w v kept s

  placed-printed :
      (k : ℕ) (acked : ℕ → ℕ) (printed : List (List ℕ)) (p : WriterPlace)
      → IsPlaced c file k acked printed p
      → (¬ IsBehind p) × ((i : ℕ) × (i ≤ c.nr) × (printed ≡ output c file k ++ row c file k i))
  unfolding row
  placed-printed k acked printed (opening i) (_, _, p) =
      ((λ b. b), (0, omega arith, p ∙ sym (append-nil (output c file k))))
  placed-printed k acked printed (starting i) (_, p) =
      ((λ b. b), (0, omega arith, p ∙ sym (append-nil (output c file k))))
  placed-printed k acked printed (waiting d) (_, p) =
      ((λ b. b), (0, omega arith, p ∙ sym (append-nil (output c file k))))
  placed-printed k acked printed (sending i) (_, p, _) =
      ((λ b. b), (0, omega arith, p ∙ sym (append-nil (output c file k))))
  placed-printed k acked printed (writing i len) (le, p, _, _) = ((λ b. b), (i, le, p))
  placed-printed k acked printed returned v = absurd v
  placed-printed k acked printed (finishing _) v = absurd v
  placed-printed k acked printed (joining _) v = absurd v
  placed-printed k acked printed dropped v = absurd v
  placed-printed k acked printed failed v = absurd v

  -- There is at least one reader and one byte of capacity, and each reader has a file that opens: then in every order
  -- of the steps of the threads the writer has printed, round by round, each reader's buffer with its next read, where
  -- a buffer keeps what its read does not fill; the rounds go on while the last reader's buffer is full, and `work`
  -- returns behind the first round where it is not, whatever the other files still hold.
  pub Reach-IsPrinted : (w : EceWorker) → Reach c w → IsPrinted c file w
  Reach-IsPrinted w r =
      let (acked, kept) = Reach-Kept w r in
      elim kept [
        | inl (k, inv) ↦ (k, inv.full, inl (placed-printed k acked w.printed w.place inv.placed))
        | inr (k, (b, full, short, p)) ↦ (k, full, inr (b, short, p))
      ]
