-- ===== src/DoubleBuffer/Left.antt =====
-- double_buffering/dblbuffering/src/lib.rs: how many steps can be left of `work`, while what it prints is bounded.
use Prim.Native.String.{String}
use mathlib.Core.Option.{some-injective}
use divers.Base.{
  ℕ, zero, suc, ◌+◌, ◌*◌, ◌-◌, ◌≤◌, ◌<◌, ◌≡◌, inl, inr, refl, ap, subst, false, Option, some, List,
  ◌==◌, length, arith, Bool-cases, Option-cases, List-cases, ne→==, ==_iff, ==→ne,
}
use divers.DoubleBuffer.Reader.{
  File, EceJob, EceReader, Place, receiving, holding, answering, ended, panicked, take_job,
  reader_step,
}
use divers.DoubleBuffer.{
  EceWorker, Setting, WriterPlace, opening, starting, waiting, sending, writing, update,
}
use divers.DoubleBuffer.Flow.{total}

-- The steps that are left of what a reader has, its answer's receipt included.
abbrev pub at_place : Place → ℕ
at_place (holding _) = 4
at_place (answering _) = 3
at_place _ = 0

abbrev pub of_reader : EceReader → ℕ
of_reader r = 5 * length r.queue + at_place r.place

-- The steps that are left of the writer up to the next print, what its messages cost included.
abbrev pub at_writer : (nr : ℕ) → WriterPlace → ℕ
at_writer nr (opening i) = (nr - i) * 6 + (nr * 12 + 5)
at_writer nr (starting i) = (nr - i) * 6 + (nr * 6 + 4)
at_writer nr (waiting _) = nr * 6 + 3
at_writer nr (sending i) = (nr - i) * 6 + 3
at_writer nr (writing i _) = i * 8 + 2
at_writer nr _ = 0

-- The steps that are left when at most `bound` buffers are printed.
abbrev pub left : Setting → (bound : ℕ) → EceWorker → ℕ
left c bound w =
    (bound - length w.printed) * 9
    + at_writer c.nr w.place
    + length w.listener * 2
    + total c.nr (λ i. of_reader (w.readers i))

total-above :
    (n i : ℕ) (f : ℕ → EceReader) (r : EceReader)
    → n ≤ i
    → total n (λ j. of_reader (update f i r j)) ≡ total n (λ j. of_reader (f j))
unfolding total
total-above zero i f r le = refl
total-above (suc n) i f r le =
    let other : (i == n) ≡ false = ne→== i n (λ e. omega arith) in
    rw other (omega (arith, total-above n i f r (omega arith)))

pub total-reader :
    (n i : ℕ) (f : ℕ → EceReader) (r : EceReader)
    → i < n
    → total n (λ j. of_reader (update f i r j)) + of_reader (f i)
      ≡ total n (λ j. of_reader (f j)) + of_reader r
unfolding total
total-reader zero i f r lt = absurd (omega arith)
total-reader (suc n) i f r lt = elim (Bool-cases (i == n)) [
  | inl e ↦
      let same : i ≡ n = (==_iff i n).0 e in
      rw e
        (omega (arith, total-above n i f r (omega (arith, same)), ap (λ j. of_reader (f j)) same))
  | inr e ↦ rw e (omega (arith, total-reader n i f r (omega (arith, ==→ne i n e))))
]

abbrev Less : EceReader → EceReader × List EceJob → Type 0
Less r (s, answers) = of_reader s + length answers * 2 < of_reader r

takes_le :
    (open' : String → Option File) (job : EceJob) (r : EceReader)
    → of_reader (take_job open' job r) ≤ 5 * length r.queue + 4
unfolding take_job
takes_le open' job r = ground arith

place-Less :
    (open' : String → Option File) (p : Place) (r : EceReader) (next : EceReader × List EceJob)
    → r.place ≡ p
    → reader_step open' r ≡ some next
    → Less r next
unfolding reader_step
place-Less open' receiving r next at e = elim (List-cases r.queue) [
  | inl q ↦ absurd (grind (arith, rw (at, q) at e))
  | inr (job, jobs, q) ↦ subst (Less r) (some-injective _ next (rw (at, q) at e)) (
      omega (arith, ap length q, takes_le open' job (record r { queue = jobs; place = receiving })))
]
place-Less open' (holding job) r next at e = elim (Option-cases r.f) [
  | inl n ↦
      subst (Less r) (some-injective _ next (rw (at, n) at e)) (ground (arith, ap at_place at))
  | inr (file, o) ↦
      subst (Less r) (some-injective _ next (rw (at, o) at e)) (ground (arith, ap at_place at))
]
place-Less open' (answering job) r next at e =
    subst (Less r) (some-injective _ next (rw at at e)) (ground (arith, ap at_place at))
place-Less open' ended r next at e = absurd (grind (arith, rw at at e))
place-Less open' panicked r next at e = absurd (grind (arith, rw at at e))

-- A step of a reader costs one at least.
pub reader-Less :
    (open' : String → Option File) (r : EceReader) (next : EceReader × List EceJob)
    → reader_step open' r ≡ some next
    → Less r next
reader-Less open' r next e = place-Less open' r.place r next refl e
