-- ===== src/DoubleBuffer/Running/Steps.antt =====
-- double_buffering/dblbuffering/src/lib.rs: the steps of one reader, and a message to it, keep what holds of it.
use Prim.Native.String.{String}
use mathlib.Core.Option.{some-injective}
use native.Mathlib.Nat.{add-zero}
use divers.Base.{
  List-cases, ℕ, suc, ◌+◌, ◌%◌, ◌≡◌, ◌≢◌, inl, inr, refl, sym, ap, ◌∙◌, false, Option, some, List,
  [], ◌∷◌, ◌++◌, ◌==◌, length, length-append, arith, ne→==, subst,
}
use divers.DoubleBuffer.Reader.{
  File, EceJob, EceReader, Place, receiving, holding, answering, ended, panicked, get_bank,
  apply_bank, fill, later, usize_mod, take_job, reader_step, bytes_read,
}
use divers.DoubleBuffer.{open_job}
use divers.DoubleBuffer.Banks.{
  before, get_bank-new, get_bank-parity, get_bank-applied, get_bank-other,
}
use divers.DoubleBuffer.Running.{
  IsWork, AreWork, taken, unanswered, IsRunning, IsUnopened, IsReader, AreWork-append,
}

module _ (capacity : ℕ) (name : String) (file : File) where
  pub send-IsReader :
      (sent acked : ℕ) (r : EceReader) (job : EceJob)
      → IsReader capacity name file sent acked r
      → IsWork capacity job
      → IsReader capacity name file (suc sent) acked (record r { queue = r.queue ++ (job ∷ []) })
  send-IsReader sent acked r job (inl v) w = inl (record {
    rest = v.rest;
    opened = v.opened;
    left = v.left;
    now = v.now;
    next = v.next;
    bank = v.bank;
    works = AreWork-append capacity r.queue job v.works w;
    count = omega (arith, v.count, length-append r.queue (job ∷ []));
    alive = v.alive;
  })
  send-IsReader sent acked r job (inr v) w = inr (record {
    jobs = v.jobs ++ (job ∷ []);
    first = rw v.first refl;
    works = AreWork-append capacity v.jobs job v.works w;
    count = omega (arith, v.count, length-append v.jobs (job ∷ []));
    none_acked = v.none_acked;
    place = v.place;
    buffers = v.buffers;
    bank = v.bank;
  })

  takes-IsRunning :
      (sent acked : ℕ) (job : EceJob) (jobs : List EceJob) (r : EceReader)
      (open' : String → Option File)
      → capacity ≢ 0
      → r.place ≡ receiving
      → r.queue ≡ job ∷ jobs
      → IsRunning capacity file sent acked r
      → IsRunning capacity file sent acked (take_job open' job (record r { queue = jobs }))
  unfolding take_job
  takes-IsRunning sent acked job jobs r open' pos at queued v =
      let ((f, n, l), w) = subst (AreWork capacity) queued v.works in
      let e : (job.len == 0) ≡ false = ne→== job.len 0 (λ z. pos (sym l ∙ z)) in
      rw (f, n, e)
        (record {
          rest = v.rest;
          opened = v.opened;
          left = rw at at v.left;
          now = rw at at v.now;
          next = rw at at v.next;
          bank = v.bank;
          works = w;
          count = ground (arith, v.count, ap length queued, ap taken at);
          alive = tt;
        })

  opens-IsRunning :
      (sent acked : ℕ) (r : EceReader) (open' : String → Option File)
      → open' name ≡ some file
      → (v : IsUnopened capacity name sent acked r)
      → IsRunning capacity file sent acked
          (take_job open' (open_job name) (record r { queue = v.jobs }))
  unfolding take_job before
  opens-IsRunning sent acked r open' o v = rw o (record {
    rest = file;
    opened = refl;
    left = λ n. ap file (omega (arith, v.none_acked));
    now = rw (v.none_acked, v.buffers) (get_bank-new 0 capacity);
    next = rw (v.none_acked, v.buffers) (get_bank-new 1 capacity);
    bank = omega (arith, v.bank, v.none_acked);
    works = v.works;
    count = omega (arith, v.count, v.none_acked);
    alive = tt;
  })

  reads-IsRunning :
      (sent acked : ℕ) (job : EceJob) (r : EceReader)
      → r.place ≡ holding job
      → (v : IsRunning capacity file sent acked r)
      → IsRunning capacity file sent acked (record r {
        buffers = apply_bank r.first_bank (fill (v.rest 0)) r.buffers;
        f = some (later v.rest);
        place = answering (record job { len = bytes_read (v.rest 0) });
      })
  unfolding before
  reads-IsRunning sent acked job r at v =
      let none_yet : acked + unanswered r.place ≡ acked = ground (arith, ap unanswered at) in
      let one : acked + 1 ≡ suc acked = omega arith in
      let now : get_bank acked r.buffers ≡ before capacity file acked = rw none_yet at v.now in
      let next : get_bank (suc acked) r.buffers ≡ before capacity file (suc acked) =
        rw none_yet at v.next in
      let answer : v.rest 0 ≡ file acked = v.left 0 ∙ ap file (omega (arith, none_yet)) in
      record {
        rest = later v.rest;
        opened = refl;
        left = λ n. v.left (suc n) ∙ ap file (omega (arith, none_yet));
        now = rw one (
            get_bank-other r.first_bank (suc acked) (fill (v.rest 0)) r.buffers
              (omega (arith, v.bank))
            ∙ next);
        next = rw one (
            get_bank-applied r.first_bank (suc (suc acked)) (fill (v.rest 0)) r.buffers
              (omega (arith, v.bank))
            ∙ ap (fill (v.rest 0))
                (get_bank-parity (suc (suc acked)) acked r.buffers (omega arith) ∙ now)
            ∙ ap (λ a. fill a (before capacity file acked)) answer);
        bank = v.bank;
        works = v.works;
        count = ground (arith, v.count, ap taken at);
        alive = tt;
      }

  answers-IsRunning :
      (sent acked : ℕ) (job : EceJob) (r : EceReader)
      → r.place ≡ answering job
      → (v : IsRunning capacity file sent acked r)
      → IsRunning capacity file sent
          (acked + 1)
          (record r { place = receiving; first_bank = (r.first_bank + 1) % usize_mod })
  answers-IsRunning sent acked job r at v =
      let one : acked + unanswered r.place ≡ acked + 1 = ground (arith, ap unanswered at) in
      let none_more : acked + 1 + 0 ≡ acked + 1 = omega arith in
      record {
        rest = v.rest;
        opened = v.opened;
        left = λ n. v.left n ∙ ap file (omega (arith, one));
        now = rw none_more (rw one at v.now);
        next = rw none_more (rw one at v.next);
        bank = omega (arith, v.bank);
        works = v.works;
        count = ground (arith, v.count, ap taken at);
        alive = tt;
      }

  abbrev Stays : (sent acked : ℕ) → EceReader × List EceJob → Type 0
  Stays sent acked (r, answers) = IsReader capacity name file sent (acked + length answers) r

  module _ (open' : String → Option File) (pos : capacity ≢ 0) (o : open' name ≡ some file) where
    running_step :
        (sent acked : ℕ) (p : Place) (r : EceReader) (next : EceReader × List EceJob)
        → r.place ≡ p
        → IsRunning capacity file sent acked r
        → reader_step open' r ≡ some next
        → Stays sent acked next
    unfolding reader_step
    running_step sent acked receiving r next at v e = elim (List-cases r.queue) [
      | inl q ↦ absurd (grind (arith, rw (at, q) at e))
      | inr (job, jobs, q) ↦
          subst (Stays sent acked) (some-injective _ next (rw (at, q) at e))
            (rw (add-zero acked) (inl (takes-IsRunning sent acked job jobs r open' pos at q v)))
    ]
    running_step sent acked (holding job) r next at v e =
        subst (Stays sent acked) (some-injective _ next (rw (at, v.opened) at e))
          (rw (add-zero acked) (inl (reads-IsRunning sent acked job r at v)))
    running_step sent acked (answering job) r next at v e =
        subst (Stays sent acked) (some-injective _ next (rw at at e))
          (inl (answers-IsRunning sent acked job r at v))
    running_step sent acked ended r next at v e = absurd (grind (arith, rw at at e))
    running_step sent acked panicked r next at v e = absurd (grind (arith, rw at at e))

    -- A step of the reader's thread, with as many answers more as it sends.
    pub step-IsReader :
        (sent acked : ℕ) (r : EceReader) (next : EceReader × List EceJob)
        → IsReader capacity name file sent acked r
        → reader_step open' r ≡ some next
        → Stays sent acked next
    unfolding reader_step
    step-IsReader sent acked r next (inl v) e = running_step sent acked r.place r next refl v e
    step-IsReader sent acked r next (inr v) e =
        subst (Stays sent acked) (some-injective _ next (rw (v.place, v.first) at e))
          (rw (add-zero acked) (inl (opens-IsRunning sent acked r open' o v)))
