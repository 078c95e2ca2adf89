-- ===== src/DoubleBuffer/Running.antt =====
-- double_buffering/dblbuffering/src/lib.rs: what holds of one reader, whose file opens, at each of its steps.
pub mod Steps
use Prim.Native.String.{String}
use mathlib.Core.Option.{some-injective}
use divers.Base.{
  Bool-cases, ==_iff, ==→ne, ℕ, zero, suc, ◌+◌, ◌%◌, ◌≤◌, ◌<◌, ◌≡◌, ◌≢◌, ◌⊎◌, inl, inr, refl, sym,
  ap, ◌∙◌, Bool, true, false, Option, none, some, List, [], ◌∷◌, ◌++◌, ◌==◌, All, length, arith,
  ne→==,
}
use divers.DoubleBuffer.Reader.{
  File, EceBuffer, EceBuffers, EceJob, EceReader, Place, receiving, holding, answering, ended,
  panicked, new_bank, new_buffers, new_reader, get_bank, apply_bank, fill, later, usize_mod,
  take_job, reader_step,
}
use divers.DoubleBuffer.{open_job}
use divers.DoubleBuffer.Banks.{
  before, chunk, get_bank-new, get_bank-parity, get_bank-applied, get_bank-other,
}

-- Jobs of `send_work` that do not end the thread.
abbrev pub IsWork : (capacity : ℕ) → EceJob → Type 0
IsWork capacity job = (job.finished ≡ false) × (job.filename ≡ none) × (job.len ≡ capacity)

abbrev pub AreWork : (capacity : ℕ) → List EceJob → Type 0
AreWork capacity = All (IsWork capacity)

-- The jobs that were received and not answered, and those of them whose read is done.
abbrev pub taken : Place → ℕ
taken (holding _) = 1
taken (answering _) = 1
taken _ = 0

abbrev pub unanswered : Place → ℕ
unanswered (answering _) = 1
unanswered _ = 0

abbrev pub IsAlive : Place → Type 0
IsAlive ended = ⊥
IsAlive panicked = ⊥
IsAlive _ = Unit

-- A reader that has its file, when `sent` jobs were sent to it and `acked` of them answered.
pub record IsRunning (capacity : ℕ) (file : File) (sent acked : ℕ) (r : EceReader) : Type 0 where
  pub rest : File
  pub opened : r.f ≡ some rest
  pub left : (n : ℕ) → rest n ≡ file (n + (acked + unanswered r.place))
  pub now :
      get_bank (acked + unanswered r.place) r.buffers
      ≡ before capacity file (acked + unanswered r.place)
  pub next :
      get_bank (suc (acked + unanswered r.place)) r.buffers
      ≡ before capacity file (suc (acked + unanswered r.place))
  pub bank : r.first_bank % 2 ≡ acked % 2
  pub works : AreWork capacity r.queue
  pub count : length r.queue + taken r.place + acked ≡ sent
  pub alive : IsAlive r.place

-- A reader that has not taken the message with the name of its file.
pub record IsUnopened (capacity : ℕ) (name : String) (sent acked : ℕ) (r : EceReader) : Type 0 where
  pub jobs : List EceJob
  pub first : r.queue ≡ open_job name ∷ jobs
  pub works : AreWork capacity jobs
  pub count : length jobs ≡ sent
  pub none_acked : acked ≡ 0
  pub place : r.place ≡ receiving
  pub buffers : r.buffers ≡ new_buffers capacity
  pub bank : r.first_bank ≡ 0

abbrev pub IsReader :
    (capacity : ℕ) (name : String) (file : File) (sent acked : ℕ) → EceReader → Type 0
IsReader capacity name file sent acked r =
    IsRunning capacity file sent acked r ⊎ IsUnopened capacity name sent acked r

pub IsReader-le :
    (capacity : ℕ) (name : String) (file : File) (sent acked : ℕ) (r : EceReader)
    → IsReader capacity name file sent acked r
    → acked ≤ sent
IsReader-le capacity name file sent acked r (inl v) = omega (arith, v.count)
IsReader-le capacity name file sent acked r (inr v) = omega (arith, v.none_acked)

pub AreWork-append :
    (capacity : ℕ) (jobs : List EceJob) (job : EceJob)
    → AreWork capacity jobs
    → IsWork capacity job
    → AreWork capacity (jobs ++ (job ∷ []))
AreWork-append capacity [] job w j = (j, tt)
AreWork-append capacity (x ∷ jobs) job (v, w) j = (v, AreWork-append capacity jobs job w j)

unanswered-le : (p : Place) → unanswered p ≤ taken p
unanswered-le receiving = omega arith
unanswered-le (holding _) = omega arith
unanswered-le (answering _) = omega arith
unanswered-le ended = omega arith
unanswered-le panicked = omega arith

-- While at most the next read can be under way, the bank of the one before is whole.
pub IsReader-chunk :
    (capacity : ℕ) (name : String) (file : File) (k acked : ℕ) (r : EceReader)
    → IsReader capacity name file (suc (suc k)) acked r
    → suc k ≤ acked
    → get_bank k r.buffers ≡ chunk capacity file k
IsReader-chunk capacity name file k acked r (inr v) le = absurd (omega (arith, v.none_acked))
IsReader-chunk capacity name file k acked r (inl v) le =
    let done = acked + unanswered r.place in
    elim (Bool-cases (done == suc k)) [
      | inl e ↦
          let one : done ≡ suc k = (==_iff done (suc k)).0 e in
          get_bank-parity k (suc (suc k)) r.buffers (omega arith) ∙ rw one at v.next
      | inr e ↦
          let two : done ≡ suc (suc k) =
            omega (arith, v.count, unanswered-le r.place, ==→ne done (suc k) e) in
          get_bank-parity k (suc (suc k)) r.buffers (omega arith) ∙ rw two at v.now
    ]
