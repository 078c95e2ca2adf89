-- ===== src/DoubleBuffer.antt =====
-- double_buffering/dblbuffering/src/lib.rs: a writer and `nr` reader threads, each reader with two buffers, in any
-- order of their steps: `EceWorker::new`, one call of `work`, and `drop`. A lock, and a message sent or received, is
-- one step. A file is what its reads answer, one after the other. A length or an index is a
-- `usize` of 64 bits, and wraps as in a release build. Messages that only report an error are left out.
pub mod Reader
pub mod Banks
pub mod Running
pub mod Flow
pub mod Output
pub mod Invariant
pub mod Printed
pub mod Progress
pub mod Left
pub mod Return
mod Samples
use Prim.Native.String.{String}
use mathlib.Core.Option
use divers.Base.{
  ℕ, suc, ◌+◌, ◌%◌, ◌<◌, ◌≡◌, bit_and, Bool, true, false, ◌&&◌, Option, none, some, List, [], ◌∷◌,
  ◌++◌, ◌==◌, ltb, if◌then◌else◌,
}
use divers.DoubleBuffer.Reader.{
  File, usize_mod, EceJob, EceReader, Place, receiving, holding, answering, ended, panicked,
  new_reader, get_bank, reader_step,
}

-- Where the writer is: `open_files` at a reader, the first `send_work` at a reader, `wait_readers` with its
-- `job_done`, the `send_work` of the loop at a reader, `process_writer` at a reader with its `len`, behind `work`,
-- in `drop` at the `send_work` for a reader or at its join, behind that, or ended by `expect`.
pub data WriterPlace : Type 0 where
  opening : (i : ℕ) → WriterPlace
  starting : (i : ℕ) → WriterPlace
  waiting : (job_done : ℕ) → WriterPlace
  sending : (i : ℕ) → WriterPlace
  writing : (i len : ℕ) → WriterPlace
  returned : WriterPlace
  finishing : (i : ℕ) → WriterPlace
  joining : (i : ℕ) → WriterPlace
  dropped : WriterPlace
  failed : WriterPlace

-- `EceWorker`, what `work` and `drop` keep (`drop` has an offset of its own), and what was printed; `listener` is
-- what the channel of the answers holds.
pub record EceWorker : Type 0 where
  pub place : WriterPlace
  pub readers : ℕ → EceReader
  pub listener : List EceJob
  pub offset : ℕ
  pub bank_read : ℕ
  pub printed : List (List ℕ)

-- The arguments of `EceWorker::new` and `work`, and the files of the system.
pub record Setting : Type 0 where
  pub nr : ℕ
  pub capacity : ℕ
  pub nr_files : ℕ
  pub filename : ℕ → String
  pub open' : String → Option File

abbrev pub update {ℓ} : {A : Type ℓ} → (ℕ → A) → ℕ → A → ℕ → A
update f i a j = if i == j then a else f j

-- `EceWorker::new`, and `work` before its first message.
abbrev pub new_worker : Setting → EceWorker
new_worker c = record {
  place = opening 0;
  readers = λ i. new_reader c.capacity;
  listener = [];
  offset = 0;
  bank_read = 0;
  printed = [];
}

abbrev pub send : ℕ → EceJob → EceWorker → EceWorker
send i job w =
    let r = w.readers i in
    record w { readers = update w.readers i (record r { queue = r.queue ++ (job ∷ []) }) }

abbrev pub open_job : String → EceJob
open_job name = record { offset = 0; len = 0; finished = false; filename = some name }

abbrev pub work_job : Setting → (offset : ℕ) → (finished : Bool) → EceJob
work_job c offset finished = record {
  offset = offset;
  len = c.capacity;
  finished = finished;
  filename = none;
}

-- One round of `send_work`, or its end, which goes on to `next`.
unfoldable pub send_work :
    Setting
    → (i capacity : ℕ) → (finished : Bool) → (again next : WriterPlace) → EceWorker
    → EceWorker
send_work c i capacity finished again next w =
    if ltb i c.nr
    then record (send i (work_job c w.offset finished) w) { place = again }
    else record w { offset = (w.offset + capacity) % usize_mod; place = next }

-- `wait_readers`, which without a reader has no sender to wait for.
unfoldable pub wait_readers : Setting → (job_done : ℕ) → EceWorker → Option EceWorker
wait_readers c job_done w =
    if c.nr == 0 then some (record w { place = sending 0 }) else elim w.listener [
      | [] ↦ none
      | x ∷ rest ↦ some (record w {
        listener = rest;
        place = if job_done + 1 == c.nr then sending 0 else waiting (job_done + 1);
      })
    ]

-- One round of `process_writer`, or its end with the end of the loop's round.
unfoldable pub process_writer : Setting → (i len : ℕ) → EceWorker → EceWorker
unfolding get_bank
process_writer c i len w =
    let b = get_bank w.bank_read (w.readers i).buffers in
    if ltb i c.nr
    then record w { printed = w.printed ++ (b.buffer ∷ []); place = writing (i + 1) b.len }
    else record w {
      bank_read = bit_and ((w.bank_read + 1) % usize_mod) 1;
      place = if ltb len c.capacity then returned else waiting 0;
    }

-- The join of a thread in `drop`: the `expect` on it panics when that thread has.
unfoldable pub join : Place → (next : WriterPlace) → Option WriterPlace
join ended next = some next
join panicked next = some failed
join receiving next = none
join (holding job) next = none
join (answering job) next = none

-- The next step of the writer; `none` where it waits or has ended.
unfoldable pub writer_step : Setting → EceWorker → Option EceWorker
unfolding send_work wait_readers process_writer join
writer_step c w = elim w.place [
  | opening i ↦ some (
      if ltb i c.nr_files && ltb i c.nr
      then record (send i (open_job (c.filename i)) w) { place = opening (i + 1) }
      else record w { place = starting 0 })
  | starting i ↦ some (send_work c i c.capacity false (starting (i + 1)) (waiting 0) w)
  | waiting job_done ↦ wait_readers c job_done w
  | sending i ↦ some (send_work c i c.capacity false (sending (i + 1)) (writing 0 0) w)
  | writing i len ↦ some (process_writer c i len w)
  | returned ↦ some (record w { place = finishing 0; offset = 0 })
  | finishing i ↦ some (send_work c i 0 true (finishing (i + 1)) (joining 0) w)
  | joining i ↦
      if ltb i c.nr
      then Option.map (λ p. record w { place = p }) (join (w.readers i).place (joining (i + 1)))
      else some (record w { place = dropped })
  | dropped ↦ none
  | failed ↦ none
]

pub data Step (c : Setting) (w : EceWorker) : EceWorker → Type 0 where
  writes : (v : EceWorker) → writer_step c w ≡ some v → Step c w v
  reads :
      (i : ℕ) (r : EceReader) (answers : List EceJob)
      → i < c.nr
      → reader_step c.open' (w.readers i) ≡ some (r, answers)
      → Step c w (record w { readers = update w.readers i r; listener = w.listener ++ answers })

pub data Reach (c : Setting) : EceWorker → Type 0 where
  here : Reach c (new_worker c)
  more : {w v : EceWorker} → Reach c w → Step c w v → Reach c v
