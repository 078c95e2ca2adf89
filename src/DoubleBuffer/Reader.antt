-- ===== src/DoubleBuffer/Reader.antt =====
-- double_buffering/dblbuffering/src/lib.rs: the buffers, and the thread of a reader. `read` fills at most the buffer;
-- `recv` never fails, since the senders live as long as the threads.
use Prim.Native.String.{String}
use divers.Base.{
  ℕ, zero, suc, ◌+◌, ◌%◌, ◌^◌, bit_and, Bool, Option, none, some, List, [], ◌∷◌, ◌++◌, ◌==◌, length,
  drop, if◌then◌else◌,
}

abbrev pub usize_mod : ℕ
usize_mod = 2 ^ 64

-- What `read` answers, call by call: `none` is an error.
abbrev pub File : Type 0
File = ℕ → Option (List ℕ)

pub record EceBuffer : Type 0 where
  pub buffer : List ℕ
  pub len : ℕ

-- The two `banks` of `EceBuffers`.
pub record EceBuffers : Type 0 where
  pub bank0 : EceBuffer
  pub bank1 : EceBuffer

abbrev zeros : ℕ → List ℕ
zeros zero = []
zeros (suc n) = 0 ∷ zeros n

-- `EceBufferBank::new`.
abbrev pub new_bank : (capacity : ℕ) → EceBuffer
new_bank capacity = record { buffer = zeros capacity; len = 0 }

-- `EceBuffers::new`.
abbrev pub new_buffers : (capacity : ℕ) → EceBuffers
new_buffers capacity = record { bank0 = new_bank capacity; bank1 = new_bank capacity }

-- `get_bank`.
unfoldable pub get_bank : (bank_id : ℕ) → EceBuffers → EceBuffer
get_bank bank_id b = if bit_and bank_id 1 == 0 then b.bank0 else b.bank1

-- `apply_bank`, for a closure that changes the buffer.
unfoldable pub apply_bank : (bank_id : ℕ) → (EceBuffer → EceBuffer) → EceBuffers → EceBuffers
apply_bank bank_id action b =
    if bit_and bank_id 1 == 0
    then record b { bank0 = action b.bank0 }
    else record b { bank1 = action b.bank1 }

pub record EceJob : Type 0 where
  pub offset : ℕ
  pub len : ℕ
  pub finished : Bool
  pub filename : Option String

-- Where a reader's thread is: at `recv`, with a job of some length for its file if it has one, before its answer,
-- behind the loop, or ended by `expect`.
pub data Place : Type 0 where
  receiving : Place
  holding : EceJob → Place
  answering : EceJob → Place
  ended : Place
  panicked : Place

-- `EceReader` and its thread; `queue` is what its channel holds.
pub record EceReader : Type 0 where
  pub buffers : EceBuffers
  pub queue : List EceJob
  pub place : Place
  pub f : Option File
  pub first_bank : ℕ

-- `EceReader::new`, and its thread before the loop.
abbrev pub new_reader : (capacity : ℕ) → EceReader
new_reader capacity = record {
  buffers = new_buffers capacity;
  queue = [];
  place = receiving;
  f = none;
  first_bank = 0;
}

-- `file.read(&mut buffer.buffer[..])` with its two branches.
unfoldable pub fill : Option (List ℕ) → EceBuffer → EceBuffer
fill none b = b
fill (some bytes) b = record { buffer = bytes ++ drop (length bytes) b.buffer; len = length bytes }

-- `bytes_read`.
abbrev pub bytes_read : Option (List ℕ) → ℕ
bytes_read none = 0
bytes_read (some bytes) = length bytes

abbrev pub later : File → File
later file n = file (suc n)

-- From `recv` up to the lock of the bank.
unfoldable pub take_job : (open' : String → Option File) → EceJob → EceReader → EceReader
take_job open' job r = if job.finished then record r { place = ended } else elim job.filename [
  | none ↦ record r { place = if job.len == 0 then receiving else holding job }
  | some filename ↦ elim (open' filename) [
    | none ↦ record r { place = panicked }
    | some file ↦ record r {
      f = some file;
      place = if job.len == 0 then receiving else holding job;
    }
  ]
]

-- The next step of a reader's thread, with the answer that it sends; `none` where it waits or has ended.
unfoldable pub reader_step : (String → Option File) → EceReader → Option (EceReader × List EceJob)
unfolding take_job fill apply_bank
reader_step open' r = elim r.place [
  | receiving ↦ elim r.queue [
    | [] ↦ none
    | job ∷ jobs ↦ some (take_job open' job (record r { queue = jobs }), [])
  ]
  | holding job ↦ elim r.f [
    | none ↦ some (record r { place = receiving }, [])
    | some file ↦ some (
      record r {
        buffers = apply_bank r.first_bank (fill (file 0)) r.buffers;
        f = some (later file);
        place = answering (record job { len = bytes_read (file 0) });
      },
      [],
    )
  ]
  | answering job ↦
      some (record r { place = receiving; first_bank = (r.first_bank + 1) % usize_mod }, job ∷ [])
  | ended ↦ none
  | panicked ↦ none
]
