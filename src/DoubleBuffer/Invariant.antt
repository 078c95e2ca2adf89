-- ===== src/DoubleBuffer/Invariant.antt =====
-- double_buffering/dblbuffering/src/lib.rs: what holds at each place of `work`, in round `k`.
pub mod Steps
pub mod Rounds
use divers.Base.{
  ℕ, zero, suc, ◌+◌, ◌*◌, ◌%◌, ◌≤◌, ◌<◌, ◌≡◌, ◌⊎◌, Bool, true, List, [], ◌++◌, ltb, if◌then◌else◌,
}
use divers.DoubleBuffer.Reader.{File}
use divers.DoubleBuffer.{
  EceWorker, Setting, WriterPlace, opening, starting, waiting, sending, writing, returned,
  finishing, joining, dropped, failed,
}
use divers.DoubleBuffer.Flow.{IsFlow}
use divers.DoubleBuffer.Output.{row, output, last_len, AreFull}

-- Whether the name of its file was sent to a reader.
abbrev pub named : WriterPlace → ℕ → Bool
named (opening i) j = ltb j i
named _ j = true

-- How many jobs were sent to a reader.
abbrev pub sent : (k : ℕ) → WriterPlace → ℕ → ℕ
sent k (starting i) j = if ltb j i then suc k else k
sent k (waiting _) j = suc k
sent k (sending i) j = if ltb j i then suc (suc k) else suc k
sent k (writing _ _) j = suc (suc k)
sent k _ j = k

-- How many answers were received from `nr` readers.
abbrev pub consumed : (nr k : ℕ) → WriterPlace → ℕ
consumed nr k (waiting job_done) = nr * k + job_done
consumed nr k (sending _) = nr * suc k
consumed nr k (writing _ _) = nr * suc k
consumed nr k _ = nr * k

-- The places behind `work`.
abbrev pub IsBehind : WriterPlace → Type 0
IsBehind returned = Unit
IsBehind (finishing _) = Unit
IsBehind (joining _) = Unit
IsBehind dropped = Unit
IsBehind failed = Unit
IsBehind _ = ⊥

module _ (c : Setting) (file : ℕ → File) where
  -- Each reader has answered the job of round `k`.
  abbrev pub AreAnswered : (k : ℕ) → (acked : ℕ → ℕ) → Type 0
  AreAnswered k acked = (j : ℕ) → j < c.nr → suc k ≤ acked j

  abbrev pub IsPlaced : (k : ℕ) → (ℕ → ℕ) → List (List ℕ) → WriterPlace → Type 0
  IsPlaced k acked printed (opening i) = (i ≤ c.nr) × (k ≡ 0) × (printed ≡ output c file k)
  IsPlaced k acked printed (starting i) = (i ≤ c.nr) × (printed ≡ output c file k)
  IsPlaced k acked printed (waiting job_done) = (job_done < c.nr) × (printed ≡ output c file k)
  IsPlaced k acked printed (sending i) =
      (i ≤ c.nr) × (printed ≡ output c file k) × AreAnswered k acked
  IsPlaced k acked printed (writing i len) =
      (i ≤ c.nr)
      × (printed ≡ output c file k ++ row c file k i)
      × AreAnswered k acked
      × (len ≡ last_len c file k i)
  IsPlaced k acked printed _ = ⊥

  -- `work` has not returned.
  pub record IsWorking (k : ℕ) (acked : ℕ → ℕ) (w : EceWorker) : Type 0 where
    pub flow :
        IsFlow c file
          (named w.place)
          (sent k w.place)
          (consumed c.nr k w.place)
          acked
          w.readers
          w.listener
    pub bank : w.bank_read ≡ k % 2
    pub full : AreFull c file k
    pub placed : IsPlaced k acked w.printed w.place

  -- `work` has returned in round `k`.
  abbrev pub IsReturned : (k : ℕ) → EceWorker → Type 0
  IsReturned k w =
      IsBehind w.place
      × AreFull c file k
      × (last_len c file k c.nr < c.capacity)
      × (w.printed ≡ output c file (suc k))

  abbrev pub Kept : (ℕ → ℕ) → EceWorker → Type 0
  Kept acked w = ((k : ℕ) × IsWorking k acked w) ⊎ ((k : ℕ) × IsReturned k w)
