-- ===== src/DoubleBuffer/Output.antt =====
-- double_buffering/dblbuffering/src/lib.rs: what the writer prints, without threads, banks and messages.
use divers.Base.{ℕ, zero, suc, ◌≤◌, ◌<◌, List, [], ◌∷◌, ◌++◌}
use divers.DoubleBuffer.Reader.{File}
use divers.DoubleBuffer.{Setting}
use divers.DoubleBuffer.Banks.{chunk}

module _ (c : Setting) (file : ℕ → File) where
  -- The buffers of round `k`, of the first readers.
  unfoldable pub row : (k readers : ℕ) → List (List ℕ)
  row k zero = []
  row k (suc i) = row k i ++ ((chunk c.capacity (file i) k).buffer ∷ [])

  -- The buffers of the first rounds.
  unfoldable pub output : (rounds : ℕ) → List (List ℕ)
  unfolding row
  output zero = []
  output (suc k) = output k ++ row k c.nr

  -- The `len` of the last of the first readers in round `k`.
  abbrev pub last_len : (k readers : ℕ) → ℕ
  last_len k zero = 0
  last_len k (suc i) = (chunk c.capacity (file i) k).len

  -- The rounds before `k` do not end the loop.
  abbrev pub AreFull : (k : ℕ) → Type 0
  AreFull k = (j : ℕ) → j < k → c.capacity ≤ last_len j c.nr
