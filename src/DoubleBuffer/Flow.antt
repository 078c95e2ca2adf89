-- ===== src/DoubleBuffer/Flow.antt =====
-- double_buffering/dblbuffering/src/lib.rs: the jobs on their way and the answers of all readers.
use divers.Base.{
  ℕ, zero, suc, ◌+◌, ◌*◌, ◌≤◌, ◌<◌, ◌≡◌, ◌≢◌, inl, inr, refl, sym, ◌∙◌, subst, Bool, true, false,
  some, List, [], ◌++◌, ◌==◌, length, length-append, arith, ne→==, ==-refl, Bool-cases, ==_iff,
  ==→ne, lt→ltb, ge→ltb, ltb→lt, ltb→ge, if◌then◌else◌, ltb,
}
use divers.DoubleBuffer.Reader.{File, EceJob, EceReader, new_reader, reader_step}
use divers.DoubleBuffer.{EceWorker, Setting, update, send, open_job, work_job}
use divers.DoubleBuffer.Running.{IsReader}
use divers.DoubleBuffer.Running.Steps.{send-IsReader, step-IsReader}

unfoldable pub total : ℕ → (ℕ → ℕ) → ℕ
total zero f = 0
total (suc n) f = total n f + f n

total-update-above : (n : ℕ) (f : ℕ → ℕ) (i x : ℕ) → n ≤ i → total n (update f i x) ≡ total n f
unfolding total
total-update-above zero f i x le = refl
total-update-above (suc n) f i x le = ground (arith, total-update-above n f i x)

total-update :
    (n : ℕ) (f : ℕ → ℕ) (i x : ℕ) → i < n → total n (update f i (f i + x)) ≡ total n f + x
unfolding total
total-update zero f i x lt = absurd (omega arith)
total-update (suc n) f i x lt = elim (Bool-cases (i == n)) [
  | inl e ↦ ground (arith, total-update-above n f i (f i + x))
  | inr e ↦ ground (arith, total-update n f i x)
]

total-le : (n k : ℕ) (f : ℕ → ℕ) → ((i : ℕ) → i < n → f i ≤ k) → total n f ≤ n * k
unfolding total
total-le zero k f small = omega arith
total-le (suc n) k f small =
    omega (arith, total-le n k f (λ i lt. small i (omega arith)), small n (omega arith))

-- Numbers of at most `k` that add up to `k` each are all `k`.
pub total-full :
    (n k : ℕ) (f : ℕ → ℕ)
    → ((i : ℕ) → i < n → f i ≤ k)
    → n * k ≤ total n f
    → (i : ℕ) → i < n
    → k ≤ f i
unfolding total
total-full zero k f small full i lt = absurd (omega arith)
total-full (suc n) k f small full i lt =
    let below = λ (j : ℕ) (l : j < n). small j (omega arith) in
    let last = small n (omega arith) in
    elim (Bool-cases (i == n)) [
      | inl e ↦ subst (λ j. k ≤ f j) (sym ((==_iff i n).0 e)) (omega (arith, total-le n k f below))
      | inr e ↦ total-full n k f below (omega (arith, last)) i (omega (arith, ==→ne i n e))
    ]

-- Numbers that add up to less than `k` each are not all `k`.
pub total-short : (n k : ℕ) (f : ℕ → ℕ) → total n f < n * k → (i : ℕ) × (i < n) × (f i < k)
unfolding total
total-short zero k f lt = absurd (omega arith)
total-short (suc n) k f lt = elim (Bool-cases (ltb (f n) k)) [
  | inl small ↦ (n, omega arith, ltb→lt (f n) k small)
  | inr big ↦
      let (i, below, small) = total-short n k f (omega (arith, ltb→ge (f n) k big)) in
      (i, omega arith, small)
]

ltb-next : (j i : ℕ) → j ≢ i → ltb j (i + 1) ≡ ltb j i
ltb-next j i ne = ground (arith, ne)

-- The files of the readers open.
pub record AreOpened (c : Setting) (file : ℕ → File) : Type 0 where
  pub names : c.nr ≤ c.nr_files
  pub opens : (i : ℕ) → i < c.nr → c.open' (c.filename i) ≡ some (file i)
  pub some_reader : 0 < c.nr
  pub some_byte : c.capacity ≢ 0

-- A reader before the first message to it.
abbrev pub IsFresh : (capacity sent acked : ℕ) → EceReader → Type 0
IsFresh capacity sent acked r = (r ≡ new_reader capacity) × (sent ≡ 0) × (acked ≡ 0)

-- A reader to which the name of its file was sent, or not yet.
abbrev pub IsEither :
    (c : Setting) (file : ℕ → File) (named : Bool) (i sent acked : ℕ) → EceReader → Type 0
IsEither c file true i sent acked r = IsReader c.capacity (c.filename i) (file i) sent acked r
IsEither c file false i sent acked r = IsFresh c.capacity sent acked r

-- `sent` jobs were sent to each reader and `acked` of them answered; `consumed` answers were received.
pub record IsFlow (c : Setting) (file : ℕ → File) (named : ℕ → Bool) (sent : ℕ → ℕ) (consumed : ℕ)
    (acked : ℕ → ℕ) (readers : ℕ → EceReader) (listener : List EceJob) : Type 0 where
  pub each : (i : ℕ) → i < c.nr → IsEither c file (named i) i (sent i) (acked i) (readers i)
  pub count : length listener + consumed ≡ total c.nr acked

module _ (c : Setting) (file : ℕ → File) where
  -- A change of one reader, with what is counted of it.
  pub IsFlow-at :
      (named named' : ℕ → Bool) (sent sent' acked acked' : ℕ → ℕ) (consumed consumed' i : ℕ)
      (readers : ℕ → EceReader) (r : EceReader) (listener listener' : List EceJob)
      → IsFlow c file named sent consumed acked readers listener
      → ((j : ℕ)
          → j < c.nr
          → j ≢ i
          → (named' j ≡ named j) × (sent' j ≡ sent j) × (acked' j ≡ acked j))
      → (i < c.nr → IsEither c file (named' i) i (sent' i) (acked' i) r)
      → length listener' + consumed' ≡ total c.nr acked'
      → IsFlow c file named' sent' consumed' acked' (update readers i r) listener'
  IsFlow-at named named' sent sent' acked acked' consumed consumed' i readers r listener listener' v
        same here count =
      record {
        each = λ j lt. elim (Bool-cases (i == j)) [
          | inl e ↦
              subst (λ x. IsEither c file (named' x) x (sent' x) (acked' x) (update readers i r x))
                ((==_iff i j).0 e)
                (rw (==-refl i) (here (subst (λ x. x < c.nr) (sym ((==_iff i j).0 e)) lt)))
          | inr e ↦
              let (n, s, a) = same j lt (λ z. ==→ne i j e (sym z)) in rw (e, n, s, a) (v.each j lt)
        ];
        count = count;
      }

  -- A step of a reader's thread.
  pub IsFlow-reads :
      (named : ℕ → Bool) (sent acked : ℕ → ℕ) (consumed i : ℕ) (readers : ℕ → EceReader)
      (r : EceReader) (listener answers : List EceJob)
      → AreOpened c file
      → IsFlow c file named sent consumed acked readers listener
      → i < c.nr
      → reader_step c.open' (readers i) ≡ some (r, answers)
      → IsFlow c file named sent consumed
          (update acked i (acked i + length answers))
          (update readers i r)
          (listener ++ answers)
  unfolding reader_step
  IsFlow-reads named sent acked consumed i readers r listener answers o v lt e =
      IsFlow-at named named sent sent acked (update acked i (acked i + length answers)) consumed
        consumed i readers r listener (listener ++ answers) v
        (λ j l ne. (refl, refl, rw (ne→== i j (λ z. ne (sym z))) refl))
        (λ l. rw (==-refl i) (stays (named i) (v.each i lt)))
        (omega (
          arith,
          v.count,
          length-append listener answers,
          total-update c.nr acked i (length answers) lt,
        ))
    where
      stays :
          (b : Bool)
          → IsEither c file b i (sent i) (acked i) (readers i)
          → IsEither c file b i (sent i) (acked i + length answers) r
      stays true u =
          step-IsReader c.capacity (c.filename i) (file i) c.open' o.some_byte (o.opens i lt)
            (sent i) (acked i) (readers i) (r, answers) u e
      stays false (fresh, _, _) = absurd (grind (arith, rw fresh at e))

  -- The name of its file is sent to the next reader.
  pub IsFlow-names :
      (sent acked : ℕ → ℕ) (consumed i : ℕ) (w : EceWorker)
      → i < c.nr
      → IsFlow c file (λ j. ltb j i) sent consumed acked w.readers w.listener
      → IsFlow c file
          (λ j. ltb j (i + 1))
          sent
          consumed
          acked
          (send i (open_job (c.filename i)) w).readers
          w.listener
  IsFlow-names sent acked consumed i w lt v =
      let (fresh, none_sent, none_acked) = rw (ge→ltb i i (omega arith)) at (v.each i lt) in
      IsFlow-at (λ j. ltb j i) (λ j. ltb j (i + 1)) sent sent acked acked consumed consumed i
        w.readers _ w.listener w.listener v (λ j l ne. (ltb-next j i ne, refl, refl))
        (λ l. rw (lt→ltb i (i + 1) (omega arith)) (
          inr (record {
            jobs = [];
            first = rw fresh refl;
            works = tt;
            count = sym none_sent;
            none_acked = none_acked;
            place = rw fresh refl;
            buffers = rw fresh refl;
            bank = rw fresh refl;
          })))
        v.count

  -- A job is sent to the next reader.
  pub IsFlow-sends :
      (acked : ℕ → ℕ) (consumed m i : ℕ) (w : EceWorker)
      → i < c.nr
      → IsFlow c file
          (λ _. true)
          (λ j. if ltb j i then suc m else m)
          consumed
          acked
          w.readers
          w.listener
      → IsFlow c file
          (λ _. true)
          (λ j. if ltb j (i + 1) then suc m else m)
          consumed
          acked
          (send i (work_job c w.offset false) w).readers
          w.listener
  IsFlow-sends acked consumed m i w lt v =
      IsFlow-at (λ _. true) (λ _. true) (λ j. if ltb j i then suc m else m)
        (λ j. if ltb j (i + 1) then suc m else m) acked acked consumed consumed i w.readers _
        w.listener w.listener v (λ j l ne. (refl, rw (ltb-next j i ne) refl, refl))
        (λ l. rw (lt→ltb i (i + 1) (omega arith)) (
          send-IsReader c.capacity (c.filename i) (file i) m (acked i) (w.readers i)
            (work_job c w.offset false) (rw (ge→ltb i i (omega arith)) at (v.each i lt))
            (refl, refl, refl)))
        v.count

  -- What is counted of the readers may be written otherwise.
  pub IsFlow-same :
      (named named' : ℕ → Bool) (sent sent' acked : ℕ → ℕ) (consumed consumed' : ℕ)
      (readers : ℕ → EceReader) (listener listener' : List EceJob)
      → IsFlow c file named sent consumed acked readers listener
      → ((j : ℕ) → j < c.nr → (named' j ≡ named j) × (sent' j ≡ sent j))
      → length listener' + consumed' ≡ length listener + consumed
      → IsFlow c file named' sent' consumed' acked readers listener'
  IsFlow-same named named' sent sent' acked consumed consumed' readers listener listener' v same
        count =
      record {
        each = λ j lt. let (n, s) = same j lt in rw (n, s) (v.each j lt);
        count = count ∙ v.count;
      }
