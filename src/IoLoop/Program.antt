-- ===== src/IoLoop/Program.antt =====
-- ioloop/test.c: a program that reads the output of commands in the loop. The pipes of `popen`, what they answer to
-- each `read`, and which events `epoll_wait` returns are parameters. The second thread calls `f3` between two rounds
-- of the loop; that it may do so within a round, without a lock, is not modelled.
pub mod Clean
pub mod Loop
mod Samples
use divers.Base.{
  ℕ, ◌+◌, Bool, true, false, Option, none, some, List, [], ◌∷◌, ◌≡◌, ◌==◌, if◌then◌else◌,
}
use divers.Resources.{Held, stream, release, ◌>>=◌}
use divers.IoLoop.{EventDesc, Manager, Answers, init_lib, add_event}
use divers.IoLoop.Rounds.{Callback, main_loop, data_at, with_rev}
use divers.IoLoop.Delivery.{IsReady}

-- EPOLLIN, and EPOLLIN | EPOLLRDHUP.
abbrev pub epollin : ℕ
epollin = 1

abbrev pub epollin_rdhup : ℕ
epollin_rdhup = 8193

-- What the pipe behind each descriptor answers to `read`, call by call; -1 is `none`.
abbrev pub Pipes : Type 0
Pipes = (fd n : ℕ) → Option ℕ

-- A call of `read` takes its answer off the pipe.
abbrev pub read_off : (fd : ℕ) → Pipes → Pipes
read_off fd pipes fd' n = if fd' == fd then pipes fd' (n + 1) else pipes fd' n

-- `popen` gives a new pipe.
abbrev pub opened : (fd : ℕ) → (ℕ → Option ℕ) → Pipes → Pipes
opened fd pipe pipes fd' n = if fd' == fd then pipe n else pipes fd' n

-- `nbread > 0`.
abbrev pub is_positive : Option ℕ → Bool
is_positive none = false
is_positive (some n) = if n == 0 then false else true

-- `f2cbk`: what it returns, and the pipes behind it.
unfoldable pub f2cbk : EventDesc → Pipes → Option ℕ × Pipes
f2cbk d pipes = if d.rev == epollin then (pipes d.fd 0, read_off d.fd pipes) else (none, pipes)

-- The callback of the events, while the pipes have not been read from since the round began.
unfoldable pub on_event : Pipes → Callback
unfolding f2cbk
on_event pipes d m = ([], is_positive (f2cbk d pipes).0)

-- The pipes behind a round, which calls `f2cbk` for each event that is ready; these have different descriptors.
unfoldable pub read_round : List (ℕ × ℕ) → Manager → Pipes → Pipes
unfolding f2cbk data_at with_rev
read_round [] m pipes = pipes
read_round ((p, events) ∷ vec) m pipes = elim (data_at p m) [
  | none ↦ read_round vec m pipes
  | some e ↦ read_round vec m (f2cbk (with_rev events e.desc) pipes).1
]

-- `fcbk_clean`, on the streams that are open.
unfoldable pub fcbk_clean : EventDesc → Held → Option (EventDesc × Held)
fcbk_clean d streams =
    if d.ctx == 0
    then some (d, streams)
    else (release (stream d.ctx) streams >>= λ s. some (record d { ctx = 0 }, s))

-- The event that `f2` adds for the stream `fp`.
abbrev pub f2iol : (fp fileno : ℕ) → EventDesc
f2iol fp fileno = record {
  fd = fileno;
  ev = epollin_rdhup;
  rev = 0;
  ctx = fp;
  has_func = true;
  has_clean = true;
}

-- `f2`, with the stream that `popen` gives and its descriptor: whether the program goes on, and the table. `fileno`
-- of NULL is a fault.
unfoldable pub f2 : Option (ℕ × ℕ) → Answers → Manager → Option (Bool × Manager)
unfolding add_event
f2 none a m = none
f2 (some (fp, fileno)) a m =
    add_event a (f2iol fp fileno) m >>= λ (r : ℕ × Manager). some (r.0 == 0, r.1)

-- `f3`, which the second thread calls.
unfoldable pub f3 : Option (ℕ × ℕ) → Answers → Manager → Option (Bool × Manager)
unfolding f2
f3 popen a m = f2 popen a m

-- `main` up to its loop: three events.
abbrev pub Popen : Type 0
Popen = Option (ℕ × ℕ) × Answers

unfoldable pub f2_if : Bool → Popen → Manager → Option (Bool × Manager)
unfolding f2
f2_if true (popen, a) m = f2 popen a m
f2_if false _ m = some (false, m)

unfoldable pub setup : (p1 p2 p3 : Popen) → Manager → Option (Bool × Manager)
unfolding f2_if
setup p1 p2 p3 m = f2_if true p1 m >>= λ (r1 : Bool × Manager).
    f2_if r1.0 p2 r1.1 >>= λ (r2 : Bool × Manager). f2_if r2.0 p3 r2.1

-- The states that the loop of `main` passes, with what the pipes still answer: after the set-up, a round of
-- `iol_main_loop` or the second thread's call that is no end of the program.
pub data Reach : Pipes → Manager → Type 0 where
  started :
      (pipes : Pipes) (epfd : ℕ) (p1 p2 p3 : Popen) (m : Manager)
      → setup p1 p2 p3 (init_lib epfd) ≡ some (true, m)
      → Reach pipes m
  round :
      (pipes : Pipes) (m m' : Manager) (count : ℕ) (v : ℕ × ℕ) (vec : List (ℕ × ℕ))
      → Reach pipes m
      → IsReady m (v ∷ vec)
      → main_loop (on_event pipes) (v ∷ vec) m ≡ some (count, m')
      → Reach (read_round (v ∷ vec) m pipes) m'
  reload :
      (pipes : Pipes) (m m' : Manager) (fp fileno : ℕ) (pipe : ℕ → Option ℕ) (a : Answers)
      → Reach pipes m
      → f3 (some (fp, fileno)) a m ≡ some (true, m')
      → Reach (opened fileno pipe pipes) m'
