-- ===== src/IoLoop/Program/Samples.antt =====
-- ioloop/test.c: the program with three commands.
use divers.Base.{ℕ, ◌+◌, ◌≡◌, refl, true, none, some, List, [], ◌∷◌, length, ◌==◌, if◌then◌else◌}
use divers.Resources.{stream, release, ◌>>=◌}
use divers.IoLoop.{Manager, Answers, init_lib, add_event, del_event, del_internal_event}
use divers.IoLoop.Rounds.{
  main_loop, dispatch, handle, call, perform_all, data_at, received, set_rev, with_rev,
}
use divers.IoLoop.Table.{IsTable}
use divers.IoLoop.Balance.{with_event}
use divers.IoLoop.Delivery.{IsReady}
use divers.IoLoop.Program.{
  Pipes, Popen, f2cbk, on_event, read_round, f2iol, fcbk_clean, f2, f2_if, setup, Reach, started,
}
use divers.IoLoop.Program.Clean.{IsClean}
use divers.IoLoop.Program.Loop.{Reach-IsTable}

abbrev answers : ℕ → Answers
answers b = record { ev_block = some b; data_block = some (b + 1); ctl_ok = true; node_ok = true }

abbrev command : (fp fileno b : ℕ) → Popen
command fp fileno b = (some (fp, fileno), answers b)

abbrev ready : Manager
ready =
    with_event (f2iol 52 6) 300 301
      (with_event (f2iol 51 5) 200 201 (with_event (f2iol 50 4) 100 101 (init_lib 3)))

sets_up :
    setup (command 50 4 100) (command 51 5 200) (command 52 6 300) (init_lib 3) ≡ some (true, ready)
unfolding setup f2_if f2 add_event init_lib
sets_up = refl

-- Only the second command writes, once; then its output ends.
abbrev pipes : Pipes
pipes fd n = if fd == 5 then (if n == 0 then some 3 else some 0) else none

reached : Reach pipes ready
reached = started pipes 3 (command 50 4 100) (command 51 5 200) (command 52 6 300) ready sets_up

ready-IsReady : IsReady ready ((201, 1) ∷ (101, 17) ∷ [])
unfolding init_lib
ready-IsReady = ((refl, (refl, tt)), (refl, (refl, tt)))

-- The first command's event goes, the second's stays.
one_round :
    (main_loop (on_event pipes) ((201, 1) ∷ (101, 17) ∷ []) ready >>= λ r. some (r.1.watched))
    ≡ some (6 ∷ 5 ∷ [])
unfolding main_loop dispatch handle call perform_all data_at received set_rev with_rev on_event
    f2cbk init_lib del_event del_internal_event release
one_round = refl

-- Behind the first round the second command's output has ended.
abbrev first_round : List (ℕ × ℕ)
first_round = (201, 1) ∷ (101, 17) ∷ []

read_off_once : read_round first_round ready pipes 5 0 ≡ some 0
unfolding read_round f2cbk data_at with_rev init_lib
read_off_once = refl

Reach-IsTable_example :
    IsTable ready
    × IsClean ready
    × ((v : ℕ × ℕ) (vec : List (ℕ × ℕ))
        → IsReady ready (v ∷ vec)
        → (m' : Manager) × (main_loop (on_event pipes) (v ∷ vec) ready
            ≡ some (length (v ∷ vec), m'))
          × Reach (read_round (v ∷ vec) ready pipes) m')
Reach-IsTable_example = Reach-IsTable pipes ready reached

cleaned : fcbk_clean (f2iol 50 4) (stream 50 ∷ []) ≡ some (record (f2iol 50 4) { ctx = 0 }, [])
unfolding fcbk_clean release
cleaned = refl
