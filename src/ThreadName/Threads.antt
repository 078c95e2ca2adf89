-- ===== src/ThreadName/Threads.antt =====
-- thread_name/thsetname.c: the two threads, and `main`, which creates them and waits.
use divers.Base.{ℕ, ◌≡◌, List, subst}
use divers.Memory.{Mem}
use divers.ThreadName.{max_name_len, set_thread_name, text_of, prefix, set_thread_name-prefix}

-- The program: a thread runs or does not yet, has set its name or not, and then sleeps for ever. `pthread_join`
-- returns when its thread has ended.
pub data Thread : Type 0 where
  uncreated : Thread
  unnamed : Thread
  sleeping : (name : List ℕ) → Thread
  ended : Thread

-- How far `main` is: before each of its two `pthread_create`, at each of its two `pthread_join`, or behind them.
pub data Place : Type 0 where
  create_i create_o join_i join_o returned : Place

pub record State : Type 0 where
  pub place : Place
  pub i_t : Thread
  pub o_t : Thread

-- The texts "input_thread" and "output_thread" in the memory of the program.
pub record Texts : Type 0 where
  pub mem : Mem
  pub input : ℕ
  pub output : ℕ

abbrev pub initial : State
initial = record { place = create_i; i_t = uncreated; o_t = uncreated }

-- The steps of `main`, `input_thread` and `output_thread`, in any order.
pub data Step (x : Texts) : State → State → Type 0 where
  creates_i :
      (s : State) → s.place ≡ create_i → Step x s (record s { place = create_o; i_t = unnamed })
  creates_o :
      (s : State) → s.place ≡ create_o → Step x s (record s { place = join_i; o_t = unnamed })
  names_i :
      (s : State)
      → s.i_t ≡ unnamed
      → Step x s (record s { i_t = sleeping (set_thread_name x.mem x.input) })
  names_o :
      (s : State)
      → s.o_t ≡ unnamed
      → Step x s (record s { o_t = sleeping (set_thread_name x.mem x.output) })
  sleeps : (s : State) → Step x s s
  joins_i : (s : State) → s.place ≡ join_i → s.i_t ≡ ended → Step x s (record s { place = join_o })
  joins_o :
      (s : State) → s.place ≡ join_o → s.o_t ≡ ended → Step x s (record s { place = returned })

pub data Reach (x : Texts) : State → Type 0 where
  here : Reach x initial
  more : {s t : State} → Reach x s → Step x s t → Reach x t

-- A thread that sleeps has the first 16 characters of its own text as its name, and no thread ends.
abbrev pub IsNamed : Mem → ℕ → Thread → Type 0
IsNamed m p uncreated = Unit
IsNamed m p unnamed = Unit
IsNamed m p (sleeping name) = text_of name ≡ prefix max_name_len m p
IsNamed m p ended = ⊥

abbrev pub IsWaiting : Place → Type 0
IsWaiting join_o = ⊥
IsWaiting returned = ⊥
IsWaiting _ = Unit

not_ended : (m : Mem) (p : ℕ) (t : Thread) → IsNamed m p t → t ≡ ended → ⊥
not_ended m p t n e = subst (IsNamed m p) e n

-- In every order of the steps each thread that sleeps has the first 16 characters of its own text as its name,
-- whatever the other one does, and `main` waits for the first thread for ever.
pub Reach-IsNamed :
    (x : Texts) (s : State)
    → Reach x s
    → IsNamed x.mem x.input s.i_t × IsNamed x.mem x.output s.o_t × IsWaiting s.place
Reach-IsNamed x s here = (tt, tt, tt)
Reach-IsNamed x t (more {s} r step) = kept s t (Reach-IsNamed x s r) step
  where
    kept :
        (s t : State)
        → IsNamed x.mem x.input s.i_t × IsNamed x.mem x.output s.o_t × IsWaiting s.place
        → Step x s t
        → IsNamed x.mem x.input t.i_t × IsNamed x.mem x.output t.o_t × IsWaiting t.place
    kept s t (i, o, w) (creates_i _ _) = (tt, o, tt)
    kept s t (i, o, w) (creates_o _ _) = (i, tt, tt)
    kept s t (i, o, w) (names_i _ _) = ((set_thread_name-prefix x.mem x.input).1, o, w)
    kept s t (i, o, w) (names_o _ _) = (i, (set_thread_name-prefix x.mem x.output).1, w)
    kept s t (i, o, w) (sleeps _) = (i, o, w)
    kept s t (i, o, w) (joins_i _ _ e) = absurd (not_ended x.mem x.input s.i_t i e)
    kept s t (i, o, w) (joins_o _ _ e) = absurd (not_ended x.mem x.output s.o_t o e)
