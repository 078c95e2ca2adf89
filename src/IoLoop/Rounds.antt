-- ===== src/IoLoop/Rounds.antt =====
-- ioloop/ioloop.c: `iol_main_loop` and the callbacks that it calls. A callback can call `iol_add_event`,
-- `iol_del_event` and `iol_stop_loop`, as often as it likes.
use divers.Base.{
  ℕ, ◌+◌, ◌-◌, ◌^◌, Bool, not, Option, none, some, List, [], ◌∷◌, ◌==◌, if◌then◌else◌,
}
use divers.Resources.{◌>>=◌}
use divers.IoLoop.{EventDesc, Event, Manager, Answers, add_event, del_event, stop_loop}

pub data Op : Type 0 where
  add : Answers → EventDesc → Op
  del : ℕ → Op
  stop : Op

unfoldable pub perform : Op → Manager → Option Manager
unfolding add_event del_event
perform (add a ref) m = add_event a ref m >>= λ r. some (r.1)
perform (del fd) m = del_event fd m >>= λ r. some (r.1)
perform stop m = some (stop_loop m)

unfoldable pub perform_all : List Op → Manager → Option Manager
unfolding perform
perform_all [] m = some m
perform_all (op ∷ ops) m = perform op m >>= λ m'. perform_all ops m'

-- What `iol_func` does with the description that it is given, and whether it returns a positive number.
abbrev pub Callback : Type 0
Callback = EventDesc → Manager → List Op × Bool

-- The description in the block `data_ptr`: that of an entry of the tree, or of one that is lost.
abbrev pub find_data : (data_ptr : ℕ) → List Event → Option Event
find_data p [] = none
find_data p (e ∷ es) = if e.data_ptr == p then some e else find_data p es

unfoldable pub data_at : (data_ptr : ℕ) → Manager → Option Event
data_at p m = elim (find_data p m.root) [ some e ↦ some e | none ↦ find_data p m.lost ]

-- `curr->iol_rev = events`.
unfoldable pub with_rev : (events : ℕ) → EventDesc → EventDesc
with_rev events d = record d { rev = events }

unfoldable pub set_rev : (data_ptr events : ℕ) → List Event → List Event
set_rev p events [] = []
set_rev p events (e ∷ es) =
    if e.data_ptr == p
    then record e { desc = with_rev events e.desc } ∷ es
    else e ∷ set_rev p events es

unfoldable pub received : (data_ptr events : ℕ) → Manager → Manager
received p events m = record m { root = set_rev p events m.root; lost = set_rev p events m.lost }

-- `curr->iol_func` and the deletion behind it. A block that was freed has no entry: to look into it is a
-- fault.
unfoldable pub call : Callback → (data_ptr : ℕ) → EventDesc → Manager → Option Manager
unfolding perform_all del_event data_at
call iol_func p d m =
    let (ops, positive) = iol_func d m in
    perform_all ops m >>= λ m2.
    if positive
    then some m2
    else (data_at p m2 >>= λ curr. del_event curr.desc.fd m2 >>= λ r. some (r.1))

-- The body of the loop of `iol_main_loop`, on one pair of block and events.
unfoldable pub handle : Callback → (data_ptr events : ℕ) → Manager → Option Manager
unfolding data_at
handle iol_func p events m =
    if p == 0
    then some m
    else (data_at p m >>= λ e.
        if not (e.desc.has_func)
        then some m
        else call iol_func p (with_rev events e.desc) (received p events m))

unfoldable pub dispatch : Callback → List (ℕ × ℕ) → ℕ → Manager → Option (ℕ × Manager)
unfolding handle
dispatch iol_func [] i m = some (i, m)
dispatch iol_func ((p, events) ∷ vec) i m =
    handle iol_func p events m >>= λ m'. dispatch iol_func vec (i + 1) m'

-- The `int` -1, by its 32 bits.
abbrev pub minus_one : ℕ
minus_one = 2 ^ 32 - 1

-- `iol_main_loop` with what `epoll_wait` gave; for no events, or an error, it returns -1.
unfoldable pub main_loop : Callback → List (ℕ × ℕ) → Manager → Option (ℕ × Manager)
unfolding dispatch
main_loop iol_func [] m = some (minus_one, m)
main_loop iol_func (v ∷ vec) m = dispatch iol_func (v ∷ vec) 0 m
