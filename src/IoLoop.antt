-- ===== src/IoLoop.antt =====
-- ioloop/ioloop.c: a table of watched file descriptors over epoll. `tsearch`, `tfind` and `tdelete` keep
-- their documented order, so the tree is the list of its entries, found by the descriptor. The
-- answers of `calloc`, `epoll_ctl` and `tsearch` are parameters; -1 is written 1. A heap block is the
-- number that `calloc` gave. A descriptor is closed only by `iol_exitlib`, and `iol_clean` does not touch the
-- table.
pub mod Balance
pub mod Rounds
pub mod Table
pub mod Safety
pub mod Delivery
pub mod Stop
pub mod OwnDeletion
pub mod Program
mod Samples
use divers.Base.{ℕ, Bool, ◌&&◌, not, Option, none, some, List, [], ◌∷◌, ◌==◌, has, if◌then◌else◌}
use divers.Resources.{Held, block, release, ◌>>=◌}

-- `struct ioloop_event_desc`; the callbacks are present or NULL. A descriptor is never negative in the
-- table, and `ref->iol_fd <= 0` of a negative one is that of 0.
pub record EventDesc : Type 0 where
  pub fd : ℕ
  pub ev : ℕ
  pub rev : ℕ
  pub ctx : ℕ
  pub has_func : Bool
  pub has_clean : Bool

-- A `struct epoll_event` in the tree: its block, its events, the block of `data.ptr` and what it holds.
pub record Event : Type 0 where
  pub ptr : ℕ
  pub events : ℕ
  pub data_ptr : ℕ
  pub desc : EventDesc

-- `_iol_manager`, the descriptors that epoll watches, and the blocks. `lost` has the entries that are out of
-- the tree while the block of their data is still allocated.
pub record Manager : Type 0 where
  pub root : List Event
  pub epfd : ℕ
  pub quit : ℕ
  pub watched : List ℕ
  pub blocks : Held
  pub lost : List Event

-- `_iol_cmp(a1, a2) == 0`.
abbrev pub iol_cmp : Event → ℕ → Bool
iol_cmp e fd = e.desc.fd == fd

-- `tfind`, `tdelete`; EPOLL_CTL_DEL of what is watched, and EPOLL_CTL_ADD, which is refused of it.
abbrev pub tfind : ℕ → List Event → Option Event
tfind fd [] = none
tfind fd (e ∷ es) = if iol_cmp e fd then some e else tfind fd es

abbrev pub tdelete : ℕ → List Event → List Event
tdelete fd [] = []
tdelete fd (e ∷ es) = if iol_cmp e fd then es else e ∷ tdelete fd es

abbrev pub unwatch : ℕ → List ℕ → List ℕ
unwatch fd [] = []
unwatch fd (x ∷ xs) = if fd == x then xs else x ∷ unwatch fd xs

abbrev pub epoll_add : (ctl_ok : Bool) → ℕ → List ℕ → Bool
epoll_add ctl_ok fd watched = ctl_ok && not (has fd watched)

-- `iol_initlib` on the manager of the program's start.
unfoldable pub init_lib : (epoll_create : ℕ) → Manager
init_lib epoll_create = record {
  root = [];
  epfd = epoll_create;
  quit = 0;
  watched = [];
  blocks = [];
  lost = [];
}

-- `_iol_free_node`, and the descriptors that it closes.
unfoldable pub free_node : Event → List ℕ × Manager → Option (List ℕ × Manager)
free_node e (closed, m) = release (block e.data_ptr) m.blocks >>= λ b.
    release (block e.ptr) b >>= λ b'.
    some (e.desc.fd ∷ closed, record m { watched = unwatch e.desc.fd m.watched; blocks = b' })

-- `tdestroy` calls it on each entry.
unfoldable pub tdestroy : List Event → List ℕ × Manager → Option (List ℕ × Manager)
unfolding free_node
tdestroy [] s = some s
tdestroy (e ∷ es) s = free_node e s >>= λ s'. tdestroy es s'

-- `iol_exitlib`.
unfoldable pub exit_lib : Manager → Option (List ℕ × Manager)
unfolding tdestroy
exit_lib m = tdestroy m.root ([], m)

-- `iol_stop_loop`.
abbrev pub stop_loop : Manager → Manager
stop_loop m = record m { quit = 1 }

-- What the system answers to `iol_add_event`: the two blocks, whether `epoll_ctl` takes the descriptor,
-- and whether `tsearch` has memory for a node. `calloc` and `memcpy` fill the data's block with the description.
pub record Answers : Type 0 where
  pub ev_block : Option ℕ
  pub data_block : Option ℕ
  pub ctl_ok : Bool
  pub node_ok : Bool

-- `tsearch`: the entry with the descriptor, or a new one; NULL without memory.
abbrev pub tsearch : Bool → Event → List Event → Option (List Event)
tsearch node_ok e es = elim (tfind e.desc.fd es) [
  | some old ↦ some es
  | none ↦ if node_ok then some (e ∷ es) else none
]

-- The labels of `iol_add_event`, each with those behind it.
unfoldable pub add_alloc_data_err : (ev_ptr : ℕ) → Held → Option Held
add_alloc_data_err ev_ptr blocks = release (block ev_ptr) blocks

unfoldable pub add_epoll_err : (ev_ptr data_ptr : ℕ) → Held → Option Held
unfolding add_alloc_data_err
add_epoll_err ev_ptr data_ptr blocks =
    release (block data_ptr) blocks >>= λ b. add_alloc_data_err ev_ptr b

-- `iol_add_event` of a reference that is not NULL.
unfoldable pub add_event : Answers → EventDesc → Manager → Option (ℕ × Manager)
unfolding add_alloc_data_err add_epoll_err
add_event a ref m = if ref.fd == 0 then some (1, m) else elim (a.ev_block) [
  | none ↦ some (1, m)
  | some ev ↦ elim (a.data_block) [
    | none ↦ add_alloc_data_err ev (block ev ∷ m.blocks) >>= λ b. some (1, record m { blocks = b })
    | some d ↦
        let blocks' = block d ∷ block ev ∷ m.blocks in
        let e : Event = record { ptr = ev; events = ref.ev; data_ptr = d; desc = ref } in
        if not (epoll_add a.ctl_ok ref.fd m.watched)
        then (add_epoll_err ev d blocks' >>= λ b. some (1, record m { blocks = b }))
        else elim (tsearch a.node_ok e m.root) [
          | none ↦ add_epoll_err ev d blocks' >>= λ b.
              some (1, record m { blocks = b; watched = unwatch ref.fd (ref.fd ∷ m.watched) })
          | some root ↦ some (
            0,
            record m {
              root = root;
              watched = ref.fd ∷ m.watched;
              blocks = blocks';
              lost = elim (tfind ref.fd m.root) [ none ↦ m.lost | some old ↦ e ∷ m.lost ];
            },
          )
        ]
  ]
]

-- `_iol_del_internal_event` of an entry.
unfoldable pub del_internal_event : ℕ → Event → Manager → Option (ℕ × Manager)
del_internal_event fd e m =
    let m' = record m {
      root = tdelete e.desc.fd m.root;
      watched = unwatch fd m.watched;
      lost = if e.desc.has_clean then m.lost else e ∷ m.lost;
    } in
    (if e.desc.has_clean then release (block e.data_ptr) m'.blocks else some (m'.blocks)) >>= λ b.
    release (block e.ptr) b >>= λ b'. some (0, record m' { blocks = b' })

-- `iol_del_event`.
unfoldable pub del_event : ℕ → Manager → Option (ℕ × Manager)
unfolding del_internal_event
del_event fd m = elim (tfind fd m.root) [ none ↦ some (1, m) | some e ↦ del_internal_event fd e m ]
