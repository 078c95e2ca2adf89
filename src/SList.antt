-- ===== src/SList.antt =====
-- tad/s_list.h: a singly linked list whose elements hold a `next` pointer. The macros are functions
-- on a heap of such pointers; fuel bounds the walk.
pub mod Insert
pub mod Order
pub mod Remove
mod Samples
use divers.Base.{ℕ, Bool, Option, ◌==◌, if◌then◌else◌, not}
use divers.Links.{Ptr, Run, ok, ◌>>=◌, get_field, set_field, walk_while}

-- `next` of each allocated element.
abbrev pub Heap : Type 0
Heap = Ptr → Option Ptr

-- `slist_insert_elt(root, link, comparator)`: the new root and heap. `before walk link` is
-- `comparator(walk, link) < 0`.
pub insert_elt : (before : Ptr → Ptr → Bool) → ℕ → (root link : Ptr) → Heap → Run (Ptr × Heap)
insert_elt before fuel root link h = do
  (walk, pwalk) ← walk_while h (λ w. before w link) fuel root 0
  if pwalk == 0
      then (set_field h link root >>= λ g. ok (link, g))
      else (get_field h pwalk >>= λ n.
          set_field h link n >>= λ g. set_field g pwalk link >>= λ g'. ok (root, g'))

-- `slist_remove_elt(root, node)`.
pub remove_elt : ℕ → (root node : Ptr) → Heap → Run (Ptr × Heap)
remove_elt fuel root node h = do
  (walk, pwalk) ← walk_while h (λ w. not (w == node)) fuel root 0
  if walk == node
      then (if pwalk == 0
          then (get_field h root >>= λ n. ok (n, h))
          else (get_field h walk >>= λ n. set_field h pwalk n >>= λ g. ok (root, g)))
      else ok (root, h)
