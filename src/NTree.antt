-- ===== src/NTree.antt =====
-- tad/n_tree.h: trees whose nodes hold the pointers `next`, `parent` and `child`; the children of a
-- node are the chain from its `child`. The macros are functions on a heap; fuel bounds the walk.
pub mod Family
pub mod Prepend
pub mod Walks
pub mod Insert
pub mod Remove
pub mod Program
mod Samples
use divers.Base.{ℕ, Bool, Option, ◌==◌, if◌then◌else◌, not}
use divers.Links.{Ptr, Run, ok, ◌>>=◌, get_field, set_field, walk_while}

-- `struct ntree_node`, field by field: what each holds in each allocated node.
pub record Heap : Type 0 where
  pub next : Ptr → Option Ptr
  pub parent : Ptr → Option Ptr
  pub child : Ptr → Option Ptr

set_next : Heap → Ptr → Ptr → Run Heap
set_next h p q = set_field h.next p q >>= λ f. ok (record h { next = f })

set_parent : Heap → Ptr → Ptr → Run Heap
set_parent h p q = set_field h.parent p q >>= λ f. ok (record h { parent = f })

set_child : Heap → Ptr → Ptr → Run Heap
set_child h p q = set_field h.child p q >>= λ f. ok (record h { child = f })

-- `ntree_prepend_child(elt, __child)`.
pub prepend_child : (elt child' : Ptr) → Heap → Run Heap
unfolding set_next set_parent set_child
prepend_child elt child' h = do
  tmp ← get_field h.child elt
  h1 ← set_parent h child' elt
  h2 ← set_child h1 elt child'
  set_next h2 child' tmp

-- The part that `ntree_remove_child_if` and `ntree_remove_child` share: unlink `walk`, unless NULL.
pub unlink : (father walk pwalk : Ptr) → Heap → Run Heap
unfolding set_next set_child
unlink father walk pwalk h =
    if walk == 0
    then ok h
    else if not (pwalk == 0)
    then (get_field h.next walk >>= λ n. set_next h pwalk n)
    else (get_field h.next walk >>= λ n. set_child h father n)

-- `ntree_remove_child_if(father, condition)`.
pub remove_child_if : ℕ → (father : Ptr) → (Ptr → Bool) → Heap → Run Heap
unfolding unlink
remove_child_if fuel father condition h = do
  first ← get_field h.child father
  (walk, pwalk) ← walk_while h.next condition fuel first 0
  unlink father walk pwalk h

-- `ntree_remove_child(father, __child)`.
pub remove_child : ℕ → (father child' : Ptr) → Heap → Run Heap
unfolding unlink
remove_child fuel father child' h = do
  first ← get_field h.child father
  (walk, pwalk) ← walk_while h.next (λ w. not (w == child')) fuel first 0
  unlink father walk pwalk h

-- `ntree_insert_child(father, __child, comparator)`; `up_to walk child` is
-- `comparator(walk, child) <= 0`.
pub insert_child : (up_to : Ptr → Ptr → Bool) → ℕ → (father child' : Ptr) → Heap → Run Heap
unfolding set_next set_parent set_child
insert_child up_to fuel father child' h = do
  h1 ← set_parent h child' father
  first ← get_field h1.child father
  if first == 0 then set_child h1 father child' else (do
    (walk, pwalk) ← walk_while h1.next (λ w. up_to w child') fuel first 0
    if pwalk == 0
        then (set_next h1 child' first >>= λ h2. set_child h2 father child')
        else (get_field h1.next pwalk >>= λ n.
            set_next h1 child' n >>= λ h2. set_next h2 pwalk child'))
