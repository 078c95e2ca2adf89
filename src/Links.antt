-- ===== src/Links.antt =====
-- The walks that tad/s_list.h and tad/n_tree.h share: `slist_foreach_cond` and
-- `ntree_foreach_child_cond` follow `next` pointers while a condition holds.
pub mod Segs
pub mod Relink
use divers.Base.{ℕ, zero, suc, Bool, Option, none, some, List, [], ◌∷◌, ◌==◌, if◌then◌else◌, not}

-- An address; NULL is 0.
abbrev pub Ptr : Type 0
Ptr = ℕ

-- A run ends, dereferences what is no object, or is out of fuel.
pub data Run (A : Type 0) : Type 0 where
  ok : A → Run A
  fault : Run A
  out_of_fuel : Run A

infixl 5 ◌>>=◌
abbrev pub ◌>>=◌ : {A B : Type 0} → Run A → (A → Run B) → Run B
ok a >>= f = f a
fault >>= f = fault
out_of_fuel >>= f = out_of_fuel

-- The value read through a pointer, or a fault.
abbrev pub deref : {A : Type 0} → Option A → Run A
deref none = fault
deref (some a) = ok a

-- `for(walk = p; walk && test(walk); walk = walk->next) pwalk = walk;`, as the pair of `walk` and
-- `pwalk` behind the loop.
unfoldable pub walk_while :
    (Ptr → Option Ptr) → (Ptr → Bool) → ℕ → (walk pwalk : Ptr) → Run (Ptr × Ptr)
walk_while nxt test zero walk pwalk = out_of_fuel
walk_while nxt test (suc fuel) walk pwalk =
    if walk == 0
    then ok (walk, pwalk)
    else if not (test walk)
    then ok (walk, pwalk)
    else (deref (nxt walk) >>= λ q. walk_while nxt test fuel q walk)

-- The elements before the first that fails the test, and those from it on.
abbrev pub take_while : (Ptr → Bool) → List Ptr → List Ptr
take_while test [] = []
take_while test (x ∷ xs) = if test x then x ∷ take_while test xs else []

abbrev pub drop_while : (Ptr → Bool) → List Ptr → List Ptr
drop_while test [] = []
drop_while test (x ∷ xs) = if test x then drop_while test xs else x ∷ xs

-- The first address of a list, or `q`; the last one, or `p`.
abbrev pub first_or : Ptr → List Ptr → Ptr
first_or q [] = q
first_or q (x ∷ xs) = x

abbrev pub last_or : Ptr → List Ptr → Ptr
last_or p [] = p
last_or p (x ∷ xs) = last_or x xs

-- The pointer at `p` is set to `q`.
abbrev pub upd : (Ptr → Option Ptr) → Ptr → Ptr → Ptr → Option Ptr
upd nxt p q x = if x == p then some q else nxt x

-- `p->f` and `p->f = q`, for a field given as a map from objects to pointers; NULL is no object.
unfoldable pub get_field : (Ptr → Option Ptr) → Ptr → Run Ptr
get_field f p = if p == 0 then fault else deref (f p)

unfoldable pub set_field : (Ptr → Option Ptr) → Ptr → Ptr → Run (Ptr → Option Ptr)
unfolding get_field
set_field f p q = get_field f p >>= λ old. ok (upd f p q)
