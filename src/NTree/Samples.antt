-- ===== src/NTree/Samples.antt =====
-- tad/n_tree.h: a father with two children, a loose node, and the theorems at them.
use divers.Base.{◌≡◌, refl, leb, some, none, [], ◌∷◌, arith, Option, if◌then◌else◌, ◌==◌}
use divers.Links.{Ptr, ok}
use divers.NTree.{Heap, remove_child_if, remove_child, insert_child}
use divers.NTree.Family.{IsFamily, IsLoose}
use divers.NTree.Insert.{insert_child-placed}
use divers.NTree.Remove.{remove_child_if-first_failing, remove_child-erase}

-- Node 1 has the children 10 and 30; node 2 has none; node 20 is loose and holds a `next` of 30.
abbrev nexts : Ptr → Option Ptr
nexts p =
    if p == 10
    then some 30
    else if p == 30
    then some 0
    else if p == 20
    then some 30
    else if p == 1
    then some 0
    else if p == 2
    then some 0
    else none

abbrev parents : Ptr → Option Ptr
parents p =
    if p == 10
    then some 1
    else if p == 30
    then some 1
    else if p == 20
    then some 0
    else if p == 1
    then some 0
    else if p == 2
    then some 0
    else none

abbrev children : Ptr → Option Ptr
children p =
    if p == 1
    then some 10
    else if p == 10
    then some 0
    else if p == 30
    then some 0
    else if p == 20
    then some 0
    else if p == 2
    then some 0
    else none

abbrev heap : Heap
heap = record { next = nexts; parent = parents; child = children }

family : IsFamily heap 1 (10 ∷ 30 ∷ [])
family = record {
  not_null = ground arith;
  child = refl;
  chain = (ground arith, refl, (ground arith, refl, tt));
  distinct = (refl, (refl, tt));
  parents = (refl, (refl, tt));
}

childless : IsFamily heap 2 []
childless = record {
  not_null = ground arith;
  child = refl;
  chain = tt;
  distinct = tt;
  parents = tt;
}

loose : IsLoose heap 20 (10 ∷ 30 ∷ [])
loose = record {
  not_null = ground arith;
  old_next = 30;
  old_parent = 0;
  has_next = refl;
  has_parent = refl;
  outside = refl;
}

IsLoose-alone : IsLoose heap 20 []
IsLoose-alone = record {
  not_null = ground arith;
  old_next = 30;
  old_parent = 0;
  has_next = refl;
  has_parent = refl;
  outside = refl;
}

insert_child-placed_example :
    (g : Heap) × (insert_child leb 3 1 20 heap ≡ ok g) × IsFamily g 1 (10 ∷ 20 ∷ 30 ∷ [])
insert_child-placed_example =
    insert_child-placed leb 3 heap 1 20 (10 ∷ 30 ∷ []) (omega arith) family loose (λ e. cc)

remove_child_if-first_failing_example :
    (g : Heap) × (remove_child_if 3 1 (λ p. p == 10) heap ≡ ok g) × IsFamily g 1 (10 ∷ [])
remove_child_if-first_failing_example =
    remove_child_if-first_failing 3 heap 1 (10 ∷ 30 ∷ []) (omega arith) family (λ p. p == 10)

remove_child-erase_example : (g : Heap) × (remove_child 3 1 10 heap ≡ ok g) × IsFamily g 1 (30 ∷ [])
remove_child-erase_example = remove_child-erase 3 heap 1 (10 ∷ 30 ∷ []) (omega arith) family 10 refl
