-- ===== src/SList/Samples.antt =====
-- tad/s_list.h: a list of three elements, and the theorems at it.
use divers.Base.{
  ℕ, ◌≡◌, refl, true, false, ltb, some, none, List, [], ◌∷◌, arith, if◌then◌else◌, ◌==◌,
}
use divers.Links.{Ptr, ok, walk_while, set_field}
use divers.Links.Segs.{Seg}
use divers.SList.{Heap, insert_elt, remove_elt}
use divers.SList.Insert.{IsRelinked, insert_elt-placed}
use divers.SList.Remove.{remove_elt-erase}

-- The elements at 10, 20 and 40 are linked, the one at 30 is not.
abbrev heap : Heap
heap p =
    if p == 10
    then some 20
    else if p == 20
    then some 40
    else if p == 40
    then some 0
    else if p == 30
    then some 0
    else none

abbrev xs : List Ptr
xs = 10 ∷ 20 ∷ 40 ∷ []

chain : Seg heap xs 0
chain = (ground arith, refl, (ground arith, refl, (ground arith, refl, tt)))

insert_in_order :
    (g : Heap) × (insert_elt ltb 4 10 30 heap ≡ ok (10, g)) × (g 20 ≡ some 30) × (g 30 ≡ some 40)
unfolding insert_elt walk_while set_field
insert_in_order = (_, refl, refl, refl)

insert_elt-placed_example :
    (g : Heap) × (insert_elt ltb 4 10 30 heap ≡ ok (10, g))
    × IsRelinked heap g (30 ∷ xs) (10 ∷ 20 ∷ 30 ∷ 40 ∷ [])
insert_elt-placed_example =
    insert_elt-placed ltb 4 heap 30 0 xs (omega arith) chain (refl, (refl, (refl, tt)))
      (ground arith) refl refl

ltb_asym : (a b : ℕ) → ltb a b ≡ true → ltb b a ≡ false
ltb_asym a b h = ground arith

remove_elt-erase_example :
    (g : Heap) × (remove_elt 4 10 20 heap ≡ ok (10, g)) × IsRelinked heap g (10 ∷ []) (10 ∷ 40 ∷ [])
remove_elt-erase_example =
    remove_elt-erase 4 heap 20 xs (omega arith) chain (refl, (refl, (refl, tt))) refl
