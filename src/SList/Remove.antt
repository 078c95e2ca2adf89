-- ===== src/SList/Remove.antt =====
-- tad/s_list.h: `slist_remove_elt`.
use native.Mathlib.Decide.{ℕ_discrete}
use divers.Base.{
  ℕ, ◌<◌, ◌≡◌, refl, ◌≢◌, sym, ap, subst, ◌∙◌, true, false, not, List, [], ◌∷◌, ◌++◌, arith, ◌==◌,
  if◌then◌else◌, length, has, Distinct, ==-refl, ne→==,
}
use divers.Links.{Ptr, ok, walk_while, take_while, drop_while, first_or, last_or, upd}
use divers.Links.Segs.{
  Seg, Seg-last, Seg-split, take-append-drop_while, walk_while_lem, has-last_or,
}
use divers.Links.Relink.{set_field-ok, get_field-ok, Seg-remove, upd-ne, not-mem-ne, Distinct-drop}
use divers.SList.{Heap, remove_elt}
use divers.SList.Insert.{IsRelinked}

-- The elements before `node`, and those behind it.
abbrev pub before_node : Ptr → List Ptr → List Ptr
before_node node xs = take_while (λ w. not (w == node)) xs

abbrev pub behind_node : Ptr → List Ptr → List Ptr
behind_node node [] = []
behind_node node (x ∷ xs) = if x == node then xs else behind_node node xs

-- The list without `node`.
abbrev pub erase : Ptr → List Ptr → List Ptr
erase node xs = before_node node xs ++ behind_node node xs

-- The walk stops at `node` if the list holds it.
pub drop_while-node :
    (node : Ptr) (xs : List Ptr)
    → has node xs ≡ true
    → drop_while (λ w. not (w == node)) xs ≡ node ∷ behind_node node xs
drop_while-node node [] m = cc
drop_while-node node (x ∷ xs) m = elim (ℕ_discrete x node) [
  | yes e ↦ rw (e, ==-refl node)
  | no ne ↦ rw (ne→== x node ne) (drop_while-node node xs (ground arith))
]

drop_while-missing :
    (node : Ptr) (xs : List Ptr) → has node xs ≡ false → drop_while (λ w. not (w == node)) xs ≡ []
drop_while-missing node [] out = refl
drop_while-missing node (x ∷ xs) out =
    rw (ne→== x node (λ e. differs e)) (drop_while-missing node xs (ground arith))
  where
    differs : x ≡ node → ⊥
    differs e = ground (arith, ==-refl node)

module _ (fuel : ℕ) (h : Heap) (node : Ptr) where
  -- Unlinking, by the elements that the walk has passed.
  remove_at :
      (fs bs : List Ptr)
      → Seg h (fs ++ (node ∷ bs)) 0
      → Distinct (fs ++ (node ∷ bs))
      → walk_while h (λ w. not (w == node)) fuel (first_or 0 (fs ++ (node ∷ bs))) 0
        ≡ ok (node, last_or 0 fs)
      → (g : Heap) × (remove_elt fuel (first_or 0 (fs ++ (node ∷ bs))) node h
          ≡ ok (first_or 0 (fs ++ bs), g))
        × IsRelinked h g fs (fs ++ bs)
  unfolding remove_elt
  remove_at [] bs (ne, e, s) (out, d) walk = (
    h,
    rw (walk, ==-refl node, get_field-ok h node (first_or 0 bs) ne e),
    record { chain = s; distinct = d; same = λ p m. refl },
  )
  remove_at (x ∷ xs) bs s d walk =
      let q = first_or 0 bs in
      let (front, (ne, e, back)) = Seg-split h (x ∷ xs) (node ∷ bs) 0 s in
      let (last_ne, last) = Seg-last h x xs node front in
      (
        upd h (last_or x xs) q,
        rw (
          walk,
          ==-refl node,
          ne→== (last_or x xs) 0 last_ne,
          get_field-ok h node q ne e,
          set_field-ok h (last_or x xs) q node last_ne last,
        ),
        record {
          chain = Seg-remove h x xs bs node s d;
          distinct = Distinct-drop (x ∷ xs) bs node d;
          same = λ p m.
              upd-ne h (last_or x xs) q p
                (not-mem-ne p (last_or x xs) (x ∷ xs) m (has-last_or x xs));
        },
      )

-- `slist_remove_elt` of an element of the list unlinks exactly that element, without a fault, and
-- writes no pointer outside the list.
pub remove_elt-erase :
    (fuel : ℕ) (h : Heap) (node : Ptr) (xs : List Ptr)
    → length xs < fuel
    → Seg h xs 0
    → Distinct xs
    → has node xs ≡ true
    → (g : Heap) × (remove_elt fuel (first_or 0 xs) node h ≡ ok (first_or 0 (erase node xs), g))
      × IsRelinked h g (before_node node xs) (erase node xs)
remove_elt-erase fuel h node xs enough s d m =
    let fs = before_node node xs in
    let bs = behind_node node xs in
    let test = λ (w : Ptr). not (w == node) in
    let whole : fs ++ (node ∷ bs) ≡ xs =
      ap (λ l. fs ++ l) (sym (drop_while-node node xs m)) ∙ take-append-drop_while test xs in
    subst
      (λ zs.
        (g : Heap) × (remove_elt fuel (first_or 0 zs) node h ≡ ok (first_or 0 (fs ++ bs), g))
        × IsRelinked h g fs (fs ++ bs))
      whole
      (remove_at fuel h node fs bs (subst (λ zs. Seg h zs 0) (sym whole) s)
        (subst Distinct (sym whole) d)
        (subst (λ zs. walk_while h test fuel (first_or 0 zs) 0 ≡ ok (node, last_or 0 fs))
          (sym whole)
          (walk_while_lem h test fuel xs 0 enough s
            ∙ ap (λ l. ok (first_or 0 l, last_or 0 fs)) (drop_while-node node xs m))))

-- An element that the list does not hold is not unlinked: root and pointers stay.
pub remove_elt-missing :
    (fuel : ℕ) (h : Heap) (node : Ptr) (xs : List Ptr)
    → length xs < fuel
    → Seg h xs 0
    → node ≢ 0
    → has node xs ≡ false
    → remove_elt fuel (first_or 0 xs) node h ≡ ok (first_or 0 xs, h)
unfolding remove_elt
remove_elt-missing fuel h node xs enough s ne out =
    let test = λ (w : Ptr). not (w == node) in
    rw (
      walk_while_lem h test fuel xs 0 enough s,
      drop_while-missing node xs out,
      ne→== 0 node (λ e. ne (sym e)),
    )
