-- ===== src/SList/Order.antt =====
-- tad/s_list.h: `slist_insert_elt` keeps a list in the order of its comparator.
use divers.Base.{◌≡◌, Bool, true, false, inl, inr, List, [], ◌∷◌, Bool-cases}
use divers.Links.{Ptr}
use divers.SList.Insert.{placed}

-- No element stands before the one in front of it.
abbrev pub IsOrdered : (Ptr → Ptr → Bool) → List Ptr → Type 0
IsOrdered before [] = Unit
IsOrdered before (x ∷ []) = Unit
IsOrdered before (x ∷ y ∷ ys) = (before y x ≡ false) × IsOrdered before (y ∷ ys)

-- Insertion by an asymmetric comparator keeps the order of the list.
pub placed-IsOrdered :
    (before : Ptr → Ptr → Bool) (link : Ptr) (xs : List Ptr)
    → ((a b : Ptr) → before a b ≡ true → before b a ≡ false)
    → IsOrdered before xs
    → IsOrdered before (placed before link xs)
placed-IsOrdered before link [] asym o = tt
placed-IsOrdered before link (x ∷ []) asym o = elim (Bool-cases (before x link)) [
  | inl e ↦ rw e (asym x link e, tt)
  | inr e ↦ rw e (e, tt)
]
placed-IsOrdered before link (x ∷ y ∷ ys) asym (e, o) =
    let rest = placed-IsOrdered before link (y ∷ ys) asym o in
    elim (Bool-cases (before x link)) [
      | inr stop ↦ rw stop (stop, (e, o))
      | inl pass ↦ elim (Bool-cases (before y link)) [
        | inr stop ↦ rw (pass, stop) (asym x link pass, (stop, o))
        | inl on ↦ rw (pass, on) (e, rw on at rest)
      ]
    ]
