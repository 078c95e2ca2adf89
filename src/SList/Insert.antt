-- ===== src/SList/Insert.antt =====
-- tad/s_list.h: `slist_insert_elt`.
use divers.Base.{
  ℕ, ◌<◌, ◌≡◌, ◌≢◌, sym, subst, ◌∙◌, Bool, false, some, List, [], ◌∷◌, ◌++◌, arith, length, has,
  Distinct, ==-refl, ne→==,
}
use divers.Links.{Ptr, ok, walk_while, take_while, drop_while, first_or, last_or, upd}
use divers.Links.Segs.{
  Seg, Seg-upd, Seg-last, take-append-drop_while, walk_while_lem, not-mem-append, not-mem-tail,
  has-last_or, Seg-split,
}
use divers.Links.Relink.{
  set_field-ok, get_field-ok, inserted, Seg-insert, Distinct-insert, last-differs, upd-ne,
  not-mem-ne,
}
use divers.SList.{Heap, insert_elt}

-- The list with `link` put before the first element that does not stand before it.
abbrev pub placed : (Ptr → Ptr → Bool) → Ptr → List Ptr → List Ptr
placed before link xs =
    take_while (λ w. before w link) xs ++ (link ∷ drop_while (λ w. before w link) xs)

-- What an insertion leaves: the chain of a list, and all other pointers.
pub record IsRelinked (h g : Heap) (changed ys : List Ptr) : Type 0 where
  pub chain : Seg g ys 0
  pub distinct : Distinct ys
  pub same : (p : Ptr) → has p changed ≡ false → g p ≡ h p

module _ (before : Ptr → Ptr → Bool) (fuel : ℕ) (h : Heap) (link old : Ptr) (ne : link ≢ 0)
    (held : h link ≡ some old) where
  insert_front :
      (ys : List Ptr)
      → walk_while h (λ w. before w link) fuel (first_or 0 ys) 0 ≡ ok (first_or 0 ys, 0)
      → insert_elt before fuel (first_or 0 ys) link h ≡ ok (link, upd h link (first_or 0 ys))
  unfolding insert_elt
  insert_front ys walk = rw (walk, set_field-ok h link (first_or 0 ys) old ne held)

  insert_behind :
      (x : Ptr) (xs ys : List Ptr)
      → Seg h (x ∷ xs) (first_or 0 ys)
      → walk_while h (λ w. before w link) fuel x 0 ≡ ok (first_or 0 ys, last_or x xs)
      → link ≢ last_or x xs
      → insert_elt before fuel x link h ≡ ok (x, inserted h x xs (first_or 0 ys) link)
  unfolding insert_elt
  insert_behind x xs ys s walk apart =
      let q = first_or 0 ys in
      let (last_ne, last) = Seg-last h x xs q s in
      let kept : upd h link q (last_or x xs) ≡ some q =
        rw (ne→== (last_or x xs) link (λ e. apart (sym e)), last) in
      rw (
        walk,
        ne→== (last_or x xs) 0 last_ne,
        get_field-ok h (last_or x xs) q last_ne last,
        set_field-ok h link q old ne held,
        set_field-ok (upd h link q) (last_or x xs) link q last_ne kept,
      )

  -- The two cases, by the elements that the walk has passed.
  insert_at :
      (fs bs : List Ptr)
      → Seg h (fs ++ bs) 0
      → Distinct (fs ++ bs)
      → has link (fs ++ bs) ≡ false
      → walk_while h (λ w. before w link) fuel (first_or 0 (fs ++ bs)) 0
        ≡ ok (first_or 0 bs, last_or 0 fs)
      → (g : Heap) × (insert_elt before fuel (first_or 0 (fs ++ bs)) link h
          ≡ ok (first_or 0 (fs ++ (link ∷ bs)), g))
        × IsRelinked h g (link ∷ (fs ++ bs)) (fs ++ (link ∷ bs))
  insert_at [] bs s d out walk = (
    upd h link (first_or 0 bs),
    insert_front bs walk,
    record {
      chain = (ne, rw (==-refl link), Seg-upd h bs 0 link (first_or 0 bs) out s);
      distinct = (out, d);
      same = λ p m.
          upd-ne h link (first_or 0 bs) p
            (not-mem-ne p link (link ∷ bs) m (ground (arith, ==-refl link)));
    },
  )
  insert_at (x ∷ xs) bs s d out walk =
      let q = first_or 0 bs in
      let (front, back) = Seg-split h (x ∷ xs) bs 0 s in
      let (out_front, out_back) = not-mem-append link (x ∷ xs) bs out in
      (
        inserted h x xs q link,
        insert_behind x xs bs front walk (last-differs link x xs out_front),
        record {
          chain = Seg-insert h x xs bs link s d out ne;
          distinct = Distinct-insert (x ∷ xs) bs link d out;
          same = λ p m. spared p m;
        },
      )
    where
      spared :
          (p : Ptr)
          → has p (link ∷ ((x ∷ xs) ++ bs)) ≡ false
          → inserted h x xs (first_or 0 bs) link p ≡ h p
      spared p m =
          let rest = not-mem-tail p link ((x ∷ xs) ++ bs) m in
          upd-ne (upd h link (first_or 0 bs)) (last_or x xs) link p (
            not-mem-ne p (last_or x xs) (x ∷ xs) (not-mem-append p (x ∷ xs) bs rest).0
              (has-last_or x xs))
          ∙ upd-ne h link (first_or 0 bs) p
              (not-mem-ne p link (link ∷ ((x ∷ xs) ++ bs)) m (ground (arith, ==-refl link)))

-- `slist_insert_elt` ends without a fault, and leaves the chain of the list with `link` in front of
-- the first element that the comparator does not put before it; no pointer outside is written.
pub insert_elt-placed :
    (before : Ptr → Ptr → Bool) (fuel : ℕ) (h : Heap) (link old : Ptr) (xs : List Ptr)
    → length xs < fuel
    → Seg h xs 0
    → Distinct xs
    → link ≢ 0
    → has link xs ≡ false
    → h link ≡ some old
    → let ys = placed before link xs in
      (g : Heap) × (insert_elt before fuel (first_or 0 xs) link h ≡ ok (first_or 0 ys, g))
      × IsRelinked h g (link ∷ xs) ys
insert_elt-placed before fuel h link old xs enough s d ne out held =
    let test = λ (w : Ptr). before w link in
    let whole = take-append-drop_while test xs in
    subst
      (λ zs.
        (g : Heap) × (insert_elt before fuel (first_or 0 zs) link h
          ≡ ok (first_or 0 (placed before link xs), g))
        × IsRelinked h g (link ∷ zs) (placed before link xs))
      whole
      (insert_at before fuel h link old ne held (take_while test xs) (drop_while test xs)
        (subst (λ zs. Seg h zs 0) (sym whole) s) (subst Distinct (sym whole) d)
        (subst (λ zs. has link zs ≡ false) (sym whole) out)
        (subst
          (λ zs.
            walk_while h test fuel (first_or 0 zs) 0
            ≡ ok (first_or 0 (drop_while test xs), last_or 0 (take_while test xs)))
          (sym whole) (walk_while_lem h test fuel xs 0 enough s)))
