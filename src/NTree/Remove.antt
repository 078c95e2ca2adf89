-- ===== src/NTree/Remove.antt =====
-- tad/n_tree.h: `ntree_remove_child_if` and `ntree_remove_child`.
use divers.Base.{
  ℕ, ◌<◌, ◌≡◌, refl, sym, ap, subst, ◌∙◌, Bool, true, not, some, List, [], ◌∷◌, ◌++◌, ◌==◌, length,
  has, ==-refl, ne→==,
}
use divers.Links.{Ptr, ok, take_while, drop_while, first_or, last_or, upd}
use divers.Links.Segs.{Seg-last, Seg-split, take-append-drop_while, walk_while_lem}
use divers.Links.Relink.{get_field-ok, set_field-ok, Seg-remove, Distinct-drop}
use divers.SList.Remove.{before_node, behind_node, erase, drop_while-node}
use divers.NTree.{Heap, unlink, remove_child_if, remove_child}
use divers.NTree.Family.{IsFamily, All-drop}

unlink_at :
    (h : Heap) (father y : Ptr) (fs bs : List Ptr)
    → IsFamily h father (fs ++ (y ∷ bs))
    → (g : Heap) × (unlink father y (last_or 0 fs) h ≡ ok g) × IsFamily g father (fs ++ bs)
unfolding unlink
unlink_at h father y [] bs f =
    let q = first_or 0 bs in
    let (ne, e, s) = f.chain in
    (
      record h { child = upd h.child father q },
      rw (
        ne→== y 0 ne,
        get_field-ok h.next y q ne e,
        set_field-ok h.child father q y f.not_null f.child,
      ),
      record {
        not_null = f.not_null;
        child = rw (==-refl father);
        chain = s;
        distinct = f.distinct.1;
        parents = f.parents.1;
      },
    )
unlink_at h father y (x ∷ xs) bs f =
    let q = first_or 0 bs in
    let (front, (ne, e, s)) = Seg-split h.next (x ∷ xs) (y ∷ bs) 0 f.chain in
    let (last_ne, last) = Seg-last h.next x xs y front in
    (
      record h { next = upd h.next (last_or x xs) q },
      rw (
        ne→== y 0 ne,
        ne→== (last_or x xs) 0 last_ne,
        get_field-ok h.next y q ne e,
        set_field-ok h.next (last_or x xs) q y last_ne last,
      ),
      record {
        not_null = f.not_null;
        child = f.child;
        chain = Seg-remove h.next x xs bs y f.chain f.distinct;
        distinct = Distinct-drop (x ∷ xs) bs y f.distinct;
        parents = All-drop (λ p. h.parent p ≡ some father) y (x ∷ xs) bs f.parents;
      },
    )

-- The list without its first element.
abbrev pub tail : List Ptr → List Ptr
tail [] = []
tail (x ∷ xs) = xs

unlink_first :
    (h : Heap) (father : Ptr) (fs bs : List Ptr)
    → IsFamily h father (fs ++ bs)
    → (g : Heap) × (unlink father (first_or 0 bs) (last_or 0 fs) h ≡ ok g)
      × IsFamily g father (fs ++ tail bs)
unfolding unlink
unlink_first h father fs [] f = (h, refl, f)
unlink_first h father fs (y ∷ bs) f = unlink_at h father y fs bs f

module _ (fuel : ℕ) (h : Heap) (father : Ptr) (xs : List Ptr) (enough : length xs < fuel)
    (f : IsFamily h father xs) where
  -- `ntree_remove_child_if` takes out the first child for which the condition does not hold, if there
  -- is one, and no other.
  pub remove_child_if-first_failing :
      (condition : Ptr → Bool)
      → (g : Heap) × (remove_child_if fuel father condition h ≡ ok g)
        × IsFamily g father (take_while condition xs ++ tail (drop_while condition xs))
  unfolding remove_child_if
  remove_child_if-first_failing condition =
      rw
        (
          get_field-ok h.child father (first_or 0 xs) f.not_null f.child,
          walk_while_lem h.next condition fuel xs 0 enough f.chain,
        )
        (unlink_first h father (take_while condition xs) (drop_while condition xs)
          (subst (IsFamily h father) (sym (take-append-drop_while condition xs)) f))

  -- `ntree_remove_child` takes exactly the given child out.
  pub remove_child-erase :
      (c : Ptr)
      → has c xs ≡ true
      → (g : Heap) × (remove_child fuel father c h ≡ ok g) × IsFamily g father (erase c xs)
  unfolding remove_child
  remove_child-erase c m =
      let test = λ (w : Ptr). not (w == c) in
      let stop = drop_while-node c xs m in
      rw
        (
          get_field-ok h.child father (first_or 0 xs) f.not_null f.child,
          walk_while_lem h.next test fuel xs 0 enough f.chain,
        )
        (subst
          (λ bs.
            (g : Heap) × (unlink father (first_or 0 bs) (last_or 0 (before_node c xs)) h ≡ ok g)
            × IsFamily g father (erase c xs))
          (sym stop)
          (unlink_at h father c (before_node c xs) (behind_node c xs) (
            subst (IsFamily h father)
              (sym (take-append-drop_while test xs) ∙ ap (λ l. before_node c xs ++ l) stop) f)))
