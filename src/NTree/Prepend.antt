-- ===== src/NTree/Prepend.antt =====
-- tad/n_tree.h: `ntree_prepend_child`.
use divers.Base.{◌≡◌, List, ◌∷◌, ==-refl}
use divers.Links.{Ptr, ok, first_or, upd}
use divers.Links.Segs.{Seg-upd}
use divers.Links.Relink.{get_field-ok, set_field-ok}
use divers.NTree.{Heap, prepend_child}
use divers.NTree.Family.{IsFamily, IsLoose, All-parent}

-- `ntree_prepend_child` makes a node that is no child yet the first child, in front of the others.
pub prepend_child-cons :
    (h : Heap) (elt c : Ptr) (xs : List Ptr)
    → IsFamily h elt xs
    → IsLoose h c xs
    → (g : Heap) × (prepend_child elt c h ≡ ok g) × IsFamily g elt (c ∷ xs)
unfolding prepend_child
prepend_child-cons h elt c xs f l =
    let q = first_or 0 xs in
    (
      record { next = upd h.next c q; parent = upd h.parent c elt; child = upd h.child elt c },
      rw (
        get_field-ok h.child elt q f.not_null f.child,
        set_field-ok h.parent c elt l.old_parent l.not_null l.has_parent,
        set_field-ok h.child elt c q f.not_null f.child,
        set_field-ok h.next c q l.old_next l.not_null l.has_next,
      ),
      record {
        not_null = f.not_null;
        child = rw (==-refl elt);
        chain = (l.not_null, rw (==-refl c), Seg-upd h.next xs 0 c q l.outside f.chain);
        distinct = (l.outside, f.distinct);
        parents = (rw (==-refl c), All-parent h elt c xs f.parents);
      },
    )
