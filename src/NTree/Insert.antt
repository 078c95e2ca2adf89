-- ===== src/NTree/Insert.antt =====
-- tad/n_tree.h: `ntree_insert_child`.
use divers.Base.{
  ℕ, ◌<◌, ◌≡◌, refl, ◌≢◌, sym, ap, subst, ◌∙◌, Bool, false, some, List, [], ◌∷◌, ◌++◌, length, has,
  ==-refl, ne→==,
}
use divers.Links.{Ptr, ok, walk_while, take_while, drop_while, first_or, last_or, upd}
use divers.Links.Segs.{
  Seg-upd, Seg-last, Seg-split, take-append-drop_while, walk_while_lem, not-mem-append,
}
use divers.Links.Relink.{
  inserted, get_field-ok, set_field-ok, Seg-insert, Distinct-insert, last-differs,
}
use divers.SList.Insert.{placed}
use divers.NTree.{Heap, insert_child}
use divers.NTree.Family.{IsFamily, IsLoose, All-parent, All-insert}

module _ (up_to : Ptr → Ptr → Bool) (fuel : ℕ) (h : Heap) (father c : Ptr) {xs : List Ptr}
    (l : IsLoose h c xs) where
  -- An empty father takes the node with whatever `next` it holds.
  pub insert_child-empty :
      IsFamily h father []
      → insert_child up_to fuel father c h
        ≡ ok (record h { parent = upd h.parent c father; child = upd h.child father c })
  unfolding insert_child
  insert_child-empty f = rw (
    set_field-ok h.parent c father l.old_parent l.not_null l.has_parent,
    get_field-ok h.child father 0 f.not_null f.child,
    set_field-ok h.child father c 0 f.not_null f.child,
  )

  -- The two other cases, by the children that the walk has passed.
  insert_child_at :
      (x : Ptr) (fs bs : List Ptr)
      → first_or 0 (fs ++ bs) ≡ x
      → x ≢ 0
      → IsFamily h father (fs ++ bs)
      → has c (fs ++ bs) ≡ false
      → walk_while h.next (λ w. up_to w c) fuel x 0 ≡ ok (first_or 0 bs, last_or 0 fs)
      → (g : Heap) × (insert_child up_to fuel father c h ≡ ok g)
        × IsFamily g father (fs ++ (c ∷ bs))
  unfolding insert_child
  insert_child_at x [] bs first ne f out walk =
      let head : h.child father ≡ some x = f.child ∙ ap some first in
      (
        record {
          next = upd h.next c x;
          parent = upd h.parent c father;
          child = upd h.child father c;
        },
        rw (
          set_field-ok h.parent c father l.old_parent l.not_null l.has_parent,
          get_field-ok h.child father x f.not_null head,
          ne→== x 0 ne,
          walk,
          set_field-ok h.next c x l.old_next l.not_null l.has_next,
          set_field-ok h.child father c x f.not_null head,
        ),
        record {
          not_null = f.not_null;
          child = rw (==-refl father);
          chain = (l.not_null, rw (==-refl c, first), Seg-upd h.next bs 0 c x out f.chain);
          distinct = (out, f.distinct);
          parents = (rw (==-refl c), All-parent h father c bs f.parents);
        },
      )
  insert_child_at x (y ∷ ys) bs first ne f out walk =
      let q = first_or 0 bs in
      let head : h.child father ≡ some x = f.child ∙ ap some first in
      let (front, back) = Seg-split h.next (y ∷ ys) bs 0 f.chain in
      let (last_ne, last) = Seg-last h.next y ys q front in
      let apart = last-differs c y ys (not-mem-append c (y ∷ ys) bs out).0 in
      let kept : upd h.next c q (last_or y ys) ≡ some q =
        rw (ne→== (last_or y ys) c (λ e. apart (sym e)), last) in
      (
        record h { next = inserted h.next y ys q c; parent = upd h.parent c father },
        rw (
          set_field-ok h.parent c father l.old_parent l.not_null l.has_parent,
          get_field-ok h.child father x f.not_null head,
          ne→== x 0 ne,
          walk,
          ne→== (last_or y ys) 0 last_ne,
          get_field-ok h.next (last_or y ys) q last_ne last,
          set_field-ok h.next c q l.old_next l.not_null l.has_next,
          set_field-ok (upd h.next c q) (last_or y ys) c q last_ne kept,
        ),
        record {
          not_null = f.not_null;
          child = f.child;
          chain = Seg-insert h.next y ys bs c f.chain f.distinct out l.not_null;
          distinct = Distinct-insert (y ∷ ys) bs c f.distinct out;
          parents =
              All-insert (λ p. upd h.parent c father p ≡ some father) c (y ∷ ys) bs
                (All-parent h father c ((y ∷ ys) ++ bs) f.parents) (rw (==-refl c));
        },
      )

insert_nonempty :
    (up_to : Ptr → Ptr → Bool) (fuel : ℕ) (h : Heap) (father c x : Ptr) (xs : List Ptr)
    → length (x ∷ xs) < fuel
    → IsFamily h father (x ∷ xs)
    → IsLoose h c (x ∷ xs)
    → (g : Heap) × (insert_child up_to fuel father c h ≡ ok g)
      × IsFamily g father (placed up_to c (x ∷ xs))
insert_nonempty up_to fuel h father c x xs enough f l =
    let test = λ (w : Ptr). up_to w c in
    let whole = sym (take-append-drop_while test (x ∷ xs)) in
    insert_child_at up_to fuel h father c l x (take_while test (x ∷ xs)) (drop_while test (x ∷ xs))
      (ap (first_or 0) (sym whole)) f.chain.0 (subst (IsFamily h father) whole f)
      (subst (λ zs. has c zs ≡ false) whole l.outside)
      (walk_while_lem h.next test fuel (x ∷ xs) 0 enough f.chain)

-- `ntree_insert_child` makes a loose node a child, in front of the first child that the comparator
-- puts behind it; into a family without children this needs a node whose `next` is NULL.
pub insert_child-placed :
    (up_to : Ptr → Ptr → Bool) (fuel : ℕ) (h : Heap) (father c : Ptr) (xs : List Ptr)
    → length xs < fuel
    → IsFamily h father xs
    → IsLoose h c xs
    → (xs ≡ [] → h.next c ≡ some 0)
    → (g : Heap) × (insert_child up_to fuel father c h ≡ ok g)
      × IsFamily g father (placed up_to c xs)
insert_child-placed up_to fuel h father c [] enough f l init = (
  record h { parent = upd h.parent c father; child = upd h.child father c },
  insert_child-empty up_to fuel h father c l f,
  record {
    not_null = f.not_null;
    child = rw (==-refl father);
    chain = (l.not_null, init refl, tt);
    distinct = (refl, tt);
    parents = (rw (==-refl c), tt);
  },
)
insert_child-placed up_to fuel h father c (x ∷ xs) enough f l init =
    insert_nonempty up_to fuel h father c x xs enough f l

-- Into a family without children `ntree_insert_child` puts a node whose `next` is not NULL together
-- with the nodes behind it: the node is then not the only child.
pub insert_child-stale :
    (up_to : Ptr → Ptr → Bool) (fuel : ℕ) (h : Heap) (father c q : Ptr)
    → IsFamily h father []
    → IsLoose h c []
    → q ≢ 0
    → h.next c ≡ some q
    → (g : Heap) × (insert_child up_to fuel father c h ≡ ok g)
      × (g.child father ≡ some c)
      × (g.next c ≡ some q)
      × ¬ IsFamily g father (c ∷ [])
insert_child-stale up_to fuel h father c q f l ne stale = (
  record h { parent = upd h.parent c father; child = upd h.child father c },
  insert_child-empty up_to fuel h father c l f,
  rw (==-refl father),
  stale,
  λ w. ne (cc (sym stale ∙ w.chain.1)),
)
