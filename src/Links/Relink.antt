-- ===== src/Links/Relink.antt =====
-- tad: inserting into a chain and unlinking from it by one or two writes.
use divers.Base.{
  ◌≡◌, ◌≢◌, sym, subst, true, false, some, Option, List, ◌∷◌, ◌++◌, ◌==◌, has, Distinct, ==-refl,
  ne→==,
}
use divers.Links.{Ptr, ok, get_field, set_field, first_or, last_or, upd}
use divers.Links.Segs.{
  Seg, Seg-upd, Seg-append, Seg-split, Seg-retarget, has-last_or, Distinct-split, Distinct-join,
  not-mem-append, not-mem-tail,
}

pub set_field-ok :
    (h : Ptr → Option Ptr) (p q old : Ptr)
    → p ≢ 0
    → h p ≡ some old
    → set_field h p q ≡ ok (upd h p q)
unfolding set_field
set_field-ok h p q old ne e = rw (ne→== p 0 ne, e)

pub get_field-ok : (h : Ptr → Option Ptr) (p q : Ptr) → p ≢ 0 → h p ≡ some q → get_field h p ≡ ok q
unfolding get_field
get_field-ok h p q ne e = rw (ne→== p 0 ne, e)

-- The two parts of a list without repetitions, with a new element between them, have none.
pub Distinct-insert :
    (fs bs : List Ptr) (link : Ptr)
    → Distinct (fs ++ bs)
    → has link (fs ++ bs) ≡ false
    → Distinct (fs ++ (link ∷ bs))
Distinct-insert fs bs link d out =
    let (da, db, apart) = Distinct-split fs bs d in
    let (oa, ob) = not-mem-append link fs bs out in
    Distinct-join fs (link ∷ bs) da (ob, db)
      (λ a m. rw (ne→== a link (λ e. differ a e m oa)) (apart a m))
  where
    differ : (a : Ptr) → a ≡ link → has a fs ≡ true → has link fs ≡ false → ⊥
    differ a e m out = let bad : has link fs ≡ true = subst (λ t. has t fs ≡ true) e m in cc

pub last-differs : (link x : Ptr) (xs : List Ptr) → has link (x ∷ xs) ≡ false → link ≢ last_or x xs
last-differs link x xs out e =
    let bad : has link (x ∷ xs) ≡ true =
      subst (λ t. has t (x ∷ xs) ≡ true) (sym e) (has-last_or x xs) in
    cc

-- A write at an address spares the others.
pub upd-ne : (h : Ptr → Option Ptr) (p q a : Ptr) → a ≢ p → upd h p q a ≡ h a
upd-ne h p q a ne = rw (ne→== a p ne)

pub not-mem-ne : (p a : Ptr) (xs : List Ptr) → has p xs ≡ false → has a xs ≡ true → p ≢ a
not-mem-ne p a xs out m e = let bad : has p xs ≡ true = subst (λ t. has t xs ≡ true) (sym e) m in cc

pub Distinct-drop : (fs bs : List Ptr) (y : Ptr) → Distinct (fs ++ (y ∷ bs)) → Distinct (fs ++ bs)
Distinct-drop fs bs y d =
    let (df, (out, db), apart) = Distinct-split fs (y ∷ bs) d in
    Distinct-join fs bs df db (λ a m. not-mem-tail a y bs (apart a m))

-- The pointers after `link` has been put behind the last of `xs`, and before `q`.
abbrev pub inserted : (Ptr → Option Ptr) → (x : Ptr) → List Ptr → (q link : Ptr) → Ptr → Option Ptr
inserted nxt x xs q link = upd (upd nxt link q) (last_or x xs) link

module _ (nxt : Ptr → Option Ptr) (x : Ptr) (xs ys : List Ptr) where
  pub Seg-insert :
      (link : Ptr)
      → Seg nxt ((x ∷ xs) ++ ys) 0
      → Distinct ((x ∷ xs) ++ ys)
      → has link ((x ∷ xs) ++ ys) ≡ false
      → link ≢ 0
      → Seg (inserted nxt x xs (first_or 0 ys) link) ((x ∷ xs) ++ (link ∷ ys)) 0
  Seg-insert link s d out ne =
      let q = first_or 0 ys in
      let (front, back) = Seg-split nxt (x ∷ xs) ys 0 s in
      let (df, db, apart) = Distinct-split (x ∷ xs) ys d in
      let (out_front, out_back) = not-mem-append link (x ∷ xs) ys out in
      let last_out : has (last_or x xs) ys ≡ false = apart (last_or x xs) (has-last_or x xs) in
      let other : (link == last_or x xs) ≡ false =
        ne→== link (last_or x xs) (last-differs link x xs out_front) in
      Seg-append (inserted nxt x xs q link) (x ∷ xs) (link ∷ ys) 0
        (Seg-retarget (upd nxt link q) x xs q link df
          (Seg-upd nxt (x ∷ xs) q link q out_front front))
        (
          ne,
          rw (other, ==-refl link),
          Seg-upd (upd nxt link q) ys 0 (last_or x xs) link last_out
              (Seg-upd nxt ys 0 link q out_back back),
        )

  pub Seg-remove :
      (y : Ptr)
      → Seg nxt ((x ∷ xs) ++ (y ∷ ys)) 0
      → Distinct ((x ∷ xs) ++ (y ∷ ys))
      → Seg (upd nxt (last_or x xs) (first_or 0 ys)) ((x ∷ xs) ++ ys) 0
  Seg-remove y s d =
      let q = first_or 0 ys in
      let (front, (ne, e, back)) = Seg-split nxt (x ∷ xs) (y ∷ ys) 0 s in
      let (df, db, apart) = Distinct-split (x ∷ xs) (y ∷ ys) d in
      let last_out : has (last_or x xs) ys ≡ false =
        not-mem-tail (last_or x xs) y ys (apart (last_or x xs) (has-last_or x xs)) in
      Seg-append (upd nxt (last_or x xs) q) (x ∷ xs) ys 0 (Seg-retarget nxt x xs y q df front)
        (Seg-upd nxt ys 0 (last_or x xs) q last_out back)
