-- ===== src/NTree/Program/Lines.antt =====
-- tad/ntree_ex.c: what the program prints, by the list of children that the order of `cmp` gives.
use Prim.Native.Nat.{Ordering}
use Prim.Native.String.{String}
use text.Mathlib.TextEquality.{eq_iff}
use divers.Base.{
  Option, sym, subst, ◌-◌, ◌<◌, length, Bool-cases, ne→==, inl, inr, ℕ, zero, suc, ◌≡◌, ◌≤◌, refl,
  Bool, false, List, [], ◌∷◌, ◌++◌, ◌==◌, if◌then◌else◌, arith,
}
use divers.Links.Segs.{Seg}
use divers.Links.{
  Ptr, Run, first_or, drop_while, take_while, ok, fault, out_of_fuel, ◌>>=◌, get_field, set_field,
  walk_while,
}
use divers.SList.Insert.{placed}
use divers.SList.Remove.{erase}
use divers.NTree.{prepend_child, remove_child, insert_child, unlink}
use divers.NTree.Walks.{foreach_child, visit}
use divers.NTree.Program.{
  Strcmp, name, desc, cmp_le, same, Line, name_is, search_is, child_of, child_is, grandchild_is,
  search, grandchildren, children, listing, build, main,
}

-- What a listing shows of the children in the list: only "sport" has a child, "fifa".
abbrev pub lines : List Ptr → List Line
lines [] = []
lines (p ∷ ps) =
    let rest = lines ps in
    child_is (name p) (desc p) ∷ (if p == 6 then grandchild_is "fifa" "football" ∷ rest else rest)

-- "space" with the three packages that are inserted into the order of `cmp`.
abbrev pub arcade : (up_to : Ptr → Ptr → Bool) → List Ptr
arcade up_to = placed up_to 10 (placed up_to 9 (placed up_to 6 (5 ∷ [])))

-- What the program prints, for the children of "arcade" in the list.
abbrev pub printed : List Ptr → List Line
printed built =
    let after1 = erase 6 built in
    let after2 = erase 9 after1 in
    let after3 = erase 10 after2 in
    search_is "anjuta"
    ∷ child_of "arcade" "arcade group"
    ∷ (lines built ++ (lines after1 ++ (lines after2 ++ (lines after3 ++ lines []))))

bind-ok :
    {A B : Type 0} (m : Run A) (f : A → Run B) (b : B)
    → (m >>= f) ≡ ok b
    → (a : A) × (m ≡ ok a) × (f a ≡ ok b)
bind-ok (ok a) f b e = (a, refl, e)
bind-ok fault f b e = cc
bind-ok out_of_fuel f b e = cc

module _ (up_to : Ptr → Ptr → Bool) (n : ℕ) where
  abbrev five : ℕ
  five = suc (suc (suc (suc (suc n))))

  abbrev built : List Ptr
  built = arcade up_to

  first_child : (build up_to five >>= λ h. get_field h.child 1) ≡ ok 2
  unfolding build insert_child prepend_child get_field set_field walk_while
  first_child = ground arith

  listing-built : (build up_to five >>= λ h. listing five h) ≡ ok (lines (built))
  unfolding build insert_child prepend_child remove_child unlink listing children grandchildren
      foreach_child visit get_field set_field walk_while
  listing-built = ground arith

  listing_after_sport :
      (build up_to five >>= λ h. remove_child five 4 6 h >>= λ h1. listing five h1)
      ≡ ok (lines (erase 6 built))
  unfolding build insert_child prepend_child remove_child unlink listing children grandchildren
      foreach_child visit get_field set_field walk_while
  listing_after_sport = ground arith

  listing_after_sprint :
      (build up_to five >>= λ h.
      remove_child five 4 6 h >>= λ h1. remove_child five 4 9 h1 >>= λ h2. listing five h2)
      ≡ ok (lines (erase 9 (erase 6 built)))
  unfolding build insert_child prepend_child remove_child unlink listing children grandchildren
      foreach_child visit get_field set_field walk_while
  listing_after_sprint = ground arith

  listing_after_ouet :
      (build up_to five >>= λ h. remove_child five 4 6 h >>= λ h1.
      remove_child five 4 9 h1 >>= λ h2. remove_child five 4 10 h2 >>= λ h3. listing five h3)
      ≡ ok (lines (erase 10 (erase 9 (erase 6 built))))
  unfolding build insert_child prepend_child remove_child unlink listing children grandchildren
      foreach_child visit get_field set_field walk_while
  listing_after_ouet = ground arith

  listing_after_space :
      (build up_to five >>= λ h. remove_child five 4 6 h >>= λ h1.
      remove_child five 4 9 h1 >>= λ h2.
      remove_child five 4 10 h2 >>= λ h3. remove_child five 4 5 h3 >>= λ h4. listing five h4)
      ≡ ok (lines ([]))
  unfolding build insert_child prepend_child remove_child unlink listing children grandchildren
      foreach_child visit get_field set_field walk_while
  listing_after_space = ground arith

not_fifa :
    (strcmp : Strcmp)
    → ((s t : String) → strcmp s t ≡ Ordering.eq → s ≡ t)
    → same strcmp 2 "fifa" ≡ false
not_fifa strcmp exact = by_result (strcmp "anjuta" "fifa") refl
  where
    by_result : (r : Ordering) → strcmp "anjuta" "fifa" ≡ r → same strcmp 2 "fifa" ≡ false
    by_result Ordering.lt e = rw (e, same) refl
    by_result Ordering.gt e = rw (e, same) refl
    by_result Ordering.eq e =
        absurd (grind (arith, eq_iff "anjuta" "fifa", exact "anjuta" "fifa" e))

search_stops :
    (strcmp : Strcmp) (n : ℕ) (nxt : Ptr → Option Ptr)
    → same strcmp 2 "fifa" ≡ false
    → search strcmp (suc n) nxt 2 ≡ ok (2, [])
unfolding search
search_stops strcmp n nxt e = rw e refl

main_five :
    (strcmp : Strcmp) (n : ℕ)
    → ((s t : String) → strcmp s t ≡ Ordering.eq → s ≡ t)
    → main strcmp (suc (suc (suc (suc (suc n))))) ≡ ok (printed (arcade (cmp_le strcmp)))
unfolding main
main_five strcmp n exact =
    let up_to = cmp_le strcmp in
    let f = five up_to n in
    let s = not_fifa strcmp exact in
    let (h, eh, l0) = bind-ok (build up_to f) _ _ (listing-built up_to n) in
    let first = rw eh at (first_child up_to n) in
    let (h1, e1, l1) =
      bind-ok (remove_child f 4 6 h) _ _ (rw eh at (listing_after_sport up_to n)) in
    let (h2, e2, l2) =
      bind-ok (remove_child f 4 9 h1) _ _ (rw (eh, e1) at (listing_after_sprint up_to n)) in
    let (h3, e3, l3) =
      bind-ok (remove_child f 4 10 h2) _ _ (rw (eh, e1, e2) at (listing_after_ouet up_to n)) in
    let (h4, e4, l4) =
      bind-ok (remove_child f 4 5 h3) _ _ (rw (eh, e1, e2, e3) at (listing_after_space up_to n)) in
    rw
      (
        eh,
        first,
        search_stops strcmp (suc (suc (suc (suc n)))) h.next s,
        l0,
        e1,
        l1,
        e2,
        l2,
        e3,
        l3,
        e4,
        l4,
      )
      refl

-- Whatever the order that `strcmp` gives, if it tells different texts apart, the program ends and no step of it goes
-- wrong: it says that the search for "fifa" has found "anjuta", then lists the four children of "arcade" in that
-- order with "fifa" below "sport", and again after each removal, when exactly the removed one is missing, up to none.
pub main-printed :
    (strcmp : Strcmp) (fuel : ℕ)
    → 5 ≤ fuel
    → ((s t : String) → strcmp s t ≡ Ordering.eq → s ≡ t)
    → main strcmp fuel ≡ ok (printed (arcade (cmp_le strcmp)))
main-printed strcmp fuel enough exact =
    let e : fuel ≡ suc (suc (suc (suc (suc (fuel - 5))))) = omega arith in
    subst (λ k. main strcmp k ≡ ok (printed (arcade (cmp_le strcmp)))) (sym e)
      (main_five strcmp (fuel - 5) exact)

-- What the search prints of the children that it passes.
abbrev pub names : List Ptr → List Line
names [] = []
names (p ∷ ps) = name_is (name p) ∷ names ps

-- The walk that looks for a name ends at the first child that has another one, NULL if there is none.
pub search-first_other :
    (strcmp : Strcmp) (fuel : ℕ) (nxt : Ptr → Option Ptr) (xs : List Ptr)
    → length xs < fuel
    → Seg nxt xs 0
    → search strcmp fuel nxt (first_or 0 xs)
      ≡ ok (
        first_or 0 (drop_while (λ p. same strcmp p "fifa") xs),
        names (take_while (λ p. same strcmp p "fifa") xs),
      )
unfolding search
search-first_other strcmp zero nxt xs enough s = absurd (omega arith)
search-first_other strcmp (suc fuel) nxt [] enough s = refl
search-first_other strcmp (suc fuel) nxt (x ∷ xs) enough (ne, e, s) =
    elim (Bool-cases (same strcmp x "fifa")) [
      | inl pass ↦
          rw (ne→== x 0 ne, pass, e)
            (rw (search-first_other strcmp fuel nxt xs (omega arith) s) refl)
      | inr stop ↦ rw (ne→== x 0 ne, stop) refl
    ]
