-- ===== src/NTree/Program/Samples.antt =====
-- tad/ntree_ex.c: the program with the order of the characters as `strcmp`.
use Prim.Native.String.{compare}
use text.Mathlib.TextEquality.{path_by_compare}
use divers.Base.{true, ◌≡◌, refl, [], ◌∷◌, arith}
use divers.Links.{ok, get_field, set_field, walk_while}
use divers.NTree.{prepend_child, remove_child, insert_child, unlink}
use divers.NTree.Walks.{foreach_child, visit}
use divers.NTree.Program.{cond, cmp_le, search, children, grandchildren, listing, build, main}
use divers.NTree.Program.Lines.{arcade, printed, main-printed}

arcade_sorted : arcade (cmp_le compare) ≡ 10 ∷ 5 ∷ 6 ∷ 9 ∷ []
unfolding cmp_le
arcade_sorted = refl

cond_finds : cond compare 7 "fifa" ≡ true
unfolding cond
cond_finds = refl

main_runs : main compare 5 ≡ ok (printed (10 ∷ 5 ∷ 6 ∷ 9 ∷ []))
unfolding main build cmp_le search listing children grandchildren insert_child prepend_child
    remove_child unlink foreach_child visit get_field set_field walk_while
main_runs = refl

main-printed_example : main compare 5 ≡ ok (printed (arcade (cmp_le compare)))
main-printed_example = main-printed compare 5 (omega arith) (λ s t e. path_by_compare s t e)
