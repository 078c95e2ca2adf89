-- ===== src/NTree/Program.antt =====
-- tad/ntree_ex.c: the packages, and what `main` does with the macros of tad/n_tree.h. `strcmp` is a parameter, by
-- the sign of what it returns. A package stands at its index plus 1; its `link` is its first field.
pub mod Lines
mod Samples
use Prim.Native.Nat.{Ordering}
use Prim.Native.String.{String}
use divers.Base.{
  ℕ, zero, suc, ◌-◌, Bool, true, false, Option, none, some, List, [], ◌∷◌, ◌++◌, ◌==◌, leb, ◌&&◌,
  if◌then◌else◌,
}
use divers.Links.{Ptr, Run, ok, fault, out_of_fuel, ◌>>=◌, deref, get_field}
use divers.NTree.{Heap, prepend_child, remove_child, insert_child}
use divers.NTree.Walks.{foreach_child}

abbrev pub Strcmp : Type 0
Strcmp = String → String → Ordering

-- `package`: the `name` and `desc` of each.
abbrev pub packages : List (String × String)
packages =
    ("devel", "developpement group")
    ∷ ("anjuta", "IDE")
    ∷ ("jeux", "game group")
    ∷ ("arcade", "arcade group")
    ∷ ("space", "space invader")
    ∷ ("sport", "sport group")
    ∷ ("fifa", "football")
    ∷ ("txtor", "fun game")
    ∷ ("sprint", "athle")
    ∷ ("ouet", "ouch")
    ∷ ("comprx", "compressor")
    ∷ ("list", "all")
    ∷ []

abbrev pub nth : List (String × String) → ℕ → String × String
nth [] _ = ("", "")
nth (x ∷ xs) zero = x
nth (x ∷ xs) (suc n) = nth xs n

abbrev pub name : Ptr → String
name p = (nth packages (p - 1)).0

abbrev pub desc : Ptr → String
desc p = (nth packages (p - 1)).1

-- `cmp(t1, t2) <= 0`.
unfoldable pub cmp_le : Strcmp → Ptr → Ptr → Bool
cmp_le strcmp t1 t2 = elim (strcmp (name t1) (name t2)) [
  | Ordering.lt ↦ true
  | Ordering.eq ↦ true
  | Ordering.gt ↦ false
]

-- `strcmp(t1->name, p) == 0`.
abbrev pub same : Strcmp → Ptr → String → Bool
same strcmp t1 p = elim (strcmp (name t1) p) [
  | Ordering.lt ↦ false
  | Ordering.eq ↦ true
  | Ordering.gt ↦ false
]

-- `cond`, which nothing calls.
unfoldable pub cond : Strcmp → Ptr → String → Bool
cond strcmp t1 p = if t1 == 0 then false else same strcmp t1 p

-- What is printed; the address of `package[3]` and the rules between the listings are left out.
pub data Line : Type 0 where
  name_is : String → Line
  search_is : String → Line
  child_of : (name desc : String) → Line
  child_is : (name desc : String) → Line
  grandchild_is : (name desc : String) → Line

-- All links NULL.
abbrev pub initial : Heap
initial =
    let nulls = λ (p : Ptr). if leb 1 p && leb p 12 then some 0 else none in
    record { next = nulls; parent = nulls; child = nulls }

-- The walk with `!strcmp(search->name, "fifa")`: where it ends, and what it printed.
unfoldable pub search : Strcmp → ℕ → (Ptr → Option Ptr) → Ptr → Run (Ptr × List Line)
search strcmp zero nxt p = out_of_fuel
search strcmp (suc fuel) nxt p =
    let rest =
      (deref (nxt p) >>= λ q.
      search strcmp fuel nxt q >>= λ (r : Ptr × List Line). ok (r.0, name_is (name p) ∷ r.1)) in
    if p == 0 then ok (p, []) else if same strcmp p "fifa" then rest else ok (p, [])

unfoldable pub grandchildren : List Ptr → List Line
grandchildren [] = []
grandchildren (w ∷ ws) = grandchild_is (name w) (desc w) ∷ grandchildren ws

unfoldable pub children : ℕ → Heap → List Ptr → Run (List Line)
unfolding grandchildren
children fuel h [] = ok []
children fuel h (w ∷ ws) = do
  inner ← foreach_child fuel w h
  rest ← children fuel h ws
  ok (child_is (name w) (desc w) ∷ (grandchildren inner ++ rest))

-- The two nested walks that list the children of `package[3]` with theirs.
unfoldable pub listing : ℕ → Heap → Run (List Line)
unfolding children
listing fuel h = foreach_child fuel 4 h >>= λ ws. children fuel h ws

-- The calls before the first print.
unfoldable pub build : (up_to : Ptr → Ptr → Bool) → ℕ → Run Heap
build up_to fuel = do
  h1 ← prepend_child 1 2 initial
  h2 ← prepend_child 3 4 h1
  h3 ← prepend_child 4 5 h2
  h4 ← insert_child up_to fuel 4 6 h3
  h5 ← insert_child up_to fuel 4 9 h4
  h6 ← insert_child up_to fuel 4 10 h5
  h7 ← prepend_child 6 7 h6
  h8 ← prepend_child 12 1 h7
  prepend_child 12 3 h8

-- `main`.
unfoldable pub main : Strcmp → ℕ → Run (List Line)
main strcmp fuel = do
  h ← build (cmp_le strcmp) fuel
  first ← get_field h.child 1
  (found, seen) ← search strcmp fuel h.next first
  if found == 0 then fault else (do
    l ← listing fuel h
    h1 ← remove_child fuel 4 6 h
    l1 ← listing fuel h1
    h2 ← remove_child fuel 4 9 h1
    l2 ← listing fuel h2
    h3 ← remove_child fuel 4 10 h2
    l3 ← listing fuel h3
    h4 ← remove_child fuel 4 5 h3
    l4 ← listing fuel h4
    ok (
        seen
        ++ (search_is (name found)
            ∷ child_of (name 4) (desc 4)
            ∷ (l ++ (l1 ++ (l2 ++ (l3 ++ l4)))))))
