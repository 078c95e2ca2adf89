-- ===== src/MapParser/Line.antt =====
-- got_modifier/parse_map_line.c: a line of a maps file, taken apart by `sscanf`. The C library's `sscanf` is given by
-- what its directives do; a text is the list of its characters. `line`, a fixed text of the program, is a parameter.
pub mod Fields
mod Samples
use divers.Base.{
  ℕ, ◌⊎◌, length, ltb, ◌&&◌, ◌≤◌, ◌+◌, ◌≡◌, ◌≢◌, refl, sym, ap, ◌∙◌, inl, inr, Bool, true, false,
  ◌||◌, not, Option, none, some, List, [], ◌∷◌, ◌++◌, All, get_elem?, ◌==◌, if◌then◌else◌,
  Bool-cases, arith, ne→==, ==-refl,
}

-- `%[^c]`, a character, a space and `%s`.
pub data Directive : Type 0 where
  until : (c : ℕ) → Directive
  literal : (c : ℕ) → Directive
  spaces : Directive
  word : Directive

-- What `isspace` is true of.
abbrev pub is_space : ℕ → Bool
is_space c = (c == 32) || (c == 9) || (c == 10) || (c == 11) || (c == 12) || (c == 13)

-- The characters up to the first that the test stops at, and the others.
abbrev pub span : (stop : ℕ → Bool) → List ℕ → List ℕ × List ℕ
span stop [] = ([], [])
span stop (x ∷ xs) =
    let (front, rest) = span stop xs in if stop x then ([], x ∷ xs) else (x ∷ front, rest)

abbrev pub skip_spaces : List ℕ → List ℕ
skip_spaces [] = []
skip_spaces (x ∷ xs) = let rest = skip_spaces xs in if is_space x then rest else x ∷ xs

-- The fields that are assigned: a directive that does not fit ends the scan, and a field is never empty.
unfoldable pub sscanf : List Directive → List ℕ → List (List ℕ)
sscanf [] xs = []
sscanf (until c ∷ ds) xs = elim (span (λ x. x == c) xs).0 [
  | [] ↦ []
  | y ∷ ys ↦ (y ∷ ys) ∷ sscanf ds (span (λ x. x == c) xs).1
]
sscanf (literal c ∷ ds) [] = []
sscanf (literal c ∷ ds) (x ∷ xs) = let rest = sscanf ds xs in if x == c then rest else []
sscanf (spaces ∷ ds) xs = sscanf ds (skip_spaces xs)
sscanf (word ∷ ds) xs = elim (span is_space (skip_spaces xs)).0 [
  | [] ↦ []
  | y ∷ ys ↦ (y ∷ ys) ∷ sscanf ds (span is_space (skip_spaces xs)).1
]

-- "%[^-]-%[^ ] %[^ ] %[^/]%s".
abbrev pub format : List Directive
format = until 45 ∷ literal 45 ∷ until 32 ∷ spaces ∷ until 32 ∷ spaces ∷ until 47 ∷ word ∷ []

-- What `main` prints: `none` is a buffer that was not written.
pub record Printed : Type 0 where
  pub adrstat : Option (List ℕ)
  pub adrend : Option (List ℕ)
  pub perm : Option (List ℕ)
  pub dunno : Option (List ℕ)
  pub lib : Option (List ℕ)

abbrev pub fields_printed : List (List ℕ) → Printed
fields_printed fields = record {
  adrstat = get_elem? fields 0;
  adrend = get_elem? fields 1;
  perm = get_elem? fields 2;
  dunno = get_elem? fields 3;
  lib = get_elem? fields 4;
}

-- The sizes of `adrstat`, `adrend`, `perm`, `dunno` and `lib`.
abbrev pub buffer_sizes : List ℕ
buffer_sizes = 512 ∷ 512 ∷ 5 ∷ 512 ∷ 512 ∷ []

-- Each field that is assigned fits into its buffer, with a 0 at its end.
abbrev pub fit : (sizes : List ℕ) (fields : List (List ℕ)) → Bool
fit [] fs = true
fit (s ∷ ss) [] = true
fit (s ∷ ss) (f ∷ fs) = ltb (length f) s && fit ss fs

-- `main`, on what stands in `line`: `none`, if `sscanf` writes behind a buffer.
unfoldable pub main : (line : List ℕ) → Option Printed
unfolding sscanf
main line =
    let fields = sscanf format line in
    if fit buffer_sizes fields then some (fields_printed fields) else none
