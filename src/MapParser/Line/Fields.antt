-- ===== src/MapParser/Line/Fields.antt =====
-- got_modifier/parse_map_line.c: the fields that are found in a line of a maps file.
use divers.Base.{
  ℕ, ◌⊎◌, length, ◌≤◌, ◌≡◌, ◌≢◌, refl, sym, ap, ◌∙◌, inl, inr, Bool, true, false, Option, none,
  some, List, [], ◌∷◌, ◌++◌, All, get_elem?, ◌==◌, if◌then◌else◌, Bool-cases, arith, ==-refl,
}
use mathlib.Core.List.{append-nil}
use divers.MapParser.Line.{
  Directive, until, literal, spaces, word, is_space, span, skip_spaces, sscanf, format, Printed,
  buffer_sizes, fit, main,
}

-- A field that a directive takes whole: not empty, and without what ends it.
abbrev pub IsField : (stop : ℕ → Bool) → List ℕ → Type 0
IsField stop xs = (xs ≢ []) × All (λ x. stop x ≡ false) xs

-- It does not start with a space.
abbrev pub StartsText : List ℕ → Type 0
StartsText [] = Unit
StartsText (x ∷ xs) = is_space x ≡ false

-- The rest of a line behind a field.
abbrev pub StopsAt : (stop : ℕ → Bool) → List ℕ → Type 0
StopsAt stop [] = Unit
StopsAt stop (x ∷ xs) = stop x ≡ true

span-append :
    (stop : ℕ → Bool) (xs rest : List ℕ)
    → All (λ x. stop x ≡ false) xs
    → StopsAt stop rest
    → span stop (xs ++ rest) ≡ (xs, rest)
span-append stop [] [] a s = refl
span-append stop [] (r ∷ rest) a s = rw s refl
span-append stop (x ∷ xs) rest (p, a) s =
    rw p (ap (λ q. (x ∷ q.0, q.1)) (span-append stop xs rest a s))

skip_spaces-text : (xs : List ℕ) → StartsText xs → skip_spaces xs ≡ xs
skip_spaces-text [] s = refl
skip_spaces-text (x ∷ xs) s = rw s refl

-- A field with those behind it.
abbrev assigned : List Directive → List ℕ × List ℕ → List (List ℕ)
assigned ds (front, rest) = elim front [ [] ↦ [] | y ∷ ys ↦ (y ∷ ys) ∷ sscanf ds rest ]

sscanf-until :
    (c : ℕ) (ds : List Directive) (xs rest : List ℕ)
    → IsField (λ x. x == c) xs
    → StopsAt (λ x. x == c) rest
    → sscanf (until c ∷ ds) (xs ++ rest) ≡ xs ∷ sscanf ds rest
unfolding sscanf
sscanf-until c ds [] rest (ne, a) s = absurd (ne refl)
sscanf-until c ds (x ∷ xs) rest (ne, a) s =
    ap (assigned ds) (span-append (λ y. y == c) (x ∷ xs) rest a s)

sscanf-word :
    (l : List ℕ)
    → All (λ x. is_space x ≡ false) l
    → sscanf (word ∷ []) l ≡ (elim l [ [] ↦ [] | y ∷ ys ↦ (y ∷ ys) ∷ [] ])
unfolding sscanf
sscanf-word [] a = refl
sscanf-word (x ∷ xs) (p, a) =
    let whole : skip_spaces (x ∷ xs) ≡ (x ∷ xs) ++ [] = rw p (sym (append-nil (x ∷ xs))) in
    ap (assigned []) (ap (span is_space) whole ∙ span-append is_space (x ∷ xs) [] (p, a) tt)

-- A line of a maps file: two addresses, the permissions, what stands before the path, and the path, if there is one.
pub record IsMapsLine (adrstat adrend perm dunno lib : List ℕ) : Type 0 where
  pub start : IsField (λ x. x == 45) adrstat
  pub end : IsField (λ x. x == 32) adrend
  pub perms : IsField (λ x. x == 32) perm
  pub perms_text : StartsText perm
  pub others : IsField (λ x. x == 47) dunno
  pub others_text : StartsText dunno
  pub path : StopsAt (λ x. x == 47) lib
  pub path_word : All (λ x. is_space x ≡ false) lib

abbrev pub is_empty : List ℕ → Bool
is_empty [] = true
is_empty (x ∷ xs) = false

abbrev pub maps_line : (adrstat adrend perm dunno lib : List ℕ) → List ℕ
maps_line adrstat adrend perm dunno lib =
    adrstat ++ (45 ∷ (adrend ++ (32 ∷ (perm ++ (32 ∷ (dunno ++ lib))))))

sscanf-literal :
    (c : ℕ) (ds : List Directive) (rest : List ℕ)
    → sscanf (literal c ∷ ds) (c ∷ rest) ≡ sscanf ds rest
unfolding sscanf
sscanf-literal c ds rest = rw (==-refl c) refl

sscanf-spaces :
    (ds : List Directive) (xs rest : List ℕ)
    → xs ≢ []
    → StartsText xs
    → sscanf (spaces ∷ ds) (32 ∷ (xs ++ rest)) ≡ sscanf ds (xs ++ rest)
unfolding sscanf
sscanf-spaces ds [] rest ne s = absurd (ne refl)
sscanf-spaces ds (x ∷ xs) rest ne s = rw s refl

abbrev path_fields : List ℕ → List (List ℕ)
path_fields lib = elim lib [ [] ↦ [] | y ∷ ys ↦ (y ∷ ys) ∷ [] ]

module _ (adrstat adrend perm dunno lib : List ℕ)
    (l : IsMapsLine adrstat adrend perm dunno lib) where
  from_dunno : sscanf (until 47 ∷ word ∷ []) (dunno ++ lib) ≡ dunno ∷ path_fields lib
  from_dunno =
      sscanf-until 47 (word ∷ []) dunno lib l.others l.path
      ∙ ap (λ fs. dunno ∷ fs) (sscanf-word lib l.path_word)

  from_perm :
      sscanf (until 32 ∷ spaces ∷ until 47 ∷ word ∷ []) (perm ++ (32 ∷ (dunno ++ lib)))
      ≡ perm ∷ dunno ∷ path_fields lib
  from_perm =
      sscanf-until 32 (spaces ∷ until 47 ∷ word ∷ []) perm (32 ∷ (dunno ++ lib)) l.perms refl
      ∙ ap (λ fs. perm ∷ fs)
          (sscanf-spaces (until 47 ∷ word ∷ []) dunno lib l.others.0 l.others_text ∙ from_dunno)

  abbrev behind : List ℕ
  behind = perm ++ (32 ∷ (dunno ++ lib))

  from_adrend :
      sscanf
        (until 32 ∷ spaces ∷ until 32 ∷ spaces ∷ until 47 ∷ word ∷ [])
        (adrend ++ (32 ∷ behind))
      ≡ adrend ∷ perm ∷ dunno ∷ path_fields lib
  from_adrend =
      sscanf-until 32 (spaces ∷ until 32 ∷ spaces ∷ until 47 ∷ word ∷ []) adrend (32 ∷ behind) l.end
        refl
      ∙ ap (λ fs. adrend ∷ fs)
          (sscanf-spaces (until 32 ∷ spaces ∷ until 47 ∷ word ∷ []) perm (32 ∷ (dunno ++ lib))
              l.perms.0 l.perms_text
            ∙ from_perm)

  sscanf-maps_line :
      sscanf format (maps_line adrstat adrend perm dunno lib)
      ≡ adrstat ∷ adrend ∷ perm ∷ dunno ∷ path_fields lib
  sscanf-maps_line =
      let ds = until 32 ∷ spaces ∷ until 32 ∷ spaces ∷ until 47 ∷ word ∷ [] in
      sscanf-until 45 (literal 45 ∷ ds) adrstat (45 ∷ (adrend ++ (32 ∷ behind))) l.start refl
      ∙ ap (λ fs. adrstat ∷ fs) (sscanf-literal 45 ds (adrend ++ (32 ∷ behind)) ∙ from_adrend)

path_field :
    (lib : List ℕ) → get_elem? (path_fields lib) 0 ≡ (if is_empty lib then none else some lib)
path_field [] = refl
path_field (x ∷ xs) = refl

-- The fields fit into the program's buffers.
abbrev pub AreShort : (adrstat adrend perm dunno lib : List ℕ) → Type 0
AreShort adrstat adrend perm dunno lib =
    (length adrstat ≤ 511)
    × (length adrend ≤ 511)
    × (length perm ≤ 4)
    × (length dunno ≤ 511)
    × (length lib ≤ 511)

fit-True :
    (adrstat adrend perm dunno lib : List ℕ)
    → fit buffer_sizes (adrstat ∷ adrend ∷ perm ∷ dunno ∷ path_fields lib) ≡ true
    → AreShort adrstat adrend perm dunno lib
fit-True adrstat adrend perm dunno [] e = ground (arith, e)
fit-True adrstat adrend perm dunno (x ∷ xs) e = ground (arith, e)

AreShort-fit :
    (adrstat adrend perm dunno lib : List ℕ)
    → AreShort adrstat adrend perm dunno lib
    → fit buffer_sizes (adrstat ∷ adrend ∷ perm ∷ dunno ∷ path_fields lib) ≡ true
AreShort-fit adrstat adrend perm dunno [] s = ground arith
AreShort-fit adrstat adrend perm dunno (x ∷ xs) s = ground arith

-- What is printed of five fields, where a path may be missing.
abbrev pub printed : (adrstat adrend perm dunno lib : List ℕ) → Printed
printed adrstat adrend perm dunno lib = record {
  adrstat = some adrstat;
  adrend = some adrend;
  perm = some perm;
  dunno = some dunno;
  lib = if is_empty lib then none else some lib;
}

-- The program finds the five fields of a line of a maps file, when the permissions have at most 4 characters and each
-- other field at most 511; of a mapping without a file, whose line has no path, it finds four and leaves the buffer of
-- the path as it was. If one is longer, `sscanf` writes behind its buffer.
pub main-fields :
    (adrstat adrend perm dunno lib : List ℕ)
    → IsMapsLine adrstat adrend perm dunno lib
    → (AreShort adrstat adrend perm dunno lib
        × (main (maps_line adrstat adrend perm dunno lib)
            ≡ some (printed adrstat adrend perm dunno lib)))
      ⊎ ((¬ AreShort adrstat adrend perm dunno lib)
          × (main (maps_line adrstat adrend perm dunno lib) ≡ none))
unfolding main
main-fields adrstat adrend perm dunno lib l =
    let found = sscanf-maps_line adrstat adrend perm dunno lib l in
    elim (Bool-cases (fit buffer_sizes (adrstat ∷ adrend ∷ perm ∷ dunno ∷ path_fields lib))) [
      | inl e ↦ inl (
        fit-True adrstat adrend perm dunno lib e,
        rw (found, e)
            (ap
              (λ (p : Option (List ℕ)).
                some (record (printed adrstat adrend perm dunno lib) { lib = p }))
              (path_field lib)),
      )
      | inr e ↦
          inr
            (λ short. cc (e, AreShort-fit adrstat adrend perm dunno lib short), rw (found, e) refl)
    ]
