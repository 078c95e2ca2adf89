-- ===== src/MapParser/FileNames.antt =====
-- got_modifier/map_parser.c: `map_parser_build_procfs_filename` and the start of `map_parser_init`. A text is the
-- list of its characters; `snprintf` writes at most `max_len` of them, the last a 0, and returns the text's length.
use divers.Base.{
  ℕ, zero, suc, ◌+◌, ◌-◌, ◌%◌, ◌^◌, ◌≤◌, ◌≡◌, refl, ap, ap₂, ◌∙◌, false, List, [], ◌∷◌, ◌++◌,
  length, length-append, take, ltb, ge→ltb, if◌then◌else◌, arith,
}
use mathlib.Core.List.{append_assoc}
use divers.Resources.{Held}
use divers.MapParser.Digits.{decimal, IsNumber, length-decimal, decimal-IsNumber}
use divers.MapParser.{Answers, TaskDesc, Ended, exit, init}

-- "/proc/", "maps" and "exe".
abbrev pub proc : List ℕ
proc = 47 ∷ 112 ∷ 114 ∷ 111 ∷ 99 ∷ 47 ∷ []

abbrev pub maps : List ℕ
maps = 109 ∷ 97 ∷ 112 ∷ 115 ∷ []

abbrev pub exe : List ℕ
exe = 101 ∷ 120 ∷ 101 ∷ []

-- The format "/proc/%hu/%s": `%hu` takes the low 16 bits.
unfoldable pub procfs_name : (numpid : ℕ) (whatfile : List ℕ) → List ℕ
procfs_name numpid whatfile = proc ++ (decimal 5 (numpid % 2 ^ 16) ++ (47 ∷ whatfile))

-- `map_parser_build_procfs_filename`: what it returns, and what it leaves in the buffer.
unfoldable pub build_procfs_filename : (numpid : ℕ) (whatfile : List ℕ) (max_len : ℕ) → ℕ × List ℕ
unfolding procfs_name
build_procfs_filename numpid whatfile max_len =
    let name = procfs_name numpid whatfile in (length name, take (max_len - 1) name ++ (0 ∷ []))

-- The sizes of the two buffers.
abbrev pub buff_len : ℕ
buff_len = 17

abbrev pub buff2_len : ℕ
buff2_len = 16

-- `map_parser_init`: what the system answers depends on the names that `fopen` and `open` are given.
unfoldable pub init_task :
    (fuel : ℕ) → (numpid : ℕ) → (answers : (buff buff2 : List ℕ) → Answers) → Held → Ended TaskDesc
unfolding build_procfs_filename init
init_task fuel numpid answers held =
    let (ret, buff) = build_procfs_filename numpid maps buff_len in
    if ltb buff_len ret
    then exit
    else (let (ret2, buff2) = build_procfs_filename numpid exe buff2_len in
        if ltb buff2_len ret2 then exit else init fuel (answers buff buff2) held)

take-whole : (n : ℕ) (xs : List ℕ) → length xs ≤ n → take n xs ≡ xs
take-whole zero [] le = refl
take-whole zero (x ∷ xs) le = absurd (omega arith)
take-whole (suc n) [] le = refl
take-whole (suc n) (x ∷ xs) le = ap (λ ys. x ∷ ys) (take-whole n xs (omega (arith, le)))

length-procfs_name :
    (numpid : ℕ) (whatfile : List ℕ) → length (procfs_name numpid whatfile) ≤ 12 + length whatfile
unfolding procfs_name
length-procfs_name numpid whatfile =
    let digits = decimal 5 (numpid % 2 ^ 16) in
    omega (arith, length-decimal 5 (numpid % 2 ^ 16), length-append digits (47 ∷ whatfile))

-- A buffer with room for five digits.
build_procfs_filename-whole :
    (numpid : ℕ) (whatfile : List ℕ) (max_len : ℕ)
    → 13 + length whatfile ≤ max_len
    → (ltb max_len (build_procfs_filename numpid whatfile max_len).0 ≡ false)
      × ((build_procfs_filename numpid whatfile max_len).1
          ≡ procfs_name numpid whatfile ++ (0 ∷ []))
unfolding build_procfs_filename
build_procfs_filename-whole numpid whatfile max_len room =
    let name = procfs_name numpid whatfile in
    let short = length-procfs_name numpid whatfile in
    (
      ge→ltb max_len (length name) (omega (arith, short, room)),
      ap (λ xs. xs ++ (0 ∷ [])) (take-whole (max_len - 1) name (omega (arith, short, room))),
    )

-- The name with its 0.
abbrev whole : (numpid : ℕ) (whatfile : List ℕ) → List ℕ
whole numpid whatfile = procfs_name numpid whatfile ++ (0 ∷ [])

init_task-init :
    (fuel numpid : ℕ) (answers : (buff buff2 : List ℕ) → Answers) (held : Held)
    → init_task fuel numpid answers held
      ≡ init fuel (answers (whole numpid maps) (whole numpid exe)) held
unfolding init_task
init_task-init fuel numpid answers held =
    let (fits, text) = build_procfs_filename-whole numpid maps buff_len (omega arith) in
    let (fits2, text2) = build_procfs_filename-whole numpid exe buff2_len (omega arith) in
    rw (fits, fits2, text, text2) refl

-- "/proc/", the digits, a slash, the text, and the 0.
abbrev pub proc_text : (digits text : List ℕ) → List ℕ
proc_text digits text = 47 ∷ 112 ∷ 114 ∷ 111 ∷ 99 ∷ 47 ∷ (digits ++ (47 ∷ (text ++ (0 ∷ []))))

-- The files of a process with the given digits: "maps" and "exe".
abbrev pub maps_text : (digits : List ℕ) → List ℕ
maps_text digits = proc_text digits (109 ∷ 97 ∷ 112 ∷ 115 ∷ [])

abbrev pub exe_text : (digits : List ℕ) → List ℕ
exe_text digits = proc_text digits (101 ∷ 120 ∷ 101 ∷ [])

whole-text :
    (numpid : ℕ) (whatfile : List ℕ)
    → whole numpid whatfile ≡ proc_text (decimal 5 (numpid % 2 ^ 16)) whatfile
unfolding procfs_name
whole-text numpid whatfile =
    ap (λ xs. proc ++ xs) (append_assoc (decimal 5 (numpid % 2 ^ 16)) (47 ∷ whatfile) (0 ∷ []))

length-whole :
    (numpid : ℕ) (whatfile : List ℕ) → length (whole numpid whatfile) ≤ 13 + length whatfile
length-whole numpid whatfile = omega (
  arith,
  length-procfs_name numpid whatfile,
  length-append (procfs_name numpid whatfile) (0 ∷ []),
)

init_task-text :
    (fuel numpid : ℕ) (answers : (buff buff2 : List ℕ) → Answers) (held : Held)
    → let digits = decimal 5 (numpid % 2 ^ 16) in
      init_task fuel numpid answers held
      ≡ init fuel (answers (maps_text digits) (exe_text digits)) held
init_task-text fuel numpid answers held =
    init_task-init fuel numpid answers held
    ∙ ap₂ (λ x y. init fuel (answers x y) held) (whole-text numpid maps) (whole-text numpid exe)

-- Whatever the process number, `map_parser_init` goes on with the files "/proc/N/maps" and "/proc/N/exe", where N is
-- the low 16 bits of the number in decimal, without zeros in front: both names fit with their 0 into buffers of 17
-- and 16 characters, so that the tests never fail and nothing is cut off. Two numbers with the same low 16 bits
-- open the same files.
pub init_task-names :
    (fuel numpid : ℕ) (answers : (buff buff2 : List ℕ) → Answers) (held : Held)
    → (digits : List ℕ) × IsNumber (numpid % 2 ^ 16) digits
      × (init_task fuel numpid answers held
          ≡ init fuel (answers (maps_text digits) (exe_text digits)) held)
      × (length (maps_text digits) ≤ 17)
      × (length (exe_text digits) ≤ 16)
      × ((numpid' : ℕ)
          → numpid' % 2 ^ 16 ≡ numpid % 2 ^ 16
          → init_task fuel numpid' answers held
            ≡ init fuel (answers (maps_text digits) (exe_text digits)) held)
init_task-names fuel numpid answers held = (
  decimal 5 (numpid % 2 ^ 16),
  decimal-IsNumber (numpid % 2 ^ 16) (omega arith),
  init_task-text fuel numpid answers held,
  omega (arith, length-whole numpid maps, ap length (whole-text numpid maps)),
  omega (arith, length-whole numpid exe, ap length (whole-text numpid exe)),
  λ numpid' e.
      init_task-text fuel numpid' answers held
      ∙ ap (λ v. init fuel (answers (maps_text (decimal 5 v)) (exe_text (decimal 5 v))) held) e,
)
