-- ===== src/MapParser.antt =====
-- got_modifier/map_parser.c: opening and closing the two files that it works on, the traced program's and
-- the library's. The system's answers are parameters, `none` is a failure; -1 is written 1. A library's
-- or program's bytes are read by linux_obj_parser, which can end the process.
pub mod Balance
pub mod Digits
pub mod FileNames
pub mod Line
pub mod Replace
mod Samples
use divers.Base.{ℕ, ◌+◌, Option, none, some, List, [], ◌∷◌}
use divers.Memory.{Mem}
use divers.Resources.{Held, descriptor, mapping, stream, release, ◌>>=◌}
use divers.ObjParser.{LopInfo, InitInfo, filled, exited, out_of_fuel, init_info}

-- How a function ends: it returns, it ends the process, it closes what is not open, or is out of fuel.
pub data Ended (A : Type 0) : Type 0 where
  returned : (ret : ℕ) → A → Held → Ended A
  exit : Ended A
  fault : Ended A
  spent : Ended A

-- `struct lib_desc_t` and `struct task_desc_t`, as far as they are filled here.
pub record LibDesc : Type 0 where
  pub fd : ℕ
  pub base : ℕ
  pub len : ℕ
  pub info : LopInfo

pub record TaskDesc : Type 0 where
  pub mem : ℕ
  pub fd : ℕ
  pub map : ℕ
  pub len : ℕ
  pub info : LopInfo

-- What the system answers.
pub record Answers : Type 0 where
  pub size : Option ℕ
  pub fopened : Option ℕ
  pub opened : Option ℕ
  pub mapped : Option ℕ
  pub bytes : Mem

-- The end of a function behind its releases.
abbrev pub after : {A : Type 0} → Option Held → (Held → Ended A) → Ended A
after none f = fault
after (some h) f = f h

-- `map_parser_init_lib_hooker`.
unfoldable pub init_lib_hooker : (fuel : ℕ) → Answers → LibDesc → Held → Ended LibDesc
init_lib_hooker fuel a lib held = elim (a.size) [
  | none ↦ returned 1 lib held
  | some size ↦ elim (a.opened) [
    | none ↦ returned 1 lib held
    | some fd ↦ elim (a.mapped) [
      | none ↦
          after (release (descriptor fd) (descriptor fd ∷ held))
            (λ h. returned 1 (record lib { fd = fd }) h)
      | some addr ↦ elim (init_info a.bytes fuel addr) [
        | out_of_fuel ↦ spent
        | exited ↦ exit
        | filled info ↦
            returned 0 (record { fd = fd; base = addr; len = size; info = info })
              (mapping addr size ∷ descriptor fd ∷ held)
      ]
    ]
  ]
]

-- `map_parser_exit_lib_hooker`.
unfoldable pub exit_lib_hooker : LibDesc → Held → Option Held
exit_lib_hooker lib held =
    release (descriptor lib.fd) held >>= λ h. release (mapping lib.base lib.len) h

-- `map_parser_init`, behind the two file names, which have room for a process number of five digits.
unfoldable pub init : (fuel : ℕ) → Answers → Held → Ended TaskDesc
init fuel a held = elim (a.fopened) [
  | none ↦ exit
  | some mem ↦ elim (a.opened) [
    | none ↦ after (release (stream mem) (stream mem ∷ held)) (λ h. exit)
    | some fd ↦
        let failed : Ended TaskDesc =
          after
            (release (descriptor fd) (descriptor fd ∷ stream mem ∷ held) >>= λ h.
              release (stream mem) h)
            (λ h. exit) in
        elim (a.size) [
          | none ↦ failed
          | some size ↦ elim (a.mapped) [
            | none ↦ failed
            | some addr ↦ elim (init_info a.bytes fuel addr) [
              | out_of_fuel ↦ spent
              | exited ↦ exit
              | filled info ↦
                  returned 0 (record { mem = mem; fd = fd; map = addr; len = size; info = info })
                    (mapping addr size ∷ descriptor fd ∷ stream mem ∷ held)
            ]
          ]
        ]
  ]
]

-- `map_parser_exit`.
unfoldable pub exit_task : TaskDesc → Held → Option Held
exit_task ptr held = release (stream ptr.mem) held >>= λ h.
    release (mapping ptr.map ptr.len) h >>= λ h'. release (descriptor ptr.fd) h'
