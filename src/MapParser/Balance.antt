-- ===== src/MapParser/Balance.antt =====
-- got_modifier/map_parser.c: what is opened is closed again.
use divers.Base.{ℕ, ◌<◌, ◌≡◌, refl, ◌⊎◌, inl, inr, Option-cases, none, some, ◌∷◌}
use divers.Resources.{Held, descriptor, mapping, stream, release-top, release-below, release-third}
use divers.ObjParser.{e_phnum}
use divers.ObjParser.Info.{init_info-IsInfo, IsInfo, IsRefused}
use divers.MapParser.{
  Ended, returned, exit, fault, spent, LibDesc, TaskDesc, Answers, init_lib_hooker, exit_lib_hooker,
  init, exit_task,
}

-- What `map_parser_init_lib_hooker` promises: with 0, the library is described as it is in its mapping, and
-- `map_parser_exit_lib_hooker` gives back all that was taken; with -1, nothing more is held. It can end
-- the process, which gives back everything.
abbrev pub IsLib : Answers → Held → Ended LibDesc → Type 0
IsLib a held (returned ret lib h) =
    ((ret ≡ 0) × IsInfo a.bytes lib.base lib.info × (exit_lib_hooker lib h ≡ some held))
    ⊎ ((ret ≡ 1) × (h ≡ held) × ((a.size ≡ none) ⊎ (a.opened ≡ none) ⊎ (a.mapped ≡ none)))
IsLib a held exit = (addr : ℕ) × (a.mapped ≡ some addr) × IsRefused a.bytes addr
IsLib a held fault = ⊥
IsLib a held spent = ⊥

-- The same for `map_parser_init`, which returns only 0.
abbrev pub IsTask : Answers → Held → Ended TaskDesc → Type 0
IsTask a held (returned ret td h) =
    (ret ≡ 0) × IsInfo a.bytes td.map td.info × (exit_task td h ≡ some held)
IsTask a held exit =
    (a.fopened ≡ none)
    ⊎ (a.opened ≡ none)
    ⊎ (a.size ≡ none)
    ⊎ (a.mapped ≡ none)
    ⊎ ((addr : ℕ) × (a.mapped ≡ some addr) × IsRefused a.bytes addr)
IsTask a held fault = ⊥
IsTask a held spent = ⊥

module _ (fuel : ℕ) (a : Answers) (held : Held)
    (small : (addr : ℕ) → a.mapped ≡ some addr → e_phnum a.bytes addr < 256)
    (enough : (addr : ℕ) → a.mapped ≡ some addr → e_phnum a.bytes addr < fuel) where
  -- For a library with fewer than 256 program headers and fuel for each and one more,
  -- `map_parser_init_lib_hooker` ends and closes only what it opened: with 0 the library is described and
  -- one `map_parser_exit_lib_hooker` gives back its descriptor and its mapping; with -1, when a call failed, nothing
  -- more is held than before; or it ends the process, when the image lacks segments or symbols.
  pub init_lib_hooker-IsLib : (lib : LibDesc) → IsLib a held (init_lib_hooker fuel a lib held)
  unfolding init_lib_hooker exit_lib_hooker
  init_lib_hooker-IsLib lib = elim (Option-cases a.size) [
    | inl n ↦ rw n (inr (refl, refl, inl refl))
    | inr (size, e) ↦ rw e (elim (Option-cases a.opened) [
      | inl n ↦ rw n (inr (refl, refl, inr (inl refl)))
      | inr (fd, e') ↦ rw e' (elim (Option-cases a.mapped) [
        | inl n ↦ rw (n, release-top (descriptor fd) held) (inr (refl, refl, inr (inr refl)))
        | inr (addr, e'') ↦
            elim (init_info-IsInfo a.bytes addr fuel (small addr e'') (enough addr e'')) [
              | inl (x, refused) ↦ rw (e'', x) (addr, refl, refused)
              | inr (info, f, is) ↦
                  rw (e'', f)
                    (inl (
                      refl,
                      is,
                      rw (release-below (descriptor fd) (mapping addr size) held refl)
                          (release-top (mapping addr size) held),
                    ))
            ]
      ])
    ])
  ]

  -- For a program with fewer than 256 program headers and fuel for each and one more, `map_parser_init` ends
  -- and closes only what it opened: it ends the process, when a call failed or the image lacks segments or
  -- symbols, or returns 0 with the program described, and then
  -- one `map_parser_exit` gives back its stream, its mapping and its descriptor.
  pub init-IsTask : IsTask a held (init fuel a held)
  unfolding init exit_task
  init-IsTask = elim (Option-cases a.fopened) [
    | inl n ↦ rw n (inl refl)
    | inr (mem, e) ↦ rw e (elim (Option-cases a.opened) [
      | inl n ↦ rw (n, release-top (stream mem) held) (inr (inl refl))
      | inr (fd, e') ↦ rw e' (elim (Option-cases a.size) [
        | inl n ↦
            rw (n, release-top (descriptor fd) (stream mem ∷ held))
              (rw (release-top (stream mem) held) (inr (inr (inl refl))))
        | inr (size, e1) ↦ rw e1 (elim (Option-cases a.mapped) [
          | inl n ↦
              rw (n, release-top (descriptor fd) (stream mem ∷ held))
                (rw (release-top (stream mem) held) (inr (inr (inr (inl refl)))))
          | inr (addr, e'') ↦
              elim (init_info-IsInfo a.bytes addr fuel (small addr e'') (enough addr e'')) [
                | inl (x, refused) ↦ rw (e'', x) (inr (inr (inr (inr (addr, refl, refused)))))
                | inr (info, f, is) ↦
                    rw (e'', f)
                      (
                        refl,
                        is,
                        rw
                            (
                              release-third (stream mem) (mapping addr size) (descriptor fd) held
                                  refl refl,
                              release-top (mapping addr size) (descriptor fd ∷ held),
                            )
                            (release-top (descriptor fd) held),
                      )
              ]
        ])
      ])
    ])
  ]
