-- ===== src/ObjParser/Samples.antt =====
-- got_modifier/linux_obj_parser.c: the theorems on an image with two program headers and three section
-- headers at 0: the dynamic symbols, their relocations and their names.
use divers.Base.{
  ℕ, ◌+◌, ◌≡◌, refl, [], ◌∷◌, Bool, none, some, arith, ◌==◌, if◌then◌else◌, take, ◌⊎◌,
}
use divers.Memory.{Mem, words, store, load, poke}
use divers.Elf.{scan, scan_in}
use divers.ObjParser.{
  LopInfo, filled, exited, init_info, segment_loop, affect, find_rel_in, get_section_by_type,
  find_rel_by_sym, read_segment_info, Segs, e_phnum, sht_dynsym,
}
use divers.ObjParser.Info.{init_info-IsInfo, IsInfo, IsRefused}
use divers.ObjParser.Segments.{kinds, assign, read_segment_info-take}
use divers.ObjParser.Spin.{read_segment_info-spins}

-- Program headers at 64, section headers at 128: the symbols at 256, their relocations at 288 and
-- their names at 320.
abbrev image : Mem
image = words (
    (28, 64)
    ∷ (32, 128)
    ∷ (44, 2)
    ∷ (48, 3)
    ∷ (64, 1)
    ∷ (72, 4096)
    ∷ (88, 5)
    ∷ (96, 1)
    ∷ (104, 8192)
    ∷ (120, 6)
    ∷ (132, 11)
    ∷ (144, 256)
    ∷ (148, 32)
    ∷ (152, 1)
    ∷ (172, 3)
    ∷ (184, 320)
    ∷ (212, 9)
    ∷ (224, 288)
    ∷ (232, 0)
    ∷ (272, 5)
    ∷ (292, 256 + 7)
    ∷ [])

abbrev no_segs : Segs
no_segs = record { nb_affect = 0; textvaddr = 0; datavaddr = 0 }

abbrev named : ℕ → Bool
named p = p == 325

dynsym_found : get_section_by_type image 0 sht_dynsym ≡ some 128
unfolding get_section_by_type scan store load poke
dynsym_found = refl

rel_found : find_rel_by_sym image 0 128 0 1 ≡ some 288
unfolding find_rel_by_sym find_rel_in scan scan_in store load poke
rel_found = refl

segments_read :
    read_segment_info image 3 0 64 no_segs
    ≡ some (record { nb_affect = 2; textvaddr = 4096; datavaddr = 8192 }, 0)
unfolding read_segment_info segment_loop affect store load poke
segments_read = refl

read_segment_info-take_example :
    (let t = assign (take 2 (kinds image (e_phnum image 0) 64)) no_segs in
      read_segment_info image 3 0 64 no_segs ≡ some (t, if t.nb_affect == 2 then 0 else 1))
unfolding store load poke
read_segment_info-take_example =
    read_segment_info-take image 0 64 3 no_segs refl (omega arith) (omega arith)

init_info-IsInfo_example :
    ((init_info image 3 0 ≡ exited) × IsRefused image 0)
    ⊎ ((info : LopInfo) × (init_info image 3 0 ≡ filled info) × IsInfo image 0 info)
unfolding store load poke
init_info-IsInfo_example = init_info-IsInfo image 0 3 (omega arith) (omega arith)

-- 256 program headers, all empty: 300 rounds are not enough.
abbrev many : Mem
many = words ((44, 256) ∷ [])

many_headers : e_phnum many 0 ≡ 256
unfolding store load poke
many_headers = refl

many_empty : kinds many 300 4096 ≡ []
unfolding store load poke
many_empty = refl

read_segment_info-spins_example :
    read_segment_info many 300 0 4096 (record { nb_affect = 0; textvaddr = 0; datavaddr = 0 })
    ≡ none
read_segment_info-spins_example =
    read_segment_info-spins many 0 4096 300 (record { nb_affect = 0; textvaddr = 0; datavaddr = 0 })
      refl (omega (arith, many_headers)) many_empty
