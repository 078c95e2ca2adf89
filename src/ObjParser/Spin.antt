-- ===== src/ObjParser/Spin.antt =====
-- got_modifier/linux_obj_parser.c: the loop over the program headers when its counter wraps.
use divers.Base.{
  ℕ, zero, suc, ◌+◌, ◌%◌, ◌<◌, ◌≤◌, ◌≡◌, refl, ap, ◌∙◌, Bool, true, false, not, none, List, [], ◌∷◌,
  ◌==◌, if◌then◌else◌, arith, bit_and, lt→ltb,
}
use divers.Memory.{Mem}
use divers.ObjParser.{
  Segs, sizeof_phdr, p_type, p_flags, p_vaddr, affect, segment_loop, e_phnum, read_segment_info,
}
use divers.ObjParser.Segments.{Kind, text, data', kinds}

affect_none :
    (x w d : Bool) (v : ℕ) (ks : List Kind) (s : Segs)
    → (if x then if w then text v ∷ ks else if d then data' v ∷ ks else ks else ks) ≡ []
    → ((if x
          then if w
            then record s { nb_affect = s.nb_affect + 1; textvaddr = v }
            else if d
            then record s { nb_affect = s.nb_affect + 1; datavaddr = v }
            else s
          else s)
        ≡ s)
      × (ks ≡ [])
affect_none false w d v ks s e = (refl, e)
affect_none true true d v ks s e = absurd cc
affect_none true false true v ks s e = absurd cc
affect_none true false false v ks s e = (refl, e)

spins :
    (m : Mem) (phnum fuel i current : ℕ) (s : Segs)
    → 256 ≤ phnum
    → i < 256
    → s.nb_affect < 2
    → kinds m fuel current ≡ []
    → segment_loop m fuel phnum i current s ≡ none
unfolding segment_loop affect
spins m phnum zero i current s big small few e = refl
spins m phnum (suc fuel) i current s big small few e =
    let (same, rest_empty) =
      affect_none (p_type m current == 1) (not (bit_and (p_flags m current) 1 == 0))
        (not (bit_and (p_flags m current) 2 == 0)) (p_vaddr m current)
        (kinds m fuel (current + sizeof_phdr)) s e in
    rw (lt→ltb i phnum (omega arith), lt→ltb s.nb_affect 2 few)
      (ap (segment_loop m fuel phnum ((i + 1) % 256) (current + sizeof_phdr)) same
        ∙ spins m phnum fuel ((i + 1) % 256) (current + sizeof_phdr) s big (omega arith) few
            rest_empty)

-- On an image with 256 program headers or more, as long as none of the records that it reads is a loaded
-- segment that is executable or writable, `lop_read_segment_info` does not end, also behind the last header.
pub read_segment_info-spins :
    (m : Mem) (ehdr phdr fuel : ℕ) (s : Segs)
    → s.nb_affect ≡ 0
    → 256 ≤ e_phnum m ehdr
    → kinds m fuel phdr ≡ []
    → read_segment_info m fuel ehdr phdr s ≡ none
unfolding read_segment_info
read_segment_info-spins m ehdr phdr fuel s e big empty =
    rw
      (
        spins m (e_phnum m ehdr) fuel 0 phdr s big (omega arith) (omega arith) empty,
        read_segment_info,
      )
      refl
