-- ===== src/ObjParser/Segments.antt =====
-- got_modifier/linux_obj_parser.c: what the loop over the program headers gives.
use divers.Base.{
  ℕ, zero, suc, ◌+◌, ◌-◌, ◌%◌, ◌<◌, ◌≡◌, refl, ap, sym, ◌∙◌, inl, inr, Bool, true, false, ◌&&◌, not,
  some, none, List, [], ◌∷◌, ltb, ◌==◌, if◌then◌else◌, arith, bit_and, take, lt→ltb, ge→ltb, ltb→lt,
  ltb→ge, Bool-cases,
}
use divers.Memory.{Mem}
use divers.ObjParser.{
  Segs, sizeof_phdr, p_type, p_flags, p_vaddr, affect, segment_loop, e_phnum, read_segment_info,
}

-- The specification: the loaded segments that can be executed or written, the executable ones apart.
pub data Kind : Type 0 where
  text : ℕ → Kind
  data' : ℕ → Kind

abbrev pub kinds : Mem → (n current : ℕ) → List Kind
kinds m zero current = []
kinds m (suc n) current =
    let rest = kinds m n (current + sizeof_phdr) in
    if p_type m current == 1
    then if not (bit_and (p_flags m current) 1 == 0)
      then text (p_vaddr m current) ∷ rest
      else if not (bit_and (p_flags m current) 2 == 0)
      then data' (p_vaddr m current) ∷ rest
      else rest
    else rest

-- Each of them sets its address.
abbrev pub assign : List Kind → Segs → Segs
assign [] s = s
assign (text v ∷ ks) s = assign ks (record s { nb_affect = s.nb_affect + 1; textvaddr = v })
assign (data' v ∷ ks) s = assign ks (record s { nb_affect = s.nb_affect + 1; datavaddr = v })

take-nil : (k : ℕ) → take {A = Kind} k [] ≡ []
take-nil zero = refl
take-nil (suc k) = refl

take-more :
    (b : ℕ) (k : Kind) (ks : List Kind) → b < 2 → take (2 - b) (k ∷ ks) ≡ k ∷ take (2 - (b + 1)) ks
take-more b k ks lt = let e : 2 - b ≡ suc (2 - (b + 1)) = omega arith in ap (λ x. take x (k ∷ ks)) e

none_left : (b : ℕ) → ltb b 2 ≡ false → 0 ≡ 2 - b
none_left b f = let h = ltb→ge b 2 f in omega arith

-- One round assigns what the list begins with.
affect-kinds :
    (x w d : Bool) (v : ℕ) (ks : List Kind) (s : Segs)
    → s.nb_affect < 2
    → (let s' : Segs =
          if x
          then if w
            then record s { nb_affect = s.nb_affect + 1; textvaddr = v }
            else if d
            then record s { nb_affect = s.nb_affect + 1; datavaddr = v }
            else s
          else s in
        let ks' = if x then if w then text v ∷ ks else if d then data' v ∷ ks else ks else ks in
        assign (take (2 - s'.nb_affect) ks) s' ≡ assign (take (2 - s.nb_affect) ks') s)
affect-kinds false w d v ks s lt = refl
affect-kinds true true d v ks s lt =
    sym (ap (λ l. assign l s) (take-more s.nb_affect (text v) ks lt))
affect-kinds true false true v ks s lt =
    sym (ap (λ l. assign l s) (take-more s.nb_affect (data' v) ks lt))
affect-kinds true false false v ks s lt = refl

-- From round `i` on, the loop assigns the next segments until two are assigned.
loop-assign :
    (m : Mem) (phnum n i current fuel : ℕ) (s : Segs)
    → i + n ≡ phnum
    → phnum < 256
    → n < fuel
    → segment_loop m fuel phnum i current s
      ≡ some (assign (take (2 - s.nb_affect) (kinds m n current)) s)
unfolding segment_loop affect
loop-assign m phnum n i current zero s e small lt = absurd (omega arith)
loop-assign m phnum zero i current (suc fuel) s e small lt =
    ap
      (λ b.
        if b && ltb s.nb_affect 2
        then segment_loop m fuel phnum ((i + 1) % 256) (current + sizeof_phdr) (affect m current s)
        else some s)
      (ge→ltb i phnum (omega arith))
    ∙ ap (λ l. some (assign l s)) (sym (take-nil (2 - s.nb_affect)))
loop-assign m phnum (suc n) i current (suc fuel) s e small lt =
    let same_i : (i + 1) % 256 ≡ i + 1 = omega arith in
    let rest =
      segment_loop m fuel phnum ((i + 1) % 256) (current + sizeof_phdr) (affect m current s) in
    ap (λ b. if b && ltb s.nb_affect 2 then rest else some s) (lt→ltb i phnum (omega arith))
    ∙ elim (Bool-cases (ltb s.nb_affect 2)) [
      | inl t ↦
          ap (λ b. if b then rest else some s) t
          ∙ ap (λ k. segment_loop m fuel phnum k (current + sizeof_phdr) (affect m current s))
              same_i
          ∙ loop-assign m phnum n (i + 1) (current + sizeof_phdr) fuel (affect m current s)
              (omega arith) small (omega arith)
          ∙ ap some (
              affect-kinds _ _ _ (p_vaddr m current) (kinds m n (current + sizeof_phdr)) s
                (ltb→lt s.nb_affect 2 t))
      | inr f ↦
          ap (λ b. if b then rest else some s) f
          ∙ ap (λ k. some (assign (take k (kinds m (suc n) current)) s)) (none_left s.nb_affect f)
    ]

-- On an image with fewer than 256 program headers, `lop_read_segment_info` ends after at most one
-- round for each and a last test: it assigns the addresses of the first two loaded segments that are
-- executable or writable, in their order, and returns 0 if and only if there are two.
pub read_segment_info-take :
    (m : Mem) (ehdr phdr fuel : ℕ) (s : Segs)
    → s.nb_affect ≡ 0
    → e_phnum m ehdr < 256
    → e_phnum m ehdr < fuel
    → (let t = assign (take 2 (kinds m (e_phnum m ehdr) phdr)) s in
        read_segment_info m fuel ehdr phdr s ≡ some (t, if t.nb_affect == 2 then 0 else 1))
unfolding read_segment_info
read_segment_info-take m ehdr phdr fuel s e small lt =
    ap (elim [ none ↦ none | some t ↦ some (t, if t.nb_affect == 2 then 0 else 1) ])
      (loop-assign m (e_phnum m ehdr) (e_phnum m ehdr) 0 phdr fuel s (omega arith) small lt
        ∙ ap (λ k. some (assign (take (2 - k) (kinds m (e_phnum m ehdr) phdr)) s)) e)
