-- ===== src/MapParser/Line/Samples.antt =====
-- got_modifier/parse_map_line.c: the program's own line, and one without a path.
use Prim.Native.Char.{code}
use Prim.Native.String.{String}
use divers.Base.{◌⊎◌, ◌≡◌, refl, ℕ, some, none, List, [], ◌∷◌}
use divers.MapParser.Line.{sscanf, main}
use divers.MapParser.Line.Fields.{IsMapsLine, AreShort, printed, main-fields}

abbrev codes : String → List ℕ
codes String.[] = []
codes (String.◌∷◌ c s) = code c ∷ codes s

abbrev line : List ℕ
line = codes "b6327000-b633a000 r-xp 00000000 08:01 21017      /usr/lib/libelf-0.8.13.so"

main_runs :
    main line
    ≡ some (record {
      adrstat = some (codes "b6327000");
      adrend = some (codes "b633a000");
      perm = some (codes "r-xp");
      dunno = some (codes "00000000 08:01 21017      ");
      lib = some (codes "/usr/lib/libelf-0.8.13.so");
    })
unfolding main sscanf
main_runs = refl

-- Permissions of five characters.
main_overruns : main (codes "b6-b7 r-xpp 0 /lib") ≡ none
unfolding main sscanf
main_overruns = refl

abbrev nameless_line : List ℕ
nameless_line = codes "b6-b7 rw-p 0 00:00 0"

nameless : IsMapsLine (codes "b6") (codes "b7") (codes "rw-p") (codes "0 00:00 0") []
nameless = record {
  start = (λ e. cc, (refl, (refl, tt)));
  end = (λ e. cc, (refl, (refl, tt)));
  perms = (λ e. cc, (refl, (refl, (refl, (refl, tt)))));
  perms_text = refl;
  others = (λ e. cc, (refl, (refl, (refl, (refl, (refl, (refl, (refl, (refl, (refl, tt))))))))));
  others_text = refl;
  path = tt;
  path_word = tt;
}

main-fields_example :
    (AreShort (codes "b6") (codes "b7") (codes "rw-p") (codes "0 00:00 0") []
      × (main nameless_line
          ≡ some (printed (codes "b6") (codes "b7") (codes "rw-p") (codes "0 00:00 0") [])))
    ⊎ ((¬ AreShort (codes "b6") (codes "b7") (codes "rw-p") (codes "0 00:00 0") [])
        × (main nameless_line ≡ none))
main-fields_example =
    main-fields (codes "b6") (codes "b7") (codes "rw-p") (codes "0 00:00 0") [] nameless
