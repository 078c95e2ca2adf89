-- ===== src/ThreadName/Samples.antt =====
-- thread_name/thsetname.c: the output thread sets its name first.
use divers.Base.{refl, ◌==◌, if◌then◌else◌}
use divers.Memory.{Mem}
use divers.ThreadName.{set_thread_name}
use divers.ThreadName.Threads.{
  Texts, State, sleeping, unnamed, join_i, initial, Reach, here, more, creates_i, creates_o,
  names_o,
}

-- "in" at 100 and "out" at 200.
abbrev memory : Mem
memory p =
    if p == 100
    then 105
    else if p == 101
    then 110
    else if p == 200
    then 111
    else if p == 201
    then 117
    else if p == 202
    then 116
    else 0

abbrev texts : Texts
texts = record { mem = memory; input = 100; output = 200 }

abbrev reached : State
reached = record { place = join_i; i_t = unnamed; o_t = sleeping (set_thread_name memory 200) }

reached-Reach : Reach texts reached
reached-Reach = more (more (more here (creates_i initial refl)) (creates_o _ refl)) (names_o _ refl)
