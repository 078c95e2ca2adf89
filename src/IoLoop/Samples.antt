-- ===== src/IoLoop/Samples.antt =====
-- ioloop/ioloop.c: the theorems on a table with one event.
use divers.Base.{ℕ, ◌≡◌, refl, true, false, none, some, has, List, [], ◌∷◌, arith, ◌≤◌}
use divers.Resources.{block, release}
use divers.IoLoop.{
  EventDesc, Manager, Answers, tfind, tdelete, init_lib, exit_lib, del_event, del_internal_event,
}
use divers.IoLoop.Rounds.{
  Op, add, del, stop, perform, Callback, main_loop, dispatch, handle, call, perform_all, data_at,
  received, set_rev, with_rev, find_data,
}
use divers.IoLoop.Table.{IsTable}
use divers.IoLoop.Safety.{
  Kept, perform_all-Kept, with_event-IsTable, IsDestroyed, exit_lib-IsDestroyed,
}
use divers.IoLoop.OwnDeletion.{own_deletion}
use divers.Resources.Counts.{count}
use divers.IoLoop.Delivery.{IsGentle, IsReady, main_loop-Table}
use divers.IoLoop.Balance.{event_of, with_event}

abbrev pipe : ℕ → EventDesc
pipe fd = record { fd = fd; ev = 1; rev = 0; ctx = 0; has_func = true; has_clean = false }

abbrev empty : Manager
empty = init_lib 3

abbrev one : Manager
one = with_event (pipe 4) 100 200 empty

abbrev willing : Answers
willing = record { ev_block = some 300; data_block = some 400; ctl_ok = true; node_ok = true }

abbrev last_time : Callback
last_time d m = ([], false)

-- The loop takes an event whose callback is done out of the table.
one_round :
    main_loop last_time ((200, 1) ∷ []) one
    ≡ some (
      1,
      record empty {
        blocks = block 200 ∷ [];
        lost = record (event_of (pipe 4) 100 200) { desc = record (pipe 4) { rev = 1 } } ∷ [];
      },
    )
unfolding main_loop dispatch handle call perform_all data_at received set_rev with_rev init_lib
    del_event del_internal_event release
one_round = refl

no_seven : tfind 7 one.root ≡ none
unfolding init_lib
no_seven = refl

no_four : has 4 empty.watched ≡ false
unfolding init_lib
no_four = refl

empty-IsTable : IsTable empty
unfolding init_lib
empty-IsTable = record { watched = refl; distinct = tt; blocks = λ b. omega arith }

one-IsTable : IsTable one
one-IsTable = with_event-IsTable (pipe 4) 100 200 empty empty-IsTable no_four

abbrev ops : List Op
ops = add willing (pipe 7) ∷ del 4 ∷ add willing (pipe 7) ∷ del 9 ∷ stop ∷ []

perform_all-Kept_example : Kept (perform_all ops one)
perform_all-Kept_example = perform_all-Kept ops one one-IsTable

exit_lib-IsDestroyed_example :
    (closed : List ℕ) × (m' : Manager) × (exit_lib one ≡ some (closed, m'))
    × IsDestroyed one.root [] closed one.lost m'
exit_lib-IsDestroyed_example = exit_lib-IsDestroyed one one-IsTable

-- A callback that adds another event and is done.
abbrev adds : Callback
adds d m = (add willing (pipe 7) ∷ [], false)

adds_only : IsGentle adds
adds_only d m = (tt, tt)

ready : IsReady one ((200, 1) ∷ [])
unfolding init_lib
ready = ((refl, tt), (refl, tt))

main_loop-Table_example :
    (m' : Manager) × (main_loop adds ((200, 1) ∷ []) one ≡ some (1, m')) × IsTable m'
main_loop-Table_example = main_loop-Table adds adds_only (200, 1) [] one one-IsTable ready

-- A callback that deletes its own event and reports that it is done: `curr->iol_fd` is read behind `free`.
abbrev cleaned : EventDesc
cleaned = record (pipe 4) { has_clean = true }

abbrev deletes : Callback
deletes d m = (del d.fd ∷ [], false)

deletes_itself : main_loop deletes ((200, 1) ∷ []) (with_event cleaned 100 200 empty) ≡ none
unfolding main_loop dispatch handle call perform_all perform data_at received set_rev with_rev
    init_lib del_event del_internal_event release
deletes_itself = refl

-- So too when the callback of one event deletes another that is still to be handled.
abbrev deletes_other : Callback
deletes_other d m = (del 4 ∷ [], true)

deletes_pending :
    main_loop deletes_other
      ((400, 1) ∷ (200, 1) ∷ [])
      (with_event (pipe 7) 300 400 (with_event cleaned 100 200 empty))
    ≡ none
unfolding main_loop dispatch handle call perform_all perform data_at received set_rev with_rev
    init_lib del_event del_internal_event release
deletes_pending = refl

abbrev tidy : Manager
tidy = with_event cleaned 100 200 empty

tidy-IsTable : IsTable tidy
tidy-IsTable = with_event-IsTable cleaned 100 200 empty empty-IsTable no_four

tidy_once : count 200 tidy.blocks ≤ 1
unfolding init_lib
tidy_once = omega arith

deletes_own : deletes (with_rev 1 cleaned) (received 200 1 tidy) ≡ (del 4 ∷ [], false)
unfolding with_rev
deletes_own = refl

own_deletion_example :
    (true ≡ true → handle deletes 200 1 tidy ≡ none)
    × (true ≡ false
        → (m2 : Manager) × (handle deletes 200 1 tidy ≡ some m2)
          × IsTable m2
          × (m2.root ≡ tdelete 4 (received 200 1 tidy).root)
          × (find_data 200 m2.root ≡ none)
          × (count 200 m2.blocks ≡ 1))
own_deletion_example =
    own_deletion deletes 200 1 tidy (event_of cleaned 100 200) tidy-IsTable tidy_once (omega arith)
      refl refl deletes_own
