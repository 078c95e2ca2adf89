-- ===== src/IoLoop/Balance.antt =====
-- ioloop/ioloop.c: adding and deleting an event keep the table, epoll and the blocks in balance.
use divers.Base.{
  ℕ, ◌≡◌, ◌≢◌, refl, sym, ◌⊎◌, inl, inr, Bool-cases, false, Option-cases, Option, none, some, ◌∷◌,
  has, true, ◌==◌, ==-refl, ==→ne, ==_iff, ne→==, if◌then◌else◌,
}
use divers.Resources.{block, release-top, release-below}
use divers.IoLoop.{
  EventDesc, Event, Manager, Answers, tfind, epoll_add, add_alloc_data_err, add_epoll_err,
  add_event, del_internal_event, del_event,
}

-- The entry that `iol_add_event` makes in the blocks `ev` and `d`, and the table with it.
abbrev pub event_of : EventDesc → (ev d : ℕ) → Event
event_of ref ev d = record { ptr = ev; events = ref.ev; data_ptr = d; desc = ref }

abbrev pub with_event : EventDesc → (ev d : ℕ) → Manager → Manager
with_event ref ev d m = record m {
  root = event_of ref ev d ∷ m.root;
  watched = ref.fd ∷ m.watched;
  blocks = block d ∷ block ev ∷ m.blocks;
}

-- What `iol_add_event` promises: 0 and one more entry, with its watch and its two blocks, of a descriptor
-- that was not watched; or -1 and everything as before.
abbrev pub IsAdded : Answers → EventDesc → Manager → Option (ℕ × Manager) → Type 0
IsAdded a ref m none = ⊥
IsAdded a ref m (some (ret, m')) =
    ((ev : ℕ) × (d : ℕ) × (a.ev_block ≡ some ev)
      × (a.data_block ≡ some d)
      × (ref.fd ≢ 0)
      × (epoll_add a.ctl_ok ref.fd m.watched ≡ true)
      × (ret ≡ 0)
      × (m' ≡ with_event ref ev d m))
    ⊎ ((ret ≡ 1)
        × (m' ≡ m)
        × ((ref.fd ≡ 0)
            ⊎ (a.ev_block ≡ none)
            ⊎ (a.data_block ≡ none)
            ⊎ (epoll_add a.ctl_ok ref.fd m.watched ≡ false)
            ⊎ (a.node_ok ≡ false)))

module _ (a : Answers) (ref : EventDesc) (m : Manager)
    (known : (tfind ref.fd m.root ≡ none) ⊎ (has ref.fd m.watched ≡ true)) where
  unwind_both : (ev d : ℕ) → add_epoll_err ev d (block d ∷ block ev ∷ m.blocks) ≡ some m.blocks
  unfolding add_epoll_err add_alloc_data_err
  unwind_both ev d =
      rw (release-top (block d) (block ev ∷ m.blocks)) (release-top (block ev) m.blocks)

  -- What epoll takes was not watched, so it is not in the table.
  added-new : epoll_add a.ctl_ok ref.fd m.watched ≡ true → tfind ref.fd m.root ≡ none
  added-new t = elim known [
    | inl n ↦ n
    | inr w ↦ absurd (elim (Bool-cases a.ctl_ok) [ inl c ↦ cc | inr c ↦ cc ])
  ]

  unwind_first : (ev : ℕ) → add_alloc_data_err ev (block ev ∷ m.blocks) ≡ some m.blocks
  unfolding add_alloc_data_err
  unwind_first ev = release-top (block ev) m.blocks

  -- If the descriptor is watched or not in the table, `iol_add_event` frees only what it allocated, and ends as
  -- promised: with 0 the descriptor was not watched and the table has one more entry, watched and in its two
  -- blocks; when a call fails, the number is 0 or the descriptor is watched, it returns -1 and the table, the
  -- watches and the blocks are as before.
  pub add_event-IsAdded : IsAdded a ref m (add_event a ref m)
  unfolding add_event
  add_event-IsAdded = elim (Bool-cases (ref.fd == 0)) [
    | inl t ↦ rw t (inr (refl, refl, inl ((==_iff ref.fd 0).0 t)))
    | inr f ↦ rw f (elim (Option-cases a.ev_block) [
      | inl n ↦ rw n (inr (refl, refl, inr (inl refl)))
      | inr (ev, e) ↦ rw e (elim (Option-cases a.data_block) [
        | inl n ↦ rw (n, unwind_first ev) (inr (refl, refl, inr (inr (inl refl))))
        | inr (d, e') ↦ rw e' (elim (Bool-cases (epoll_add a.ctl_ok ref.fd m.watched)) [
          | inr t ↦ rw (t, unwind_both ev d) (inr (refl, refl, inr (inr (inr (inl t)))))
          | inl t ↦
              let new = added-new t in
              rw (t, new)
                (elim (Bool-cases a.node_ok) [
                  | inl o ↦ rw o (inl (ev, d, refl, refl, ==→ne ref.fd 0 f, t, refl, rw new refl))
                  | inr o ↦
                      rw (o, unwind_both ev d, ==-refl ref.fd)
                        (inr (refl, refl, inr (inr (inr (inr refl)))))
                ])
        ])
      ])
    ])
  ]

-- `iol_del_event` behind an `iol_add_event` of the same descriptor gives back the table, the watches and the
-- entry's block; the block of its data is given back if and only if the event has a cleaning function, and is lost otherwise.
pub del_event-add :
    (ref : EventDesc) (ev d : ℕ) (m : Manager)
    → d ≢ ev
    → del_event ref.fd (with_event ref ev d m)
      ≡ some (
        0,
        record m {
          blocks = if ref.has_clean then m.blocks else block d ∷ m.blocks;
          lost = if ref.has_clean then m.lost else event_of ref ev d ∷ m.lost;
        },
      )
unfolding del_event del_internal_event
del_event-add ref ev d m h = elim (Bool-cases ref.has_clean) [
  | inl t ↦
      rw (==-refl ref.fd, del_event)
        (rw (t, release-top (block d) (block ev ∷ m.blocks), release-top (block ev) m.blocks)
          (rw (==-refl ref.fd) refl))
  | inr f ↦
      rw (==-refl ref.fd, del_event)
        (rw (f, release-below (block ev) (block d) m.blocks (ne→== ev d (λ e. h (sym e))))
          (rw (==-refl ref.fd) refl))
]
