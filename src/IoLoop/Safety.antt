-- ===== src/IoLoop/Safety.antt =====
-- ioloop/ioloop.c: no call frees what is not allocated, whatever the callbacks add and delete.
use divers.Base.{
  ℕ, ◌+◌, ◌<◌, ◌≡◌, refl, sym, ap, ◌∙◌, arith, inl, inr, ◌⊎◌, Bool, true, false, ◌||◌, Option, none,
  some, List, [], ◌∷◌, has, Distinct, Bool-cases, Option-cases, subst, ==-refl,
}
use divers.Resources.{Held, block, ◌>>=◌}
use divers.Resources.Counts.{one_of, count, release-count}
use divers.IoLoop.{
  EventDesc, Event, Manager, Answers, tfind, tdelete, unwatch, epoll_add, add_event, del_event,
  del_internal_event, stop_loop, free_node, tdestroy, exit_lib,
}
use divers.IoLoop.Rounds.{Op, add, del, stop, perform, perform_all}
use divers.IoLoop.Balance.{IsAdded, with_event, add_event-IsAdded}
use divers.IoLoop.Table.{
  fds, count_data, count_both, IsTable, tfind-has, tfind_fd, tdelete_missing, fds-tdelete,
  unwatch-Distinct, count_both-tdelete,
}

-- The call returns, and its table is in order.
abbrev pub Kept : Option Manager → Type 0
Kept o = (m : Manager) × (o ≡ some m) × IsTable m

-- So too, and the tree lacks the descriptor.
abbrev pub Deleted : ℕ → Manager → Option Manager → Type 0
Deleted fd m o = (m' : Manager) × (o ≡ some m') × IsTable m' × (m'.root ≡ tdelete fd m.root)

epoll_add-has : (ok : Bool) (fd : ℕ) (xs : List ℕ) → epoll_add ok fd xs ≡ true → has fd xs ≡ false
epoll_add-has ok fd xs e = elim (Bool-cases (has fd xs)) [
  | inr f ↦ f
  | inl t ↦ absurd (elim (Bool-cases ok) [ inl c ↦ cc | inr c ↦ cc ])
]

pub with_event-IsTable :
    (ref : EventDesc) (ev d : ℕ) (m : Manager)
    → IsTable m
    → has ref.fd m.watched ≡ false
    → IsTable (with_event ref ev d m)
with_event-IsTable ref ev d m t n = record {
  watched = ap (λ xs. ref.fd ∷ xs) t.watched;
  distinct = (subst (λ xs. has ref.fd xs ≡ false) t.watched n, t.distinct);
  blocks = λ b. omega (arith, t.blocks b);
}

added-Kept :
    (a : Answers) (ref : EventDesc) (m : Manager) (o : Option (ℕ × Manager))
    → IsTable m
    → IsAdded a ref m o
    → Kept (o >>= λ r. some (r.1))
added-Kept a ref m none t h = absurd h
added-Kept a ref m (some (ret, m')) t (inl (ev, d, _, _, _, taken, _, e)) = rw e (
  with_event ref ev d m,
  refl,
  with_event-IsTable ref ev d m t (epoll_add-has a.ctl_ok ref.fd m.watched taken),
)
added-Kept a ref m (some (ret, m')) t (inr (_, e, _)) = rw e (m, refl, t)

-- What is in the table is watched.
pub known :
    (fd : ℕ) (m : Manager) → IsTable m → (tfind fd m.root ≡ none) ⊎ (has fd m.watched ≡ true)
known fd m t = elim (tfind-has fd m.root) [
  | inl n ↦ inl n
  | inr h ↦ inr (subst (λ xs. has fd xs ≡ true) (sym t.watched) h)
]

one_of_self : (b : ℕ) → one_of b (block b) ≡ 1
one_of_self b = rw (==-refl b) refl

-- The table without an entry, with the blocks `b` and the lost entries `lost`.
abbrev without : ℕ → Event → (b : Held) (lost : List Event) → Manager → Manager
without fd e b lost m = record m {
  root = tdelete e.desc.fd m.root;
  watched = unwatch fd m.watched;
  blocks = b;
  lost = lost;
}

module _ (fd : ℕ) (e : Event) (m : Manager) (t : IsTable m) (h : tfind fd m.root ≡ some e) where
  entry_counts :
      (c : ℕ)
      → count c m.blocks
        ≡ one_of c (block e.data_ptr)
          + one_of c (block e.ptr)
          + count_both c (tdelete fd m.root)
          + count_data c m.lost
  entry_counts c = omega (arith, t.blocks c, count_both-tdelete c fd m.root e h)

  without-IsTable :
      (b : Held) (lost : List Event)
      → ((c : ℕ) → count c b ≡ count_both c (tdelete fd m.root) + count_data c lost)
      → IsTable (without fd e b lost m)
  without-IsTable b lost counts = rw (tfind_fd fd m.root e h) (record {
    watched = ap (unwatch fd) t.watched ∙ sym (fds-tdelete fd m.root);
    distinct =
        subst Distinct (sym (fds-tdelete fd m.root)) (unwatch-Distinct fd (fds m.root) t.distinct);
    blocks = counts;
  })

  same_root : tdelete e.desc.fd m.root ≡ tdelete fd m.root
  same_root = ap (λ k. tdelete k m.root) (tfind_fd fd m.root e h)

  del_internal_event-Deleted : Deleted fd m (del_internal_event fd e m >>= λ r. some (r.1))
  unfolding del_internal_event
  del_internal_event-Deleted = elim (Bool-cases e.desc.has_clean) [
    | inl c ↦
        let held : 0 < count e.data_ptr m.blocks =
          omega (arith, entry_counts e.data_ptr, one_of_self e.data_ptr) in
        let (b1, r1, c1) = release-count e.data_ptr m.blocks held in
        let held' : 0 < count e.ptr b1 =
          omega (arith, entry_counts e.ptr, one_of_self e.ptr, c1 e.ptr) in
        let (b2, r2, c2) = release-count e.ptr b1 held' in
        let kept = without-IsTable b2 m.lost (λ b. omega (arith, entry_counts b, c1 b, c2 b)) in
        (without fd e b2 m.lost m, simp (c, r1, r2), kept, same_root)
    | inr c ↦
        let held : 0 < count e.ptr m.blocks =
          omega (arith, entry_counts e.ptr, one_of_self e.ptr) in
        let (b2, r2, c2) = release-count e.ptr m.blocks held in
        let kept = without-IsTable b2 (e ∷ m.lost) (λ b. omega (arith, entry_counts b, c2 b)) in
        (without fd e b2 (e ∷ m.lost) m, simp (c, r2), kept, same_root)
  ]

pub del_event-Deleted :
    (fd : ℕ) (m : Manager) → IsTable m → Deleted fd m (del_event fd m >>= λ r. some (r.1))
unfolding del_event
del_event-Deleted fd m t = elim (Option-cases (tfind fd m.root)) [
  | inl n ↦ rw (n, del_event) (m, refl, t, sym (tdelete_missing fd m.root n))
  | inr (e, h) ↦ rw (h, del_event) (del_internal_event-Deleted fd e m t h)
]

pub perform-Kept : (op : Op) (m : Manager) → IsTable m → Kept (perform op m)
unfolding perform
perform-Kept (add a ref) m t =
    added-Kept a ref m (add_event a ref m) t (add_event-IsAdded a ref m (known ref.fd m t))
perform-Kept (del fd) m t = let (m', e, t', _) = del_event-Deleted fd m t in (m', e, t')
perform-Kept stop m t =
    (stop_loop m, refl, record { watched = t.watched; distinct = t.distinct; blocks = t.blocks })

-- From a table in order, any additions, deletions and stops free only what is allocated, and leave a table
-- in order: its descriptors are distinct and are exactly those that epoll watches, and the blocks are
-- those of its entries and the data of entries that were deleted without a cleaning function.
pub perform_all-Kept : (ops : List Op) (m : Manager) → IsTable m → Kept (perform_all ops m)
unfolding perform_all
perform_all-Kept [] m t = (m, refl, t)
perform_all-Kept (op ∷ ops) m t =
    let (m1, e1, t1) = perform-Kept op m t in rw e1 (perform_all-Kept ops m1 t1)

-- What `iol_exitlib` leaves: nothing is watched, each descriptor of the table is closed, and of the blocks
-- only the data of the lost entries is still allocated.
pub record IsDestroyed (es : List Event) (closed closed' : List ℕ) (lost : List Event) (m : Manager)
    : Type 0 where
  pub watched : m.watched ≡ []
  pub closes : (fd : ℕ) → has fd closed' ≡ has fd (fds es) || has fd closed
  pub blocks : (b : ℕ) → count b m.blocks ≡ count_data b lost

tdestroy-IsDestroyed :
    (es : List Event) (closed : List ℕ) (m : Manager)
    → m.watched ≡ fds es
    → ((b : ℕ) → count b m.blocks ≡ count_both b es + count_data b m.lost)
    → (closed' : List ℕ) × (m' : Manager) × (tdestroy es (closed, m) ≡ some (closed', m'))
      × IsDestroyed es closed closed' m.lost m'
unfolding tdestroy free_node
tdestroy-IsDestroyed [] closed m w counts = (
  closed,
  m,
  refl,
  record { watched = w; closes = λ fd. refl; blocks = λ b. omega (arith, counts b) },
)
tdestroy-IsDestroyed (e ∷ es) closed m w counts =
    let held : 0 < count e.data_ptr m.blocks =
      omega (arith, counts e.data_ptr, one_of_self e.data_ptr) in
    let (b1, r1, c1) = release-count e.data_ptr m.blocks held in
    let held' : 0 < count e.ptr b1 = omega (arith, counts e.ptr, one_of_self e.ptr, c1 e.ptr) in
    let (b2, r2, c2) = release-count e.ptr b1 held' in
    let rest : unwatch e.desc.fd m.watched ≡ fds es = rw (w, ==-refl e.desc.fd) refl in
    let (closed', m', e', d) =
      tdestroy-IsDestroyed es (e.desc.fd ∷ closed)
        (record m { watched = unwatch e.desc.fd m.watched; blocks = b2 }) rest
        (λ b. omega (arith, counts b, c1 b, c2 b)) in
    (
      closed',
      m',
      simp (r1, r2) e',
      record { watched = d.watched; closes = λ fd. d.closes fd ∙ ground arith; blocks = d.blocks },
    )

-- From a table in order, `iol_exitlib` frees only what is allocated: then nothing is watched, exactly the
-- descriptors of the table are closed, and of the blocks only the data of the entries that were deleted
-- without a cleaning function is still allocated.
pub exit_lib-IsDestroyed :
    (m : Manager)
    → IsTable m
    → (closed : List ℕ) × (m' : Manager) × (exit_lib m ≡ some (closed, m'))
      × IsDestroyed m.root [] closed m.lost m'
unfolding exit_lib
exit_lib-IsDestroyed m t = tdestroy-IsDestroyed m.root [] m t.watched t.blocks
