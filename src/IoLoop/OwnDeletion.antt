-- ===== src/IoLoop/OwnDeletion.antt =====
-- ioloop/ioloop.c: a callback that deletes its own event and then does not return a positive number.
use divers.Base.{
  ℕ, ◌≡◌, ◌≢◌, ◌≤◌, refl, sym, ap, ◌∙◌, arith, inl, inr, Bool, true, false, none, some, List, [],
  ◌∷◌, has, Bool-cases, ==-refl, ne→==, ==_iff, Distinct, ◌==◌, if◌then◌else◌,
}
use mathlib.Core.Option.{some-injective}
use divers.Resources.{block, ◌>>=◌}
use divers.Resources.Counts.{one_of, count}
use divers.IoLoop.{Event, Manager, tfind, tdelete, unwatch, del_event, del_internal_event}
use divers.IoLoop.Rounds.{
  del, perform, perform_all, Callback, find_data, data_at, with_rev, set_rev, received, call,
  handle,
}
use divers.IoLoop.Table.{
  fds, count_data, count_both, IsTable, tfind-has, fds-tdelete, count_both-tdelete,
}
use divers.IoLoop.Safety.{del_event-Deleted, Deleted}
use divers.IoLoop.Delivery.{received-IsTable, find_data_fd}

-- Which entries are lost behind a deletion.
pub del_internal_event-lost :
    (fd : ℕ) (e : Event) (m m' : Manager)
    → (del_internal_event fd e m >>= λ r. some (r.1)) ≡ some m'
    → m'.lost ≡ (if e.desc.has_clean then m.lost else e ∷ m.lost)
unfolding del_internal_event
del_internal_event-lost fd e m m' h = grind (arith, h)

find_data_missing : (p : ℕ) (es : List Event) → count_data p es ≡ 0 → find_data p es ≡ none
find_data_missing p [] c = refl
find_data_missing p (e ∷ es) c = ground (arith, c, find_data_missing p es)

find_both_missing : (p : ℕ) (es : List Event) → count_both p es ≡ 0 → find_data p es ≡ none
find_both_missing p [] c = refl
find_both_missing p (e ∷ es) c = ground (arith, c, find_both_missing p es)

tfind-set_rev :
    (p events : ℕ) (es : List Event) (e : Event)
    → Distinct (fds es)
    → find_data p es ≡ some e
    → tfind e.desc.fd (set_rev p events es) ≡ some (record e { desc = with_rev events e.desc })
unfolding set_rev with_rev
tfind-set_rev p events [] e d h = cc
tfind-set_rev p events (x ∷ es) e (n, d) h = elim (Bool-cases (x.data_ptr == p)) [
  | inl t ↦
      let same : x ≡ e = some-injective x e (rw t at h) in
      rw (sym same, t) (rw (==-refl x.desc.fd) refl)
  | inr f ↦
      let there : find_data p es ≡ some e = rw f at h in
      rw (f, ne→== x.desc.fd e.desc.fd (λ q. grind (arith, find_data_fd p es e there)))
        (tfind-set_rev p events es e d there)
]

not-unwatch : (fd : ℕ) (xs : List ℕ) → Distinct xs → has fd (unwatch fd xs) ≡ false
not-unwatch fd [] d = refl
not-unwatch fd (x ∷ xs) (n, d) = elim (Bool-cases (fd == x)) [
  | inl t ↦ let same : fd ≡ x = (==_iff fd x).0 t in rw t (rw same n)
  | inr f ↦ rw (f, f) (not-unwatch fd xs d)
]

tfind-tdelete : (fd : ℕ) (es : List Event) → Distinct (fds es) → tfind fd (tdelete fd es) ≡ none
tfind-tdelete fd es d = elim (tfind-has fd (tdelete fd es)) [
  | inl n ↦ n
  | inr h ↦ absurd (grind (arith, h, fds-tdelete fd es, not-unwatch fd (fds es) d))
]

find_data_ptr : (p : ℕ) (es : List Event) (e : Event) → find_data p es ≡ some e → e.data_ptr ≡ p
find_data_ptr p [] e h = cc
find_data_ptr p (x ∷ es) e h = elim (Bool-cases (x.data_ptr == p)) [
  | inl t ↦ ground arith
  | inr f ↦ find_data_ptr p es e (rw f at h)
]

pub data_at-root :
    (p : ℕ) (m : Manager) (e : Event) → find_data p m.root ≡ some e → data_at p m ≡ some e
unfolding data_at
data_at-root p m e at = rw (at, data_at) refl

-- An event of the tree is handed to its callback.
pub handle-call :
    (iol_func : Callback) (p events : ℕ) (m : Manager) (e : Event)
    → p ≢ 0
    → find_data p m.root ≡ some e
    → e.desc.has_func ≡ true
    → handle iol_func p events m ≡ call iol_func p (with_rev events e.desc) (received p events m)
unfolding handle
handle-call iol_func p events m e ne at func = simp (ne→== p 0 ne, data_at-root p m e at, func) refl

module _ (iol_func : Callback) (p events : ℕ) (m : Manager) (e : Event) (t : IsTable m)
    (fresh : count p m.blocks ≤ 1) (ne : p ≢ 0) (at : find_data p m.root ≡ some e)
    (func : e.desc.has_func ≡ true)
    (own : iol_func (with_rev events e.desc) (received p events m)
      ≡ (del e.desc.fd ∷ [], false)) where
  abbrev fd : ℕ
  fd = e.desc.fd

  abbrev m1 : Manager
  m1 = received p events m

  abbrev e1 : Event
  e1 = record e { desc = with_rev events e.desc }

  found : tfind fd m1.root ≡ some e1
  unfolding received
  found = tfind-set_rev p events m.root e t.distinct at

  del_event-found : del_event fd m1 ≡ del_internal_event fd e1 m1
  unfolding del_event
  del_event-found = rw (found, del_event) refl

  deleted : Deleted fd m1 (del_event fd m1 >>= λ r. some (r.1))
  deleted = del_event-Deleted fd m1 (received-IsTable p events m t)

  one_of_own : one_of p (block e.data_ptr) ≡ 1
  one_of_own = rw (find_data_ptr p m.root e at, ==-refl p) refl

  -- The block belongs to this entry only.
  no_others : (count_both p (tdelete fd m1.root) ≡ 0) × (count_data p m1.lost ≡ 0)
  unfolding received
  no_others =
      let all = (received-IsTable p events m t).blocks p in
      let split = count_both-tdelete p fd m1.root e1 found in
      omega (arith, all, split, one_of_own, fresh)

  module _ (m2 : Manager) (e2 : (del_event fd m1 >>= λ r. some (r.1)) ≡ some m2)
      (root : m2.root ≡ tdelete fd m1.root) where
    lost_lem : m2.lost ≡ (if e.desc.has_clean then m1.lost else e1 ∷ m1.lost)
    unfolding with_rev
    lost_lem = del_internal_event-lost fd e1 m1 m2 (rw del_event-found at e2)

    called :
        call iol_func p (with_rev events e.desc) m1
        ≡ (data_at p m2 >>= λ curr. del_event curr.desc.fd m2 >>= λ r. some (r.1))
    unfolding call perform_all perform
    called = simp (own, e2) refl

    gone : e.desc.has_clean ≡ true → data_at p m2 ≡ none
    unfolding data_at
    gone clean =
        rw
          (
            root,
            find_both_missing p (tdelete fd m1.root) no_others.0,
            lost_lem,
            clean,
            find_data_missing p m1.lost no_others.1,
            data_at,
          )
          refl

    still : e.desc.has_clean ≡ false → data_at p m2 ≡ some e1
    unfolding data_at
    still keep =
        rw (root, find_both_missing p (tdelete fd m1.root) no_others.0, lost_lem, keep, data_at)
          (rw (find_data_ptr p m.root e at, ==-refl p) refl)

    unknown : del_event fd m2 ≡ some (1, m2)
    unfolding del_event
    unknown =
        let distinct = (received-IsTable p events m t).distinct in
        let none_left = ap (tfind fd) root ∙ tfind-tdelete fd m1.root distinct in
        rw (none_left, del_event) refl

    same_fd : (with_rev events e.desc).fd ≡ fd
    unfolding with_rev
    same_fd = refl

    fault_lem : e.desc.has_clean ≡ true → handle iol_func p events m ≡ none
    fault_lem clean = handle-call iol_func p events m e ne at func ∙ called ∙ simp (gone clean) refl

    kept_lem : e.desc.has_clean ≡ false → handle iol_func p events m ≡ some m2
    kept_lem keep =
        handle-call iol_func p events m e ne at func
        ∙ called
        ∙ simp (still keep, same_fd, unknown) refl

    no_entry : find_data p m2.root ≡ none
    no_entry = rw (root) (find_both_missing p (tdelete fd m1.root) no_others.0)

    held_once : IsTable m2 → e.desc.has_clean ≡ false → count p m2.blocks ≡ 1
    held_once t2 keep =
        let lost =
          ap (count_data p)
            (lost_lem ∙ ap (λ (b : Bool). if b then m1.lost else e1 ∷ m1.lost) keep) in
        let tree = ap (count_both p) root in
        omega (arith, t2.blocks p, lost, tree, no_others, one_of_own)

-- A callback deletes its own event and does not return a positive number: then `iol_main_loop` looks into the block
-- of the description that was just freed, if the event has a cleaning function; if it has none, the deletion
-- succeeds, and the block stays allocated with no entry in the tree.
pub own_deletion :
    (iol_func : Callback) (p events : ℕ) (m : Manager) (e : Event)
    → IsTable m
    → count p m.blocks ≤ 1
    → p ≢ 0
    → find_data p m.root ≡ some e
    → e.desc.has_func ≡ true
    → iol_func (with_rev events e.desc) (received p events m) ≡ (del e.desc.fd ∷ [], false)
    → (e.desc.has_clean ≡ true → handle iol_func p events m ≡ none)
      × (e.desc.has_clean ≡ false
          → (m2 : Manager) × (handle iol_func p events m ≡ some m2)
            × IsTable m2
            × (m2.root ≡ tdelete e.desc.fd (received p events m).root)
            × (find_data p m2.root ≡ none)
            × (count p m2.blocks ≡ 1))
own_deletion iol_func p events m e t fresh ne at func own =
    let (m2, e2, t2, root) = deleted iol_func p events m e t fresh ne at func own in
    (
      fault_lem iol_func p events m e t fresh ne at func own m2 e2 root,
      λ keep. (
        m2,
        kept_lem iol_func p events m e t fresh ne at func own m2 e2 root keep,
        t2,
        root,
        no_entry iol_func p events m e t fresh ne at func own m2 e2 root,
        held_once iol_func p events m e t fresh ne at func own m2 e2 root t2 keep,
      ),
    )
