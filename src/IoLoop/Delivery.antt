-- ===== src/IoLoop/Delivery.antt =====
-- ioloop/ioloop.c: `iol_main_loop` with callbacks that delete nothing.
use divers.Base.{
  ℕ, suc, ◌+◌, ◌≡◌, ◌≢◌, refl, sym, ap, ◌∙◌, arith, inl, inr, Bool, true, false, Option, none, some,
  List, [], ◌∷◌, has, Distinct, All, length, Bool-cases, ◌==◌, if◌then◌else◌, subst,
}
use mathlib.Core.Option.{some-injective}
use divers.Resources.{◌>>=◌}
use divers.IoLoop.{EventDesc, Event, Manager, Answers, tdelete, add_event, del_event, stop_loop}
use divers.IoLoop.Rounds.{
  Op, add, del, stop, perform, perform_all, Callback, find_data, data_at, with_rev, set_rev,
  received, call, handle, dispatch, main_loop,
}
use divers.IoLoop.Balance.{IsAdded, add_event-IsAdded}
use divers.IoLoop.Table.{fds, count_data, count_both, IsTable}
use divers.IoLoop.Safety.{known, perform-Kept, del_event-Deleted}

-- The blocks of the descriptions in the tree.
abbrev pub ptrs : List Event → List ℕ
ptrs [] = []
ptrs (e ∷ es) = e.data_ptr ∷ ptrs es

abbrev pub Keeps : Op → Type 0
Keeps (add a ref) = Unit
Keeps (del fd) = ⊥
Keeps stop = Unit

-- A callback that deletes nothing.
abbrev pub IsGentle : Callback → Type 0
IsGentle iol_func = (d : EventDesc) (m : Manager) → All Keeps (iol_func d m).0

-- What `epoll_wait` gives: descriptions of the tree, each once.
abbrev pub firsts : List (ℕ × ℕ) → List ℕ
firsts [] = []
firsts ((p, events) ∷ vec) = p ∷ firsts vec

abbrev pub IsReady : Manager → List (ℕ × ℕ) → Type 0
IsReady m vec = Distinct (firsts vec) × All (λ p. has p (ptrs m.root) ≡ true) (firsts vec)

pub set_rev_same :
    (p events b : ℕ) (es : List Event)
    → (fds (set_rev p events es) ≡ fds es)
      × (ptrs (set_rev p events es) ≡ ptrs es)
      × (count_both b (set_rev p events es) ≡ count_both b es)
      × (count_data b (set_rev p events es) ≡ count_data b es)
unfolding set_rev with_rev
set_rev_same p events b [] = (refl, refl, refl, refl)
set_rev_same p events b (e ∷ es) =
    let (x, y, z, w) = set_rev_same p events b es in
    elim (Bool-cases (e.data_ptr == p)) [
      | inl t ↦ rw t (refl, refl, refl, refl)
      | inr f ↦ rw (f, x, y, z, w) (refl, refl, refl, refl)
    ]

pub received-IsTable : (p events : ℕ) (m : Manager) → IsTable m → IsTable (received p events m)
unfolding received
received-IsTable p events m t = record {
  watched = t.watched ∙ sym (set_rev_same p events 0 m.root).0;
  distinct = subst Distinct (sym (set_rev_same p events 0 m.root).0) t.distinct;
  blocks = λ b.
      let (_, _, z, _) = set_rev_same p events b m.root in
      let (_, _, _, w) = set_rev_same p events b m.lost in rw (z, w) (t.blocks b);
}

find_data-has :
    (p : ℕ) (es : List Event) → has p (ptrs es) ≡ true → (e : Event) × (find_data p es ≡ some e)
find_data-has p [] h = cc
find_data-has p (e ∷ es) h = elim (Bool-cases (e.data_ptr == p)) [
  | inl t ↦ rw t (e, refl)
  | inr f ↦ rw f (find_data-has p es (ground arith))
]

pub find_data_fd :
    (p : ℕ) (es : List Event) (e : Event) → find_data p es ≡ some e → has e.desc.fd (fds es) ≡ true
find_data_fd p [] e h = cc
find_data_fd p (x ∷ es) e h = elim (Bool-cases (x.data_ptr == p)) [
  | inl t ↦ ground arith
  | inr f ↦ ground (arith, find_data_fd p es e)
]

-- To delete what one block describes keeps the other blocks.
has-tdelete :
    (p q : ℕ) (es : List Event) (e : Event)
    → Distinct (fds es)
    → find_data p es ≡ some e
    → q ≢ p
    → has q (ptrs es) ≡ true
    → has q (ptrs (tdelete e.desc.fd es)) ≡ true
has-tdelete p q [] e d f ne h = h
has-tdelete p q (x ∷ es) e (n, d) f ne h = elim (Bool-cases (x.data_ptr == p)) [
  | inl t ↦ ground arith
  | inr u ↦ ground (arith, find_data_fd p es e, has-tdelete p q es e d)
]

-- The table is in order and still has the blocks that it had.
abbrev Grown : Manager → Option Manager → Type 0
Grown m o =
    (m' : Manager) × (o ≡ some m')
    × IsTable m'
    × ((q : ℕ) → has q (ptrs m.root) ≡ true → has q (ptrs m'.root) ≡ true)

added-keeps :
    (a : Answers) (ref : EventDesc) (m m' : Manager) (o : Option (ℕ × Manager))
    → IsAdded a ref m o
    → (o >>= λ r. some (r.1)) ≡ some m'
    → (q : ℕ) → has q (ptrs m.root) ≡ true
    → has q (ptrs m'.root) ≡ true
added-keeps a ref m m' none h e q i = absurd h
added-keeps a ref m m' (some (ret, m1)) (inl (ev, d, _, _, _, _, _, same)) e q i =
    rw⁻¹ (some-injective m1 m' e) (rw same (ground arith))
added-keeps a ref m m' (some (ret, m1)) (inr (_, same, _)) e q i =
    rw⁻¹ (some-injective m1 m' e) (rw same i)

perform-Grown : (op : Op) (m : Manager) → Keeps op → IsTable m → Grown m (perform op m)
perform-Grown (add a ref) m k t =
    let (m', e, t') = perform-Kept (add a ref) m t in
    (
      m',
      e,
      t',
      λ q i.
          added-keeps a ref m m' (add_event a ref m) (add_event-IsAdded a ref m (known ref.fd m t))
            (unfold perform in e) q i,
    )
perform-Grown (del fd) m k t = absurd k
perform-Grown stop m k t =
    let (m', e, t') = perform-Kept stop m t in
    (m', e, t', λ q i. rw⁻¹ (some-injective (stop_loop m) m' (unfold perform in e)) i)

perform_all-Grown :
    (ops : List Op) (m : Manager) → All Keeps ops → IsTable m → Grown m (perform_all ops m)
unfolding perform_all
perform_all-Grown [] m k t = (m, refl, t, λ q i. i)
perform_all-Grown (op ∷ ops) m (k, ks) t =
    let (m1, e1, t1, g1) = perform-Grown op m k t in
    let (m2, e2, t2, g2) = perform_all-Grown ops m1 ks t1 in
    (m2, rw e1 e2, t2, λ q i. g2 q (g1 q i))

data_at-found :
    (p : ℕ) (m : Manager)
    → has p (ptrs m.root) ≡ true
    → (e : Event) × (find_data p m.root ≡ some e) × (data_at p m ≡ some e)
unfolding data_at
data_at-found p m i = let (e, f) = find_data-has p m.root i in (e, f, rw (f, data_at) refl)

-- What is ready stays ready when another description is handled.
still_ready :
    (p : ℕ) (qs : List ℕ) (m m' : Manager)
    → has p qs ≡ false
    → ((q : ℕ) → q ≢ p → has q (ptrs m.root) ≡ true → has q (ptrs m'.root) ≡ true)
    → All (λ q. has q (ptrs m.root) ≡ true) qs
    → All (λ q. has q (ptrs m'.root) ≡ true) qs
still_ready p [] m m' out g all = tt
still_ready p (q ∷ qs) m m' out g (i, all) =
    (g q (λ e. ground arith) i, still_ready p qs m m' (ground arith) g all)

module _ (iol_func : Callback) (gentle : IsGentle iol_func) where
  -- The table is in order and still has the blocks that it had, but perhaps this one.
  abbrev Handled : ℕ → Manager → Option Manager → Type 0
  Handled p m o =
      (m' : Manager) × (o ≡ some m')
      × IsTable m'
      × ((q : ℕ) → q ≢ p → has q (ptrs m.root) ≡ true → has q (ptrs m'.root) ≡ true)

  finish-Handled :
      (p : ℕ) (m : Manager)
      → IsTable m
      → has p (ptrs m.root) ≡ true
      → Handled p m (data_at p m >>= λ curr. del_event curr.desc.fd m >>= λ r. some (r.1))
  finish-Handled p m t i =
      let (curr, f, at) = data_at-found p m i in
      let (m', e, t', root) = del_event-Deleted curr.desc.fd m t in
      (m', rw at e, t', λ q ne j. rw root (has-tdelete p q m.root curr t.distinct f ne j))

  -- What is behind the callback.
  called-Handled :
      (p : ℕ) (m m2 : Manager) (positive : Bool)
      → IsTable m2
      → has p (ptrs m2.root) ≡ true
      → ((q : ℕ) → has q (ptrs m.root) ≡ true → has q (ptrs m2.root) ≡ true)
      → Handled p m (
          if positive
          then some m2
          else (data_at p m2 >>= λ curr. del_event curr.desc.fd m2 >>= λ r. some (r.1)))
  called-Handled p m m2 true t i g = (m2, refl, t, λ q ne j. g q j)
  called-Handled p m m2 false t i g =
      let (m', e, t', g') = finish-Handled p m2 t i in (m', e, t', λ q ne j. g' q ne (g q j))

  call-Handled :
      (p : ℕ) (d : EventDesc) (m : Manager)
      → IsTable m
      → has p (ptrs m.root) ≡ true
      → Handled p m (call iol_func p d m)
  unfolding call
  call-Handled p d m t i =
      let (m2, e2, t2, g2) = perform_all-Grown (iol_func d m).0 m (gentle d m) t in
      let (m', e', t', g') = called-Handled p m m2 (iol_func d m).1 t2 (g2 p i) g2 in
      (m', rw e2 e', t', g')

  handle-Handled :
      (p events : ℕ) (m : Manager)
      → IsTable m
      → has p (ptrs m.root) ≡ true
      → Handled p m (handle iol_func p events m)
  unfolding handle received
  handle-Handled p events m t i = elim (Bool-cases (p == 0)) [
    | inl z ↦ rw (z, handle) (m, refl, t, λ q ne j. j)
    | inr nz ↦
        let (e, f, at) = data_at-found p m i in
        elim (Bool-cases e.desc.has_func) [
          | inr n ↦ (m, simp (nz, at, n), t, λ q ne j. j)
          | inl h ↦
              let same = (set_rev_same p events 0 m.root).1 in
              let (m', e', t', g') =
                call-Handled p (with_rev events e.desc) (received p events m)
                  (received-IsTable p events m t) (rw same i) in
              (m', simp (nz, at, h) e', t', λ q ne j. g' q ne (rw same j))
        ]
  ]

  dispatch-Table :
      (vec : List (ℕ × ℕ)) (i : ℕ) (m : Manager)
      → IsTable m
      → IsReady m vec
      → (m' : Manager) × (dispatch iol_func vec i m ≡ some (i + length vec, m')) × IsTable m'
  unfolding dispatch
  dispatch-Table [] i m t r =
      let none_left : i ≡ i + 0 = omega arith in (m, ap (λ (k : ℕ). some (k, m)) none_left, t)
  dispatch-Table ((p, events) ∷ vec) i m t ((out, d), (here, all)) =
      let (m1, e1, t1, g1) = handle-Handled p events m t here in
      let (m2, e2, t2) =
        dispatch-Table vec (i + 1) m1 t1 (d, still_ready p (firsts vec) m m1 out g1 all) in
      let counted : i + 1 + length vec ≡ i + suc (length vec) = omega arith in
      (m2, rw e1 (e2 ∙ ap (λ (k : ℕ). some (k, m2)) counted), t2)

  -- If the callbacks delete nothing themselves, then from a table in order and for descriptions of the tree, each
  -- once, `iol_main_loop` looks only into blocks that are allocated and frees only such, returns the number of the
  -- events and leaves a table in order. The callbacks may add any events and stop the loop.
  pub main_loop-Table :
      (v : ℕ × ℕ) (vec : List (ℕ × ℕ)) (m : Manager)
      → IsTable m
      → IsReady m (v ∷ vec)
      → (m' : Manager) × (main_loop iol_func (v ∷ vec) m ≡ some (length (v ∷ vec), m')) × IsTable m'
  unfolding main_loop
  main_loop-Table v vec m t r =
      let (m', e, t') = dispatch-Table (v ∷ vec) 0 m t r in
      let counted : 0 + suc (length vec) ≡ suc (length vec) = omega arith in
      (m', e ∙ ap (λ (k : ℕ). some (k, m')) counted, t')
