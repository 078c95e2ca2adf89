-- ===== src/IoLoop/Program/Loop.antt =====
-- ioloop/test.c: what holds in each state of the loop.
use divers.Base.{
  ℕ, ◌≡◌, refl, sym, ap, ◌∙◌, arith, inl, inr, Bool, true, false, Option, none, some, List, ◌∷◌,
  has, length, Option-cases, ◌==◌,
}
use mathlib.Core.Option.{some-injective}
use divers.Resources.{◌>>=◌}
use divers.IoLoop.{EventDesc, Manager, Answers, init_lib, epoll_add, add_event}
use divers.IoLoop.Rounds.{main_loop}
use divers.IoLoop.Balance.{IsAdded, add_event-IsAdded}
use divers.IoLoop.Table.{IsTable}
use divers.IoLoop.Safety.{known, with_event-IsTable}
use divers.IoLoop.Delivery.{IsReady, IsGentle, main_loop-Table}
use divers.IoLoop.Program.{
  Pipes, on_event, read_round, f2iol, f2, f3, f2_if, setup, Popen, Reach, started, round, reload,
}
use divers.IoLoop.Program.Clean.{IsClean, dispatch-IsClean}

-- What `f2` gives for what `iol_add_event` gives.
abbrev answer : Option (ℕ × Manager) → Option (Bool × Manager)
answer o = o >>= λ (r : ℕ × Manager). some (r.0 == 0, r.1)

epoll_new : (ok : Bool) (fd : ℕ) (xs : List ℕ) → epoll_add ok fd xs ≡ true → has fd xs ≡ false
epoll_new ok fd xs e = grind (arith, e)

added_keeps :
    (a : Answers) (ref : EventDesc) (m m' : Manager) (on : Bool) (o : Option (ℕ × Manager))
    → ref.has_clean ≡ true
    → IsTable m
    → IsClean m
    → IsAdded a ref m o
    → answer o ≡ some (on, m')
    → IsTable m' × IsClean m'
added_keeps a ref m m' on none h t c i e = absurd i
added_keeps a ref m m' on (some (ret, m1)) h t (c, l) i e =
    let same : m1 ≡ m' = ap (λ q. q.1) (some-injective (ret == 0, m1) (on, m') e) in
    elim i [
      | inl (ev, d, _, _, _, new, _, eq) ↦ rw⁻¹ same (
          rw eq (
            with_event-IsTable ref ev d m t (epoll_new a.ctl_ok ref.fd m.watched new),
            ((h, c), l),
          ))
      | inr (_, eq, _) ↦ rw⁻¹ same (rw eq (t, (c, l)))
    ]

-- One event of `f2`, in a table in order.
f2-keeps :
    (popen : Option (ℕ × ℕ)) (a : Answers) (m m' : Manager) (on : Bool)
    → IsTable m
    → IsClean m
    → f2 popen a m ≡ some (on, m')
    → IsTable m' × IsClean m'
unfolding f2
f2-keeps none a m m' on t c h = absurd (grind (arith, h))
f2-keeps (some (fp, fileno)) a m m' on t c h =
    added_keeps a (f2iol fp fileno) m m' on (add_event a (f2iol fp fileno) m) refl t c
      (add_event-IsAdded a (f2iol fp fileno) m (known fileno m t)) h

f2_if-keeps :
    (go : Bool) (p : Popen) (m m' : Manager) (on : Bool)
    → IsTable m
    → IsClean m
    → f2_if go p m ≡ some (on, m')
    → IsTable m' × IsClean m'
unfolding f2_if
f2_if-keeps true (popen, a) m m' on t c h = f2-keeps popen a m m' on t c h
f2_if-keeps false p m m' on t c h =
    rw⁻¹ (ap (λ q. q.1) (some-injective (false, m) (on, m') h)) (t, c)

setup-keeps :
    (p1 p2 p3 : Popen) (m m' : Manager) (on : Bool)
    → IsTable m
    → IsClean m
    → setup p1 p2 p3 m ≡ some (on, m')
    → IsTable m' × IsClean m'
unfolding setup
setup-keeps p1 p2 p3 m m' on t c h = elim (Option-cases (f2_if true p1 m)) [
  | inl e ↦ absurd (grind (arith, h, e))
  | inr ((go1, m1), e1) ↦ elim (Option-cases (f2_if go1 p2 m1)) [
    | inl e ↦ absurd (grind (arith, h, e1, e))
    | inr ((go2, m2), e2) ↦
        let (t1, c1) = f2_if-keeps true p1 m m1 go1 t c e1 in
        let (t2, c2) = f2_if-keeps go1 p2 m1 m2 go2 t1 c1 e2 in
        f2_if-keeps go2 p3 m2 m' on t2 c2 (rw (e1, e2) at h)
  ]
]

init_lib-keeps : (epfd : ℕ) → IsTable (init_lib epfd) × IsClean (init_lib epfd)
unfolding init_lib
init_lib-keeps epfd =
    (record { watched = refl; distinct = tt; blocks = λ b. omega arith }, (tt, refl))

on_event-IsGentle : (pipes : Pipes) → IsGentle (on_event pipes)
unfolding on_event
on_event-IsGentle pipes d m = tt

main_loop-keeps :
    (pipes : Pipes) (m m' : Manager) (n : ℕ) (v : ℕ × ℕ) (vec : List (ℕ × ℕ))
    → IsTable m
    → IsClean m
    → IsReady m (v ∷ vec)
    → main_loop (on_event pipes) (v ∷ vec) m ≡ some (n, m')
    → IsTable m' × IsClean m'
unfolding main_loop
main_loop-keeps pipes m m' n v vec t c ready h =
    let (m1, e1, t1) = main_loop-Table (on_event pipes) (on_event-IsGentle pipes) v vec m t ready in
    let same : m1 ≡ m' =
      ap (λ q. q.1) (some-injective (length (v ∷ vec), m1) (n, m') (sym e1 ∙ h)) in
    (rw⁻¹ same t1, dispatch-IsClean pipes (v ∷ vec) 0 n m m' c h)

Reach-keeps : (pipes : Pipes) (m : Manager) → Reach pipes m → IsTable m × IsClean m
unfolding f3
Reach-keeps _ m (started pipes epfd p1 p2 p3 _ e) =
    let (t, c) = init_lib-keeps epfd in setup-keeps p1 p2 p3 (init_lib epfd) m true t c e
Reach-keeps _ m' (round pipes m _ n v vec r ready e) =
    let (t, c) = Reach-keeps pipes m r in main_loop-keeps pipes m m' n v vec t c ready e
Reach-keeps _ m' (reload pipes m _ fp fileno pipe a r e) =
    let (t, c) = Reach-keeps pipes m r in f2-keeps (some (fp, fileno)) a m m' true t c e

-- In each state that the program's loop reaches, whatever the pipes answer to each `read`, round after round, and
-- whenever the second thread adds its event between two rounds, the table is in order, no block of a description is
-- left behind, and the next round, for descriptions of the tree, each once, looks into no freed block, returns the
-- number of the events and reaches such a state again.
pub Reach-IsTable :
    (pipes : Pipes) (m : Manager)
    → Reach pipes m
    → IsTable m
      × IsClean m
      × ((v : ℕ × ℕ) (vec : List (ℕ × ℕ))
          → IsReady m (v ∷ vec)
          → (m' : Manager) × (main_loop (on_event pipes) (v ∷ vec) m ≡ some (length (v ∷ vec), m'))
            × Reach (read_round (v ∷ vec) m pipes) m')
Reach-IsTable pipes m r =
    let (t, c) = Reach-keeps pipes m r in
    (
      t,
      c,
      λ v vec ready.
          let (m', e, _) =
            main_loop-Table (on_event pipes) (on_event-IsGentle pipes) v vec m t ready in
          (m', e, round pipes m m' (length (v ∷ vec)) v vec r ready e),
    )
