-- ===== src/IoLoop/Stop.antt =====
-- ioloop/ioloop.c: `iol_stop_loop` and what reads its flag.
use divers.Base.{
  ℕ, ◌+◌, ◌≡◌, refl, arith, inl, inr, Bool, true, false, Option, none, some, List, [], ◌∷◌,
  Bool-cases, Option-cases, if◌then◌else◌, ◌==◌,
}
use divers.Resources.{◌>>=◌}
use divers.IoLoop.{
  EventDesc, Manager, Answers, add_alloc_data_err, add_epoll_err, add_event, del_event,
  del_internal_event, stop_loop,
}
use divers.IoLoop.Rounds.{
  Op, add, del, stop, perform, perform_all, Callback, data_at, with_rev, received, call, handle,
  dispatch, main_loop,
}

-- The same result, with the flag set.
abbrev pub stopped : Option (ℕ × Manager) → Option (ℕ × Manager)
stopped o = o >>= λ r. some (r.0, stop_loop r.1)

abbrev pub stopped_one : Option Manager → Option Manager
stopped_one o = o >>= λ m. some (stop_loop m)

add_event-stop :
    (a : Answers) (ref : EventDesc) (m : Manager)
    → add_event a ref (stop_loop m) ≡ stopped (add_event a ref m)
unfolding add_event add_alloc_data_err add_epoll_err
add_event-stop a ref m = ground arith

del_event-stop : (fd : ℕ) (m : Manager) → del_event fd (stop_loop m) ≡ stopped (del_event fd m)
unfolding del_event del_internal_event
del_event-stop fd m = ground arith

perform-stop : (op : Op) (m : Manager) → perform op (stop_loop m) ≡ stopped_one (perform op m)
unfolding perform
perform-stop (add a ref) m = ground (arith, add_event-stop a ref m)
perform-stop (del fd) m = ground (arith, del_event-stop fd m)
perform-stop stop m = refl

then_stop :
    (o : Option Manager) (f : Manager → Option Manager)
    → ((m : Manager) → f (stop_loop m) ≡ stopped_one (f m))
    → (stopped_one o >>= f) ≡ stopped_one (o >>= f)
then_stop none f h = refl
then_stop (some m) f h = h m

perform_all-stop :
    (ops : List Op) (m : Manager) → perform_all ops (stop_loop m) ≡ stopped_one (perform_all ops m)
unfolding perform_all
perform_all-stop [] m = refl
perform_all-stop (op ∷ ops) m =
    rw (perform-stop op m) (then_stop (perform op m) (perform_all ops) (perform_all-stop ops))

module _ (iol_func : Callback)
    (blind : (d : EventDesc) (m : Manager) → iol_func d (stop_loop m) ≡ iol_func d m) where
  -- What stands behind the callback.
  abbrev behind : (positive : Bool) (p : ℕ) (m2 : Manager) → Option Manager
  behind positive p m2 =
      if positive
      then some m2
      else (data_at p m2 >>= λ curr. del_event curr.desc.fd m2 >>= λ r. some (r.1))

  behind_stop :
      (positive : Bool) (p : ℕ) (m : Manager)
      → behind positive p (stop_loop m) ≡ stopped_one (behind positive p m)
  unfolding data_at
  behind_stop true p m = refl
  behind_stop false p m = elim (Option-cases (data_at p m)) [
    | inl e ↦ rw (e, data_at) refl
    | inr (curr, e) ↦ rw (e, data_at) (ground (arith, del_event-stop curr.desc.fd m))
  ]

  call-stop :
      (p : ℕ) (d : EventDesc) (m : Manager)
      → call iol_func p d (stop_loop m) ≡ stopped_one (call iol_func p d m)
  unfolding call
  call-stop p d m =
      rw (blind d m, perform_all-stop (iol_func d m).0 m)
        (then_stop (perform_all (iol_func d m).0 m) (behind (iol_func d m).1 p)
          (behind_stop (iol_func d m).1 p))

  data_at-stop : (p : ℕ) (m : Manager) → data_at p (stop_loop m) ≡ data_at p m
  unfolding data_at
  data_at-stop p m = refl

  handle-stop :
      (p events : ℕ) (m : Manager)
      → handle iol_func p events (stop_loop m) ≡ stopped_one (handle iol_func p events m)
  unfolding handle received
  handle-stop p events m = elim (Bool-cases (p == 0)) [
    | inl z ↦ rw (z, handle) refl
    | inr nz ↦ elim (Option-cases (data_at p m)) [
      | inl e ↦ rw (nz, data_at-stop p m, e) refl
      | inr (e, at) ↦ elim (Bool-cases e.desc.has_func) [
        | inr n ↦ simp (nz, data_at-stop p m, at, n) refl
        | inl h ↦
            simp (nz, data_at-stop p m, at, h)
              (call-stop p (with_rev events e.desc) (received p events m))
      ]
    ]
  ]

  dispatch-stop :
      (vec : List (ℕ × ℕ)) (i : ℕ) (m : Manager)
      → dispatch iol_func vec i (stop_loop m) ≡ stopped (dispatch iol_func vec i m)
  unfolding dispatch
  dispatch-stop [] i m = refl
  dispatch-stop ((p, events) ∷ vec) i m = elim (Option-cases (handle iol_func p events m)) [
    | inl e ↦ rw (handle-stop p events m, e) refl
    | inr (m', e) ↦ rw (handle-stop p events m, e) (dispatch-stop vec (i + 1) m')
  ]

  -- The loop does the same whether `iol_stop_loop` was called or not: it calls the same callbacks on the same
  -- events and returns the same, and only the flag differs behind it. The callbacks cannot see the flag.
  pub main_loop-stop :
      (vec : List (ℕ × ℕ)) (m : Manager)
      → main_loop iol_func vec (stop_loop m) ≡ stopped (main_loop iol_func vec m)
  unfolding main_loop
  main_loop-stop [] m = refl
  main_loop-stop (v ∷ vec) m = dispatch-stop (v ∷ vec) 0 m
