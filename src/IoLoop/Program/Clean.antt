-- ===== src/IoLoop/Program/Clean.antt =====
-- ioloop/test.c: a round of the loop leaves no block of a description behind.
use divers.Base.{
  ℕ, ◌+◌, ◌≡◌, refl, sym, ap, ◌∙◌, arith, inl, inr, Bool, true, false, Option, some, List, [], ◌∷◌,
  All, Bool-cases, Option-cases, ◌==◌, if◌then◌else◌,
}
use mathlib.Core.Option.{some-injective}
use divers.Resources.{◌>>=◌}
use divers.IoLoop.{EventDesc, Event, Manager, tdelete, tfind, del_event, del_internal_event}
use divers.IoLoop.Rounds.{data_at, set_rev, with_rev, received, perform_all, call, handle, dispatch}
use divers.IoLoop.OwnDeletion.{del_internal_event-lost}
use divers.IoLoop.Program.{Pipes, on_event}

-- Every event has a cleaning function, and no block of a description is left behind.
abbrev pub AreClean : List Event → Type 0
AreClean es = All (λ e. e.desc.has_clean ≡ true) es

abbrev pub IsClean : Manager → Type 0
IsClean m = AreClean m.root × (m.lost ≡ [])

set_rev-AreClean : (p events : ℕ) (es : List Event) → AreClean es → AreClean (set_rev p events es)
unfolding set_rev with_rev
set_rev-AreClean p events [] c = tt
set_rev-AreClean p events (e ∷ es) (h, c) = elim (Bool-cases (e.data_ptr == p)) [
  | inl t ↦ rw t (h, c)
  | inr f ↦ rw f (h, set_rev-AreClean p events es c)
]

received-IsClean : (p events : ℕ) (m : Manager) → IsClean m → IsClean (received p events m)
unfolding received set_rev
received-IsClean p events m (c, l) = (set_rev-AreClean p events m.root c, rw l refl)

tdelete-AreClean : (fd : ℕ) (es : List Event) → AreClean es → AreClean (tdelete fd es)
tdelete-AreClean fd [] c = tt
tdelete-AreClean fd (e ∷ es) (h, c) = elim (Bool-cases (e.desc.fd == fd)) [
  | inl t ↦ rw t c
  | inr f ↦ rw f (h, tdelete-AreClean fd es c)
]

tfind-clean :
    (fd : ℕ) (es : List Event) (e : Event)
    → AreClean es
    → tfind fd es ≡ some e
    → e.desc.has_clean ≡ true
tfind-clean fd [] e c h = cc
tfind-clean fd (x ∷ es) e (h, c) f = elim (Bool-cases (x.desc.fd == fd)) [
  | inl t ↦ ap (λ y. y.desc.has_clean) (sym (some-injective x e (rw t at f))) ∙ h
  | inr n ↦ tfind-clean fd es e c (rw n at f)
]

del_internal_event-root :
    (fd : ℕ) (e : Event) (m m' : Manager)
    → (del_internal_event fd e m >>= λ r. some (r.1)) ≡ some m'
    → m'.root ≡ tdelete e.desc.fd m.root
unfolding del_internal_event
del_internal_event-root fd e m m' h = grind (arith, h)

del_event-IsClean :
    (fd : ℕ) (m m' : Manager)
    → IsClean m
    → (del_event fd m >>= λ r. some (r.1)) ≡ some m'
    → IsClean m'
unfolding del_event
del_event-IsClean fd m m' (c, l) h = elim (Option-cases (tfind fd m.root)) [
  | inl n ↦ rw⁻¹ (some-injective m m' (rw (n, del_event) at h)) (c, l)
  | inr (e, f) ↦
      let h' = rw (f, del_event) at h in
      let clean = tfind-clean fd m.root e c f in
      (
        rw (del_internal_event-root fd e m m' h') (tdelete-AreClean e.desc.fd m.root c),
        del_internal_event-lost fd e m m' h' ∙ rw clean l,
      )
]

module _ (pipes : Pipes) where
  -- What `iol_main_loop` does behind `f2cbk`.
  abbrev behind : (positive : Bool) (p : ℕ) (m : Manager) → Option Manager
  behind positive p m =
      if positive
      then some m
      else (data_at p m >>= λ curr. del_event curr.desc.fd m >>= λ r. some (r.1))

  behind-IsClean :
      (positive : Bool) (p : ℕ) (m m' : Manager)
      → IsClean m
      → behind positive p m ≡ some m'
      → IsClean m'
  behind-IsClean true p m m' c h = rw⁻¹ (some-injective m m' h) c
  behind-IsClean false p m m' c h = elim (Option-cases (data_at p m)) [
    | inl e ↦ absurd (grind (arith, h, e))
    | inr (curr, e) ↦ del_event-IsClean curr.desc.fd m m' c (rw e at h)
  ]

  call-IsClean :
      (p : ℕ) (d : EventDesc) (m m' : Manager)
      → IsClean m
      → call (on_event pipes) p d m ≡ some m'
      → IsClean m'
  unfolding call perform_all on_event
  call-IsClean p d m m' c h = behind-IsClean (on_event pipes d m).1 p m m' c h

  handle-IsClean :
      (p events : ℕ) (m m' : Manager)
      → IsClean m
      → handle (on_event pipes) p events m ≡ some m'
      → IsClean m'
  unfolding handle
  handle-IsClean p events m m' c h = elim (Bool-cases (p == 0)) [
    | inl z ↦ rw⁻¹ (some-injective m m' (rw (z, handle) at h)) c
    | inr nz ↦ elim (Option-cases (data_at p m)) [
      | inl e ↦ absurd (grind (arith, h, e, nz))
      | inr (e, at) ↦ elim (Bool-cases e.desc.has_func) [
        | inr n ↦ rw⁻¹ (some-injective m m' (simp (nz, at, n) at h)) c
        | inl f ↦
            call-IsClean p (with_rev events e.desc) (received p events m) m'
              (received-IsClean p events m c) (simp (nz, at, f) at h)
      ]
    ]
  ]

  pub dispatch-IsClean :
      (vec : List (ℕ × ℕ)) (i n : ℕ) (m m' : Manager)
      → IsClean m
      → dispatch (on_event pipes) vec i m ≡ some (n, m')
      → IsClean m'
  unfolding dispatch
  dispatch-IsClean [] i n m m' c h = rw⁻¹ (ap (λ q. q.1) (some-injective (i, m) (n, m') h)) c
  dispatch-IsClean ((p, events) ∷ vec) i n m m' c h =
      elim (Option-cases (handle (on_event pipes) p events m)) [
        | inl e ↦ absurd (grind (arith, h, e))
        | inr (m1, e) ↦
            dispatch-IsClean vec (i + 1) n m1 m' (handle-IsClean p events m m1 c e) (rw e at h)
      ]
