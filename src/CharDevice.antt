-- ===== src/CharDevice.antt =====
-- modrefcnt/modtest.c: a driver registers a character device and gives back what it has when a step
-- fails. The kernel's answers are parameters; a return value -e is written as e.
mod Samples
use divers.Base.{
  ℕ, ◌+◌, ◌-◌, ◌≡◌, refl, ap, ◌∙◌, ◌≢◌, ◌⊎◌, inl, inr, Bool, true, false, Bool-cases, Option-cases,
  ◌==◌, ◌||◌, ◌&&◌, not, if◌then◌else◌, Option, none, some, List, [], ◌∷◌, ==→ne, ==_iff, ne→==,
  ◌^◌, arith,
}
use divers.Resources.{
  Held, region, class', cdev, device, release, release-top, release-below, ◌>>=◌,
}

abbrev pub enomem : ℕ
enomem = 12

-- What the kernel answers: `alloc_chrdev_region` and `cdev_add` return a code, the first the number
-- too; `class_create` and `device_create` return a pointer or an error, `none`.
pub record Kernel : Type 0 where
  pub region_ret : ℕ
  pub dnum : ℕ
  pub class_made : Option ℕ
  pub add_ret : ℕ
  pub device_made : Option ℕ

-- `struct lbridgen_driver`; NULL is 0, and `err` is the error pointer of a failed call.
pub record Driver : Type 0 where
  pub lbdnum : ℕ
  pub lbclass : ℕ
  pub lbdevice : ℕ

abbrev pub err : ℕ
err = 2 ^ 64 - enomem

-- The error labels of `resget_create_char_device`, each with those behind it.
unfoldable pub class_create_err : ℕ → Held → Option Held
class_create_err dnum held = release (region dnum) held

unfoldable pub chardev_add_error : (dnum cls : ℕ) → Held → Option Held
unfolding class_create_err
chardev_add_error dnum cls held = release (class' cls) held >>= λ h. class_create_err dnum h

unfoldable pub device_create_err : (dnum cls : ℕ) → Held → Option Held
unfolding chardev_add_error
device_create_err dnum cls held = release (cdev dnum) held >>= λ h. chardev_add_error dnum cls h

-- `resget_create_char_device`.
unfoldable pub create_char_device : Kernel → Driver → Held → Option (ℕ × Driver × Held)
unfolding class_create_err chardev_add_error device_create_err
create_char_device k d held =
    let d1 = record d { lbdnum = k.dnum } in
    if not (k.region_ret == 0) then some (k.region_ret, d, held) else elim (k.class_made) [
      | none ↦ class_create_err k.dnum (region k.dnum ∷ held) >>= λ h.
          some (enomem, record d1 { lbclass = err }, h)
      | some cls ↦
          let d2 = record d1 { lbclass = cls } in
          let held2 = class' cls ∷ region k.dnum ∷ held in
          if not (k.add_ret == 0)
          then (chardev_add_error k.dnum cls held2 >>= λ h. some (k.add_ret, d2, h))
          else elim (k.device_made) [
            | none ↦ device_create_err k.dnum cls (cdev k.dnum ∷ held2) >>= λ h.
                some (0, record d2 { lbdevice = err }, h)
            | some dev ↦ some (0, record d2 { lbdevice = dev }, device k.dnum ∷ cdev k.dnum ∷ held2)
          ]
    ]

-- `resget_init`.
unfoldable pub resget_init : Kernel → Driver → Held → Option (ℕ × Driver × Held)
unfolding create_char_device
resget_init k d held = create_char_device k d held >>= λ r.
    let (ret, d', h) = r in if not (ret == 0) then some (ret, d', h) else some (0, d', h)

-- `resget_exit`.
unfoldable pub resget_exit : Driver → Held → Option Held
resget_exit d held = release (cdev d.lbdnum) held >>= λ h.
    if not (d.lbclass == 0)
    then (release (device d.lbdnum) h >>= λ h'. release (class' d.lbclass) h')
    else some h

-- `lb_open` and `lb_release`, on the module's reference count.
abbrev pub lb_open : ℕ → ℕ
lb_open refs = refs + 1

abbrev pub lb_release : ℕ → ℕ
lb_release refs = refs - 1

-- What `resget_init` promises, by the first of its four steps that fails: what it returns, and that nothing more
-- than before is held; or, when none fails, that all four objects are held and it returns 0.
abbrev pub IsInit : Kernel → Held → Option (ℕ × Driver × Held) → Type 0
IsInit k held none = ⊥
IsInit k held (some (ret, d, h)) =
    ((k.region_ret ≢ 0) × (ret ≡ k.region_ret) × (h ≡ held))
    ⊎ ((k.region_ret ≡ 0) × (k.class_made ≡ none) × (ret ≡ enomem) × (h ≡ held))
    ⊎ ((cls : ℕ) × (k.region_ret ≡ 0)
        × (k.class_made ≡ some cls)
        × (((k.add_ret ≢ 0) × (ret ≡ k.add_ret) × (h ≡ held))
            ⊎ ((k.add_ret ≡ 0) × (k.device_made ≡ none) × (ret ≡ 0) × (h ≡ held))
            ⊎ ((dev : ℕ) × (k.add_ret ≡ 0)
                × (k.device_made ≡ some dev)
                × (ret ≡ 0)
                × (d ≡ record { lbdnum = k.dnum; lbclass = cls; lbdevice = dev })
                × (h ≡ device k.dnum ∷ cdev k.dnum ∷ class' cls ∷ region k.dnum ∷ held))))

module _ (k : Kernel) (d : Driver) (held : Held) where
  unwind_region : class_create_err k.dnum (region k.dnum ∷ held) ≡ some held
  unfolding class_create_err
  unwind_region = release-top (region k.dnum) held

  unwind_class :
      (cls : ℕ) → chardev_add_error k.dnum cls (class' cls ∷ region k.dnum ∷ held) ≡ some held
  unfolding chardev_add_error
  unwind_class cls = rw (release-top (class' cls) (region k.dnum ∷ held)) unwind_region

  unwind_cdev :
      (cls : ℕ)
      → device_create_err k.dnum cls (cdev k.dnum ∷ class' cls ∷ region k.dnum ∷ held) ≡ some held
  unfolding device_create_err
  unwind_cdev cls =
      rw (release-top (cdev k.dnum) (class' cls ∷ region k.dnum ∷ held)) (unwind_class cls)

  -- `resget_init` unregisters only what it registered. It stops at the first of its four steps that fails, holds
  -- nothing more than before then, and returns that step's code, -ENOMEM for the class, but 0 for `device_create`.
  -- When all four are done it returns 0, holds their four objects and has kept them in the driver.
  pub resget_init-IsInit : IsInit k held (resget_init k d held)
  unfolding resget_init create_char_device
  resget_init-IsInit = elim (Bool-cases (k.region_ret == 0)) [
    | inr f ↦ rw (f, f) (inl (==→ne k.region_ret 0 f, refl, refl))
    | inl t ↦
        let zero_ret = (==_iff k.region_ret 0).0 t in
        rw t (elim (Option-cases k.class_made) [
          | inl e ↦ rw (e, unwind_region) (inr (inl (zero_ret, refl, refl, refl)))
          | inr (cls, e) ↦ rw e (elim (Bool-cases (k.add_ret == 0)) [
            | inr f ↦
                rw (f, unwind_class cls, f)
                  (inr (inr (cls, zero_ret, refl, inl (==→ne k.add_ret 0 f, refl, refl))))
            | inl t' ↦
                let zero_add = (==_iff k.add_ret 0).0 t' in
                rw t' (elim (Option-cases k.device_made) [
                  | inl e' ↦
                      rw (e', unwind_cdev cls)
                        (inr (inr (cls, zero_ret, refl, inr (inl (zero_add, refl, refl, refl)))))
                  | inr (dev, e') ↦ rw e' (
                      inr (
                        inr
                          (cls, zero_ret, refl, inr (inr (dev, zero_add, refl, refl, refl, refl)))))
                ])
          ])
        ])
  ]

-- `resget_exit` behind a `resget_init` that held all four objects gives back three of them, in their
-- order: the range of device numbers stays registered.
pub resget_exit-init :
    (dnum cls dev : ℕ) (held : Held)
    → cls ≢ 0
    → resget_exit
        (record { lbdnum = dnum; lbclass = cls; lbdevice = dev })
        (device dnum ∷ cdev dnum ∷ class' cls ∷ region dnum ∷ held)
      ≡ some (region dnum ∷ held)
unfolding resget_exit
resget_exit-init dnum cls dev held h =
    rw
      (
        release-below (cdev dnum) (device dnum) (class' cls ∷ region dnum ∷ held) refl,
        ne→== cls 0 h,
        release-top (device dnum) (class' cls ∷ region dnum ∷ held),
      )
      (release-top (class' cls) (region dnum ∷ held))
