-- ===== src/Netplug.antt =====
-- netplug/net_plug.c: a kernel module that refuses sockets of the Internet while a USB device is not plugged in.
-- `kallsyms_lookup_name`, `register_security` and `usb_find_device`, which takes a reference to the device
-- that it finds, are parameters; -e is written e, and printing is left out.
use divers.Base.{
  ℕ, ◌≡◌, ◌≢◌, refl, ◌⊎◌, inl, inr, Bool, true, false, Option, none, some, ◌∷◌, ◌==◌, if◌then◌else◌,
  Bool-cases, ==_iff, ==→ne,
}
use divers.Resources.{Held, device, release, release-top, ◌>>=◌}

abbrev pub af_inet : ℕ
af_inet = 2

abbrev pub eperm : ℕ
eperm = 1

abbrev pub einval : ℕ
einval = 22

-- The module: the function that finds the device, if its symbol was found, and whether the security framework
-- calls `netfreeze_socket`.
pub record Module : Type 0 where
  pub ufd : Option (ℕ → ℕ → Option ℕ)
  pub registered : Bool

-- The parameters of the module, at their defaults if they are not given.
abbrev pub default_vendor_id : ℕ
default_vendor_id = 1921

abbrev pub default_product_id : ℕ
default_product_id = 21862

-- `netfreeze_socket`; a call through NULL is a fault, `none`.
unfoldable pub netfreeze_socket :
    Module → (vendor_id product_id family : ℕ) → Held → Option (ℕ × Held)
netfreeze_socket md vendor_id product_id family held = md.ufd >>= λ ufd.
    elim (ufd vendor_id product_id) [
      | none ↦ some (if family == af_inet then eperm else 0, held)
      | some dev ↦ release (device dev) (device dev ∷ held) >>= λ h. some (0, h)
    ]

-- `netfreeze_init`: `rs` is what `register_security` returns, if its symbol is found.
unfoldable pub netfreeze_init : (rs : Option ℕ) → (ufd : Option (ℕ → ℕ → Option ℕ)) → ℕ × Module
netfreeze_init none ufd = (1, record { ufd = ufd; registered = false })
netfreeze_init (some err) none = (1, record { ufd = none; registered = false })
netfreeze_init (some err) (some f) =
    if err == 0
    then (0, record { ufd = some f; registered = true })
    else (einval, record { ufd = some f; registered = false })

-- `netfreeze_exit` only prints.
unfoldable pub netfreeze_exit : Module → Module
netfreeze_exit md = md

-- What a registered hook answers for a family: -EPERM for the Internet's without the device, 0 else, with no
-- reference kept.
abbrev pub IsAnswer : (dev : Option ℕ) (family : ℕ) → Held → Option (ℕ × Held) → Type 0
IsAnswer dev family held none = ⊥
IsAnswer dev family held (some (ret, h)) =
    (h ≡ held)
    × (((ret ≡ eperm) × (dev ≡ none) × (family ≡ af_inet))
        ⊎ ((ret ≡ 0) × ((dev ≢ none) ⊎ (family ≢ af_inet))))

answers_by :
    (f : ℕ → ℕ → Option ℕ) (vendor_id product_id family : ℕ) (held : Held) (o : Option ℕ)
    → f vendor_id product_id ≡ o
    → IsAnswer o family held (
        netfreeze_socket
          (record { ufd = some f; registered = true })
          vendor_id
          product_id
          family
          held)
unfolding netfreeze_socket
answers_by f vendor_id product_id family held (some dev) e =
    rw (e, release-top (device dev) held) (refl, inr (refl, inl (λ z. cc)))
answers_by f vendor_id product_id family held none e = elim (Bool-cases (family == af_inet)) [
  | inl t ↦ rw (e, t) (refl, inl (refl, refl, (==_iff family 2).0 t))
  | inr n ↦ rw (e, n) (refl, inr (refl, inr (==→ne family 2 n)))
]

-- When `netfreeze_init` returns 0, and only then, the hook is called; it then never calls through NULL, refuses
-- exactly the Internet's sockets without the device, and keeps no reference. `netfreeze_exit` leaves it called.
pub netfreeze_init-IsAnswer :
    (rs : Option ℕ) (f : ℕ → ℕ → Option ℕ) (vendor_id product_id family : ℕ) (held : Held)
    → let (ret, md) = netfreeze_init rs (some f) in
      ((ret ≡ 0)
        → (md.registered ≡ true)
          × ((netfreeze_exit md).registered ≡ true)
          × IsAnswer
              (f vendor_id product_id)
              family
              held
              (netfreeze_socket md vendor_id product_id family held))
      × ((ret ≢ 0) → md.registered ≡ false)
unfolding netfreeze_init netfreeze_exit
netfreeze_init-IsAnswer none f vendor_id product_id family held = (λ h. cc, λ h. refl)
netfreeze_init-IsAnswer (some err) f vendor_id product_id family held =
    elim (Bool-cases (err == 0)) [
      | inl t ↦ rw t (
        λ h. (refl, refl, answers_by f vendor_id product_id family held _ refl),
        λ h. absurd (h refl),
      )
      | inr n ↦ rw n (λ h. cc, λ h. refl)
    ]
