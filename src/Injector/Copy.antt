-- ===== src/Injector/Copy.antt =====
-- got_modifier/process_injector.c: what the two loops copy.
use divers.Base.{
  ℕ, zero, suc, ◌+◌, ◌-◌, ◌*◌, ◌%◌, ◌≤◌, ◌<◌, ◌≡◌, refl, ◌∙◌, ◌⊎◌, inl, inr, ◌↔◌, arith,
}
use native.Mathlib.Decide.{dec_lt}
use divers.Memory.{Mem, load, store, store-load, store-outside, IsBytes, SameOutside}
use divers.Injector.{rounds, peek_loop, poke_loop, read_at, write_at}

pub poke_loop-outside :
    (n : ℕ) (own tracee : Mem) (ptr addr x : ℕ)
    → (x < addr) ⊎ (addr + 4 * n ≤ x)
    → poke_loop n own tracee ptr addr x ≡ tracee x
unfolding poke_loop
poke_loop-outside zero own tracee ptr addr x out = refl
poke_loop-outside (suc n) own tracee ptr addr x out =
    poke_loop-outside n own (store 4 tracee addr (load 4 own ptr)) (ptr + 4) (addr + 4) x
      (omega arith)
    ∙ store-outside 4 tracee addr (load 4 own ptr) x (omega arith)

pub poke_loop-inside :
    (n : ℕ) (own tracee : Mem) (ptr addr k : ℕ)
    → IsBytes own
    → k < 4 * n
    → poke_loop n own tracee ptr addr (addr + k) ≡ own (ptr + k)
unfolding poke_loop
poke_loop-inside zero own tracee ptr addr k b lt = absurd (omega arith)
poke_loop-inside (suc n) own tracee ptr addr k b lt = elim (dec_lt k 4) [
  | yes h ↦
      poke_loop-outside n own (store 4 tracee addr (load 4 own ptr)) (ptr + 4) (addr + 4) (addr + k)
        (omega arith)
      ∙ store-load 4 tracee own addr ptr k b h
  | no h ↦
      let from : addr + k ≡ addr + 4 + (k - 4) = omega arith in
      let to : ptr + k ≡ ptr + 4 + (k - 4) = omega arith in
      rw (from, to)
        (poke_loop-inside n own (store 4 tracee addr (load 4 own ptr)) (ptr + 4) (addr + 4) (k - 4)
          b (omega arith))
]

-- The loop that reads is the loop that writes, the other way.
pub peek_loop-poke :
    (n : ℕ) (own tracee : Mem) (ptr addr : ℕ)
    → peek_loop n own tracee ptr addr ≡ poke_loop n tracee own addr ptr
unfolding peek_loop poke_loop
peek_loop-poke zero own tracee ptr addr = refl
peek_loop-poke (suc n) own tracee ptr addr =
    peek_loop-poke n (store 4 own ptr (load 4 tracee addr)) tracee (ptr + 4) (addr + 4)

-- How many bytes the loops go over, for a length `l`.
pub rounds_bounds : (l : ℕ) → (l ≤ 4 * rounds l) × (4 * rounds l < l + 4)
rounds_bounds l = omega arith

-- `process_injector_read_at` fills the buffer with the process's bytes up to the next multiple of four, and
-- touches nothing else; this stays within the `l + 1` bytes that `process_injector_load_dso` reserves
-- exactly when `l` leaves the remainder 0 or 3.
pub read_at_copies :
    (own tracee : Mem) (buff l base_addr : ℕ)
    → IsBytes tracee
    → ((k : ℕ)
        → k < 4 * rounds l
        → read_at own tracee buff l base_addr (buff + k) ≡ tracee (base_addr + k))
      × SameOutside buff (4 * rounds l) own (read_at own tracee buff l base_addr)
      × ((4 * rounds l ≤ l + 1) ↔ ((l % 4 ≡ 0) ⊎ (l % 4 ≡ 3)))
unfolding read_at
read_at_copies own tracee buff l base_addr b =
    rw (peek_loop-poke (rounds l) own tracee buff base_addr) (
      λ k lt. poke_loop-inside (rounds l) tracee own base_addr buff k b lt,
      λ x out. poke_loop-outside (rounds l) tracee own base_addr buff x out,
      ground arith,
    )

-- What `process_injector_write_at` does to the process.
pub write_at_copies :
    (own tracee : Mem) (buffer l base_addr : ℕ)
    → IsBytes own
    → ((k : ℕ)
        → k < 4 * rounds l
        → write_at own tracee buffer l base_addr (base_addr + k) ≡ own (buffer + k))
      × SameOutside base_addr (4 * rounds l) tracee (write_at own tracee buffer l base_addr)
unfolding write_at
write_at_copies own tracee buffer l base_addr b = (
  λ k lt. poke_loop-inside (rounds l) own tracee buffer base_addr k b lt,
  λ x out. poke_loop-outside (rounds l) own tracee buffer base_addr x out,
)

pub read_at-IsBytes :
    (own tracee : Mem) (buff l base_addr : ℕ)
    → IsBytes own
    → IsBytes tracee
    → IsBytes (read_at own tracee buff l base_addr)
read_at-IsBytes own tracee buff l base_addr b bt x =
    let (filled, same, fits) = read_at_copies own tracee buff l base_addr bt in
    let here : buff ≤ x → x ≡ buff + (x - buff) = λ h. omega arith in
    elim (dec_lt x buff) [
      | yes h ↦ rw (same x (inl h)) (b x)
      | no h ↦ elim (dec_lt (x - buff) (4 * rounds l)) [
        | yes h' ↦ rw (here (omega arith), filled (x - buff) h') (bt (base_addr + (x - buff)))
        | no h' ↦ rw (same x (inr (omega arith))) (b x)
      ]
    ]
