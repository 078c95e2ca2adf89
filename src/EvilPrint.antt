-- ===== src/EvilPrint.antt =====
-- got_modifier/libtest.c: the function that the injected library puts in the place of another. What the kernel's
-- `write` does is a parameter: how many bytes it takes, or none for an error.
use divers.Base.{
  ℕ, zero, suc, ◌≡◌, refl, false, Option, none, some, List, [], ◌∷◌, take, has, arith,
}

-- What of the bytes is written.
abbrev written : Option ℕ → List ℕ → List ℕ
written none bytes = []
written (some n) bytes = take n bytes

-- `_write`: what it returns, -1 as `none`, and what is written.
unfoldable pub write' :
    (sys_write : List ℕ → ℕ → Option ℕ) → (buf : List ℕ) (count : ℕ) → Option ℕ × List ℕ
write' sys_write buf count = let ret = sys_write buf count in (ret, written ret (take count buf))

-- The bytes of `msg` that are set: "fred le beau gosse", the end of the line and 0.
abbrev pub msg : List ℕ
msg =
    102 ∷ 114 ∷ 101 ∷ 100 ∷ 32 ∷ 108 ∷ 101 ∷ 32 ∷ 98 ∷ 101 ∷ 97 ∷ 117 ∷ 32 ∷ 103 ∷ 111 ∷ 115 ∷ 115
    ∷ 101 ∷ 10 ∷ 0 ∷ []

-- `evilprint`, by what it writes; its argument is not used.
unfoldable pub evilprint : (sys_write : List ℕ → ℕ → Option ℕ) → (buf : ℕ) → List ℕ
unfolding write'
evilprint sys_write buf = (write' sys_write msg 18).1

has-take : (a n : ℕ) (xs : List ℕ) → has a xs ≡ false → has a (take n xs) ≡ false
has-take a zero xs h = refl
has-take a (suc n) [] h = refl
has-take a (suc n) (x ∷ xs) h = ground (arith, has-take a n xs)

has-written :
    (a : ℕ) (ret : Option ℕ) (bytes : List ℕ)
    → has a bytes ≡ false
    → has a (written ret bytes) ≡ false
has-written a none bytes h = refl
has-written a (some n) bytes h = has-take a n bytes h

-- Whatever the kernel takes, the end of the line in `msg` is not written.
pub evilprint-unended :
    (sys_write : List ℕ → ℕ → Option ℕ) (buf : ℕ) → has 10 (evilprint sys_write buf) ≡ false
unfolding evilprint
evilprint-unended sys_write buf = has-written 10 (sys_write msg 18) (take 18 msg) refl
