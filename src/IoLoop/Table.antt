-- ===== src/IoLoop/Table.antt =====
-- ioloop/ioloop.c: the table, the watches and the blocks go together.
use divers.Base.{
  ℕ, ◌+◌, ◌≡◌, refl, arith, inl, inr, ◌⊎◌, true, false, none, some, List, [], ◌∷◌, has, Distinct,
  Bool-cases, ◌==◌,
}
use divers.Resources.{block}
use divers.Resources.Counts.{one_of, count}
use divers.IoLoop.{Event, Manager, tfind, tdelete, unwatch}

abbrev pub fds : List Event → List ℕ
fds [] = []
fds (e ∷ es) = e.desc.fd ∷ fds es

-- How often a block belongs to the entries: the data's blocks, and in the tree the entry's too.
abbrev pub count_data : ℕ → List Event → ℕ
count_data b [] = 0
count_data b (e ∷ es) = one_of b (block e.data_ptr) + count_data b es

abbrev pub count_both : ℕ → List Event → ℕ
count_both b [] = 0
count_both b (e ∷ es) = one_of b (block e.data_ptr) + one_of b (block e.ptr) + count_both b es

-- The descriptors of the table are distinct and are those that epoll watches, and the blocks are those of
-- the entries and those that are lost.
pub record IsTable (m : Manager) : Type 0 where
  pub watched : m.watched ≡ fds m.root
  pub distinct : Distinct (fds m.root)
  pub blocks : (b : ℕ) → count b m.blocks ≡ count_both b m.root + count_data b m.lost

pub tfind-has : (fd : ℕ) (es : List Event) → (tfind fd es ≡ none) ⊎ (has fd (fds es) ≡ true)
tfind-has fd [] = inl refl
tfind-has fd (e ∷ es) = elim (tfind-has fd es) [ inl h ↦ ground arith | inr h ↦ ground arith ]

pub tfind_fd : (fd : ℕ) (es : List Event) (e : Event) → tfind fd es ≡ some e → e.desc.fd ≡ fd
tfind_fd fd [] e h = cc
tfind_fd fd (x ∷ es) e h = elim (Bool-cases (x.desc.fd == fd)) [
  | inl t ↦ ground (arith, tfind_fd fd es e)
  | inr f ↦ tfind_fd fd es e (ground arith)
]

pub tdelete_missing : (fd : ℕ) (es : List Event) → tfind fd es ≡ none → tdelete fd es ≡ es
tdelete_missing fd [] h = refl
tdelete_missing fd (e ∷ es) h = ground (arith, tdelete_missing fd es)

pub fds-tdelete : (fd : ℕ) (es : List Event) → fds (tdelete fd es) ≡ unwatch fd (fds es)
fds-tdelete fd [] = refl
fds-tdelete fd (e ∷ es) = ground (arith, fds-tdelete fd es)

pub has-unwatch : (x fd : ℕ) (xs : List ℕ) → has x xs ≡ false → has x (unwatch fd xs) ≡ false
has-unwatch x fd [] h = refl
has-unwatch x fd (y ∷ ys) h = ground (arith, has-unwatch x fd ys)

pub unwatch-Distinct : (fd : ℕ) (xs : List ℕ) → Distinct xs → Distinct (unwatch fd xs)
unwatch-Distinct fd [] d = tt
unwatch-Distinct fd (x ∷ xs) (n, d) = elim (Bool-cases (fd == x)) [
  | inl t ↦ rw t d
  | inr f ↦ rw f (has-unwatch x fd xs n, unwatch-Distinct fd xs d)
]

pub count_both-tdelete :
    (b fd : ℕ) (es : List Event) (e : Event)
    → tfind fd es ≡ some e
    → count_both b es
      ≡ one_of b (block e.data_ptr) + one_of b (block e.ptr) + count_both b (tdelete fd es)
count_both-tdelete b fd [] e h = cc
count_both-tdelete b fd (x ∷ es) e h = elim (Bool-cases (x.desc.fd == fd)) [
  | inl t ↦ ground (arith, t)
  | inr f ↦ ground (arith, count_both-tdelete b fd es e)
]
