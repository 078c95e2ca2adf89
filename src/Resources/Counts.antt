-- ===== src/Resources/Counts.antt =====
-- How often a block is held: the blocks as a bag.
use divers.Base.{
  ℕ, ◌+◌, ◌<◌, ◌≡◌, refl, sym, ap, arith, subst, true, some, [], ◌∷◌, inl, inr, Bool-cases,
  if◌then◌else◌, ==_iff,
}
use divers.Resources.{
  Resource, Held, same, release, descriptor, mapping, stream, handle, region, class', cdev, device,
  block,
}

-- 1 for the block itself, 0 for another resource.
abbrev pub one_of : ℕ → Resource → ℕ
one_of b r = if same (block b) r then 1 else 0

abbrev pub count : ℕ → Held → ℕ
count b [] = 0
count b (r ∷ rs) = one_of b r + count b rs

same_eq : (b : ℕ) (r : Resource) → same (block b) r ≡ true → r ≡ block b
same_eq b (descriptor a) e = cc
same_eq b (mapping a n) e = cc
same_eq b (stream a) e = cc
same_eq b (handle a) e = cc
same_eq b (region a) e = cc
same_eq b (class' a) e = cc
same_eq b (cdev a) e = cc
same_eq b (device a) e = cc
same_eq b (block a) e = ap block (sym ((==_iff b a).0 e))

-- A block that is held can be released, and is then held once less.
pub release-count :
    (b : ℕ) (h : Held)
    → 0 < count b h
    → (h' : Held) × (release (block b) h ≡ some h')
      × ((c : ℕ) → count c h ≡ one_of c (block b) + count c h')
unfolding release
release-count b [] lt = absurd (omega arith)
release-count b (r ∷ rs) lt = elim (Bool-cases (same (block b) r)) [
  | inl t ↦ rw t (rs, refl, λ c. rw (same_eq b r t) refl)
  | inr f ↦
      let below : 0 < count b rs =
        omega (arith, subst (λ t. 0 < (if t then 1 else 0) + count b rs) f lt) in
      let (h', e, counts) = release-count b rs below in
      rw (f, e) (r ∷ h', refl, λ c. omega (arith, counts c))
]
