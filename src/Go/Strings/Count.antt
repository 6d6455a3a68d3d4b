-- ===== src/Go/Strings/Count.antt =====
-- How often a byte occurs in a text, which bounds what `strings.Contains` can find.
use kubevirt_dpdk_checkup.Base.{
  ℕ, suc, ◌+◌, ◌≤◌, ◌<◌, ◌≡◌, refl, Bool, true, false, ◌&&◌, [], ◌∷◌, ◌++◌, Bytes, All, arith, ◌==◌,
  if◌then◌else◌, Bool-cases, inl, inr,
}
use kubevirt_dpdk_checkup.Go.Strings.{has_prefix, contains}

unfoldable pub count : ℕ → Bytes → ℕ
count c [] = 0
count c (d ∷ s) = let rest = count c s in if c == d then suc rest else rest

count-append : (c : ℕ) (a b : Bytes) → count c (a ++ b) ≡ count c a + count c b
unfolding count
count-append c [] b = omega arith
count-append c (d ∷ a) b = elim (Bool-cases (c == d)) [
  | inl e ↦ rw (e, count-append c a b) (omega arith)
  | inr e ↦ rw (e, count-append c a b) refl
]

pub count-append_≤ :
    (c k l : ℕ) (a b : Bytes) → count c a ≤ k → count c b ≤ l → count c (a ++ b) ≤ k + l
count-append_≤ c k l a b h q = omega (arith, count-append c a b)

-- What a byte adds to the counts of two texts.
counted : (c d m n : ℕ) → m ≤ n → (if c == d then suc m else m) ≤ (if c == d then suc n else n)
counted c d m n h = ground arith

same_head : (d x : ℕ) (b : Bool) → d == x && b ≡ true → (d ≡ x) × (b ≡ true)
same_head d x true h = (ground arith, refl)
same_head d x false h = ground arith

count-cons : (c x : ℕ) (s : Bytes) → count c s ≤ count c (x ∷ s)
unfolding count
count-cons c x s = ground arith

count-has_prefix : (c : ℕ) (p s : Bytes) → has_prefix p s ≡ true → count c p ≤ count c s
unfolding count has_prefix
count-has_prefix c [] s h = ground arith
count-has_prefix c (d ∷ p) [] h = ground arith
count-has_prefix c (d ∷ p) (x ∷ s) h =
    let (e, t) = same_head d x (has_prefix p s) h in
    rw (← e) (counted c d (count c p) (count c s) (count-has_prefix c p s t))

count-contains : (c : ℕ) (p s : Bytes) → contains p s ≡ true → count c p ≤ count c s
unfolding contains count
count-contains c p [] h = count-has_prefix c p [] h
count-contains c p (x ∷ s) h = elim (Bool-cases (has_prefix p (x ∷ s))) [
  | inl e ↦ count-has_prefix c p (x ∷ s) e
  | inr e ↦ omega (arith, count-contains c p s (rw e at h), count-cons c x s)
]

-- A text with fewer of some byte than another does not contain it.
pub contains-few : (c : ℕ) (p s : Bytes) → count c s < count c p → contains p s ≡ false
contains-few c p s h = elim (Bool-cases (contains p s)) [
  | inl e ↦ absurd (below (count-contains c p s e) h)
  | inr e ↦ e
]
  where
    below : {m n : ℕ} → m ≤ n → n < m → ⊥
    below q r = omega arith

pub count-without : (c : ℕ) (s : Bytes) → All (λ x. (c == x) ≡ false) s → count c s ≡ 0
unfolding count
count-without c [] h = refl
count-without c (d ∷ s) h = rw (h.0, count-without c s h.1) refl
