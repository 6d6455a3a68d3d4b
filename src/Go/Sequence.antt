-- ===== src/Go/Sequence.antt =====
-- The sequence of `Go.Act`, shut: for long sequences whose proofs go step by step.
use kubevirt_dpdk_checkup.Base.{◌≡◌, refl, ap}
use kubevirt_dpdk_checkup.Go.Error.{Error}
use kubevirt_dpdk_checkup.Go.Act.{Act, Result, ok, err, panic, continue}

module _ {S A B : Type 0} where
  infixl 10 ◌>>=◌ ◌>>◌
  unfoldable pub ◌>>=◌ : Act S A → (A → Act S B) → Act S B
  ◌>>=◌ m f s = continue (m s).0 f (m s).1

  abbrev pub ◌>>◌ : Act S A → Act S B → Act S B
  m >> n = m >>= λ _. n

module _ {S A B : Type 0} where
  continue-inv :
      (r : Result A) (f : A → Act S B) (s : S) (b : B) (u : S)
      → continue r f s ≡ (ok b, u)
      → (a : A) × (r ≡ ok a) × (f a s ≡ (ok b, u))
  continue-inv (ok a) f s b u h = (a, refl, h)
  continue-inv (err e) f s b u h = absurd (err-ne e (ap (λ (p : Result B × S). p.0) h))
    where
      err-ne : (e : Error) → err e ≡ ok b → ⊥
      err-ne e q = cc
  continue-inv panic f s b u h = absurd (panic-ne (ap (λ (p : Result B × S). p.0) h))
    where
      panic-ne : panic ≡ ok b → ⊥
      panic-ne q = cc

  -- A sequence that succeeds is a step that succeeds with a sequence that succeeds behind it.
  pub then-inv :
      {P : Type 0} (m : Act S A) (f : A → Act S B) (s : S) (b : B) (u : S)
      → (m >>= f) s ≡ (ok b, u)
      → ((a : A) (t : S) → m s ≡ (ok a, t) → f a t ≡ (ok b, u) → P)
      → P
  unfolding ◌>>=◌
  then-inv m f s b u h k =
      let (a, e, rest) = continue-inv (m s).0 f (m s).1 b u h in
      k a (m s).1 (λ i. (e i, (m s).1)) rest

  pub then-step :
      (m : Act S A) (f : A → Act S B) (s : S) (p : Result B × S) {a : A} {t : S}
      → m s ≡ (ok a, t)
      → f a t ≡ p
      → (m >>= f) s ≡ p
  unfolding ◌>>=◌
  then-step m f s p e k = rw e k
