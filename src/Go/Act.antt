-- ===== src/Go/Act.antt =====
-- Go code that reads and writes a state `S` and may return an error or panic. What was written
-- before stays written, so the state comes back in each case.
use kubevirt_dpdk_checkup.Base.{◌≡◌, refl, ◌⊎◌, inl, inr}
use kubevirt_dpdk_checkup.Go.Error.{Error}

pub data Result {ℓ} (A : Type ℓ) : Type ℓ where
  ok : A → Result A
  err : Error → Result A
  panic : Result A

abbrev pub Act : Type 0 → Type 0 → Type 0
Act S A = S → Result A × S

module _ {S A : Type 0} where
  abbrev pub pure : A → Act S A
  pure a s = (ok a, s)

  abbrev pub fail : Error → Act S A
  fail e s = (err e, s)

module _ {S A B : Type 0} where
  -- `if err != nil { return err }` behind a call, and a panic that nothing recovers.
  abbrev pub continue : Result A → (A → Act S B) → Act S B
  continue (ok a) f s = f a s
  continue (err e) f s = (err e, s)
  continue panic f s = (panic, s)

  infixl 10 ◌>>=◌ ◌>>◌
  abbrev pub ◌>>=◌ : Act S A → (A → Act S B) → Act S B
  ◌>>=◌ m f s = continue (m s).0 f (m s).1

  abbrev pub ◌>>◌ : Act S A → Act S B → Act S B
  m >> n = m >>= λ _. n

-- The same for a call that writes no state.
abbrev pub and_then : {A B : Type 0} → Result A → (A → Result B) → Result B
and_then (ok a) f = f a
and_then (err e) f = err e
and_then panic f = panic

-- `if err != nil { return fmt.Errorf(…, err) }`.
abbrev pub map_err {ℓ} : {A : Type ℓ} → (Error → Error) → Result A → Result A
map_err f (ok a) = ok a
map_err f (err e) = err (f e)
map_err f panic = panic

abbrev pub on_err : {S A : Type 0} → (Error → Error) → Act S A → Act S A
on_err f m s = (map_err f (m s).0, (m s).1)

pub Result-cases :
    {A : Type 0} (r : Result A) → ((a : A) × (r ≡ ok a)) ⊎ ((e : Error) × (r ≡ err e)) ⊎ (r ≡ panic)
Result-cases (ok a) = inl (a, refl)
Result-cases (err e) = inr (inl (e, refl))
Result-cases panic = inr (inr refl)

pub and_then-inv :
    {A B : Type 0} (r : Result A) (f : A → Result B) (b : B)
    → and_then r f ≡ ok b
    → (a : A) × (r ≡ ok a) × (f a ≡ ok b)
and_then-inv (ok a) f b h = (a, refl, h)
and_then-inv (err e) f b h = cc
and_then-inv panic f b h = cc
