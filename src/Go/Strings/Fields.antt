-- ===== src/Go/Strings/Fields.antt =====
-- `strings.Fields` on words and gaps, and `strings.Contains` of a text without a byte.
use kubevirt_dpdk_checkup.Base.{
  ℕ, ◌≡◌, refl, sym, ap, ◌∙◌, Bool, true, false, List, [], ◌∷◌, ◌++◌, append_assoc, append-nil,
  Bytes, ◌==◌, All, if◌then◌else◌, Bool-cases, inl, inr,
}
use kubevirt_dpdk_checkup.Go.Strings.{is_space, fields_from, fields, contains, has_prefix}

abbrev pub IsWord : Bytes → Type 0
IsWord w = All (λ c. is_space c ≡ false) w

abbrev pub IsGap : Bytes → Type 0
IsGap g = All (λ c. is_space c ≡ true) g

fields_from-word : (f w s : Bytes) → IsWord w → fields_from f (w ++ s) ≡ fields_from (f ++ w) s
unfolding fields_from
fields_from-word f [] s h = ap (λ x. fields_from x s) (sym (append-nil f))
fields_from-word f (c ∷ w) s h =
    rw h.0 (
      fields_from-word (f ++ c ∷ []) w s h.1
      ∙ ap (λ x. fields_from x s) (append_assoc f (c ∷ []) w))

fields_from-gap : (g s : Bytes) → IsGap g → fields_from [] (g ++ s) ≡ fields_from [] s
unfolding fields_from
fields_from-gap [] s h = refl
fields_from-gap (c ∷ g) s h = rw h.0 (fields_from-gap g s h.1)

-- White space in front does not count.
pub fields-gap : (g s : Bytes) → IsGap g → fields (g ++ s) ≡ fields s
unfolding fields
fields-gap g s h = fields_from-gap g s h

-- A word with a gap behind it is the first field.
pub fields-word :
    (c : ℕ) (w : Bytes) (g : ℕ) (gs s : Bytes)
    → IsWord (c ∷ w)
    → IsGap (g ∷ gs)
    → fields ((c ∷ w) ++ ((g ∷ gs) ++ s)) ≡ (c ∷ w) ∷ fields s
unfolding fields fields_from
fields-word c w g gs s h k =
    fields_from-word [] (c ∷ w) ((g ∷ gs) ++ s) h
    ∙ rw k.0 (ap (◌∷◌ (c ∷ w)) (fields_from-gap gs s k.1))

-- A word at the end is the last field.
pub fields-last : (c : ℕ) (w : Bytes) → IsWord (c ∷ w) → fields (c ∷ w) ≡ (c ∷ w) ∷ []
unfolding fields fields_from
fields-last c w h = ap fields (sym (append-nil (c ∷ w))) ∙ fields_from-word [] (c ∷ w) [] h

-- A text without the first byte of another does not contain it.
pub contains-without :
    (p : ℕ) (ps s : Bytes) → All (λ c. (p == c) ≡ false) s → contains (p ∷ ps) s ≡ false
unfolding contains has_prefix
contains-without p ps [] h = refl
contains-without p ps (c ∷ s) h = rw (h.0, contains-without p ps s h.1)

pub All-append : {A : Type 0} (P : A → Type 0) (a b : List A) → All P a → All P b → All P (a ++ b)
All-append P [] b h k = k
All-append P (c ∷ a) b h k = (h.0, All-append P a b h.1 k)

-- A test, computed on a literal, that no byte meets `p`.
abbrev pub none_meets : (ℕ → Bool) → Bytes → Bool
none_meets p [] = true
none_meets p (c ∷ s) = let rest = none_meets p s in if p c then false else rest

pub All-none_meets : (p : ℕ → Bool) (s : Bytes) → none_meets p s ≡ true → All (λ c. p c ≡ false) s
All-none_meets p [] h = tt
All-none_meets p (c ∷ s) h = elim (Bool-cases (p c)) [
  | inl e ↦ absurd (false_ne_true (rw e at h))
  | inr e ↦ (e, All-none_meets p s (rw e at h))
]
  where
    false_ne_true : false ≡ true → ⊥
    false_ne_true q = cc
