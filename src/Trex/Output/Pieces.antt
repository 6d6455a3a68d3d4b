-- ===== src/Trex/Output/Pieces.antt =====
-- What a terminal prints, in pieces, and what is left of it by `cleanStdout` of trex/client.go.
use kubevirt_dpdk_checkup.Base.{
  ℕ, suc, ◌+◌, ◌≡◌, refl, ap, ◌∙◌, sym, Bool, true, false, ◌||◌, some, List, [], ◌∷◌, ◌++◌,
  append_assoc, Bytes, All, arith, ◌==◌, length, drop, drop-length, length-append,
}
use kubevirt_dpdk_checkup.Trex.Output.{
  in_range, count_while, control_length, remove_from, clean_stdout,
}

-- A piece: a byte of the text, a carriage return, an escape of two bytes, or a control sequence with
-- its parameters, its intermediate bytes and its last one.
pub data Piece : Type 0 where
  plain : ℕ → Piece
  carriage_return : Piece
  two_bytes : ℕ → Piece
  control : Bytes → Bytes → ℕ → Piece

-- The bytes are those that ECMA-48 gives a piece of the kind.
unfoldable pub IsPiece : Piece → Type 0
IsPiece (plain c) = ((c == 27) ≡ false) × ((c == 13) ≡ false)
IsPiece carriage_return = Unit {0}
IsPiece (two_bytes c) = (in_range 0x40 0x5a c || in_range 0x5c 0x5f c) ≡ true
IsPiece (control params between c) =
    All (λ x. in_range 0x30 0x3f x ≡ true) params
    × All (λ x. in_range 0x20 0x2f x ≡ true) between
    × (in_range 0x40 0x7e c ≡ true)

abbrev pub printed : List Piece → Bytes
printed [] = []
printed (plain c ∷ ps) = c ∷ printed ps
printed (carriage_return ∷ ps) = 13 ∷ printed ps
printed (two_bytes c ∷ ps) = 27 ∷ c ∷ printed ps
printed (control params between c ∷ ps) = 27 ∷ b'[' ∷ (params ++ (between ++ (c ∷ printed ps)))

abbrev pub text_in : List Piece → Bytes
text_in [] = []
text_in (plain c ∷ ps) = c ∷ text_in ps
text_in (carriage_return ∷ ps) = text_in ps
text_in (two_bytes c ∷ ps) = text_in ps
text_in (control params between c ∷ ps) = text_in ps

-- A run of bytes of a class ends before a byte that is not of it.
count_while-run :
    (p : ℕ → Bool) (xs : Bytes) (c : ℕ) (s : Bytes)
    → All (λ x. p x ≡ true) xs
    → p c ≡ false
    → count_while p (xs ++ (c ∷ s)) ≡ length xs
count_while-run p [] c s h e = rw e refl
count_while-run p (x ∷ xs) c s h e = rw (h.0, count_while-run p xs c s h.1 e) refl

params_end :
    (params between : Bytes) (c : ℕ) (s : Bytes)
    → IsPiece (control params between c)
    → count_while (in_range 0x30 0x3f) (params ++ (between ++ (c ∷ s))) ≡ length params
unfolding IsPiece
params_end params [] c s (h, k, e) =
    count_while-run (in_range 0x30 0x3f) params c s h (ground arith)
params_end params (b ∷ between) c s (h, (k, ks), e) =
    count_while-run (in_range 0x30 0x3f) params b (between ++ (c ∷ s)) h (ground arith)

-- The last byte stands behind both runs.
drop-runs :
    (params between : Bytes) (c : ℕ) (s : Bytes)
    → drop (length params + length between) (params ++ (between ++ (c ∷ s))) ≡ c ∷ s
drop-runs params between c s =
    rw (← length-append params between, ← append_assoc params between (c ∷ s))
      (drop-length (params ++ between) (c ∷ s))

control_length-runs :
    (n m : ℕ) (s : Bytes) (c : ℕ) (t : Bytes)
    → count_while (in_range 0x30 0x3f) s ≡ n
    → count_while (in_range 0x20 0x2f) (drop n s) ≡ m
    → drop (n + m) s ≡ c ∷ t
    → in_range 0x40 0x7e c ≡ true
    → control_length s ≡ some (suc (n + m))
unfolding control_length
control_length-runs n m s c t e k d h = rw (e, k, d, h)

control_length-control :
    (params between : Bytes) (c : ℕ) (s : Bytes)
    → IsPiece (control params between c)
    → control_length (params ++ (between ++ (c ∷ s))) ≡ some (suc (length params + length between))
unfolding IsPiece
control_length-control params between c s h =
    control_length-runs (length params) (length between) (params ++ (between ++ (c ∷ s))) c s
      (params_end params between c s h)
      (ap (count_while (in_range 0x20 0x2f)) (drop-length params (between ++ (c ∷ s)))
        ∙ count_while-run (in_range 0x20 0x2f) between c s h.1 (before_last c h.2))
      (drop-runs params between c s) h.2
  where
    before_last : (c : ℕ) → in_range 0x40 0x7e c ≡ true → in_range 0x20 0x2f c ≡ false
    before_last c q = ground arith

remove_from-skip : (xs s : Bytes) → remove_from (length xs) (xs ++ s) ≡ remove_from 0 s
unfolding remove_from
remove_from-skip [] s = refl
remove_from-skip (x ∷ xs) s = remove_from-skip xs s

remove_from-control :
    (params between : Bytes) (c : ℕ) (s : Bytes)
    → remove_from (suc (length params + length between)) (params ++ (between ++ (c ∷ s)))
      ≡ remove_from 0 s
remove_from-control params between c s =
    ap (λ xs. remove_from (suc (length params + length between)) xs) (together params between)
    ∙ ap (λ n. remove_from n ((params ++ (between ++ (c ∷ []))) ++ s)) width
    ∙ remove_from-skip (params ++ (between ++ (c ∷ []))) s
  where
    together : (a b : Bytes) → ◌≡◌ {A = Bytes} (a ++ (b ++ (c ∷ s))) ((a ++ (b ++ (c ∷ []))) ++ s)
    together a b =
        ap (λ xs. a ++ xs) (sym (append_assoc b (c ∷ []) s))
        ∙ sym (append_assoc a (b ++ (c ∷ [])) s)

    width : suc (length params + length between) ≡ length (params ++ (between ++ (c ∷ [])))
    width =
        omega (arith, length-append params (between ++ (c ∷ [])), length-append between (c ∷ []))

remove_from-printed : (ps : List Piece) → All IsPiece ps → remove_from 0 (printed ps) ≡ text_in ps
unfolding remove_from IsPiece
remove_from-printed [] h = refl
remove_from-printed (plain c ∷ ps) h = rw (h.0.0, h.0.1, remove_from-printed ps h.1)
remove_from-printed (carriage_return ∷ ps) h = remove_from-printed ps h.1
remove_from-printed (two_bytes c ∷ ps) h = rw h.0 (remove_from-printed ps h.1)
remove_from-printed (control params between c ∷ ps) h =
    rw (control_length-control params between c (printed ps) h.0)
      (remove_from-control params between c (printed ps) ∙ remove_from-printed ps h.1)

-- Whatever text, of bytes that are neither escapes nor carriage returns, is printed among carriage
-- returns, escapes of two bytes and control sequences, cleaning leaves this text.
pub clean_stdout-printed :
    (ps : List Piece) → All IsPiece ps → clean_stdout (printed ps) ≡ text_in ps
unfolding clean_stdout
clean_stdout-printed ps h = remove_from-printed ps h
