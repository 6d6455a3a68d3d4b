-- ===== src/Trex/Output/Cleaning.antt =====
-- What cleaning removes, and what an extraction without the key does.
use kubevirt_dpdk_checkup.Base.{
  ℕ, zero, suc, ◌+◌, ◌-◌, ◌<◌, ◌≡◌, refl, true, false, Option, none, some, [], ◌∷◌, Bytes, leb,
  ◌==◌, All, arith, Bool-cases, inl, inr, length, if◌then◌else◌,
}
use kubevirt_dpdk_checkup.Go.Act.{panic}
use kubevirt_dpdk_checkup.Go.Strings.{index}
use kubevirt_dpdk_checkup.Trex.Output.{
  escape_length, remove_from, clean_stdout, keep_unless, extract_json_string,
}

-- A byte that is no carriage return.
abbrev pub NoReturn : ℕ → Type 0
NoReturn c = (c == 13) ≡ false

keep_unless-NoReturn :
    (o : Option ℕ) (kept : Bytes) (removed : ℕ → Bytes)
    → All NoReturn kept
    → ((n : ℕ) → All NoReturn (removed n))
    → All NoReturn (keep_unless o 27 kept removed)
keep_unless-NoReturn none kept removed h k = (refl, h)
keep_unless-NoReturn (some n) kept removed h k = k n

one_byte-NoReturn :
    (c : ℕ) (s kept : Bytes) (removed : ℕ → Bytes)
    → All NoReturn kept
    → ((n : ℕ) → All NoReturn (removed n))
    → All NoReturn (
        if c == 27
        then keep_unless (escape_length s) c kept removed
        else if c == 13
        then kept
        else c ∷ kept)
one_byte-NoReturn c s kept removed h k = elim (Bool-cases (c == 27)) [
  | inl e ↦ rw (e, is_escape c e) (keep_unless-NoReturn (escape_length s) kept removed h k)
  | inr e ↦ elim (Bool-cases (c == 13)) [ inl r ↦ rw (e, r) h | inr r ↦ rw (e, r) (r, h) ]
]
  where
    is_escape : (c : ℕ) → (c == 27) ≡ true → c ≡ 27
    is_escape c q = ground arith

remove_from-NoReturn : (k : ℕ) (s : Bytes) → All NoReturn (remove_from k s)
unfolding remove_from
remove_from-NoReturn zero [] = tt
remove_from-NoReturn (suc k) [] = tt
remove_from-NoReturn (suc k) (c ∷ s) = remove_from-NoReturn k s
remove_from-NoReturn zero (c ∷ s) =
    one_byte-NoReturn c s (remove_from 0 s) (λ n. remove_from n s) (remove_from-NoReturn 0 s)
      (λ n. remove_from-NoReturn n s)

remove_from-plain :
    (s : Bytes) → All (λ c. (c == 27) ≡ false) s → All NoReturn s → remove_from 0 s ≡ s
unfolding remove_from
remove_from-plain [] h k = refl
remove_from-plain (c ∷ s) h k = rw (h.0, k.0, remove_from-plain s h.1 k.1)

-- No carriage return is left in a cleaned output, whatever the output was.
pub clean_stdout-NoReturn : (s : Bytes) → All NoReturn (clean_stdout s)
unfolding clean_stdout
clean_stdout-NoReturn s = remove_from-NoReturn 0 s

-- An output with neither a carriage return nor an escape is left as it is.
pub clean_stdout_plain :
    (s : Bytes) → All (λ c. (c == 27) ≡ false) s → All NoReturn s → clean_stdout s ≡ s
unfolding clean_stdout
clean_stdout_plain s h k = remove_from-plain s h k

-- The extraction panics on an output without the request's key that is shorter than twice the key,
-- less one byte.
pub extract_json_string_missing :
    (input key : Bytes)
    → index key input ≡ none
    → length input < length key + length key - 1
    → extract_json_string input key ≡ panic
unfolding extract_json_string
extract_json_string_missing input key h short =
    rw (h, beyond (length key + length key - 1) (length input) short)
  where
    beyond : (n m : ℕ) → m < n → leb n m ≡ false
    beyond n m q = ground arith
