-- ===== src/Testpmd/Columns.antt =====
-- The columns that testpmd prints, and how `strings.Fields` takes them apart.
use kubevirt_dpdk_checkup.Base.{
  ℕ, zero, suc, ◌+◌, ◌<◌, ◌≡◌, refl, ap, ◌∙◌, true, false, some, [], ◌∷◌, ◌++◌, Bytes, codes, arith,
  ℤ, IsInt64,
}
use kubevirt_dpdk_checkup.Go.Strings.{contains, fields, is_space}
use kubevirt_dpdk_checkup.Go.Strings.Fields.{
  IsWord, IsGap, fields-gap, fields-word, fields-last, All-none_meets,
}
use kubevirt_dpdk_checkup.Go.Strconv.{format_int}
use kubevirt_dpdk_checkup.Go.Strconv.RoundTrip.{parse_int-format_int, format_int_head}
use kubevirt_dpdk_checkup.Go.Strconv.Digits.{format_int-All}
use kubevirt_dpdk_checkup.Testpmd.{counters_of}

-- One blank, and more of them as the column is padded.
abbrev pub gap : ℕ → Bytes
gap zero = codes " "
gap (suc n) = b' ' ∷ gap n

-- A line of testpmd: a direction, and three counters in padded columns.
abbrev pub counters_line : Bytes → ℕ → ℕ → ℤ → ℤ → ℤ → Bytes
counters_line direction m n a b c =
    codes "  "
    ++ ((direction ++ codes "-packets:")
        ++ (codes " "
            ++ (format_int a
                ++ (gap m
                    ++ ((direction ++ codes "-dropped:")
                        ++ (codes " "
                            ++ (format_int b
                                ++ (gap n
                                    ++ ((direction ++ codes "-total:")
                                        ++ (codes " " ++ format_int c))))))))))

pub gap-IsGap : (n : ℕ) → IsGap (gap n)
unfolding is_space
gap-IsGap zero = (refl, tt)
gap-IsGap (suc n) = (refl, gap-IsGap n)

pub gap_head : (n : ℕ) → (g : ℕ) × (gs : Bytes) × (gap n ≡ g ∷ gs)
gap_head zero = (b' ', [], refl)
gap_head (suc n) = (b' ', gap n, refl)

pub digit-IsWord : (n : ℕ) → n < 10 → is_space (b'0' + n) ≡ false
unfolding is_space
digit-IsWord n h = ground arith

pub format_int-IsWord : (z : ℤ) → IsWord (format_int z)
unfolding is_space
format_int-IsWord z = format_int-All (λ c. is_space c ≡ false) digit-IsWord z refl

-- A formatted number with a gap behind it is a field.
pub fields-number :
    (z : ℤ) (n : ℕ) (s : Bytes) → fields (format_int z ++ (gap n ++ s)) ≡ format_int z ∷ fields s
fields-number z n s =
    let (c, w, e) = format_int_head z in
    let (g, gs, k) = gap_head n in
    rw (e, k) (fields-word c w g gs s (rw e at (format_int-IsWord z)) (rw k at (gap-IsGap n)))

pub fields-number_last : (z : ℤ) → fields (format_int z) ≡ format_int z ∷ []
fields-number_last z =
    let (c, w, e) = format_int_head z in rw e (fields-last c w (rw e at (format_int-IsWord z)))

abbrev pub direction : ℕ → Bytes
direction d = d ∷ codes "X"

-- A label of a line, with the blank behind it.
pub fields-packets :
    (d : ℕ) (s : Bytes)
    → is_space d ≡ false
    → fields ((direction d ++ codes "-packets:") ++ (codes " " ++ s))
      ≡ (direction d ++ codes "-packets:") ∷ fields s
unfolding is_space
fields-packets d s h =
    fields-word d (codes "X-packets:") b' ' [] s
      (h, All-none_meets is_space (codes "X-packets:") refl) (refl, tt)

pub fields-dropped :
    (d : ℕ) (s : Bytes)
    → is_space d ≡ false
    → fields ((direction d ++ codes "-dropped:") ++ (codes " " ++ s))
      ≡ (direction d ++ codes "-dropped:") ∷ fields s
unfolding is_space
fields-dropped d s h =
    fields-word d (codes "X-dropped:") b' ' [] s
      (h, All-none_meets is_space (codes "X-dropped:") refl) (refl, tt)

pub fields-total :
    (d : ℕ) (s : Bytes)
    → is_space d ≡ false
    → fields ((direction d ++ codes "-total:") ++ (codes " " ++ s))
      ≡ (direction d ++ codes "-total:") ∷ fields s
unfolding is_space
fields-total d s h =
    fields-word d (codes "X-total:") b' ' [] s (h, All-none_meets is_space (codes "X-total:") refl)
      (refl, tt)

pub counters_of-line :
    (d m n : ℕ) (a b c : ℤ)
    → is_space d ≡ false
    → IsInt64 a
    → IsInt64 b
    → IsInt64 c
    → counters_of (fields (counters_line (direction d) m n a b c)) ≡ some (a, b, c)
counters_of-line d m n a b c h ia ib ic =
    ap counters_of (
      fields-gap (codes "  ") _ (two_blanks)
      ∙ fields-packets d _ h
      ∙ ap (λ x. (direction d ++ codes "-packets:") ∷ x)
          (fields-number a m _
            ∙ ap (λ x. format_int a ∷ x)
                (fields-dropped d _ h
                  ∙ ap (λ x. (direction d ++ codes "-dropped:") ∷ x)
                      (fields-number b n _
                        ∙ ap (λ x. format_int b ∷ x)
                            (fields-total d _ h
                              ∙ ap (λ x. (direction d ++ codes "-total:") ∷ x)
                                  (fields-number_last c))))))
    ∙ rw (parse_int-format_int a ia, parse_int-format_int b ib, parse_int-format_int c ic)
  where
    two_blanks : IsGap (codes "  ")
    two_blanks = gap-IsGap 1

pub r_is_no_space : is_space b'R' ≡ false
unfolding is_space
r_is_no_space = refl

pub t_is_no_space : is_space b'T' ≡ false
unfolding is_space
t_is_no_space = refl

pub contains_rx :
    (m n : ℕ) (a b c : ℤ)
    → contains (codes "RX-packets") (counters_line (direction b'R') m n a b c) ≡ true
unfolding contains
contains_rx m n a b c = refl

pub contains_tx :
    (m n : ℕ) (a b c : ℤ)
    → contains (codes "TX-packets") (counters_line (direction b'T') m n a b c) ≡ true
unfolding contains
contains_tx m n a b c = refl
