-- ===== src/Go/Strings/Lines.antt =====
-- `strings.Split` takes apart what `strings.Join` put together.
use kubevirt_dpdk_checkup.Base.{
  ◌≡◌, refl, ap, ◌∙◌, false, List, [], ◌∷◌, ◌++◌, Bytes, codes, ◌==◌, All,
}
use kubevirt_dpdk_checkup.Go.Strings.{split, join}

-- A text without a newline.
abbrev pub IsLine : Bytes → Type 0
IsLine l = All (λ c. (c == b'\n') ≡ false) l

split-last : (l : Bytes) → IsLine l → split b'\n' l ≡ l ∷ []
unfolding split
split-last [] h = refl
split-last (c ∷ l) h = rw (h.0, split-last l h.1)

split-line : (l s : Bytes) → IsLine l → split b'\n' (l ++ (codes "\n" ++ s)) ≡ l ∷ split b'\n' s
unfolding split
split-line [] s h = refl
split-line (c ∷ l) s h = rw (h.0, split-line l s h.1)

-- Lines that are joined by newlines are the lines that a split gives.
pub split-join :
    (l : Bytes) (ls : List Bytes)
    → All IsLine (l ∷ ls)
    → split b'\n' (join (codes "\n") (l ∷ ls)) ≡ l ∷ ls
unfolding join
split-join l [] h = split-last l h.0
split-join l (m ∷ ls) h =
    split-line l (join (codes "\n") (m ∷ ls)) h.0 ∙ ap (◌∷◌ l) (split-join m ls h.1)
