-- ===== src/Go/Strings.antt =====
-- The functions of Go's `strings` that the program calls, on bytes. White space is that of ASCII.
pub mod Count
pub mod Fields
pub mod Lines
use kubevirt_dpdk_checkup.Base.{
  ℕ, suc, ◌≡◌, refl, Bool, true, false, ◌&&◌, ◌||◌, Option, none, some, List, [], ◌∷◌, ◌++◌, Bytes,
  codes, is_empty, leb, ◌==◌, if◌then◌else◌, bytes_eq,
}

-- `strings.HasPrefix(s, prefix)`, the prefix first.
unfoldable pub has_prefix : Bytes → Bytes → Bool
has_prefix [] s = true
has_prefix (p ∷ ps) [] = false
has_prefix (p ∷ ps) (c ∷ s) = p == c && has_prefix ps s

abbrev pub next_index : Option ℕ → Option ℕ
next_index none = none
next_index (some i) = some (suc i)

-- `strings.Index(s, sub)`, the substring first; `none` is -1.
unfoldable pub index : Bytes → Bytes → Option ℕ
unfolding has_prefix
index sub [] = if has_prefix sub [] then some 0 else none
index sub (c ∷ s) = if has_prefix sub (c ∷ s) then some 0 else next_index (index sub s)

-- `strings.Contains(s, sub)`, the substring first.
unfoldable pub contains : Bytes → Bytes → Bool
unfolding has_prefix
contains sub [] = has_prefix sub []
contains sub (c ∷ s) = has_prefix sub (c ∷ s) || contains sub s

abbrev pub push_first : ℕ → List Bytes → List Bytes
push_first c [] = (c ∷ []) ∷ []
push_first c (l ∷ ls) = (c ∷ l) ∷ ls

-- `strings.Split(s, sep)` at a separator of one byte.
unfoldable pub split : ℕ → Bytes → List Bytes
split sep [] = [] ∷ []
split sep (c ∷ s) = let rest = split sep s in if c == sep then [] ∷ rest else push_first c rest

-- `strings.Join(ls, sep)`.
unfoldable pub join : Bytes → List Bytes → Bytes
join sep [] = []
join sep (l ∷ []) = l
join sep (l ∷ m ∷ ls) = l ++ (sep ++ join sep (m ∷ ls))

-- `unicode.IsSpace` on ASCII.
unfoldable pub is_space : ℕ → Bool
is_space c = c == b' ' || leb 9 c && leb c 13

abbrev flush : Bytes → List Bytes → List Bytes
flush [] fs = fs
flush (c ∷ cs) fs = (c ∷ cs) ∷ fs

fields_from : Bytes → Bytes → List Bytes
fields_from field [] = flush field []
fields_from field (c ∷ s) =
    let rest = fields_from (if is_space c then [] else field ++ c ∷ []) s in
    if is_space c then flush field rest else rest

-- `strings.Fields(s)`.
unfoldable pub fields : Bytes → List Bytes
unfolding fields_from is_space
fields = fields_from []

unfoldable pub trim_left : Bytes → Bytes
unfolding is_space
trim_left [] = []
trim_left (c ∷ s) = if is_space c then trim_left s else c ∷ s

unfoldable pub trim_right : Bytes → Bytes
unfolding is_space
trim_right [] = []
trim_right (c ∷ s) = let rest = trim_right s in if is_empty rest && is_space c then [] else c ∷ rest

-- `strings.TrimSpace(s)`.
unfoldable pub trim_space : Bytes → Bytes
unfolding trim_left trim_right
trim_space s = trim_right (trim_left s)

-- `strings.TrimSuffix(s, suffix)`.
unfoldable pub trim_suffix : Bytes → Bytes → Bytes
unfolding bytes_eq
trim_suffix [] suffix = []
trim_suffix (c ∷ s) suffix = if bytes_eq (c ∷ s) suffix then [] else c ∷ trim_suffix s suffix

fields_test :
    fields (codes "  RX-packets: 7 \t x") ≡ codes "RX-packets:" ∷ codes "7" ∷ codes "x" ∷ []
unfolding fields
fields_test = refl

trim_test : trim_space (codes "\n a b\t") ≡ codes "a b"
unfolding trim_space
trim_test = refl

split_test : split b'\n' (codes "a\n\nb") ≡ codes "a" ∷ [] ∷ codes "b" ∷ []
unfolding split
split_test = refl
