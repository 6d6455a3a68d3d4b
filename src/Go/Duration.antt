-- ===== src/Go/Duration.antt =====
-- `time.ParseDuration`, in nanoseconds. A fraction of a unit is cut to whole nanoseconds; Go gets it
-- by a floating point product, which is the same for every fraction that a double holds exactly.
use kubevirt_dpdk_checkup.Base.{
  ℕ, zero, suc, ◌+◌, ◌-◌, ◌*◌, ◌/◌, ◌%◌, ◌^◌, ◌≡◌, refl, Bool, true, false, not, ◌||◌, Option, none,
  some, [], ◌∷◌, Bytes, codes, is_empty, length, ltb, ◌==◌, if◌then◌else◌, bytes_eq, ℤ, pos, sub_ℕ,
}
use kubevirt_dpdk_checkup.Go.Strconv.{is_digit}

infixl 10 ◌>>=◌
abbrev ◌>>=◌ {ℓ κ} : {A : Type ℓ} {B : Type κ} → Option A → (A → Option B) → Option B
none >>= f = none
some a >>= f = f a

abbrev max_magnitude : ℕ
max_magnitude = 2 ^ 63

-- `leadingInt`: the digits at the front, and the rest; `none` is its overflow.
leading_int : ℕ → Bytes → Option (ℕ × Bytes)
unfolding is_digit
leading_int x [] = some (x, [])
leading_int x (c ∷ s) =
    let x' = x * 10 + (c - b'0') in
    let rest = leading_int x' s in
    if not (is_digit c)
    then some (x, c ∷ s)
    else if ltb (max_magnitude / 10) x || ltb max_magnitude x'
    then none
    else rest

-- What `leadingFraction` has read: digits that would overflow are skipped from then on.
pub record Fraction : Type 0 where
  pub f : ℕ
  pub scale : ℕ
  pub overflow : Bool

next_fraction : Fraction → ℕ → Fraction
next_fraction r d =
    if r.overflow || ltb ((max_magnitude - 1) / 10) r.f || ltb max_magnitude (r.f * 10 + d)
    then record r { overflow = true }
    else record r { f = r.f * 10 + d; scale = r.scale * 10 }

leading_fraction : Fraction → Bytes → Fraction × Bytes
unfolding is_digit next_fraction
leading_fraction r [] = (r, [])
leading_fraction r (c ∷ s) =
    let rest = leading_fraction (next_fraction r (c - b'0')) s in
    if is_digit c then rest else (r, c ∷ s)

-- The optional `.` and the digits behind it; the flag says whether there were digits.
optional_fraction : Bytes → (Fraction × Bool) × Bytes
unfolding leading_fraction
optional_fraction [] = ((record { f = 0; scale = 1; overflow = false }, false), [])
optional_fraction (c ∷ s) =
    let none_read : Fraction = record { f = 0; scale = 1; overflow = false } in
    let (r, rest) = leading_fraction none_read s in
    if c == b'.' then ((r, ltb (length rest) (length s)), rest) else ((none_read, false), c ∷ s)

-- The unit: everything up to a digit or a point.
unit_name : Bytes → Bytes × Bytes
unfolding is_digit
unit_name [] = ([], [])
unit_name (c ∷ s) =
    let (u, rest) = unit_name s in if c == b'.' || is_digit c then ([], c ∷ s) else (c ∷ u, rest)

-- `unitMap`.
unit : Bytes → Option ℕ
unfolding bytes_eq
unit u =
    if bytes_eq u (codes "ns")
    then some 1
    else if bytes_eq u (codes "us")
        || bytes_eq u (0xc2 ∷ 0xb5 ∷ codes "s")
        || bytes_eq u (0xce ∷ 0xbc ∷ codes "s")
    then some 1000
    else if bytes_eq u (codes "ms")
    then some 1000000
    else if bytes_eq u (codes "s")
    then some 1000000000
    else if bytes_eq u (codes "m")
    then some 60000000000
    else if bytes_eq u (codes "h")
    then some 3600000000000
    else none

bounded : ℕ → Option ℕ
bounded v = if ltb max_magnitude v then none else some v

-- One round of the loop: a number with its unit, added to `d`.
component : ℕ → Bytes → Option (ℕ × Bytes)
unfolding leading_int optional_fraction unit_name unit bounded
component d s = do
  (v, s₁) ← leading_int 0 s
  let ((r, post), s₂) = optional_fraction s₁
  let pre = ltb (length s₁) (length s)
  let (u, s₃) = unit_name s₂
  scale ← (if pre || post then unit u else none)
  whole ← (if ltb (max_magnitude / scale) v then none else some (v * scale))
  total ← bounded (whole + r.f * scale / r.scale)
  sum ← bounded ((d + total) % 2 ^ 64)
  some (sum, s₃)

-- Every round reads at least a digit or a point and a unit, so the length is fuel enough.
components : ℕ → ℕ → Bytes → Option ℕ
unfolding component
components fuel d [] = some d
components zero d (c ∷ s) = none
components (suc fuel) d (c ∷ s) = do (d', rest) ← component d (c ∷ s); components fuel d' rest

-- The duration behind the sign; the flag says that the sign was `-`.
signed : Bool → Bytes → Option ℤ
unfolding components bytes_eq
signed minus s = if bytes_eq s (codes "0") then some (pos 0) else if is_empty s then none else do
  d ← components (length s) 0 s
  if minus then some (sub_ℕ 0 d) else if ltb (max_magnitude - 1) d then none else some (pos d)

-- `time.ParseDuration(s)`; `none` is its error.
unfoldable pub parse_duration : Bytes → Option ℤ
unfolding signed
parse_duration [] = none
parse_duration (c ∷ s) =
    if c == b'-' then signed true s else if c == b'+' then signed false s else signed false (c ∷ s)

minutes_test : parse_duration (codes "1m30.5s") ≡ some (pos 90500000000)
unfolding parse_duration
minutes_test = refl

unit_missing_test : parse_duration (codes "10") ≡ none
unfolding parse_duration
unit_missing_test = refl
