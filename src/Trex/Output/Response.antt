-- ===== src/Trex/Output/Response.antt =====
-- The JSON text that is cut out of the TRex console's output.
use kubevirt_dpdk_checkup.Base.{
  ℕ, ◌+◌, ◌≤◌, ◌≡◌, refl, ap, ◌∙◌, true, false, some, [], ◌∷◌, ◌++◌, Bytes, codes, is_empty, arith,
  length, length-append, take-length, drop-length, append_assoc, take, drop, leb,
}
use kubevirt_dpdk_checkup.Go.Act.{ok, and_then}
use kubevirt_dpdk_checkup.Go.Strings.{index, is_space, trim_left, trim_right, trim_space}
use kubevirt_dpdk_checkup.Trex.Output.{
  slice_from, from_start, up_to_end, request_position, response_start, response_end,
  extract_json_string,
}

-- Behind the text `before`, the text `sub` is there for the first time.
abbrev pub FirstBehind : Bytes → Bytes → Bytes → Type 0
FirstBehind before sub rest = index sub (before ++ (sub ++ rest)) ≡ some (length before)

drop-past : (a b c : Bytes) → drop (length a + length b) (a ++ (b ++ c)) ≡ c
drop-past a b c = rw (← (length-append a b), ← (append_assoc a b c)) (drop-length (a ++ b) c)

take-through : (a b c : Bytes) → take (length a + length b) (a ++ (b ++ c)) ≡ a ++ b
take-through a b c = rw (← (length-append a b), ← (append_assoc a b c)) (take-length (a ++ b) c)

is_empty-last : (s : Bytes) (c : ℕ) → is_empty (s ++ (c ∷ [])) ≡ false
is_empty-last [] c = refl
is_empty-last (x ∷ s) c = refl

trim_right-last :
    (s : Bytes) (c : ℕ) → is_space c ≡ false → trim_right (s ++ (c ∷ [])) ≡ s ++ (c ∷ [])
unfolding trim_right
trim_right-last [] c h = rw h
trim_right-last (x ∷ s) c h = rw (trim_right-last s c h, is_empty-last s c)

-- White space at the end is trimmed off.
trim_right-space : (s ws : Bytes) → trim_right ws ≡ [] → trim_right (s ++ ws) ≡ trim_right s
unfolding trim_right
trim_right-space [] ws h = h
trim_right-space (x ∷ s) ws h = rw (trim_right-space s ws h)

-- A JSON object.
abbrev pub object : Bytes → Bytes
object body = b'{' ∷ (body ++ codes "}")

newlines_trimmed : trim_right response_end ≡ []
unfolding trim_right is_space
newlines_trimmed = refl

brace_is_no_space : (is_space b'{' ≡ false) × (is_space b'}' ≡ false)
unfolding is_space
brace_is_no_space = (refl, refl)

trim_space-object : (body : Bytes) → trim_space (object body ++ response_end) ≡ object body
unfolding trim_space trim_left
trim_space-object body = rw brace_is_no_space.0 (
    trim_right-space (object body) response_end newlines_trimmed
    ∙ trim_right-last (b'{' ∷ body) b'}' brace_is_no_space.1)

-- The output behind the key of the request, which is followed by at least as many bytes as the key
-- has and then by the response.
abbrev pub answer_with : Bytes → Bytes → Bytes → Bytes
answer_with skipped body after =
    skipped ++ (response_start ++ (object body ++ (response_end ++ after)))

reached : (n k : ℕ) → n ≤ k → leb n k ≡ true
reached n k h = ground arith

-- The text behind twice the key.
slice_from-request :
    (before key echo text : Bytes)
    → length echo ≡ length key
    → slice_from (before ++ (key ++ (echo ++ text))) (length before + length key + length key)
      ≡ ok text
slice_from-request before key echo text same =
    rw (reached (length before + length key + length key) _ in_range) (ap ok dropped)
  where
    in_range : length before + length key + length key ≤ length (before ++ (key ++ (echo ++ text)))
    in_range = omega (
      arith,
      same,
      length-append before (key ++ (echo ++ text)),
      length-append key (echo ++ text),
      length-append echo text,
    )

    twice : length before + length key + length key ≡ length (before ++ key) + length echo
    twice = omega (arith, same, length-append before key)

    dropped :
        drop (length before + length key + length key) (before ++ (key ++ (echo ++ text))) ≡ text
    dropped =
        rw (twice, ← (append_assoc before key (echo ++ text))) (drop-past (before ++ key) echo text)

from_start-found :
    (skipped rest : Bytes)
    → from_start (skipped ++ (response_start ++ rest)) (some (length skipped))
      ≡ up_to_end rest (index response_end rest)
from_start-found skipped rest =
    ap (λ r. up_to_end r (index response_end r)) (drop-past skipped response_start rest)

up_to_end-found :
    (body after : Bytes)
    → up_to_end (object body ++ (response_end ++ after)) (some (length (object body)))
      ≡ ok (object body)
up_to_end-found body after =
    ap (λ t. ok (trim_space t)) (take-through (object body) response_end after)
    ∙ ap ok (trim_space-object body)

-- If the key is there for the first time behind `before`, at least as many bytes as it has follow it,
-- and behind these the start of the response and its end are there for the first time, the response
-- between the two is read back: a JSON object, without the blank lines around it, whatever stands
-- before the key, between it and the response, and behind the response.
pub extract_json_string-response :
    (before key echo skipped body after : Bytes)
    → length echo ≡ length key
    → FirstBehind before key (echo ++ answer_with skipped body after)
    → FirstBehind skipped response_start (object body ++ (response_end ++ after))
    → FirstBehind (object body) response_end after
    → extract_json_string (before ++ (key ++ (echo ++ answer_with skipped body after))) key
      ≡ ok (object body)
unfolding extract_json_string
extract_json_string-response before key echo skipped body after same found starts ends =
    let rest = object body ++ (response_end ++ after) in
    let text = answer_with skipped body after in
    ap
      (λ i.
        and_then (slice_from (before ++ (key ++ (echo ++ text))) (request_position i (length key)))
          (λ t. from_start t (index response_start t)))
      found
    ∙ ap (λ r. and_then r (λ t. from_start t (index response_start t)))
        (slice_from-request before key echo text same)
    ∙ ap (from_start text) starts
    ∙ from_start-found skipped rest
    ∙ ap (up_to_end rest) ends
    ∙ up_to_end-found body after
