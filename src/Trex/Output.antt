-- ===== src/Trex/Output.antt =====
-- pkg/internal/checkup/trex/client.go: how the output of the TRex console is read.
pub mod Cleaning
pub mod Pieces
pub mod Response
mod Tests
use kubevirt_dpdk_checkup.Base.{
  ℕ, zero, suc, ◌+◌, ◌-◌, Bool, true, false, ◌&&◌, ◌||◌, not, Option, none, some, List, [], ◌∷◌,
  ◌++◌, Bytes, codes, leb, ltb, ◌==◌, length, take, drop, if◌then◌else◌, ℤ, pos, negsuc,
}
use kubevirt_dpdk_checkup.Go.Error.{Error, new}
use kubevirt_dpdk_checkup.Go.Act.{Result, ok, err, panic, and_then}
use kubevirt_dpdk_checkup.Go.Strings.{index, contains, trim_space}
use kubevirt_dpdk_checkup.Go.Fmt.{quote}

-- `input[from:]`, which panics beyond the end.
abbrev pub slice_from : Bytes → ℕ → Result Bytes
slice_from input from = if leb from (length input) then ok (drop from input) else panic

-- The position behind twice the key from where it is found; a key that is missing is at -1, which
-- is not told apart, since the length of the key is added before the comparison. The empty key is
-- found at 0, so a missing key has a byte, and the position is none below 0.
abbrev pub request_position : Option ℕ → ℕ → ℕ
request_position none n = n + n - 1
request_position (some i) n = i + n + n

abbrev pub response_start : Bytes
response_start = codes "[verbose] Server Response:\n\n"

abbrev pub response_end : Bytes
response_end = codes "\n\n"

abbrev no_start : Error
no_start = new (codes "could not find start of JSON string " ++ quote response_start)

abbrev no_end : Error
no_end = new (codes "could not find end of JSON string: " ++ quote response_end)

-- The text up to the end of the response, which is kept, and trimmed off.
abbrev pub up_to_end : Bytes → Option ℕ → Result Bytes
up_to_end text none = err no_end
up_to_end text (some i) = ok (trim_space (take (i + length response_end) text))

abbrev pub from_start : Bytes → Option ℕ → Result Bytes
from_start text none = err no_start
from_start text (some i) =
    let rest = drop (i + length response_start) text in up_to_end rest (index response_end rest)

-- `extractJSONString`.
unfoldable pub extract_json_string : Bytes → Bytes → Result Bytes
unfolding index trim_space quote
extract_json_string input request_key =
    and_then (slice_from input (request_position (index request_key input) (length request_key)))
      λ text. from_start text (index response_start text)

-- `checkStdoutForFailures`: whether the failure mark is there.
unfoldable pub check_stdout_for_failures : Bytes → Option Error
unfolding contains quote
check_stdout_for_failures stdout =
    if contains (codes "[FAILED]") stdout
    then some (new (codes "found failing status " ++ quote (codes "[FAILED]")))
    else none

-- The bytes of a class.
abbrev pub in_range : ℕ → ℕ → ℕ → Bool
in_range from to c = leb from c && leb c to

abbrev pub count_while : (ℕ → Bool) → Bytes → ℕ
count_while p [] = 0
count_while p (c ∷ s) = let rest = count_while p s in if p c then suc rest else 0

-- `[@-~]` behind `n` bytes.
abbrev pub final_byte : ℕ → Bytes → Option ℕ
final_byte n [] = none
final_byte n (c ∷ s) = if in_range 0x40 0x7e c then some (suc n) else none

-- `[0-?]*[ -/]*[@-~]`: its classes have no byte in common, so the greedy match is the only one.
unfoldable pub control_length : Bytes → Option ℕ
control_length s =
    let n = count_while (in_range 0x30 0x3f) s in
    let m = n + count_while (in_range 0x20 0x2f) (drop n s) in final_byte m (drop m s)

abbrev pub one_more : Option ℕ → Option ℕ
one_more none = none
one_more (some n) = some (suc n)

-- The length of what `(?:[@-Z\\-_]|\[[0-?]*[ -/]*[@-~])` matches, if it matches.
unfoldable pub escape_length : Bytes → Option ℕ
unfolding control_length
escape_length [] = none
escape_length (c ∷ s) =
    if in_range 0x40 0x5a c || in_range 0x5c 0x5f c
    then some 1
    else if c == b'['
    then one_more (control_length s)
    else none

abbrev pub keep_unless : Option ℕ → ℕ → Bytes → (ℕ → Bytes) → Bytes
keep_unless none c kept removed = c ∷ kept
keep_unless (some n) c kept removed = removed n

-- The text without its matches, where the first `k` bytes still belong to the last match.
unfoldable pub remove_from : ℕ → Bytes → Bytes
unfolding escape_length
remove_from k [] = []
remove_from (suc k) (c ∷ s) = remove_from k s
remove_from zero (c ∷ s) =
    let kept = remove_from 0 s in
    if c == 27
    then keep_unless (escape_length s) c kept (λ n. remove_from n s)
    else if c == 13
    then kept
    else c ∷ kept

-- `cleanStdout`, which is `removeUnprintableCharacters`.
unfoldable pub clean_stdout : Bytes → Bytes
unfolding remove_from
clean_stdout s = remove_from 0 s
