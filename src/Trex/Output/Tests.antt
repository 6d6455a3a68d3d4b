-- ===== src/Trex/Output/Tests.antt =====
-- The TRex console's output at concrete texts.
use kubevirt_dpdk_checkup.Base.{◌≡◌, refl, none, All, List, [], ◌∷◌, ◌++◌, Bytes, codes, arith}
use kubevirt_dpdk_checkup.Go.Act.{ok, panic}
use kubevirt_dpdk_checkup.Go.Strings.{index}
use kubevirt_dpdk_checkup.Trex.Output.{
  clean_stdout, extract_json_string, response_start, response_end,
}
use kubevirt_dpdk_checkup.Trex.Output.Response.{
  FirstBehind, answer_with, object, extract_json_string-response,
}
use kubevirt_dpdk_checkup.Trex.Output.Pieces.{
  Piece, plain, carriage_return, two_bytes, control, IsPiece, printed, clean_stdout-printed,
}
use kubevirt_dpdk_checkup.Trex.Output.Cleaning.{
  NoReturn, clean_stdout-NoReturn, extract_json_string_missing,
}

clean_stdout-NoReturn_example : All NoReturn (clean_stdout (27 ∷ codes "[0mtrex\r\n"))
clean_stdout-NoReturn_example = clean_stdout-NoReturn (27 ∷ codes "[0mtrex\r\n")

-- "ok" in bold green, the reset of the colors, and the end of a line behind an escape of two bytes.
abbrev colored : List Piece
colored =
    control (codes "1;32") [] b'm'
    ∷ plain b'o'
    ∷ plain b'k'
    ∷ control [] (codes " ") b'q'
    ∷ two_bytes b'M'
    ∷ carriage_return
    ∷ plain b'\n'
    ∷ []

colored-IsPiece : All IsPiece colored
unfolding IsPiece
colored-IsPiece = (
  ((refl, (refl, (refl, (refl, tt)))), tt, refl),
  ((refl, refl), ((refl, refl), ((tt, (refl, tt), refl), (refl, (tt, ((refl, refl), tt)))))),
)

clean_stdout-printed_example : clean_stdout (printed colored) ≡ codes "ok\n"
clean_stdout-printed_example = clean_stdout-printed colored colored-IsPiece

key_is_missing : index (codes "get_port_stats") (codes "error") ≡ none
unfolding index
key_is_missing = refl

extract_json_string_missing_example :
    extract_json_string (codes "error") (codes "get_port_stats") ≡ panic
extract_json_string_missing_example =
    extract_json_string_missing (codes "error") (codes "get_port_stats") key_is_missing
      (omega arith)

-- An escape sequence goes with its parameters, and a sequence may be left by what is removed.
color_test : clean_stdout (27 ∷ codes "[1;32mok" ++ 27 ∷ codes "[0m\r\n") ≡ codes "ok\n"
unfolding clean_stdout
color_test = refl

leftover_test : clean_stdout (27 ∷ 13 ∷ codes "[m") ≡ 27 ∷ codes "[m"
unfolding clean_stdout
leftover_test = refl

-- The response behind the key, found where it stands far enough behind it.
extract_test :
    extract_json_string
      (codes "get_port_stats 123456789012 [verbose] Server Response:\n\n{}\n\n")
      (codes "get_port_stats")
    ≡ ok (codes "{}")
unfolding extract_json_string
extract_test = refl

-- A request for the statistics of a port, and the response to it.
abbrev request_line : Bytes
request_line = codes "{\"method\": \""

abbrev echoed : Bytes
echoed = codes "\", \"id\": 1234}"

abbrev skipped : Bytes
skipped = codes "\n\n"

abbrev body : Bytes
body = codes "\"opackets\": 480"

key_is_first :
    FirstBehind request_line (codes "get_port_stats") (echoed ++ answer_with skipped body [])
unfolding index
key_is_first = refl

start_is_first : FirstBehind skipped response_start (object body ++ (response_end ++ []))
unfolding index
start_is_first = refl

end_is_first : FirstBehind (object body) response_end []
unfolding index
end_is_first = refl

extract_json_string-response_example :
    extract_json_string
      (request_line ++ (codes "get_port_stats" ++ (echoed ++ answer_with skipped body [])))
      (codes "get_port_stats")
    ≡ ok (codes "{\"opackets\": 480}")
extract_json_string-response_example =
    extract_json_string-response request_line (codes "get_port_stats") echoed skipped body [] refl
      key_is_first start_is_first end_is_first
