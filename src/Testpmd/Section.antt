-- ===== src/Testpmd/Section.antt =====
-- The section of testpmd's output that is cut out.
use kubevirt_dpdk_checkup.Base.{
  ℕ, suc, ◌+◌, ◌-◌, ◌≤◌, ◌<◌, ◌≡◌, refl, ap, ◌∙◌, true, false, List, [], ◌∷◌, ◌++◌, Bytes, codes,
  All, arith, length, length-append, take-length, drop-length, take, drop, leb,
}
use kubevirt_dpdk_checkup.Go.Act.{ok, and_then, map_err}
use kubevirt_dpdk_checkup.Go.Strings.{contains, split, join}
use kubevirt_dpdk_checkup.Go.Strings.Lines.{IsLine, split-join}
use kubevirt_dpdk_checkup.Testpmd.{
  PortStats, Statistics, parse_testpmd_stats, port0_section_start, port1_section_start,
  summary_section_start, port_section_end, summary_section_end, find_string_line_index,
  extract_section_lines, joined, extract_section_statistics, parse_port, section_failed,
  parse_testpmd_stats_section,
}
use kubevirt_dpdk_checkup.Testpmd.Render.{
  port_lines, IsMachine, parse_testpmd_stats_section-port_lines,
}

-- No line has the text.
abbrev pub Lacks : Bytes → List Bytes → Type 0
Lacks text = All (λ l. contains text l ≡ false)

find_string_line_index-first :
    (text : Bytes) (before : List Bytes) (line : Bytes) (after : List Bytes)
    → Lacks text before
    → contains text line ≡ true
    → find_string_line_index text (before ++ (line ∷ after)) ≡ length before
unfolding find_string_line_index
find_string_line_index-first text [] line after h k = rw k
find_string_line_index-first text (l ∷ before) line after h k =
    rw (h.0, find_string_line_index-first text before line after h.1 k)

-- A text of lines with one section in it: its header, its body and its footer.
pub record HasSection (from to : Bytes) (before : List Bytes) (header : Bytes) (body : List Bytes)
    (footer : Bytes) : Type 0 where
  pub no_header : Lacks from before
  pub starts : contains from header ≡ true
  pub no_footer : Lacks to (header ∷ body)
  pub ends : contains to footer ≡ true

abbrev pub text_of : List Bytes → Bytes → List Bytes → Bytes → List Bytes → List Bytes
text_of before header body footer after = before ++ (header ∷ (body ++ (footer ∷ after)))

-- The lines between two positions that are in range.
extract_section_lines-found :
    (lines : List Bytes) (from to : Bytes) (i j : ℕ)
    → find_string_line_index from lines ≡ i
    → find_string_line_index to (drop i lines) ≡ suc j
    → i + suc j < length lines
    → extract_section_lines lines from to ≡ ok (take j (drop (suc i) lines))
unfolding extract_section_lines
extract_section_lines-found lines from to i j e k h = rw (
  e,
  k,
  not_reached (length lines) i (omega arith),
  not_reached (length lines) (i + suc j) h,
  reached (suc i) (i + suc j) (omega arith),
  width i j,
)
  where
    not_reached : (n k : ℕ) → k < n → leb n k ≡ false
    not_reached n k q = ground arith

    reached : (n k : ℕ) → n ≤ k → leb n k ≡ true
    reached n k q = ground arith

    width : (i j : ℕ) → i + suc j - suc i ≡ j
    width i j = omega arith

length-text_of :
    (before : List Bytes) (header : Bytes) (body : List Bytes) (footer : Bytes) (after : List Bytes)
    → length before + suc (length body) < length (text_of before header body footer after)
length-text_of before header body footer after = omega (
  arith,
  length-append before (header ∷ (body ++ (footer ∷ after))),
  length-append body (footer ∷ after),
)

drop-header :
    (before : List Bytes) (header : Bytes) (ls : List Bytes)
    → drop (suc (length before)) (before ++ (header ∷ ls)) ≡ ls
drop-header [] header ls = refl
drop-header (l ∷ before) header ls = drop-header before header ls

extract_section_lines-HasSection :
    (from to : Bytes) (before : List Bytes) (header : Bytes) (body : List Bytes) (footer : Bytes)
    (after : List Bytes)
    → HasSection from to before header body footer
    → extract_section_lines (text_of before header body footer after) from to ≡ ok body
extract_section_lines-HasSection from to before header body footer after h =
    extract_section_lines-found (text_of before header body footer after) from to (length before)
      (length body)
      (find_string_line_index-first from before header (body ++ (footer ∷ after)) h.no_header
        h.starts)
      (ap (find_string_line_index to) (drop-length before _)
        ∙ find_string_line_index-first to (header ∷ body) footer after h.no_footer h.ends)
      (length-text_of before header body footer after)
    ∙ ap (λ ls. ok (take (length body) ls)) (drop-header before header (body ++ (footer ∷ after)))
    ∙ ap ok (take-length body (footer ∷ after))

nonempty_join :
    (before : List Bytes) (l : Bytes) (ls : List Bytes)
    → All IsLine (before ++ (l ∷ ls))
    → split b'\n' (join (codes "\n") (before ++ (l ∷ ls))) ≡ before ++ (l ∷ ls)
nonempty_join [] l ls h = split-join l ls h
nonempty_join (b ∷ before) l ls h = split-join b (before ++ (l ∷ ls)) h

-- If no line has a newline in it, the header is the first line with the start of a section and no
-- line from there to the footer, which has the section's end, has that end before it, then what is
-- cut out of the joined lines is the lines between the header and the footer.
pub extract_section_statistics-HasSection :
    (from to : Bytes) (before : List Bytes) (header : Bytes) (body : List Bytes) (footer : Bytes)
    (after : List Bytes)
    → All IsLine (text_of before header body footer after)
    → HasSection from to before header body footer
    → extract_section_statistics
        (join (codes "\n") (text_of before header body footer after))
        from
        to
      ≡ ok (join (codes "\n") body)
unfolding extract_section_statistics
extract_section_statistics-HasSection from to before header body footer after l h =
    ap (λ ls. joined (extract_section_lines ls from to))
      (nonempty_join before header (body ++ (footer ∷ after)) l)
    ∙ ap joined (extract_section_lines-HasSection from to before header body footer after h)

-- The counters of a port are read back from testpmd's whole output, if they are `int64` values, no
-- line has a newline in it, the header is the first line with the section's start and the footer the
-- first line with its end from there on: whatever other lines stand around the section.
pub parse_port-port_lines :
    (port : ℕ) (from to : Bytes) (before : List Bytes) (header : Bytes) (p : PortStats)
    (m n m' n' : ℕ) (footer : Bytes) (after : List Bytes)
    → IsMachine p
    → All IsLine (text_of before header (port_lines p m n m' n') footer after)
    → HasSection from to before header (port_lines p m n m' n') footer
    → parse_port
        (join (codes "\n") (text_of before header (port_lines p m n m' n') footer after))
        port
        from
        to
      ≡ ok p
unfolding parse_port
parse_port-port_lines port from to before header p m n m' n' footer after i l h =
    ap (λ r. and_then (map_err (section_failed port) r) parse_testpmd_stats_section)
      (extract_section_statistics-HasSection from to before header (port_lines p m n m' n') footer
        after l h)
    ∙ parse_testpmd_stats_section-port_lines p m n m' n' i

-- A section with the counters of a port in the lines of an output.
pub record Section (lines : List Bytes) (from to : Bytes) (p : PortStats) : Type 0 where
  pub before : List Bytes
  pub header : Bytes
  pub footer : Bytes
  pub after : List Bytes
  pub rx_padding : ℕ
  pub rx_padding_dropped : ℕ
  pub tx_padding : ℕ
  pub tx_padding_dropped : ℕ
  pub machine : IsMachine p
  pub same :
      lines
      ≡ text_of before header
          (port_lines p rx_padding rx_padding_dropped tx_padding tx_padding_dropped)
          footer
          after
  pub has :
      HasSection from to before header
        (port_lines p rx_padding rx_padding_dropped tx_padding tx_padding_dropped)
        footer

parse_port-Section :
    (lines : List Bytes) (port : ℕ) (from to : Bytes) (p : PortStats)
    → All IsLine lines
    → Section lines from to p
    → parse_port (join (codes "\n") lines) port from to ≡ ok p
parse_port-Section lines port from to p l s = rw s.same (
    parse_port-port_lines port from to s.before s.header p s.rx_padding s.rx_padding_dropped
      s.tx_padding s.tx_padding_dropped s.footer s.after s.machine (rw s.same at l) s.has)

-- The statistics that testpmd prints are read back from its whole output: if no line has a newline
-- in it, and the lines have a section with the counters of each of the two ports and one with their
-- totals, each with `int64` values in padded columns between the first line with the section's
-- start and the first with its end from there on.
pub parse_testpmd_stats-Sections :
    (lines : List Bytes) (s : Statistics)
    → All IsLine lines
    → Section lines port0_section_start port_section_end s.port0
    → Section lines port1_section_start port_section_end s.port1
    → Section lines summary_section_start summary_section_end s.summary
    → parse_testpmd_stats (join (codes "\n") lines) ≡ ok s
unfolding parse_testpmd_stats
parse_testpmd_stats-Sections lines s l p q r = rw (
  parse_port-Section lines 0 port0_section_start port_section_end s.port0 l p,
  parse_port-Section lines 1 port1_section_start port_section_end s.port1 l q,
  parse_port-Section lines 2 summary_section_start summary_section_end s.summary l r,
)
