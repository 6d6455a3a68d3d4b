-- ===== src/Testpmd/Output.antt =====
-- A whole output of testpmd's "show fwd stats all", as console_test.go shows it, and how it is read.
use kubevirt_dpdk_checkup.Base.{
  ℕ, ◌≡◌, refl, ◌∙◌, ap, false, List, [], ◌∷◌, ◌++◌, Bytes, codes, All, ◌==◌, sym, append_assoc,
}
use kubevirt_dpdk_checkup.Go.Act.{ok}
use kubevirt_dpdk_checkup.Go.Strings.{contains, join}
use kubevirt_dpdk_checkup.Go.Strings.Lines.{IsLine}
use kubevirt_dpdk_checkup.Go.Strings.Fields.{All-none_meets, All-append}
use kubevirt_dpdk_checkup.Testpmd.{
  PortStats, Statistics, parse_testpmd_stats, port0_section_start, port1_section_start,
  summary_section_start, port_section_end, summary_section_end,
}
use kubevirt_dpdk_checkup.Testpmd.Render.{port_lines, port_lines-IsLine, IsMachine}
use kubevirt_dpdk_checkup.Testpmd.Foreign.{
  port_lines-Lacks, port_lines-no_end, letter_f-IsForeign, letter_a-IsForeign, plus-IsForeign,
}
use kubevirt_dpdk_checkup.Testpmd.Section.{text_of, HasSection, Lacks, parse_testpmd_stats-Sections}

-- The blanks that pad the columns of a port, beside the one behind each counter.
pub record Padding : Type 0 where
  pub rx_packets : ℕ
  pub rx_dropped : ℕ
  pub tx_packets : ℕ
  pub tx_dropped : ℕ

abbrev pub padded_lines : PortStats → Padding → List Bytes
padded_lines p w = port_lines p w.rx_packets w.rx_dropped w.tx_packets w.tx_dropped

abbrev port0_header : Bytes
port0_header =
    codes "  ---------------------- Forward statistics for port 0  ----------------------"

abbrev port1_header : Bytes
port1_header =
    codes "  ---------------------- Forward statistics for port 1  ----------------------"

abbrev port_footer : Bytes
port_footer = codes "  ----------------------------------------------------------------------------"

abbrev summary_header : Bytes
summary_header =
    codes "  +++++++++++++++ Accumulated forward statistics for all ports+++++++++++++++"

abbrev summary_footer : Bytes
summary_footer =
    codes "  ++++++++++++++++++++++++++++++++++++++++++++++++++++++++++++++++++++++++++++"

-- The lines of an output: what stands before the statistics, those of both ports, their totals, and
-- what stands behind them.
abbrev pub shown_lines :
    List Bytes → Statistics → Padding → Padding → Padding → List Bytes → List Bytes
shown_lines before s v w x after =
    text_of before port0_header (padded_lines s.port0 v) port_footer (
      []
      ∷ text_of [] port1_header (padded_lines s.port1 w) port_footer
          ([] ∷ text_of [] summary_header (padded_lines s.summary x) summary_footer after))

-- Lines without a start of the statistics, such as the ones for each queue.
pub record IsPreamble (before : List Bytes) : Type 0 where
  pub lines : All IsLine before
  pub no_port0 : Lacks port0_section_start before
  pub no_port1 : Lacks port1_section_start before
  pub no_summary : Lacks summary_section_start before

-- Every line of a text with a section has a property.
text_of-All :
    (P : Bytes → Type 0) (before : List Bytes) (header : Bytes) (body : List Bytes) (footer : Bytes)
    (after : List Bytes)
    → All P before
    → P header
    → All P body
    → P footer
    → All P after
    → All P (text_of before header body footer after)
text_of-All P before header body footer after b h l f a =
    All-append P before (header ∷ (body ++ (footer ∷ after))) b
      (h, All-append P body (footer ∷ after) l (f, a))

-- The lines behind a section are taken apart.
text_of-append :
    (before : List Bytes) (header : Bytes) (body : List Bytes) (footer : Bytes) (a b : List Bytes)
    → text_of before header body footer (a ++ b) ≡ text_of before header body footer a ++ b
text_of-append before header body footer a b =
    ap (λ ls. before ++ (header ∷ ls)) (sym (append_assoc body (footer ∷ a) b))
    ∙ sym (append_assoc before (header ∷ (body ++ (footer ∷ a))) b)

module _ (before : List Bytes) (s : Statistics) (v w x : Padding) (after : List Bytes)
    (p : IsPreamble before) where
  abbrev before_port1 : List Bytes
  before_port1 = text_of before port0_header (padded_lines s.port0 v) port_footer ([] ∷ [])

  abbrev before_summary : List Bytes
  before_summary = text_of before_port1 port1_header (padded_lines s.port1 w) port_footer ([] ∷ [])

  abbrev from_summary : List Bytes
  from_summary = text_of [] summary_header (padded_lines s.summary x) summary_footer after

  abbrev from_port1 : List Bytes
  from_port1 = text_of [] port1_header (padded_lines s.port1 w) port_footer ([] ∷ from_summary)

  at_port1 :
      shown_lines before s v w x after
      ≡ text_of before_port1 port1_header (padded_lines s.port1 w) port_footer ([] ∷ from_summary)
  at_port1 =
      text_of-append before port0_header (padded_lines s.port0 v) port_footer ([] ∷ []) from_port1

  at_summary :
      shown_lines before s v w x after
      ≡ text_of before_summary summary_header (padded_lines s.summary x) summary_footer after
  at_summary =
      at_port1
      ∙ text_of-append before_port1 port1_header (padded_lines s.port1 w) port_footer ([] ∷ [])
          from_summary

  port0-HasSection :
      HasSection port0_section_start port_section_end before port0_header
        (padded_lines s.port0 v)
        port_footer
  unfolding contains
  port0-HasSection = record {
    no_header = p.no_port0;
    starts = refl;
    no_footer =
        (refl, port_lines-no_end s.port0 v.rx_packets v.rx_dropped v.tx_packets v.tx_dropped);
    ends = refl;
  }

  port1-HasSection :
      HasSection port1_section_start port_section_end before_port1 port1_header
        (padded_lines s.port1 w)
        port_footer
  unfolding contains
  port1-HasSection = record {
    no_header =
        text_of-All (λ l. contains port1_section_start l ≡ false) before port0_header
          (padded_lines s.port0 v) port_footer ([] ∷ []) p.no_port1 refl
          (port_lines-Lacks b'F' (codes "orward statistics for port 1") s.port0 v.rx_packets
            v.rx_dropped v.tx_packets v.tx_dropped letter_f-IsForeign)
          refl (refl, tt);
    starts = refl;
    no_footer =
        (refl, port_lines-no_end s.port1 w.rx_packets w.rx_dropped w.tx_packets w.tx_dropped);
    ends = refl;
  }

  summary-HasSection :
      HasSection summary_section_start summary_section_end before_summary summary_header
        (padded_lines s.summary x)
        summary_footer
  unfolding contains
  summary-HasSection = record {
    no_header =
        text_of-All (λ l. contains summary_section_start l ≡ false) before_port1 port1_header
          (padded_lines s.port1 w) port_footer ([] ∷ [])
          (text_of-All (λ l. contains summary_section_start l ≡ false) before port0_header
            (padded_lines s.port0 v) port_footer ([] ∷ []) p.no_summary refl
            (port_lines-Lacks b'A' (codes "ccumulated forward statistics for all ports") s.port0
              v.rx_packets v.rx_dropped v.tx_packets v.tx_dropped letter_a-IsForeign)
            refl (refl, tt))
          refl
          (port_lines-Lacks b'A' (codes "ccumulated forward statistics for all ports") s.port1
            w.rx_packets w.rx_dropped w.tx_packets w.tx_dropped letter_a-IsForeign)
          refl (refl, tt);
    starts = refl;
    no_footer = (
      refl,
      port_lines-Lacks b'+'
          (codes "+++++++++++++++++++++++++++++++++++++++++++++++++++++++++++++++++++++++++++")
          s.summary x.rx_packets x.rx_dropped x.tx_packets x.tx_dropped plus-IsForeign,
    );
    ends = refl;
  }

  shown_lines-IsLine : All IsLine after → All IsLine (shown_lines before s v w x after)
  shown_lines-IsLine a =
      text_of-All IsLine before port0_header (padded_lines s.port0 v) port_footer ([] ∷ from_port1)
        p.lines (All-none_meets (λ c. c == b'\n') port0_header refl)
        (port_lines-IsLine s.port0 v.rx_packets v.rx_dropped v.tx_packets v.tx_dropped)
        (All-none_meets (λ c. c == b'\n') port_footer refl)
        (
          tt,
          text_of-All IsLine [] port1_header (padded_lines s.port1 w) port_footer
              ([] ∷ from_summary) tt (All-none_meets (λ c. c == b'\n') port1_header refl)
              (port_lines-IsLine s.port1 w.rx_packets w.rx_dropped w.tx_packets w.tx_dropped)
              (All-none_meets (λ c. c == b'\n') port_footer refl)
              (
                tt,
                text_of-All IsLine [] summary_header (padded_lines s.summary x) summary_footer after
                    tt (All-none_meets (λ c. c == b'\n') summary_header refl)
                    (port_lines-IsLine s.summary x.rx_packets x.rx_dropped x.tx_packets
                      x.tx_dropped)
                    (All-none_meets (λ c. c == b'\n') summary_footer refl) a,
              ),
        )

-- Whatever `int64` counters testpmd shows for both ports and in total, and however it pads their
-- columns, they are read back from the output, if no line before the statistics has the start of one
-- of the three sections and no line has a newline in it.
pub parse_testpmd_stats-shown_lines :
    (before : List Bytes) (s : Statistics) (v w x : Padding) (after : List Bytes)
    → IsPreamble before
    → All IsLine after
    → IsMachine s.port0
    → IsMachine s.port1
    → IsMachine s.summary
    → parse_testpmd_stats (join (codes "\n") (shown_lines before s v w x after)) ≡ ok s
parse_testpmd_stats-shown_lines before s v w x after p a i j k =
    parse_testpmd_stats-Sections (shown_lines before s v w x after) s
      (shown_lines-IsLine before s v w x after p a)
      (record {
        before = before;
        header = port0_header;
        footer = port_footer;
        after = [] ∷ from_port1 before s v w x after p;
        rx_padding = v.rx_packets;
        rx_padding_dropped = v.rx_dropped;
        tx_padding = v.tx_packets;
        tx_padding_dropped = v.tx_dropped;
        machine = i;
        same = refl;
        has = port0-HasSection before s v w x after p;
      })
      (record {
        before = before_port1 before s v w x after p;
        header = port1_header;
        footer = port_footer;
        after = [] ∷ from_summary before s v w x after p;
        rx_padding = w.rx_packets;
        rx_padding_dropped = w.rx_dropped;
        tx_padding = w.tx_packets;
        tx_padding_dropped = w.tx_dropped;
        machine = j;
        same = at_port1 before s v w x after p;
        has = port1-HasSection before s v w x after p;
      })
      (record {
        before = before_summary before s v w x after p;
        header = summary_header;
        footer = summary_footer;
        after = after;
        rx_padding = x.rx_packets;
        rx_padding_dropped = x.rx_dropped;
        tx_padding = x.tx_packets;
        tx_padding_dropped = x.tx_dropped;
        machine = k;
        same = at_summary before s v w x after p;
        has = summary-HasSection before s v w x after p;
      })
