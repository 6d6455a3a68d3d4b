-- ===== src/Executor/Totals.antt =====
-- The count of the packets that the VM under test received.
use kubevirt_dpdk_checkup.Base.{
  ℕ, ◌+◌, ◌-◌, ◌≤◌, ◌<◌, ◌^◌, ◌≡◌, ap, ◌∙◌, arith, pos, ◌-64◌, -64-pos, -64-IsInt64, IsInt64,
}
use kubevirt_dpdk_checkup.Testpmd.{Statistics}
use kubevirt_dpdk_checkup.Trex.Types.{PortStats}
use kubevirt_dpdk_checkup.Executor.{totals}

-- The received packets are an `int64` in each case. If testpmd's total of received packets is `n`,
-- an `int64`, and port 0 sent `a` and port 1 received `b` packets, together no more than `n`, no
-- step of the subtraction wraps, and the VM under test received `n - a - b`.
pub totals-received :
    {F : Type 0} (source dest : PortStats F) (stats : Statistics) (n a b : ℕ)
    → stats.summary.rx_total ≡ pos n
    → stats.port0.tx_packets ≡ pos a
    → stats.port1.rx_packets ≡ pos b
    → a + b ≤ n
    → n < 2 ^ 63
    → ((totals source dest stats).vm_under_test_received_packets ≡ pos (n - a - b))
      × IsInt64 (totals source dest stats).vm_under_test_received_packets
unfolding totals
totals-received source dest stats n a b hn ha hb h k = (
  rw (hn, ha, hb)
      (ap (λ x. x -64 pos b) (-64-pos n a (omega arith) k)
        ∙ -64-pos (n - a) b (omega arith) (omega arith)),
  -64-IsInt64 (stats.summary.rx_total -64 stats.port0.tx_packets) stats.port1.rx_packets,
)
