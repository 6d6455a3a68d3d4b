-- ===== src/Trex/Types.antt =====
-- pkg/internal/checkup/trex/types.go: the statistics that TRex sends, with the names of their JSON
-- keys. The floating point numbers are a parameter.
use kubevirt_dpdk_checkup.Base.{Bytes, ℤ}

pub record GlobalStatsResult (F : Type 0) : Type 0 where
  pub m_active_flows : F
  pub m_active_sockets : ℤ
  pub m_bw_per_core : F
  pub m_cpu_util : F
  pub m_cpu_util_raw : F
  pub m_open_flows : F
  pub m_platform_factor : F
  pub m_rx_bps : F
  pub m_rx_core_pps : F
  pub m_rx_cpu_util : F
  pub m_rx_drop_bps : F
  pub m_rx_pps : F
  pub m_socket_util : F
  pub m_total_alloc_error : ℤ
  pub m_total_clients : ℤ
  pub m_total_nat_active : ℤ
  pub m_total_nat_learn_error : ℤ
  pub m_total_nat_no_fid : ℤ
  pub m_total_nat_open : ℤ
  pub m_total_nat_syn_wait : ℤ
  pub m_total_nat_time_out : ℤ
  pub m_total_nat_time_out_wait_ack : ℤ
  pub m_total_queue_drop : ℤ
  pub m_total_queue_full : ℤ
  pub m_total_rx_bytes : ℤ
  pub m_total_rx_pkts : ℤ
  pub m_total_servers : ℤ
  pub m_total_tx_bytes : ℤ
  pub m_total_tx_pkts : ℤ
  pub m_tx_bps : F
  pub m_tx_cps : F
  pub m_tx_expected_bps : F
  pub m_tx_expected_cps : F
  pub m_tx_expected_pps : F
  pub m_tx_pps : F

pub record GlobalStats (F : Type 0) : Type 0 where
  pub id : Bytes
  pub jsonrpc : Bytes
  pub result : GlobalStatsResult F

pub record PortStatsResult (F : Type 0) : Type 0 where
  pub ibytes : ℤ
  pub ierrors : ℤ
  pub ipackets : ℤ
  pub m_cpu_util : F
  pub m_total_rx_bps : F
  pub m_total_rx_pps : F
  pub m_total_tx_bps : F
  pub m_total_tx_pps : F
  pub obytes : ℤ
  pub oerrors : ℤ
  pub opackets : ℤ

pub record PortStats (F : Type 0) : Type 0 where
  pub id : Bytes
  pub jsonrpc : Bytes
  pub result : PortStatsResult F
