-- ===== src/Trex.antt =====
-- pkg/internal/checkup/trex: the traffic generator's files and its console client.
pub mod ConfigFiles
pub mod Output
pub mod Types
pub mod Client
