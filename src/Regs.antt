-- ===== src/Regs.antt =====
-- The register map: the module constants of tb/mqnic_core_pcie_us_schedule/mqnic.py, under their own
-- names.
pub mod Interfaces
pub mod Boards
pub mod Clocks
pub mod Ports
pub mod Schedulers
pub mod Queues
pub use Interfaces.*
pub use Boards.*
pub use Clocks.*
pub use Ports.*
pub use Schedulers.*
pub use Queues.*
