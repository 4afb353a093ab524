-- ===== src/Setup/Tests.antt =====
-- A device with one queue of each kind, two CQs and one port.
use schedra_nic.Setup.Built.{Built}
