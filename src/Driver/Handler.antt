-- ===== src/Driver/Handler.antt =====
-- `Driver.interrupt_handler` over all interfaces of the driver, which share its packet buffers.
pub mod Formed
pub mod Down
pub mod All
mod Tests
use schedra_nic.Prelude.{ℕ, List, [], ◌∷◌, ◌++◌}
use schedra_nic.Device.{Result, ok, ◌>>=◌, Write}
use schedra_nic.Struct.{Bytes}
use schedra_nic.Packets.{Packets}
use schedra_nic.Interface.{Interface, interrupt_handler}

-- `for i in self.interfaces`
unfoldable pub handle_interfaces :
    Bytes
    → (index : ℕ) → List Interface
    → Packets
    → List Write
    → Result (List Interface × Packets × List Write)
handle_interfaces mem index [] packets writes = ok ([], packets, writes)
handle_interfaces mem index (i ∷ is) packets writes = do
  (i', packets', w) ← interrupt_handler mem index i packets
  (is', packets'', writes') ← handle_interfaces mem index is packets' (writes ++ w)
  ok (i' ∷ is', packets'', writes')
