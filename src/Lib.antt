-- ===== src/Lib.antt =====
-- SchedraNIC: the driver model of a network interface with scheduled transmit queues
-- (tb/mqnic_core_pcie_us_schedule/mqnic.py), which runs in the simulator against the hardware
-- design of rtl/.
--
-- The driver keeps rings of descriptors in host memory. A transmit queue (Txq) puts a packet into a
-- packet buffer, describes it by the descriptors of one block, moves its producer pointer and rings
-- the scheduler's doorbell with the packet's rank. The device reports that a descriptor is done by
-- an entry in a completion queue (Cq); an event queue (Eq) says which Cq has new entries. A receive
-- queue (Rxq) hands empty buffers to the device and delivers the filled ones as packets. The
-- indices and register windows of each kind of queue come from a Resource, the register blocks of
-- the device from a chain (RegBlockList), the packet buffers from the Driver.
--
-- The hardware schedules by a PIFO, which a test bench holds against a reference heap.
--
-- Files and the code that they model, but for Pifo and Edf all of
-- tb/mqnic_core_pcie_us_schedule/mqnic.py:
--   Device      the exceptions of the code as values, and the register writes of a call in order
--   Resource    class Resource: __init__, alloc, free, get_count, get_window
--   Regs        the constants of the register map
--   RegBlocks   class RegBlock, class RegBlockList: enumerate_reg_blocks, find
--   Struct      the formats of Python's struct that are packed and unpacked, over byte buffers
--   Desc        the descriptor loops of Txq.tx_transmit and Rxq.prepare_desc
--   Packets     Driver.alloc_pkt, Driver.free_pkt
--   Ring        tx_info and rx_info: free_desc, free_buf, the loop over the consumer pointer
--   Drain       the loop over the entries of an Eq or a Cq, with its owner bit
--   Pointer     read_prod_ptr and read_cons_ptr of the four queue classes
--   Eq, Cq      class Eq (process_eq is in Interface), class Cq
--   Txq, Rxq    class Txq, class Rxq, class Packet
--   Xmit        Interface.start_xmit, from its call or a wake-up to the next wait or the packet sent
--   Port        class Port, the scheduler classes and class SchedulerBlock
--   Interface   class Interface as one state of all its objects, Eq.process_eq and the loop of
--               Driver.interrupt_handler over it, recv, recv_nowait, wait; Interface/Steps: its
--               runs, Interface/Run: what they keep, Interface/Arrivals: the packets that come
--   Setup       Interface.init, set_mtu and the receive queue map
--   Lifecycle   Interface.open, Interface.close; Lifecycle/Open: init followed by open
--   Interrupts  class Interrupt, Driver._run_edge_interrupts
--   Driver      Driver.init_pcie_dev, init_axi_dev, init_common; Driver/Handler: interrupt_handler
--               over all interfaces
--   Pifo        tb/PIFO/test_PIFO_SRAM_Top.py: RankMetaStructure, the packing of rank and meta, and
--               the two tests, as functions of the random draws and the PIFO's responses
--   Edf         tb/mqnic_core_pcie_us_schedule/test_mqnic_core_pcie_us.py: the EDF test, as a
--               function of the packets that come back
--   Prelude     the names shared by all files; Sample and the files Tests hold concrete states
--
-- A method is a function from the state that it reads to the state that it leaves and the register
-- writes that it makes, in order; one that can raise returns a Result. Nothing in the modelled code
-- catches an exception, so an error stands alone. An object that another one refers to (the Cq of a
-- queue, the Eq of a Cq) is named by its place and passed along. Names that are reserved words
-- carry a suffix: open_eq, open_cq, open_txq, open_rxq.
--
-- Numbers are unbounded, as Python's; masks and shifts are written out, and a packed field that is
-- too large is an error, as is a rank that does not fit the 32 bits of the doorbell's word. Sizes of 0 leave the integers in the code (2 ** -1) and are an error of
-- the model. Fuel: the loop over completions has one round of the Cq (`cq.size`), the loop over the
-- consumer pointer the number of outstanding descriptors, the walk over register blocks one round
-- for each aligned offset, which is enough. A running out of fuel is an error value that no theorem
-- about a result allows.
--
-- Parameters: the memory pool is the sequence of its answers; its contract (distinct regions,
-- within 64-bit addresses, up to a capacity) is a hypothesis. The register file that the walk reads
-- is a function. The contents of a Cq's memory are a function, of which the theorems ask only that
-- new completions name outstanding slots, each once; likewise the contents of an Eq's memory, of
-- which they ask that new events of completions name a Cq of the table. In a run the device may
-- report between any two calls. Each call is one step of a run: at its awaits no other call steps in.
--
-- Registers that initialisation reads do not change while it runs; where a register is written and
-- read back, the device is one that keeps what is written. The fuel of a walk over register blocks
-- is a parameter of the initialisation (`rounds`), of which the hypotheses ask that the walk ends.
--
-- Not modelled: the simulator's tasks beyond single turns, logging, plots, the PCIe device model
-- behind init_pcie_dev, the other tests and test benches, the hardware design.
pub mod Prelude
pub mod Device
pub mod Resource
pub mod Regs
pub mod RegBlocks
pub mod Struct
pub mod Desc
pub mod Packets
pub mod Ring
pub mod Drain
pub mod Pointer
pub mod Eq
pub mod Cq
pub mod Txq
pub mod Rxq
pub mod Xmit
pub mod Port
pub mod Interface
pub mod Setup
pub mod Lifecycle
pub mod Interrupts
pub mod Driver
pub mod Pifo
pub mod Edf
pub mod Sample
