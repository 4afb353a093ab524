-- ===== src/Interrupts.antt =====
-- `class Interrupt` and `Driver._run_edge_interrupts` of tb/mqnic_core_pcie_us_schedule/mqnic.py. A
-- task of the simulator is a function from the state at a wake-up to the state at its next wait.
pub mod Turns
mod Tests
use schedra_nic.Prelude.{
  ℕ, zero, suc, ◌+◌, ◌-◌, Bool, true, false, List, [], ◌∷◌, ◌++◌, Option, none, some, if◌then◌else◌,
  bit_and, shl, map, range_from,
}
use schedra_nic.Drain.{truth}

-- The queue holds None's only, so their number says it all. `handler` tells whether there is one.
pub record Interrupt : Type 0 where
  pub index : ℕ
  pub queue : ℕ
  pub handler : Bool

-- Interrupt.__init__
abbrev pub new : (index : ℕ) (handler : Bool) → Interrupt
new index handler = record { index = index; queue = 0; handler = handler }

-- Interrupt.interrupt, awaited
unfoldable pub interrupt : Interrupt → Interrupt
interrupt irq = record irq { queue = irq.queue + 1 }

-- A round of Interrupt._run: the index that the handler is called with, if there is a handler; no
-- round while the queue is empty.
unfoldable pub run_once : Interrupt → Option (List ℕ × Interrupt)
run_once irq = elim irq.queue [
  | zero ↦ none
  | suc n ↦ some (if irq.handler then irq.index ∷ [] else [], record irq { queue = n })
]

-- Interrupt._run up to its next wait: the calls of the handler, in order. The fuel bounds the
-- rounds.
unfoldable pub run : (fuel : ℕ) → Interrupt → List ℕ × Interrupt
run zero irq = ([], irq)
run (suc fuel) irq = elim (run_once irq) [
  | none ↦ ([], irq)
  | some (calls, irq') ↦ let rest = run fuel irq' in (calls ++ rest.0, rest.1)
]

-- Interrupt._run_edge on an edge: `self.interrupt()` is not awaited, and does nothing.
unfoldable pub on_edge : Interrupt → Interrupt
on_edge irq = irq

-- `x & ~y`
abbrev pub and_not : ℕ → ℕ → ℕ
and_not x y = x - bit_and x y

-- `x for x in range(count) if edge & (1 << x)`, from x on.
unfoldable pub raised : (edge : ℕ) → List ℕ → List ℕ
raised edge [] = []
raised edge (x ∷ xs) =
    let rest = raised edge xs in if truth (bit_and edge (shl 1 x)) then x ∷ rest else rest

-- Driver._run_edge_interrupts on a change of the signal: the interrupts that it raises. `last_val`
-- is 0 from the start, and is never set.
unfoldable pub edge_interrupts : (count val : ℕ) → List ℕ
unfolding raised
edge_interrupts count val = raised (and_not val 0) (range_from 0 count)

-- `self.irq_list[index].interrupt()`, awaited, for each of the indices.
unfoldable pub raise_at : ℕ → List Interrupt → List Interrupt
unfolding interrupt
raise_at x [] = []
raise_at zero (irq ∷ irqs) = interrupt irq ∷ irqs
raise_at (suc x) (irq ∷ irqs) = irq ∷ raise_at x irqs

-- "set up MSI": an interrupt for each of 32 vectors.
unfoldable pub msi_list : List Interrupt
msi_list = map (λ index. new index true) (range_from 0 32)
