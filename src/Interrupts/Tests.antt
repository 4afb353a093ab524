-- ===== src/Interrupts/Tests.antt =====
-- An interrupt with two entries, and a signal of four lines.
use schedra_nic.Prelude.{◌≡◌, refl, true, ◌&&◌, ltb, replicate}
use schedra_nic.Resource.Order.{elem}
use schedra_nic.Interrupts.{Interrupt, run, edge_interrupts}
use schedra_nic.Interrupts.Turns.{all_handled, is_high, edge_interrupts_lem}

abbrev twice : Interrupt
twice = record { index = 5; queue = 2; handler = true }

all_handled_example : run 3 twice ≡ (replicate 2 5, record twice { queue = 0 })
all_handled_example = all_handled twice refl

edge_interrupts_lem_example : elem 2 (edge_interrupts 4 6) ≡ (ltb 2 4 && is_high 6 2)
edge_interrupts_lem_example = edge_interrupts_lem 4 6 2
