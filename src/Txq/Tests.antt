-- ===== src/Txq/Tests.antt =====
-- A transmit queue of four blocks of two descriptors, opened, used and completed.
use schedra_nic.Prelude.{ℕ, ◌≡◌, List, [], ◌∷◌, arith}
use schedra_nic.Device.{ok}
use schedra_nic.Struct.{Bytes}
use schedra_nic.Txq.{Sent, tx_transmit, Processed, process_tx_cq_up}
use schedra_nic.Txq.Transmit.{CanSend, Transmitted, tx_transmit_lem}
use schedra_nic.Txq.Complete.{Completed, process_tx_cq_lem}
use schedra_nic.Sample.{txq, txq-IsOpen, packets, packets-Owns, cq, cq-IsCq, cq-Answers}

abbrev data_sent : List ℕ
data_sent = 0xde ∷ 0xad ∷ 0xbe ∷ 0xef ∷ []

can_send : CanSend data_sent 0x8000 txq
can_send = record { room = omega arith; fits = omega arith; csum = omega arith }

abbrev memory : Bytes
memory = λ _. 0

tx_transmit_lem_example :
    (s : Sent) × (tx_transmit data_sent 9 0x8000 txq packets memory ≡ ok s)
    × Transmitted (λ _. 0) txq-IsOpen can_send packets-Owns (omega arith) 9 s
tx_transmit_lem_example =
    tx_transmit_lem (λ _. 0) txq-IsOpen can_send packets-Owns (omega arith) 9 memory (omega arith)

process_tx_cq_lem_example :
    (r : Processed) × (process_tx_cq_up cq txq packets ≡ ok r) × Completed cq txq packets (λ _. 0) r
process_tx_cq_lem_example = process_tx_cq_lem txq-IsOpen cq-IsCq packets-Owns cq-Answers
