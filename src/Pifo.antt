-- ===== src/Pifo.antt =====
-- The test bench of the hardware's PIFO, tb/PIFO/test_PIFO_SRAM_Top.py: its reference structure
-- (RankMetaStructure) and the two tests that hold the PIFO against it. The bits that the tests draw
-- and the words that the PIFO answers are parameters. The heap of heapq, of which the code reads the
-- least element and pops it, is the list of its elements in ascending order.
pub mod Sorted
pub mod Accepts
mod Tests
use schedra_nic.Prelude.{
  ℕ, ◌+◌, ◌-◌, ◌^◌, Bool, ◌&&◌, ◌||◌, List, [], ◌∷◌, ltb, leb, ◌==◌, if◌then◌else◌, bit_and, bit_or,
  shl, shr,
}
use schedra_nic.Device.{Result, ok, err, value_error, ◌>>=◌}

abbrev pub ptw : ℕ
ptw = 16

abbrev pub mtw : ℕ
mtw = 24

-- `self.Data`: pairs of a rank and a meta.
abbrev pub Heap : Type 0
Heap = List (ℕ × ℕ)

-- Tuples are compared by their first components, and by their second where these are equal.
abbrev pub tuple_le : ℕ × ℕ → ℕ × ℕ → Bool
tuple_le (r, m) (r', m') = ltb r r' || (r == r' && leb m m')

-- heapq.heappush
unfoldable pub heappush : Heap → ℕ × ℕ → Heap
heappush [] x = x ∷ []
heappush (y ∷ ys) x = if tuple_le x y then x ∷ y ∷ ys else y ∷ heappush ys x

-- RankMetaStructure.insert
unfoldable pub insert : (rank meta : ℕ) → Heap → Heap
unfolding heappush
insert rank meta heap = heappush heap (rank, meta)

-- RankMetaStructure.check_and_remove_min: the meta of the least element, if its rank is the one
-- given. The second argument is not used.
unfoldable pub check_and_remove_min : (input_rank meta : ℕ) → Heap → Result (ℕ × Heap)
check_and_remove_min input_rank meta [] = err value_error
check_and_remove_min input_rank meta ((min_rank, min_meta) ∷ heap) =
    if input_rank == min_rank then ok (min_meta, heap) else err value_error

-- `(rank_Data << MTW) | meta_Data`, and the two fields of a response.
unfoldable pub push_word : (rank meta : ℕ) → ℕ
push_word rank meta = bit_or (shl rank mtw) meta

unfoldable pub rev_rank : ℕ → ℕ
rev_rank word = bit_and (shr word mtw) (2 ^ ptw - 1)

unfoldable pub rev_meta : ℕ → ℕ
rev_meta word = bit_and word (2 ^ mtw - 1)

-- `for i in range(num)` over pushes, from `i` on: the words that the PIFO gets, and the structure.
-- `draws` are the results of getrandbits.
unfoldable pub push_all : (i : ℕ) (draws : List ℕ) → Heap → List ℕ × Heap
push_all i [] heap = ([], heap)
push_all i (draw ∷ draws) heap =
    let meta_data = bit_and (i + 1) (2 ^ mtw - 1) in
    let rank_data = bit_and draw (2 ^ ptw - 1) in
    let (words, heap') = push_all (i + 1) draws (insert rank_data meta_data heap) in
    (push_word rank_data meta_data ∷ words, heap')

-- The loop over pops, with the responses of the PIFO.
unfoldable pub pop_all : (responses : List ℕ) → Heap → Result Heap
pop_all [] heap = ok heap
pop_all (resp ∷ responses) heap = do
  (meta, heap') ← check_and_remove_min (rev_rank resp) (rev_meta resp) heap
  pop_all responses heap'

-- TB.push_all_pop_all, on an empty structure.
unfoldable pub push_all_pop_all : (draws responses : List ℕ) → Result Heap
push_all_pop_all draws responses = pop_all responses (push_all 0 draws []).1

-- `await self.consumer(1); await self.producer(1)`, for each pair of a response and a draw.
unfoldable pub turns : List (ℕ × ℕ) → Heap → Result Heap
turns [] heap = ok heap
turns ((resp, draw) ∷ rest) heap = do
  heap' ← pop_all (resp ∷ []) heap
  turns rest (push_all 0 (draw ∷ []) heap').1

-- TB.push_and_pop_concurrent, on an empty structure: the first push, the turns, and the last pop.
unfoldable pub push_and_pop_concurrent : (draw : ℕ) (rounds : List (ℕ × ℕ)) (resp : ℕ) → Result Heap
push_and_pop_concurrent draw rounds resp = do
  heap ← turns rounds (push_all 0 (draw ∷ []) []).1
  pop_all (resp ∷ []) heap
