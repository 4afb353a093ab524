-- ===== src/Setup/Fresh.antt =====
-- The resources and EQs that `Interface.init` leaves.
use schedra_nic.Prelude.{
  ℕ, zero, suc, ◌+◌, ◌*◌, ◌-◌, ◌≤◌, ◌≡◌, refl, ap, ◌∙◌, true, List, [], ◌∷◌, ◌++◌, some, arith,
  length, map, range_from, get_elem?, subst, same-some,
}
use schedra_nic.Device.{ok, Write, write_dword}
use schedra_nic.Struct.{word, peek}
use schedra_nic.Resource.{Resource, alloc, get_window}
use schedra_nic.Resource.Laws.{IsValid, get_window_lem, alloc_lem}
use schedra_nic.Packets.{Packets, Pool, alloc_region}
use schedra_nic.Packets.Ownership.{Owns, available, region-Owns}
use schedra_nic.Drain.{is_empty}
use schedra_nic.Ring.{bit_length}
use schedra_nic.Eq
use schedra_nic.Eq.{Eq, open_eq}
use schedra_nic.Cq.{Cq}
use schedra_nic.Interface.Well.{IsEq, eq_old}
use schedra_nic.Setup.{write_all, make_eqs}

-- The writes of the loop: one in the window of each index, in order. The free indices stay.
pub record WrittenAll (reg command : ℕ) (ks : List ℕ) (r : Resource) (after : Resource × List Write)
    : Type 0 where
  pub valid : IsValid after.0
  pub free_list : after.0.free_list ≡ r.free_list
  pub count : after.0.count ≡ r.count
  pub parent : after.0.parent ≡ r.parent
  pub stride : after.0.stride ≡ r.stride
  pub writes : after.1 ≡ map (λ k. write_dword (r.parent + k * r.stride) reg command) ks

window_same :
    (i : ℕ) (r : Resource)
    → ((get_window i r).1.count ≡ r.count)
      × ((get_window i r).1.parent ≡ r.parent)
      × ((get_window i r).1.stride ≡ r.stride)
unfolding get_window
window_same i r = (ground arith, ground arith, ground arith)

pub write_all_lem :
    (reg command : ℕ) (ks : List ℕ) (r : Resource)
    → IsValid r
    → WrittenAll reg command ks r (write_all reg command ks r)
unfolding write_all
write_all_lem reg command [] r v = record {
  valid = v;
  free_list = refl;
  count = refl;
  parent = refl;
  stride = refl;
  writes = refl;
}
write_all_lem reg command (k ∷ ks) r v =
    let (at, valid, same, _) = get_window_lem v k in
    let (count, parent, stride) = window_same k r in
    let rest = write_all_lem reg command ks (get_window k r).1 valid in
    record {
      valid = rest.valid;
      free_list = rest.free_list ∙ same;
      count = rest.count ∙ count;
      parent = rest.parent ∙ parent;
      stride = rest.stride ∙ stride;
      writes = rw (at, rest.writes, parent, stride) refl;
    }

-- An EQ that has just been opened is well formed, and has nothing new.
fresh_old : (irq eqn window buf_dma : ℕ) → eq_old (Eq.opened irq 1024 eqn window buf_dma) 0 ≡ true
unfolding is_empty word peek bit_length
fresh_old irq eqn window buf_dma = refl

pub fresh-IsEq :
    (cqs : List Cq) (irq eqn window buf_dma : ℕ) → IsEq cqs (Eq.opened irq 1024 eqn window buf_dma)
fresh-IsEq cqs irq eqn window buf_dma = record {
  size = refl;
  size_mask = refl;
  window = (window, refl);
  events = λ c l fresh.
      absurd (ground (arith, fresh 0 (omega arith) l, fresh_old irq eqn window buf_dma));
}

open_eq_lem :
    (irq i : ℕ) (res : Resource) {res' : Resource} (pool : Pool)
    → alloc res ≡ ok (i, res')
    → open_eq irq 1024 res pool Eq.new
      ≡ ok (record {
        eq = Eq.opened irq 1024 i (get_window i res').0 (alloc_region pool).0;
        eq_res = (get_window i res').1;
        pool = (alloc_region pool).1;
        writes =
            Eq.open_writes (get_window i res').0 (alloc_region pool).0 (bit_length 1024 - 1) irq;
      })
unfolding open_eq
open_eq_lem irq i res pool a = rw a refl

-- An EQ that `init` makes for an interrupt.
abbrev pub Fresh : ℕ → Eq → Type 0
Fresh irq eq = IsEq [] eq × (eq.irq ≡ some irq) × (eq.cons_ptr ≡ 0) × ((n : ℕ) × (eq.eqn ≡ some n))

-- The EQs that `init` makes.
pub record Made (irq n : ℕ) (packets : Packets) (other : ℕ → ℕ)
    (made : List Eq × Resource × Pool × List Write) : Type 0 where
  pub how_many : length made.0 ≡ n
  pub each : (p : ℕ) (eq : Eq) → get_elem? made.0 p ≡ some eq → Fresh irq eq
  pub owns : Owns (record packets { pool = made.2 }) other
  pub left : available packets ≤ available (record packets { pool = made.2 }) + n

alloc_next :
    (k n : ℕ) (r : Resource)
    → r.free_list ≡ range_from k (suc n)
    → (r' : Resource) × (alloc r ≡ ok (k, r')) × (r'.free_list ≡ range_from (k + 1) n)
unfolding alloc
alloc_next k n r e = (record r { free_list = range_from (k + 1) n }, ground (arith, e), refl)

each_of :
    (eqs : List Eq) (irq k window buf_dma : ℕ)
    → ((p : ℕ) (eq : Eq) → get_elem? eqs p ≡ some eq → Fresh irq eq)
    → (p : ℕ) (eq : Eq) → get_elem? (Eq.opened irq 1024 k window buf_dma ∷ eqs) p ≡ some eq
    → Fresh irq eq
each_of eqs irq k window buf_dma others zero eq h =
    subst (Fresh irq) (same-some h) (fresh-IsEq [] irq k window buf_dma, refl, refl, (k, refl))
each_of eqs irq k window buf_dma others (suc p) eq h = others p eq h

pub make_eqs_lem :
    (irq n k : ℕ) (res : Resource) {packets : Packets} {other : ℕ → ℕ}
    → res.free_list ≡ range_from k n
    → IsValid res
    → Owns packets other
    → (made : List Eq × Resource × Pool × List Write) × (make_eqs irq
          (range_from k n)
          res
          packets.pool
        ≡ ok made)
      × Made irq n packets other made
unfolding make_eqs
make_eqs_lem irq zero k res {packets} e v o = (
  ([], res, packets.pool, []),
  refl,
  record { how_many = refl; each = λ p eq h. absurd (cc); owns = o; left = omega arith },
)
make_eqs_lem irq (suc n) k res {packets} {other} e v o =
    let (res', a, free) = alloc_next k n res e in
    let (_, valid, same, _) = get_window_lem (alloc_lem v a).0 k in
    let (owns, one) = region-Owns o in
    let (made, m, rest) =
      make_eqs_lem irq n (k + 1) (get_window k res').1
        {packets = record packets { pool = (alloc_region packets.pool).1 }} (same ∙ free) valid
        owns in
    let first : Eq = Eq.opened irq 1024 k (get_window k res').0 (alloc_region packets.pool).0 in
    (
      (
        first ∷ made.0,
        made.1,
        made.2,
        Eq.open_writes (get_window k res').0 (alloc_region packets.pool).0 (bit_length 1024 - 1) irq
            ++ Eq.arm first
            ++ made.3,
      ),
      rw (open_eq_lem irq k res packets.pool a, m) refl,
      record {
        how_many = ap suc rest.how_many;
        each = λ p eq h.
            each_of made.0 irq k (get_window k res').0 (alloc_region packets.pool).0 rest.each p eq
              h;
        owns = rest.owns;
        left = omega (arith, one, rest.left);
      },
    )
