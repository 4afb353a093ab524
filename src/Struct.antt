-- ===== src/Struct.antt =====
-- Python's `struct` for the formats that the driver packs and unpacks, all of them little endian
-- and unpadded, and the bytes of a buffer: a function of the offset, which a write changes.
pub mod Bytes
use schedra_nic.Prelude.{
  ℕ, zero, suc, ◌+◌, ◌*◌, ◌/◌, ◌%◌, ◌^◌, List, [], ◌∷◌, ◌==◌, ltb, if◌then◌else◌,
}
use schedra_nic.Device.{Result, ok, err, guard, struct_error, ◌>>=◌, ◌>>◌}

abbrev pub Bytes : Type 0
Bytes = ℕ → ℕ

-- The `n` low bytes of a number, lowest first.
abbrev pub le_bytes : ℕ → ℕ → List ℕ
le_bytes zero v = []
le_bytes (suc n) v = (v % 256) ∷ le_bytes n (v / 256)

abbrev pub from_le : List ℕ → ℕ
from_le [] = 0
from_le (b ∷ bs) = b + 256 * from_le bs

-- `buf[a:a+len(bs)] = bs`
unfoldable pub poke : Bytes → ℕ → List ℕ → Bytes
poke m a [] = m
poke m a (b ∷ bs) = poke (λ j. if a == j then b else m j) (a + 1) bs

-- `buf[a:a+n]`
unfoldable pub peek : Bytes → ℕ → ℕ → List ℕ
peek m a zero = []
peek m a (suc n) = m a ∷ peek m (a + 1) n

-- One unsigned field of `w` bytes, as `struct.unpack_from` reads it.
unfoldable pub word : Bytes → ℕ → ℕ → ℕ
unfolding peek
word m a w = from_le (peek m a w)

-- `struct.pack_into`: the fields in order, each by its width and its value. A value that does not
-- fit its width raises `struct.error`; pad bytes are a field of zeros.
unfoldable pub pack_into : Bytes → ℕ → List (ℕ × ℕ) → Result Bytes
pack_into m a [] = ok m
pack_into m a ((w, v) ∷ fs) = do
  guard (ltb v (256 ^ w)) struct_error
  pack_into (poke m a (le_bytes w v)) (a + w) fs
