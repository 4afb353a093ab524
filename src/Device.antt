-- ===== src/Device.antt =====
-- What every part of tb/mqnic_core_pcie_us_schedule/mqnic.py shares: the exceptions it can raise,
-- and the register writes it makes. Nothing in that file catches an exception, so a call that
-- raises is its error alone. A call that returns hands back its writes in order: the device sees
-- them through `await hw_regs.write_dword(reg, value)`, a window being named by its base address.
use schedra_nic.Prelude.{ℕ, ◌≡◌, refl, Bool, true, false}

pub data Error : Type 0 where
  already_open not_open index_error key_error type_error value_error assertion_error struct_error :
      Error
  attribute_error zero_division_error overflow_error timeout_error : Error
  -- the source leaves the integers (a size of 0), which the model does not follow
  not_an_integer : Error
  -- a loop that ran out of the model's fuel
  out_of_fuel : Error

-- `await window.write_dword(reg, value)`
pub record Write : Type 0 where
  pub window : ℕ
  pub reg : ℕ
  pub value : ℕ

abbrev pub write_dword : ℕ → ℕ → ℕ → Write
write_dword w r v = record { window = w; reg = r; value = v }

-- What a call returns, or the exception that it raises.
pub data Result {ℓ} (A : Type ℓ) : Type ℓ where
  ok : A → Result A
  err : Error → Result A

-- `assert test`, and `if not test: raise e`
abbrev pub guard : Bool → Error → Result (Unit {0})
guard false raised = err raised
guard true raised = ok tt

-- The rest of a method runs only if what stands before it has not raised.
infixl 5 ◌>>=◌
abbrev pub ◌>>=◌ {ℓ κ} : {A : Type ℓ} {B : Type κ} → Result A → (A → Result B) → Result B
err raised >>= rest = err raised
ok value >>= rest = rest value

-- A method that has returned: so has its first call, and the rest after it.
pub >>=-eq-ok {ℓ ℓ'} :
    {A : Type ℓ} {B : Type ℓ'} (first : Result A) (rest : A → Result B) {out : B}
    → (first >>= rest) ≡ ok out
    → (value : A) × (first ≡ ok value) × (rest value ≡ ok out)
>>=-eq-ok (err raised) rest returned = cc
>>=-eq-ok (ok value) rest returned = (value, refl, returned)

infixl 5 ◌>>◌
abbrev pub ◌>>◌ {ℓ} : {B : Type ℓ} → Result (Unit {0}) → Result B → Result B
first >> rest = first >>= λ _. rest
