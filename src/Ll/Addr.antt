-- ===== src/Ll/Addr.antt =====
-- Device addresses: src/ll/addr.rs. An address is a list of six bytes.
use nrf_ble.Base.{ℕ, ◌/◌, ◌^◌, List, Bool, true, false, ◌==◌, if◌then◌else◌}
use nrf_ble.Base.Results.{Result, ok, index, ◌>>=◌}

pub data AddrType : Type 0 where
  public random_static random_private_resolvable random_private_non_resolvable : AddrType

unfoldable pub is_random : AddrType → Bool
is_random public = false
is_random _ = true

pub record BtAddr : Type 0 where
  pub addr : List ℕ
  pub addr_type : AddrType

unfoldable pub from_bytes : List ℕ → AddrType → BtAddr
from_bytes addr addr_type = record { addr = addr; addr_type = addr_type }

-- The type that the top two bits of the last byte stand for.
unfoldable pub type_of_bits : ℕ → AddrType
type_of_bits top =
    if top == 3
    then random_static
    else if top == 1
    then random_private_resolvable
    else random_private_non_resolvable

unfoldable pub parse : List ℕ → Result ⊥ BtAddr
parse addr = do
  last ← index addr 5
  ok (record { addr = addr; addr_type = type_of_bits (last / 2 ^ 6) })

unfoldable pub tx_add_bit : BtAddr → Bool
tx_add_bit a = is_random a.addr_type

-- The equality that Rust derives for the enum.
unfoldable pub type_eq : AddrType → AddrType → Bool
type_eq public public = true
type_eq random_static random_static = true
type_eq random_private_resolvable random_private_resolvable = true
type_eq random_private_non_resolvable random_private_non_resolvable = true
type_eq _ _ = false
