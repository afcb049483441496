-- ===== src/Hw/Smp/State.antt =====
-- The state of a pairing: `SmpError`, `SmpState` and `Smp` of src/hw/smp.rs, with what sets single
-- fields of it.
use nrf_ble.Base.{ℕ, List, [], ◌∷◌, replicate, Bool, true, false, Option, none, some}
use nrf_ble.Base.Results.{Result, ok, copy_to}
use nrf_ble.Ll.Pdu.Fields.{le32}

abbrev pub smp_public_key : ℕ
smp_public_key = 0x0C

abbrev pub smp_pairing_request : ℕ
smp_pairing_request = 0x01

abbrev pub smp_pairing_response : ℕ
smp_pairing_response = 0x02

abbrev pub smp_pairing_confirm : ℕ
smp_pairing_confirm = 0x03

abbrev pub smp_pairing_random : ℕ
smp_pairing_random = 0x04

abbrev pub smp_pairing_failed : ℕ
smp_pairing_failed = 0x05

abbrev pub smp_encryption_information : ℕ
smp_encryption_information = 0x06

abbrev pub smp_master_identification : ℕ
smp_master_identification = 0x07

abbrev pub smp_security_request : ℕ
smp_security_request = 0x0B

abbrev pub smp_pairing_failed_unspecified : ℕ
smp_pairing_failed_unspecified = 0x08

abbrev pub smp_reason_oob : ℕ
smp_reason_oob = 0x02

abbrev pub smp_reason_auth : ℕ
smp_reason_auth = 0x05

abbrev pub smp_reason_confirm : ℕ
smp_reason_confirm = 0x06

abbrev pub io_no_input_no_output : ℕ
io_no_input_no_output = 0x03

pub data SmpError : Type 0 where
  invalid_smp_pdu confirm_mismatch : SmpError

pub data SmpState : Type 0 where
  idle wait_pairing_response wait_confirm wait_random waiting_start_enc encrypted : SmpState

-- `SmpState::pairing`
unfoldable pub pairing : SmpState → Bool
pairing idle = false
pairing encrypted = false
pairing wait_pairing_response = true
pairing wait_confirm = true
pairing wait_random = true
pairing waiting_start_enc = true

-- The sizes of the arrays are those of `IsSized` (Hw/Smp/Sizes.antt).
pub record Smp : Type 0 where
  pub state : SmpState
  pub own_random : List ℕ
  pub peer_random : List ℕ
  pub own_confirm : List ℕ
  pub peer_confirm : List ℕ
  pub preq : List ℕ
  pub pres : List ℕ
  pub iat : ℕ
  pub rat : ℕ
  pub ia : List ℕ
  pub ra : List ℕ
  pub stk : List ℕ
  pub responder : Bool
  pub pairing_failed : ℕ
  pub passkey : Option ℕ
  pub sc : Bool
  pub own_private : List ℕ
  pub peer_public : List ℕ
  pub dhkey : List ℕ
  pub sc_nonce : List ℕ
  pub peer_nonce : List ℕ

unfoldable pub new : Smp
new = record {
  state = idle;
  own_random = replicate 16 0;
  peer_random = replicate 16 0;
  own_confirm = replicate 16 0;
  peer_confirm = replicate 16 0;
  preq = replicate 7 0;
  pres = replicate 7 0;
  iat = 0;
  rat = 0;
  ia = replicate 6 0;
  ra = replicate 6 0;
  stk = replicate 16 0;
  responder = false;
  pairing_failed = 0;
  passkey = none;
  sc = false;
  own_private = replicate 32 0;
  peer_public = replicate 64 0;
  dhkey = replicate 32 0;
  sc_nonce = replicate 16 0;
  peer_nonce = replicate 16 0;
}

unfoldable pub set_passkey : Option ℕ → Smp → Smp
set_passkey passkey s = record s { passkey = passkey }

unfoldable pub enable_sc : Smp → Smp
enable_sc s = record s { sc = true }

-- The temporary key of a passkey; `TK_JUST_WORKS` without one.
abbrev pub tk_of : Option ℕ → Result ⊥ (List ℕ)
tk_of (some pk) = copy_to (replicate 16 0) 0 4 (le32 pk)
tk_of none = ok (replicate 16 0)

unfoldable pub tk : Smp → Result ⊥ (List ℕ)
tk s = tk_of s.passkey

unfoldable pub build_failed : ℕ → List ℕ
build_failed reason = smp_pairing_failed ∷ reason ∷ []

unfoldable pub fail_unspecified : Smp → List ℕ × Smp
fail_unspecified s = (
  build_failed smp_pairing_failed_unspecified,
  record s { pairing_failed = smp_pairing_failed_unspecified },
)

unfoldable pub fail_oob : Smp → List ℕ × Smp
fail_oob s = (build_failed smp_reason_oob, record s { pairing_failed = smp_reason_oob })

unfoldable pub fail_auth : Smp → List ℕ × Smp
fail_auth s = (build_failed smp_reason_auth, record s { pairing_failed = smp_reason_auth })
