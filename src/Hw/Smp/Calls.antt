-- ===== src/Hw/Smp/Calls.antt =====
-- Sequences of calls of a pairing's methods.
pub mod Kept
use nrf_ble.Base.{ℕ, ◌≡◌, List, [], ◌∷◌, length, Option}
use nrf_ble.Base.Results.{Result, ok, ◌>>=◌}
use nrf_ble.Hw.Smp.State
use nrf_ble.Hw.Smp.State.{Smp}
use nrf_ble.Hw.Smp.Pairing
use nrf_ble.Hw.Smp.PublicKey
use nrf_ble.Hw.Smp.PublicKey.{P256}

-- The methods that change the state, with their arguments.
pub data Call : Type 0 where
  set_passkey : Option ℕ → Call
  enable_sc build_pairing_request fail_unspecified fail_oob fail_auth : Call
  handle_pairing_request handle_pairing_response handle_confirm handle_random handle_public_key :
      List ℕ → Call
  build_confirm : ℕ → List ℕ → List ℕ → Call

-- The state that a call leaves; its result is dropped.
abbrev pub after : {A : Type 0} → Result ⊥ (A × Smp) → Result ⊥ Smp
after call = do (_, s) ← call; ok s

-- The arguments have the sizes that their types state.
abbrev pub IsTyped : Call → Type 0
IsTyped (build_confirm iat ia ra) = (length ia ≡ 6) × (length ra ≡ 6)
IsTyped (set_passkey passkey) = Unit {0}
IsTyped enable_sc = Unit {0}
IsTyped build_pairing_request = Unit {0}
IsTyped fail_unspecified = Unit {0}
IsTyped fail_oob = Unit {0}
IsTyped fail_auth = Unit {0}
IsTyped (handle_pairing_request body) = Unit {0}
IsTyped (handle_pairing_response body) = Unit {0}
IsTyped (handle_confirm body) = Unit {0}
IsTyped (handle_random body) = Unit {0}
IsTyped (handle_public_key body) = Unit {0}

pub data AllTyped : List Call → Type 0 where
  none_left : AllTyped []
  and_then :
      {call : Call} {calls : List Call} → IsTyped call → AllTyped calls → AllTyped (call ∷ calls)

module _ (encrypt : List ℕ → List ℕ → List ℕ) (p256 : P256) where
  abbrev pub perform : Call → Smp → Result ⊥ Smp
  perform (set_passkey passkey) s = ok (State.set_passkey passkey s)
  perform enable_sc s = ok (State.enable_sc s)
  perform build_pairing_request s = after (ok (Pairing.build_pairing_request s))
  perform fail_unspecified s = after (ok (State.fail_unspecified s))
  perform fail_oob s = after (ok (State.fail_oob s))
  perform fail_auth s = after (ok (State.fail_auth s))
  perform (handle_pairing_request body) s = after (Pairing.handle_pairing_request body s)
  perform (handle_pairing_response body) s = after (Pairing.handle_pairing_response body s)
  perform (handle_confirm body) s = after (Pairing.handle_confirm body s)
  perform (handle_random body) s = after (Pairing.handle_random encrypt body s)
  perform (handle_public_key body) s = after (PublicKey.handle_public_key p256 body s)
  perform (build_confirm iat ia ra) s = after (Pairing.build_confirm encrypt iat ia ra s)

  unfoldable pub perform_all : List Call → Smp → Result ⊥ Smp
  perform_all [] s = ok s
  perform_all (call ∷ calls) s = do s ← perform call s; perform_all calls s
