-- ===== src/Hw/Smp/Sizes.antt =====
-- The sizes of the arrays of a pairing's state, which no method changes.
use nrf_ble.Base.{ℕ, ◌≡◌, refl, arith, List, [], ◌∷◌, length, replicate, Option, none, some}
use nrf_ble.Base.Results.{ok, copy_to}
use nrf_ble.Base.Slices.{copy_to_end}
use nrf_ble.Hw.Smp.Commit.{HasInputSizes}
use nrf_ble.Hw.Smp.State.{Smp, tk, tk_of, new}
use nrf_ble.Hw.Smp.Pairing.{pdu17, inputs_with}

pub record IsSized (s : Smp) : Type 0 where
  pub own_random_size : length s.own_random ≡ 16
  pub peer_random_size : length s.peer_random ≡ 16
  pub own_confirm_size : length s.own_confirm ≡ 16
  pub peer_confirm_size : length s.peer_confirm ≡ 16
  pub preq_size : length s.preq ≡ 7
  pub pres_size : length s.pres ≡ 7
  pub ia_size : length s.ia ≡ 6
  pub ra_size : length s.ra ≡ 6
  pub stk_size : length s.stk ≡ 16
  pub dhkey_size : length s.dhkey ≡ 32
  pub peer_public_size : length s.peer_public ≡ 64

-- All arrays of the state, those included that legacy pairing does not use.
pub record AllSized (s : Smp) : Type 0 where
  pub arrays : IsSized s
  pub own_private_size : length s.own_private ≡ 32
  pub sc_nonce_size : length s.sc_nonce ≡ 16
  pub peer_nonce_size : length s.peer_nonce ≡ 16

-- The same as a product, whose components can be exchanged.
abbrev pub Sizes : Smp → Type 0
Sizes s =
    (length s.own_random ≡ 16)
    × (length s.peer_random ≡ 16)
    × (length s.own_confirm ≡ 16)
    × (length s.peer_confirm ≡ 16)
    × (length s.preq ≡ 7)
    × (length s.pres ≡ 7)
    × (length s.ia ≡ 6)
    × (length s.ra ≡ 6)
    × (length s.stk ≡ 16)
    × (length s.dhkey ≡ 32)
    × (length s.peer_public ≡ 64)
    × (length s.own_private ≡ 32)
    × (length s.sc_nonce ≡ 16)
    × (length s.peer_nonce ≡ 16)

pub sizes : {s : Smp} → AllSized s → Sizes s
sizes all =
    let i = all.arrays in
    (
      i.own_random_size, i.peer_random_size, i.own_confirm_size, i.peer_confirm_size, i.preq_size,
      i.pres_size, i.ia_size, i.ra_size, i.stk_size, i.dhkey_size, i.peer_public_size,
      all.own_private_size, all.sc_nonce_size, all.peer_nonce_size,
    )

pub all_sized : {s : Smp} → Sizes s → AllSized s
all_sized (a, b, c, d, e, f, g, h, i, j, k, l, m, n) = record {
  arrays = record {
    own_random_size = a;
    peer_random_size = b;
    own_confirm_size = c;
    peer_confirm_size = d;
    preq_size = e;
    pres_size = f;
    ia_size = g;
    ra_size = h;
    stk_size = i;
    dhkey_size = j;
    peer_public_size = k;
  };
  own_private_size = l;
  sc_nonce_size = m;
  peer_nonce_size = n;
}

pub new-IsSized : IsSized new
unfolding new
new-IsSized = record {
  own_random_size = refl;
  peer_random_size = refl;
  own_confirm_size = refl;
  peer_confirm_size = refl;
  preq_size = refl;
  pres_size = refl;
  ia_size = refl;
  ra_size = refl;
  stk_size = refl;
  dhkey_size = refl;
  peer_public_size = refl;
}

pub new-AllSized : AllSized new
unfolding new
new-AllSized = record {
  arrays = new-IsSized;
  own_private_size = refl;
  sc_nonce_size = refl;
  peer_nonce_size = refl;
}

-- A PDU of an opcode and a block.
pub pdu17-block : (op : ℕ) (v : List ℕ) → length v ≡ 16 → pdu17 op v ≡ ok (op ∷ v)
pdu17-block op v h =
    copy_to_end {E = ⊥} (op ∷ []) (replicate 16 0) v 1 17 refl (omega arith) (omega arith)

-- An array that is overwritten as a whole.
pub copy_whole :
    (xs src : List ℕ) (n : ℕ) → length xs ≡ n → length src ≡ n → copy_to {E = ⊥} xs 0 n src ≡ ok src
copy_whole xs src n h h' = copy_to_end {E = ⊥} [] xs src 0 n refl (omega arith) (omega arith)

pub tk-total : (s : Smp) → (key : List ℕ) × (tk s ≡ ok key) × (length key ≡ 16)
unfolding tk
tk-total s = key_of s.passkey
  where
    key_of : (passkey : Option ℕ) → (key : List ℕ) × (tk_of passkey ≡ ok key) × (length key ≡ 16)
    key_of none = (_, refl, refl)
    key_of (some pk) = (_, refl, refl)

pub inputs-HasInputSizes :
    (random : List ℕ) (s : Smp) → IsSized s → HasInputSizes (inputs_with random s)
inputs-HasInputSizes random s sized = record {
  preq_size = sized.preq_size;
  pres_size = sized.pres_size;
  ia_size = sized.ia_size;
  ra_size = sized.ra_size;
}
