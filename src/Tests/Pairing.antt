-- ===== src/Tests/Pairing.antt =====
-- Pairing, with a stand-in for the block cipher that keeps the block.
use nrf_ble.Base.{
  ℕ, ◌+◌, ◌<◌, ◌≡◌, ◌≢◌, ◌⊎◌, refl, ap, arith, List, [], ◌∷◌, false, true, length, replicate,
  get_elem?, some, none,
}
use nrf_ble.Base.Results.{ok, err}
use nrf_ble.Hw.Smp.{s1}
use nrf_ble.Hw.Smp.State.{Smp, new, tk, invalid_smp_pdu, confirm_mismatch, waiting_start_enc}
use nrf_ble.Hw.Conn.Security.{Security}
use nrf_ble.Hw.Smp.Pairing.{handle_random}
use nrf_ble.Hw.Smp.PublicKey.{P256, compute_ltk_sc}
use nrf_ble.Hw.Smp.Sizes.{AllSized, new-IsSized, new-AllSized}
use nrf_ble.Hw.Smp.Verify.{Checked, accepted, refused, handle_random-outcome}
use nrf_ble.Hw.Smp.Calls.{Call, and_then, none_left, perform_all}
use nrf_ble.Hw.Smp.Calls.Kept.{perform_all-AllSized}
use nrf_ble.Hw.Smp.Agreement.{pair, pair-agrees}
use nrf_ble.Hw.Smp.SharedSecret.{IsCurve, share, share-agrees}

abbrev kept : List ℕ → List ℕ → List ℕ
kept key block = block

kept_size : (key block : List ℕ) → length block ≡ 16 → length (kept key block) ≡ 16
kept_size key block h = h

abbrev message : List ℕ
message = 4 ∷ replicate 16 9

handle_random-outcome_example :
    ((17 < 17) × (handle_random kept message new ≡ ok (err invalid_smp_pdu, new)))
    ⊎ ((random : List ℕ) × (expected : List ℕ) × (stk : List ℕ) × Checked kept kept_size message new
          random expected stk
        × (((expected ≡ new.peer_confirm)
              × (handle_random kept message new
                  ≡ ok (ok (4 ∷ new.own_random), accepted new random stk)))
            ⊎ ((expected ≢ new.peer_confirm)
                × (handle_random kept message new
                    ≡ ok (err confirm_mismatch, refused new random)))))
handle_random-outcome_example = handle_random-outcome kept kept_size message new new-IsSized

new_rat : new.rat ≡ 0
unfolding new
new_rat = refl

-- With this cipher the confirm value of a fresh state is the random value, so that it accepts zeros.
abbrev zeros : List ℕ
zeros = 4 ∷ replicate 16 0

-- A stand-in for the curve: a key is a number, and the secret is the sum.
abbrev sums : P256
sums = record {
  SecretKey = ℕ;
  Point = ℕ;
  PublicKey = ℕ;
  secret_of = λ bytes. some (length bytes);
  public_bytes = λ sk. 0x04 ∷ sk ∷ replicate 63 0;
  point_of = λ bytes. get_elem? bytes 1;
  public_of = λ point. some point;
  diffie_hellman = λ sk pk. replicate 32 (sk + pk);
}

sums-IsCurve : IsCurve sums
sums-IsCurve = record {
  public_key = λ sk. sk;
  encoded = λ sk. (sk ∷ replicate 63 0, refl, refl);
  decoded = λ sk. (sk, refl, refl);
  symmetric = λ x y. let e : x + y ≡ y + x = omega arith in ap (λ (k : ℕ). replicate 32 k) e;
  secret_size = λ x pk. refl;
}

abbrev calls : List Call
calls =
    Call.set_passkey (some 123456)
    ∷ Call.handle_pairing_request (replicate 7 1)
    ∷ Call.handle_random []
    ∷ Call.build_confirm 0 (replicate 6 1) (replicate 6 2)
    ∷ Call.handle_public_key (replicate 65 4)
    ∷ []

perform_all-AllSized_example : (t : Smp) × (perform_all kept sums calls new ≡ ok t) × AllSized t
perform_all-AllSized_example =
    perform_all-AllSized kept sums kept_size (λ sk pk. refl) calls new
      (and_then tt (and_then tt (and_then tt (and_then (refl, refl) (and_then tt none_left)))))
      new-AllSized

abbrev address : List ℕ
address = replicate 6 3

pair-agrees_example :
    (a' : Smp) × (b' : Smp) × (key : List ℕ) × (pair kept 0 address address new new ≡ ok (a', b'))
    × (a'.stk ≡ b'.stk)
    × (tk new ≡ ok key)
    × (s1 kept key (replicate 16 0x5A) (replicate 16 0x5A) ≡ ok a'.stk)
    × (a'.state ≡ waiting_start_enc)
    × (b'.state ≡ waiting_start_enc)
pair-agrees_example =
    pair-agrees kept kept_size 0 address address new new refl refl new-IsSized new-IsSized refl
      new_rat

abbrev link : Security
link = record {
  smp = new;
  tx = record {
    tx_att = replicate 251 0;
    tx_att_len = 0;
    tx_frag_offset = 0;
    tx_pending = false;
    tx_cid = 4;
    tx_pdu_max = 27;
    tx_buf = replicate 64 0;
    sn = false;
    nesn = false;
  };
  master = true;
  pairing_in_progress = true;
  pending_control = none;
  want_encrypt = false;
}

abbrev nines : List ℕ
nines = replicate 16 9

abbrev nonce : List ℕ
nonce = replicate 16 8

abbrev peer : List ℕ
peer = replicate 7 2

share-agrees_example :
    (a' : Smp) × (b' : Smp) × (ltk : List ℕ) × (share sums sums-IsCurve new new ≡ ok (a', b'))
    × (compute_ltk_sc kept a' nonce nonce peer peer ≡ ok ltk)
    × (compute_ltk_sc kept b' nonce nonce peer peer ≡ ok ltk)
share-agrees_example =
    share-agrees sums sums-IsCurve kept new new (length new.own_private) (length new.own_private)
      nonce nonce peer peer new-IsSized new-IsSized refl refl refl refl refl refl
