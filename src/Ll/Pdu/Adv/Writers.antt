-- ===== src/Ll/Pdu/Adv/Writers.antt =====
-- Each closure of `encode_typed` fills its slice with the layout of the PDU.
use nrf_ble.Base.{ℕ, suc, ◌+◌, ◌-◌, ◌≤◌, ◌≡◌, refl, ap, ◌∙◌, arith}
use nrf_ble.Base.{List, [], ◌∷◌, ◌++◌, length, drop, append_assoc, append-nil}
use nrf_ble.Base.{length-append, length-drop, drop_all}
use nrf_ble.Base.Results.{ok, Error, copy_to}
use nrf_ble.Base.Slices.{copy_to_fill, put_fill, slice_suffix}
use nrf_ble.Ll.Pdu.Fields.{AuxPtr, encode_aux}
use nrf_ble.Ll.Pdu.Adv.{adv_ext_ind, aux_adv_ext_ind, aux_adv_ext_ind_with_eh, periodic_adv}
use nrf_ble.Ll.Pdu.Adv.Encode.{
  write_addr_data, write_two_addrs, write_connect, write_ext, write_aux, write_aux_eh,
  write_periodic,
}
use nrf_ble.Ll.Pdu.Adv.Layout.{three, layout, Writes}

drop_end : (n : ℕ) (o : List ℕ) → length o ≡ n → drop n o ≡ []
drop_end n o h = drop_all n o (omega arith)

-- The last copy into a slice.
copy_to_end :
    (pre o src : List ℕ) (a b : ℕ)
    → length pre ≡ a
    → b ≡ a + length src
    → length o ≡ b
    → copy_to {E = Error} (pre ++ drop a o) a b src ≡ ok (pre ++ src)
copy_to_end pre o src a b size end whole =
    copy_to_fill pre o a b size src end (omega arith)
    ∙ rw (drop_end b o whole) (ap ok (append-nil (pre ++ src)))

module _ (a : List ℕ) (six : length a ≡ 6) where
  pub write_addr_data_lem : (d : List ℕ) → Writes (6 + length d) (write_addr_data a d) (a ++ d)
  unfolding write_addr_data
  write_addr_data_lem d o size =
      let filled = length-append a (drop 6 o) in
      let rest = length-drop 6 o in
      rw (copy_to_fill [] o 0 6 refl a (omega arith) (omega arith))
        (copy_to_end a o d 6 (length (a ++ drop 6 o)) six (omega arith) (omega arith))

  pub write_two_addrs_lem : (b : List ℕ) → length b ≡ 6 → Writes 12 (write_two_addrs a b) (a ++ b)
  unfolding write_two_addrs
  write_two_addrs_lem b size_b o size =
      rw (copy_to_fill [] o 0 6 refl a (omega arith) (omega arith))
        (copy_to_end a o b 6 12 six (omega arith) size)

  pub write_connect_lem :
      (b l : List ℕ) → length b ≡ 6 → length l ≡ 22 → Writes 34 (write_connect a b l) (a ++ b ++ l)
  unfolding write_connect
  write_connect_lem b l size_b size_l o size =
      let ab = length-append a b in
      rw
        (
          copy_to_fill [] o 0 6 refl a (omega arith) (omega arith),
          copy_to_fill a o 6 12 six b (omega arith) (omega arith),
        )
        (copy_to_end (a ++ b) o l 12 34 (omega arith) (omega arith) size)

  pub write_ext_lem :
      (mode : ℕ) (adi : ℕ × ℕ) (p : AuxPtr)
      → Writes 12 (write_ext a mode adi p) (layout (adv_ext_ind a mode adi p))
  unfolding write_ext
  write_ext_lem mode adi p o size =
      let am = a ++ (mode ∷ []) in
      let ax = am ++ (adi.0 ∷ adi.1 ∷ []) in
      let size_m : length am ≡ 7 = omega (arith, length-append a (mode ∷ [])) in
      let size_x : length ax ≡ 9 = omega (arith, length-append am (adi.0 ∷ adi.1 ∷ [])) in
      rw
        (
          copy_to_fill [] o 0 6 refl a (omega arith) (omega arith),
          put_fill a o 6 7 six mode refl (omega arith),
          copy_to_fill am o 7 9 size_m (adi.0 ∷ adi.1 ∷ []) refl (omega arith),
        )
        (copy_to_end ax o (three (encode_aux p)) 9 12 size_x refl size)

  pub write_aux_lem :
      (adi : ℕ × ℕ) (kind : ℕ) (d : List ℕ)
      → Writes (10 + length d) (write_aux a adi kind d) (layout (aux_adv_ext_ind a adi kind d))
  unfolding write_aux
  write_aux_lem adi kind d o size =
      let ax = a ++ (adi.0 ∷ adi.1 ∷ []) in
      let al = ax ++ (1 ∷ []) in
      let ak = al ++ (kind ∷ []) in
      let size_x : length ax ≡ 8 = omega (arith, length-append a (adi.0 ∷ adi.1 ∷ [])) in
      let size_l : length al ≡ 9 = omega (arith, length-append ax (1 ∷ [])) in
      let size_k : length ak ≡ 10 = omega (arith, length-append al (kind ∷ [])) in
      let filled = length-append ak (drop 10 o) in
      let rest = length-drop 10 o in
      rw
        (
          copy_to_fill [] o 0 6 refl a (omega arith) (omega arith),
          copy_to_fill a o 6 8 six (adi.0 ∷ adi.1 ∷ []) refl (omega arith),
          put_fill ax o 8 9 size_x 1 refl (omega arith),
          put_fill al o 9 10 size_l kind refl (omega arith),
        )
        (copy_to_end ak o d 10 (length (ak ++ drop 10 o)) size_k (omega arith) (omega arith))

  pub write_aux_eh_lem :
      (adi : ℕ × ℕ) (ehs d : List ℕ)
      → 1 ≤ length ehs
      → Writes
          (8 + length ehs + length d)
          (write_aux_eh a adi ehs d)
          (layout (aux_adv_ext_ind_with_eh a adi ehs d))
  unfolding write_aux_eh
  write_aux_eh_lem adi [] d full o size = absurd (omega arith)
  write_aux_eh_lem adi (n ∷ fields) d full o size =
      let ax = a ++ (adi.0 ∷ adi.1 ∷ []) in
      let an = ax ++ (n ∷ []) in
      let af = an ++ fields in
      let start = 9 + length (n ∷ fields) - 1 in
      let size_x : length ax ≡ 8 = omega (arith, length-append a (adi.0 ∷ adi.1 ∷ [])) in
      let size_n : length an ≡ 9 = omega (arith, length-append ax (n ∷ [])) in
      let size_f : length af ≡ start = omega (arith, length-append an fields) in
      let joined = append_assoc ax (n ∷ []) fields in
      rw
        (
          copy_to_fill [] o 0 6 refl a (omega arith) (omega arith),
          copy_to_fill a o 6 8 six (adi.0 ∷ adi.1 ∷ []) refl (omega arith),
          put_fill ax o 8 9 size_x n refl (omega arith),
          slice_suffix (n ∷ []) fields 1 (suc (length fields)) refl refl,
          copy_to_fill an o 9 start size_n fields (omega arith) (omega arith),
        )
        (copy_to_end af o d start (start + length d) size_f refl (omega arith)
          ∙ ap (λ t. ok (t ++ d)) joined)

pub write_periodic_lem :
    (mode : ℕ) (adi : ℕ × ℕ) → Writes 3 (write_periodic mode adi) (layout (periodic_adv mode adi))
unfolding write_periodic
write_periodic_lem mode adi o size =
    rw (put_fill [] o 0 1 refl mode refl (omega arith))
      (copy_to_end (mode ∷ []) o (adi.0 ∷ adi.1 ∷ []) 1 3 refl refl size)
