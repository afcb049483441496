-- ===== src/Gap/Ad/Next.antt =====
-- What the iterator does at each position.
use mathlib.Core.Path.{subst}
use nrf_ble.Base.{
  leb-false, ℕ, zero, suc, ◌+◌, ◌≤◌, ◌<◌, ◌≡◌, refl, sym, ap, ◌∙◌, arith, List, [], ◌∷◌, ◌++◌,
  length, take, drop, leb, ltb, lt_false, ne→==, append_assoc, length-append, length-take, none,
  some, inl, inr, ◌⊎◌, ==→eq, Bool-cases, leb→le, take-append-drop, ◌==◌,
}
use nrf_ble.Base.Results.{ok, err, invalid_ad, index, slice}
use nrf_ble.Base.Slices.{drop-cons, slice-append}
use nrf_ble.Gap.Ad.{AdEntry, AdIter, next}
use nrf_ble.Gap.Ad.Layout.{entry_bytes}

pub index-append :
    (xs ys : List ℕ) (y i : ℕ) → length xs ≡ i → index {E = ⊥} (xs ++ y ∷ ys) i ≡ ok y
index-append [] ys y zero h = refl
index-append [] ys y (suc i) h = absurd (omega arith)
index-append (x ∷ xs) ys y zero h = absurd (omega arith)
index-append (x ∷ xs) ys y (suc i) h = index-append xs ys y i (omega arith)

abbrev pub at : List ℕ → ℕ → AdIter
at buf pos = record { buf = buf; pos = pos }

pub next_entry :
    (pre post : List ℕ) (e : AdEntry) (pos : ℕ)
    → length pre ≡ pos
    → next (at (pre ++ (entry_bytes e ++ post)) pos)
      ≡ ok (some (ok e), at (pre ++ (entry_bytes e ++ post)) (pos + length (entry_bytes e)))
unfolding next entry_bytes
next_entry pre post e pos size =
    let n = length e.«data» in
    let buf = pre ++ (entry_bytes e ++ post) in
    let a = length-append pre (entry_bytes e ++ post) in
    let b = length-append (entry_bytes e) post in
    let c = length-append pre ((n + 1) ∷ []) in
    let d = length-append (pre ++ (n + 1) ∷ []) (e.ad_type ∷ []) in
    let second = append_assoc pre ((n + 1) ∷ []) (e.ad_type ∷ e.«data» ++ post) in
    let third = append_assoc (pre ++ (n + 1) ∷ []) (e.ad_type ∷ []) (e.«data» ++ post) in
    let type_at : index {E = ⊥} buf (pos + 1) ≡ ok e.ad_type =
      ap (λ xs. index xs (pos + 1)) (sym second)
      ∙ index-append (pre ++ (n + 1) ∷ []) (e.«data» ++ post) e.ad_type (pos + 1) (omega arith) in
    let data_at : slice {E = ⊥} buf (pos + 2) (pos + 1 + (n + 1)) ≡ ok e.«data» =
      ap (λ xs. slice xs (pos + 2) (pos + 1 + (n + 1))) (sym (third ∙ second))
      ∙ slice-append (pre ++ (n + 1) ∷ [] ++ e.ad_type ∷ []) e.«data» post (pos + 2)
          (pos + 1 + (n + 1)) (omega arith) (omega arith) in
    let onward : pos + 1 + (n + 1) ≡ pos + length (entry_bytes e) = omega arith in
    let len_at : index {E = ⊥} buf pos ≡ ok (n + 1) =
      index-append pre (e.ad_type ∷ e.«data» ++ post) (n + 1) pos size in
    rw (
      leb-false (length buf) pos (omega arith),
      len_at,
      ne→== (n + 1) 0 (λ h. omega arith),
      lt_false (length buf) (pos + 1 + (n + 1)) (omega arith),
      type_at,
      data_at,
      onward,
    )

split_at :
    (buf : List ℕ) (pos : ℕ)
    → pos < length buf
    → (pre : List ℕ) × (len : ℕ) × (rest : List ℕ) × (buf ≡ pre ++ len ∷ rest) × (length pre ≡ pos)
split_at buf pos h =
    let (len, cut) = drop-cons pos buf h in
    (
      take pos buf,
      len,
      drop (suc pos) buf,
      sym (take-append-drop pos buf) ∙ ap (λ t. take pos buf ++ t) cut,
      length-take pos buf ∙ omega arith,
    )

entry_at :
    (len : ℕ) (rest : List ℕ)
    → 0 < len
    → len ≤ length rest
    → (e : AdEntry) × (post : List ℕ) × (len ∷ rest ≡ entry_bytes e ++ post)
      × (length (entry_bytes e) ≡ len + 1)
unfolding entry_bytes
entry_at zero rest h0 h = absurd (omega arith)
entry_at (suc k) [] h0 h = absurd (omega arith)
entry_at (suc k) (t ∷ rest) h0 h =
    let size : length (take k rest) ≡ k = length-take k rest ∙ omega arith in
    let head : suc k ≡ length (take k rest) + 1 = omega arith in
    (
      record { ad_type = t; «data» = take k rest },
      drop k rest,
      (λ i. head i ∷ t ∷ sym (take-append-drop k rest) i),
      omega arith,
    )

-- What `next` may do: end at the end of the buffer; yield the structure that stands at the position
-- and move behind it; or report an error and stay, where the length byte is 0 or more than what is
-- left.
pub data NextResult (it : AdIter) : Type 0 where
  at_end : length it.buf ≤ it.pos → next it ≡ ok (none, it) → NextResult it
  an_entry :
      (e : AdEntry) (pre post : List ℕ)
      → it.buf ≡ pre ++ (entry_bytes e ++ post)
      → length pre ≡ it.pos
      → next it ≡ ok (some (ok e), at it.buf (it.pos + length (entry_bytes e)))
      → NextResult it
  an_error :
      (pre rest : List ℕ) (len : ℕ)
      → it.buf ≡ pre ++ len ∷ rest
      → length pre ≡ it.pos
      → (len ≡ 0) ⊎ (length rest < len)
      → next it ≡ ok (some (err invalid_ad), it)
      → NextResult it

-- On any buffer and at any position, `next` does not panic. At the end of the buffer or behind it, it
-- yields nothing. If the length byte at the position is 0 or counts more bytes than are left behind it,
-- it reports an invalid structure and stays; otherwise it yields the structure whose bytes stand there,
-- and moves behind them.
pub next_lem : (it : AdIter) → NextResult it
unfolding next
next_lem it = elim (Bool-cases (leb (length it.buf) it.pos)) [
  | inl over ↦ at_end (leb→le (length it.buf) it.pos over) (rw over)
  | inr inside ↦
      let before : it.pos < length it.buf = ground arith in
      let (pre, len, rest, e, size) = split_at it.buf it.pos before in
      let len_at : index {E = ⊥} it.buf it.pos ≡ ok len =
        ap (λ xs. index xs it.pos) e ∙ index-append pre rest len it.pos size in
      let total = ap length e ∙ length-append pre (len ∷ rest) in
      elim (Bool-cases (len == 0)) [
        | inl zero_len ↦
            an_error pre rest len e size (inl (==→eq len 0 zero_len))
              (rw (inside, len_at, zero_len))
        | inr positive ↦ elim (Bool-cases (ltb (length it.buf) (it.pos + 1 + len))) [
          | inl long ↦
              an_error pre rest len e size
                (inr (let far : length it.buf < it.pos + 1 + len = ground arith in omega arith))
                (rw (inside, len_at, positive, long))
          | inr fits ↦
              let some_len : 0 < len = ground arith in
              let enough : it.pos + 1 + len ≤ length it.buf = ground arith in
              let (entry, post, cut, n) = entry_at len rest some_len (omega arith) in
              let whole : it.buf ≡ pre ++ (entry_bytes entry ++ post) =
                e ∙ ap (λ t. pre ++ t) cut in
              an_entry entry pre post whole size (
                subst
                  (λ b.
                    next (at b it.pos)
                    ≡ ok (some (ok entry), at b (it.pos + length (entry_bytes entry))))
                  (sym whole) (next_entry pre post entry it.pos size))
        ]
      ]
]
