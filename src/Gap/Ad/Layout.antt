-- ===== src/Gap/Ad/Layout.antt =====
-- The bytes that `build` writes.
use nrf_ble.Base.{
  ℕ, ◌+◌, ◌≤◌, ◌≡◌, refl, sym, ap, ◌∙◌, arith, List, [], ◌∷◌, ◌++◌, length, drop, lt_false,
  append_assoc, length-append, length-drop, append-nil,
}
use nrf_ble.Base.Results.{ok, Error}
use nrf_ble.Base.Slices.{copy_to_fill, put_fill}
use nrf_ble.Gap.Ad.{AdEntry, build_loop}

-- The bytes of one structure and of several.
unfoldable pub entry_bytes : AdEntry → List ℕ
entry_bytes e = (length e.«data» + 1) ∷ e.ad_type ∷ e.«data»

unfoldable pub packed : List AdEntry → List ℕ
packed [] = []
packed (e ∷ es) = entry_bytes e ++ packed es

-- A structure's payload length fits the length byte.
abbrev pub Fits : List AdEntry → Type 0
Fits [] = Unit {0}
Fits (e ∷ es) = (length e.«data» ≤ 254) × Fits es

pub build_loop-ok :
    (es : List AdEntry) (pre out : List ℕ) (pos : ℕ)
    → Fits es
    → length pre ≡ pos
    → pos + length (packed es) ≤ length out
    → build_loop es (pre ++ drop pos out) pos
      ≡ ok (pre ++ packed es ++ drop (pos + length (packed es)) out, pos + length (packed es))
unfolding build_loop packed entry_bytes
build_loop-ok [] pre out pos fits size room =
    let none_left : pos + length (packed []) ≡ pos = omega arith in rw (none_left, append-nil pre)
build_loop-ok (e ∷ es) pre out pos fits size room =
    let n = length e.«data» in
    let end = pos + 1 + (n + 1) in
    let first = (n + 1) ∷ [] in
    let second = e.ad_type ∷ [] in
    let written = length-append (entry_bytes e) (packed es) in
    let kept = length-drop pos out in
    let whole = length-append pre (drop pos out) in
    let a = length-append pre first in
    let b = length-append (pre ++ first) second in
    let c = length-append (pre ++ first ++ second) e.«data» in
    let joined : pre ++ first ++ second ++ e.«data» ≡ pre ++ entry_bytes e =
      rw (append_assoc pre first second, append_assoc pre (first ++ second) e.«data») in
    let size' : length (pre ++ entry_bytes e) ≡ end = sym (ap length joined) ∙ omega arith in
    let total : end + length (packed es) ≡ pos + length (entry_bytes e ++ packed es) =
      omega arith in
    rw (
      lt_false 254 n fits.0,
      lt_false (length (pre ++ drop pos out)) end (omega arith),
      put_fill {E = Error} pre out pos (pos + 1) size (n + 1) refl (omega arith),
      put_fill {E = Error} (pre ++ first) out (pos + 1) (pos + 2) (omega arith) e.ad_type
          (omega arith) (omega arith),
      copy_to_fill {E = Error} (pre ++ first ++ second) out (pos + 2) end (omega arith) e.«data»
          (omega arith) (omega arith),
      joined,
      build_loop-ok es (pre ++ entry_bytes e) out end fits.1 size' (omega arith),
      append_assoc pre (entry_bytes e) (packed es),
      total,
    )
