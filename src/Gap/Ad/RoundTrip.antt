-- ===== src/Gap/Ad/RoundTrip.antt =====
-- What is built can be read again.
use nrf_ble.Base.{
  ℕ, ◌+◌, ◌≤◌, ◌≡◌, refl, ap, ◌∙◌, arith, List, [], ◌∷◌, ◌++◌, length, take, drop, le→leb,
  append_assoc, length-append, none, some, drop-append, take-append,
}
use nrf_ble.Base.Results.{ok}
use nrf_ble.Gap.Ad.{AdEntry, AdIter, new_iter, next, build}
use nrf_ble.Gap.Ad.Layout.{entry_bytes, packed, Fits, build_loop-ok}
use nrf_ble.Gap.Ad.Next.{at, next_entry}

-- The iterator yields these structures in this order, and then the end.
pub data Yields : AdIter → List AdEntry → Type 0 where
  finished : (it : AdIter) → next it ≡ ok (none, it) → Yields it []
  yields :
      (it it' : AdIter) (e : AdEntry) (es : List AdEntry)
      → next it ≡ ok (some (ok e), it')
      → Yields it' es
      → Yields it (e ∷ es)

pub Yields-packed :
    (es : List AdEntry) (pre : List ℕ) (pos : ℕ)
    → length pre ≡ pos
    → Yields (at (pre ++ packed es) pos) es
unfolding packed next
Yields-packed [] pre pos size =
    let all = length-append pre [] in
    finished (at (pre ++ []) pos) (rw (le→leb (length (pre ++ [])) pos (omega arith)))
Yields-packed (e ∷ es) pre pos size =
    let next_pos = pos + length (entry_bytes e) in
    let more =
      Yields-packed es (pre ++ entry_bytes e) next_pos
        (length-append pre (entry_bytes e) ∙ ap (λ n. n + length (entry_bytes e)) size) in
    yields (at (pre ++ (entry_bytes e ++ packed es)) pos)
      (at (pre ++ (entry_bytes e ++ packed es)) next_pos) e es
      (next_entry pre (packed es) e pos size)
      (rw (append_assoc pre (entry_bytes e) (packed es)) at more)

-- If every payload has at most 254 bytes and the buffer has room, `build` fills its front and
-- reports how many bytes it wrote; the rest of the buffer stays as it was, and the iterator over
-- the written bytes yields the structures in order and then the end.
pub iter-build :
    (es : List AdEntry) (out : List ℕ)
    → Fits es
    → length (packed es) ≤ length out
    → (out' : List ℕ) × (n : ℕ) × (build es out ≡ ok (out', n))
      × (drop n out' ≡ drop n out)
      × Yields (new_iter (take n out')) es
unfolding build new_iter
iter-build es out fits room =
    let n = length (packed es) in
    let built = build_loop-ok es [] out 0 fits refl (omega arith) in
    let whole : 0 + length (packed es) ≡ n = omega arith in
    (
      packed es ++ drop n out,
      n,
      rw whole at built,
      drop-append n (packed es) (drop n out) refl,
      rw (take-append n (packed es) (drop n out) refl) (Yields-packed es [] 0 refl),
    )
