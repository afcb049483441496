-- ===== src/Hci/Framing.antt =====
-- What a host writes on the line arrives as one packet.
use nrf_ble.Base.{
  ℕ, suc, ◌+◌, ◌≤◌, ◌<◌, ◌≡◌, refl, ap, ◌∙◌, arith, ◌==◌, ◌||◌, eq→==, ne→==, le→leb, List, [], ◌∷◌,
  ◌++◌, length, length-append, drop, append_assoc, append-nil, none, some, true,
}
use nrf_ble.Base.Results.{Result, ok, ◌>>=◌}
use nrf_ble.Base.Slices.{put_fill}
use nrf_ble.Hci.{
  HciPacket, H4Framer, hci_command, hci_event, hci_acl_data, payload_max, announced, header_len,
  collect, feed,
}

-- The packets that come out of several bytes, and the framer afterwards.
unfoldable pub feed_all : H4Framer → List ℕ → Result ⊥ (H4Framer × List HciPacket)
feed_all f [] = ok (f, [])
feed_all f (byte ∷ bytes) = do
  (f, packet) ← feed f byte
  (f, packets) ← feed_all f bytes
  ok (f, elim packet [ none ↦ packets | some p ↦ p ∷ packets ])

abbrev pub IsKind : ℕ → Type 0
IsKind kind = (kind == hci_command || kind == hci_event || kind == hci_acl_data) ≡ true

-- The framer within a packet: `pre` has been received, over what the buffer held before.
abbrev pub within : ℕ → ℕ → List ℕ → List ℕ → ℕ → H4Framer
within kind expected pre old n = record {
  packet_type = some kind;
  expected = expected;
  buf = pre ++ drop n old;
  buf_len = n;
}

-- The framer after a packet.
abbrev pub idle : List ℕ → ℕ → H4Framer
idle buf n = record { packet_type = none; expected = 0; buf = buf; buf_len = n }

module _ (kind : ℕ) (known : IsKind kind) (old : List ℕ) (size : length old ≡ payload_max) where
  -- A byte behind the header that does not end the packet.
  feed_more :
      (pre : List ℕ) (n expected byte : ℕ)
      → length pre ≡ n
      → header_len kind ≤ n
      → n + 1 < expected
      → expected ≤ payload_max
      → feed (within kind expected pre old n) byte
        ≡ ok (within kind expected (pre ++ byte ∷ []) old (n + 1), none)
  unfolding feed collect
  feed_more pre n expected byte hp hn more room = rw (
    known,
    put_fill {E = ⊥} pre old n (n + 1) hp byte refl (omega arith),
    ne→== (n + 1) (header_len kind) (λ e. omega arith),
    ne→== (n + 1) expected (λ e. omega arith),
  )

  -- The byte behind the header that ends it.
  feed_last :
      (pre : List ℕ) (n expected byte : ℕ)
      → length pre ≡ n
      → header_len kind ≤ n
      → n + 1 ≡ expected
      → expected ≤ payload_max
      → feed (within kind expected pre old n) byte
        ≡ ok (
          idle (pre ++ byte ∷ [] ++ drop (n + 1) old) (n + 1),
          some (record {
            packet_type = kind;
            payload = pre ++ byte ∷ [] ++ drop (n + 1) old;
            len = n + 1;
          }),
        )
  unfolding feed collect
  feed_last pre n expected byte hp hn last room = rw (
    known,
    put_fill {E = ⊥} pre old n (n + 1) hp byte refl (omega arith),
    ne→== (n + 1) (header_len kind) (λ e. omega arith),
    eq→== (n + 1) expected last,
    le→leb (header_len kind) expected (omega arith),
  )

  -- A byte within the header that does not end it.
  feed_header :
      (pre : List ℕ) (n byte : ℕ)
      → length pre ≡ n
      → n + 1 < header_len kind
      → n + 1 ≤ payload_max
      → feed (within kind 0 pre old n) byte
        ≡ ok (within kind 0 (pre ++ byte ∷ []) old (n + 1), none)
  unfolding feed collect
  feed_header pre n byte hp more room = rw (
    known,
    put_fill {E = ⊥} pre old n (n + 1) hp byte refl (omega arith),
    ne→== (n + 1) (header_len kind) (λ e. omega arith),
    ne→== (n + 1) 0 (λ e. omega arith),
  )

  -- The byte that ends the header, with more to come.
  feed-announced :
      (pre : List ℕ) (n total byte : ℕ)
      → length pre ≡ n
      → n + 1 ≡ header_len kind
      → announced kind (pre ++ byte ∷ [] ++ drop (n + 1) old) ≡ ok total
      → n + 1 < total
      → total ≤ payload_max
      → feed (within kind 0 pre old n) byte
        ≡ ok (within kind total (pre ++ byte ∷ []) old (n + 1), none)
  unfolding feed collect
  feed-announced pre n total byte hp last e more room = rw (
    known,
    put_fill {E = ⊥} pre old n (n + 1) hp byte refl (omega arith),
    eq→== (n + 1) (header_len kind) last,
    e,
    ne→== (n + 1) total (λ e. omega arith),
  )

  -- The byte that ends the header of a packet without a body.
  feed_only_header :
      (pre : List ℕ) (n total byte : ℕ)
      → length pre ≡ n
      → n + 1 ≡ header_len kind
      → announced kind (pre ++ byte ∷ [] ++ drop (n + 1) old) ≡ ok total
      → n + 1 ≡ total
      → total ≤ payload_max
      → feed (within kind 0 pre old n) byte
        ≡ ok (
          idle (pre ++ byte ∷ [] ++ drop (n + 1) old) (n + 1),
          some (record {
            packet_type = kind;
            payload = pre ++ byte ∷ [] ++ drop (n + 1) old;
            len = n + 1;
          }),
        )
  unfolding feed collect
  feed_only_header pre n total byte hp last e all room = rw (
    known,
    put_fill {E = ⊥} pre old n (n + 1) hp byte refl (omega arith),
    eq→== (n + 1) (header_len kind) last,
    e,
    eq→== (n + 1) total all,
    le→leb (header_len kind) total (omega arith),
  )

  -- The framer and the packet once all of `whole` has been received.
  abbrev pub Arrived : List ℕ → ℕ → Result ⊥ (H4Framer × List HciPacket)
  Arrived whole total = ok (
    idle (whole ++ drop total old) total,
    record { packet_type = kind; payload = whole ++ drop total old; len = total } ∷ [],
  )

  feed_body :
      (byte : ℕ) (body pre : List ℕ) (n total : ℕ)
      → length pre ≡ n
      → header_len kind ≤ n
      → total ≡ n + suc (length body)
      → total ≤ payload_max
      → feed_all (within kind total pre old n) (byte ∷ body) ≡ Arrived (pre ++ byte ∷ body) total
  unfolding feed_all
  feed_body byte [] pre n total hp hn end room =
      let all : n + 1 ≡ total = omega arith in rw (feed_last pre n total byte hp hn all room, all)
  feed_body byte (next ∷ body) pre n total hp hn end room =
      let longer = length-append pre (byte ∷ []) in
      rw (
        feed_more pre n total byte hp hn (omega arith) room,
        feed_body next body (pre ++ byte ∷ []) (n + 1) total (omega arith) (omega arith)
            (omega arith) room,
        append_assoc pre (byte ∷ []) (next ∷ body),
      )

  pub feed_frame :
      (byte : ℕ) (header body pre : List ℕ) (n total : ℕ)
      → length pre ≡ n
      → n + suc (length header) ≡ header_len kind
      → ((rest : List ℕ) → announced kind (pre ++ byte ∷ header ++ rest) ≡ ok total)
      → total ≡ header_len kind + length body
      → total ≤ payload_max
      → feed_all (within kind 0 pre old n) (byte ∷ header ++ body)
        ≡ Arrived (pre ++ byte ∷ header ++ body) total
  unfolding feed_all
  feed_frame byte [] [] pre n total hp hn ann end room =
      let all : n + 1 ≡ total = omega arith in
      rw (
        feed_only_header pre n total byte hp (omega arith) (ann (drop (n + 1) old)) all room,
        all,
        append-nil (pre ++ byte ∷ []),
      )
  feed_frame byte [] (next ∷ body) pre n total hp hn ann end room =
      let longer = length-append pre (byte ∷ []) in
      rw (
        feed-announced pre n total byte hp (omega arith) (ann (drop (n + 1) old)) (omega arith)
            room,
        feed_body next body (pre ++ byte ∷ []) (n + 1) total (omega arith) (omega arith)
            (omega arith) room,
        append_assoc pre (byte ∷ []) (next ∷ body),
      )
  feed_frame byte (next ∷ header) body pre n total hp hn ann end room =
      let longer = length-append pre (byte ∷ []) in
      let step = append_assoc pre (byte ∷ []) (next ∷ header) in
      rw (
        feed_header pre n byte hp (omega arith) (omega arith),
        feed_frame next header body (pre ++ byte ∷ []) (n + 1) total (omega arith) (omega arith)
            (λ rest. ap (λ t. announced kind (t ++ rest)) step ∙ ann rest) end room,
        step,
      )
