-- ===== src/Hci/RoundTrip.antt =====
-- The packets that are built arrive through the framer.
use nrf_ble.Base.{
  ℕ, zero, suc, ◌+◌, ◌*◌, ◌/◌, ◌%◌, ◌^◌, ◌≤◌, ◌≡◌, refl, sym, ap, ◌∙◌, arith, bit_and, bit_or, List,
  [], ◌∷◌, ◌++◌, length, length-append, length-drop, length-replicate, take, drop, replicate,
  take-append, none,
}
use nrf_ble.Base.Bits.{bit_and_mask}
use nrf_ble.Base.Results.{Result, ok, ◌>>=◌}
use nrf_ble.Base.Slices.{copy_to_fill}
use nrf_ble.Hci.{
  HciPacket, H4Framer, hci_command, hci_event, hci_acl_data, payload_max, announced, header_len,
  feed, command, event, acl,
}
use nrf_ble.Hci.Framing.{feed_all, IsKind, within, idle, feed_frame}

-- A framer that waits for a packet.
pub record IsIdle (f : H4Framer) : Type 0 where
  pub waiting : f.packet_type ≡ none
  pub reset : f.expected ≡ 0
  pub buffer : length f.buf ≡ payload_max

-- The packet's type and bytes, written on the line to this framer, give one packet, with the same
-- type, length and bytes; then the framer waits again.
pub record Arrives (p : HciPacket) (f : H4Framer) : Type 0 where
  pub after : H4Framer
  pub received : HciPacket
  pub fed : feed_all f (p.packet_type ∷ take p.len p.payload) ≡ ok (after, received ∷ [])
  pub same_type : received.packet_type ≡ p.packet_type
  pub same_len : received.len ≡ p.len
  pub same_bytes : take p.len received.payload ≡ take p.len p.payload
  pub ready : IsIdle after

feed_kind :
    (kind : ℕ) (old : List ℕ) (n : ℕ)
    → IsKind kind
    → feed (idle old n) kind ≡ ok (within kind 0 [] old 0, none)
unfolding feed
feed_kind kind old n known = ground arith

module _ (kind : ℕ) (known : IsKind kind) (byte : ℕ) (header body rest : List ℕ) (total : ℕ)
    (whole : suc (length header) ≡ header_len kind)
    (ann : (rest : List ℕ) → announced kind ((byte ∷ header) ++ rest) ≡ ok total)
    (end : total ≡ header_len kind + length body) (room : total ≤ payload_max) where
  abbrev bytes : List ℕ
  bytes = (byte ∷ header) ++ body

  abbrev packet : HciPacket
  packet = record { packet_type = kind; payload = bytes ++ rest; len = total }

  arrives : (old : List ℕ) (n : ℕ) → length old ≡ payload_max → Arrives packet (idle old n)
  unfolding feed_all
  arrives old n size =
      let long = length-append header body in
      let exact : length bytes ≡ total = omega arith in
      let taken = take-append total bytes rest exact in
      let kept = take-append total bytes (drop total old) exact in
      let filled = length-append bytes (drop total old) in
      let behind = length-drop total old in
      record {
        after = idle (bytes ++ drop total old) total;
        received = record { packet_type = kind; payload = bytes ++ drop total old; len = total };
        fed = rw (
          taken,
          feed_kind kind old n known,
          feed_frame kind known old size byte header body [] 0 total refl (omega (arith, whole)) ann
              end room,
        );
        same_type = refl;
        same_len = refl;
        same_bytes = kept ∙ sym taken;
        ready = record { waiting = refl; reset = refl; buffer = filled ∙ omega arith };
      }

idle_of : (f : H4Framer) → IsIdle f → f ≡ idle f.buf f.buf_len
idle_of f h = λ i. record {
  packet_type = h.waiting i;
  expected = h.reset i;
  buf = f.buf;
  buf_len = f.buf_len;
}

abbrev blank : List ℕ
blank = replicate payload_max 0

length-blank : length blank ≡ payload_max
length-blank = length-replicate payload_max zero

abbrev built : (kind len : ℕ) → Result ⊥ (List ℕ) → Result ⊥ HciPacket
built kind len r = r >>= λ p. ok (record { packet_type = kind; payload = p; len = len })

-- A command with at most 255 bytes of parameters is built, and arrives at any framer that waits for
-- a packet.
pub command_arrives :
    (ogf ocf : ℕ) (params : List ℕ) (f : H4Framer)
    → length params ≤ 255
    → IsIdle f
    → (p : HciPacket) × (command ogf ocf params ≡ ok p) × Arrives p f
unfolding command announced header_len
command_arrives ogf ocf params f short waits =
    let n = length params in
    let b0 = bit_and ocf 0xFF in
    let b1 = bit_or (bit_and (ocf / 2 ^ 8) 0x03) (bit_and ogf 0x3F * 2 ^ 2) in
    let small : n % 256 ≡ n = omega arith in
    let z = length-blank in
    let filled =
      copy_to_fill {E = ⊥} (b0 ∷ b1 ∷ n ∷ []) blank 3 (3 + n) refl params refl (omega arith) in
    (
      record {
        packet_type = hci_command;
        payload = (b0 ∷ b1 ∷ n ∷ []) ++ params ++ drop (3 + n) blank;
        len = 3 + n;
      },
      rw small (ap (built hci_command (3 + n)) filled),
      rw (idle_of f waits) (
          arrives hci_command refl b0 (b1 ∷ n ∷ []) params (drop (3 + n) blank) (3 + n) refl
            (λ r. refl) refl (omega arith) f.buf f.buf_len waits.buffer),
    )

-- An event with at most 255 bytes is built, and arrives at any framer that waits for a packet.
pub event_arrives :
    (code : ℕ) (payload : List ℕ) (f : H4Framer)
    → length payload ≤ 255
    → IsIdle f
    → (p : HciPacket) × (event code payload ≡ ok p) × Arrives p f
unfolding event announced header_len
event_arrives code payload f short waits =
    let n = length payload in
    let small : n % 256 ≡ n = omega arith in
    let z = length-blank in
    let filled =
      copy_to_fill {E = ⊥} (code ∷ n ∷ []) blank 2 (2 + n) refl payload refl (omega arith) in
    (
      record {
        packet_type = hci_event;
        payload = (code ∷ n ∷ []) ++ payload ++ drop (2 + n) blank;
        len = 2 + n;
      },
      rw small (ap (built hci_event (2 + n)) filled),
      rw (idle_of f waits) (
          arrives hci_event refl code (n ∷ []) payload (drop (2 + n) blank) (2 + n) refl (λ r. refl)
            refl (omega arith) f.buf f.buf_len waits.buffer),
    )

-- ACL data of at most 256 bytes is built, and arrives at any framer that waits for a packet.
pub acl_arrives :
    (handle : ℕ) (payload : List ℕ) (f : H4Framer)
    → length payload ≤ 256
    → IsIdle f
    → (p : HciPacket) × (acl handle payload ≡ ok p) × Arrives p f
unfolding acl announced header_len
acl_arrives handle payload f short waits =
    let n = length payload in
    let b0 = bit_and handle 0x0FFF % 256 in
    let b1 = handle / 2 ^ 8 % 256 in
    let low = bit_and n 0xFF in
    let high = n / 2 ^ 8 % 256 in
    let mask = bit_and_mask 8 n in
    let sum : 4 + (low + high * 2 ^ 8) ≡ 4 + n = omega arith in
    let z = length-blank in
    let filled =
      copy_to_fill {E = ⊥} (b0 ∷ b1 ∷ low ∷ high ∷ []) blank 4 (4 + n) refl payload refl
        (omega arith) in
    (
      record {
        packet_type = hci_acl_data;
        payload = (b0 ∷ b1 ∷ low ∷ high ∷ []) ++ payload ++ drop (4 + n) blank;
        len = 4 + n;
      },
      ap (built hci_acl_data (4 + n)) filled,
      rw (idle_of f waits) (
          arrives hci_acl_data refl b0 (b1 ∷ low ∷ high ∷ []) payload (drop (4 + n) blank) (4 + n)
            refl (λ r. ap ok sum) refl (omega arith) f.buf f.buf_len waits.buffer),
    )
