-- ===== src/Hw/Queue/Laws.antt =====
-- The queue is first in, first out as long as it has room.
use native.Mathlib.Nat.{mod-add-mod}
use nrf_ble.Base.{length-set}
use nrf_ble.Base.{
  ℕ, suc, ◌+◌, ◌%◌, ◌<◌, ◌≡◌, ◌≢◌, refl, sym, ap, ◌∙◌, arith, inl, inr, ◌==◌, ne→==, ==→eq,
  length-replicate, le→leb, Bool-cases, List, [], ◌∷◌, ◌++◌, length, length-append, set, get_elem?,
  none, some,
}
use nrf_ble.Base.Results.{ok}
use nrf_ble.Hw.Queue.{Queue, empty, push_event, next_event}
use nrf_ble.Hw.Queue.Slots.{
  apart, below, shift, first_place, round, get_elem?-set_same, get_elem?-set_other,
  get_elem?-replicate, get_elem?-beyond, get_elem?-last, get_elem?-before, index-of,
}

module _ {ℓ} {A : Type ℓ} (n : ℕ) where
  -- The queue's slots hold these events from the tail on, the oldest first, and nothing else.
  pub record Holds (q : Queue A) (xs : List A) : Type ℓ where
    pub slots : length q.events ≡ n
    pub fewer : length xs < n
    pub tail : q.event_tail < n
    pub head : q.event_head ≡ (q.event_tail + length xs) % n
    pub content :
        (k : ℕ) → k < n → get_elem? q.events ((q.event_tail + k) % n) ≡ some (get_elem? xs k)

  -- If there is room for one more event besides the free slot, it comes behind the others.
  pub push_event-ok :
      (q : Queue A) (xs : List A) (evt : A)
      → Holds q xs
      → length xs + 1 < n
      → (q' : Queue A) × (push_event n q evt ≡ ok q') × Holds q' (xs ++ evt ∷ [])
  unfolding push_event
  push_event-ok q xs evt h room =
      let t = q.event_tail in
      let len = length xs in
      let in_range : q.event_head < n =
        (let e = h.head in let l = below n t len h.tail h.fewer in omega arith) in
      let next : (q.event_head + 1) % n ≡ (t + (len + 1)) % n =
        ap (λ (a : ℕ). (a + 1) % n) h.head
        ∙ mod-add-mod (t + len) n 1
        ∙ ap (λ (a : ℕ). a % n) (omega arith) in
      let free : (q.event_head + 1) % n ≢ t = λ e.
        apart n t (len + 1) 0 h.tail room (omega arith) (λ z. omega arith)
          (sym next ∙ e ∙ sym (first_place n t h.tail)) in
      let size = h.slots in
      let longer = length-append xs (evt ∷ []) in
      (
        record {
          events = set q.events q.event_head (some evt);
          event_head = (q.event_head + 1) % n;
          event_tail = t;
        },
        rw (
          ne→== ((q.event_head + 1) % n) t free,
          le→leb (q.event_head + 1) (length q.events) (omega arith),
        ),
        record {
          slots = length-set q.events q.event_head (some evt) ∙ size;
          fewer = omega arith;
          tail = h.tail;
          head = next ∙ ap (λ (a : ℕ). (t + a) % n) (sym longer);
          content = λ k small. elim (Bool-cases (k == len)) [
            | inl same ↦
                let same' : k ≡ len = ==→eq k len same in
                let at_head : (t + k) % n ≡ q.event_head =
                  ap (λ (a : ℕ). (t + a) % n) same' ∙ sym h.head in
                ap (λ (a : ℕ). get_elem? (set q.events q.event_head (some evt)) a) at_head
                ∙ get_elem?-set_same q.events q.event_head (some evt) (omega arith)
                ∙ ap some (
                    sym
                      (ap (λ (a : ℕ). get_elem? (xs ++ evt ∷ []) a) same' ∙ get_elem?-last xs evt))
            | inr other ↦
                let other' : k ≢ len = λ e. ground arith in
                let elsewhere : q.event_head ≢ (t + k) % n = λ e.
                  apart n t len k h.tail h.fewer small (λ z. other' (sym z)) (sym h.head ∙ e) in
                get_elem?-set_other q.events q.event_head ((t + k) % n) (some evt) elsewhere
                ∙ h.content k small
                ∙ ap some (sym (get_elem?-before xs evt k other'))
          ];
        },
      )

  -- The oldest event comes out first.
  pub next_event-ok :
      (q : Queue A) (xs : List A) (evt : A)
      → Holds q (evt ∷ xs)
      → (q' : Queue A) × (next_event n q ≡ ok (some evt, q')) × Holds q' xs
  unfolding next_event
  next_event-ok q xs evt h =
      let t = q.event_tail in
      let in_range = h.tail in
      let size = h.slots in
      let bound = h.fewer in
      let oldest : get_elem? q.events t ≡ some (some evt) =
        ap (λ (a : ℕ). get_elem? q.events a) (sym (first_place n t h.tail))
        ∙ h.content 0 (omega arith) in
      (
        record {
          events = set q.events t none;
          event_head = q.event_head;
          event_tail = (t + 1) % n;
        },
        rw (index-of q.events t (some evt) oldest, le→leb (t + 1) (length q.events) (omega arith)),
        record {
          slots = length-set q.events t none ∙ size;
          fewer = omega arith;
          tail = below n t 1 h.tail (omega arith);
          head = h.head ∙ sym (shift n t (length xs));
          content = λ k small. elim (Bool-cases (suc k == n)) [
            | inl last ↦
                let last' : suc k ≡ n = ==→eq (suc k) n last in
                let at_tail : ((t + 1) % n + k) % n ≡ t =
                  shift n t k ∙ ap (λ (a : ℕ). (t + a) % n) last' ∙ round n t h.tail in
                ap (λ (a : ℕ). get_elem? (set q.events t none) a) at_tail
                ∙ get_elem?-set_same q.events t none (omega arith)
                ∙ ap some (sym (get_elem?-beyond xs k (omega arith)))
            | inr inner ↦
                let inner' : suc k ≢ n = λ e. ground arith in
                let elsewhere : t ≢ (t + suc k) % n = λ e.
                  apart n t 0 (suc k) h.tail (omega arith) (omega arith) (λ z. omega arith)
                    (first_place n t h.tail ∙ e) in
                ap (λ (a : ℕ). get_elem? (set q.events t none) a) (shift n t k)
                ∙ get_elem?-set_other q.events t ((t + suc k) % n) none elsewhere
                ∙ h.content (suc k) (omega arith)
          ];
        },
      )

  -- An empty queue yields nothing, and stays empty.
  pub next_event-none :
      (q : Queue A) → Holds q [] → (q' : Queue A) × (next_event n q ≡ ok (none, q')) × Holds q' []
  unfolding next_event
  next_event-none q h =
      let t = q.event_tail in
      let in_range = h.tail in
      let size = h.slots in
      let nothing : get_elem? q.events t ≡ some none =
        ap (λ (a : ℕ). get_elem? q.events a) (sym (first_place n t h.tail))
        ∙ h.content 0 (omega arith) in
      (
        record q { events = set q.events t none },
        rw (index-of q.events t none nothing, le→leb (t + 1) (length q.events) (omega arith)),
        record {
          slots = length-set q.events t none ∙ size;
          fewer = h.fewer;
          tail = h.tail;
          head = h.head;
          content = λ k small. elim (Bool-cases (k == 0)) [
            | inl same ↦
                let same' : k ≡ 0 = ==→eq k 0 same in
                ap (λ (a : ℕ). get_elem? (set q.events t none) a)
                  (ap (λ (a : ℕ). (t + a) % n) same' ∙ first_place n t h.tail)
                ∙ get_elem?-set_same q.events t none (omega arith)
                ∙ refl
            | inr other ↦
                let elsewhere : t ≢ (t + k) % n = λ e.
                  apart n t 0 k h.tail (omega arith) small (λ z. ground arith)
                    (first_place n t h.tail ∙ e) in
                get_elem?-set_other q.events t ((t + k) % n) none elsewhere ∙ h.content k small
          ];
        },
      )

  -- A fresh queue holds nothing.
  pub empty-Holds : 0 < n → Holds (empty n) []
  unfolding empty
  empty-Holds h = record {
    slots = length-replicate n none;
    fewer = h;
    tail = h;
    head = sym (first_place n 0 h);
    content = λ k small. get_elem?-replicate n ((0 + k) % n) none (below n 0 k h small);
  }
