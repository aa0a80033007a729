-- ===== src/Trace/Kept.antt =====
-- What every step of a trace buffer keeps.
use native.Mathlib.Nat.{mod-mod_of_dvd, dvd_of_mod-eq-zero, mul-le-mul, div-add-mod, mod-add-mod}
use cyros.Common.{
  ℕ, ◌+◌, ◌-◌, ◌*◌, ◌%◌, ◌/◌, ◌^◌, ◌≤◌, ◌<◌, ◌≡◌, ◌≢◌, ap, ◌∙◌, sym, arith, ◌==◌, ltb, leb,
  if◌then◌else◌, update, Bool-cases, inl, inr,
}
use cyros.Trace.Buffer.{
  Producer, Consumer, resting, writing, releasing, idle, copying, held, begin_append, write_slot,
  release_head, begin_read, copy_slot, release_tail,
}
use cyros.Trace.History.{History}

-- Two positions less than a buffer apart have different slots.
mod_apart : (c n m : ℕ) → n < m → m < n + c → n % c ≢ m % c
mod_apart c n m less near same = elim (Bool-cases (leb (m / c) (n / c))) [
  | inl e ↦ omega (
    arith,
    div-add-mod n c,
    div-add-mod m c,
    same,
    mul-le-mul {n₁ = c} {m₁ = m / c} {n₂ = c} {m₂ = n / c} (omega arith) (ground arith),
  )
  | inr e ↦ omega (
    arith,
    div-add-mod n c,
    div-add-mod m c,
    same,
    mul_suc,
    mul-le-mul {n₁ = c} {m₁ = n / c + 1} {n₂ = c} {m₂ = m / c} (omega arith) (ground arith),
  )
]
  where
    mul_suc : c * (n / c + 1) ≡ c * (n / c) + c
    mul_suc = grind arith

wrap_mod : (capacity n : ℕ) → 2 ^ 32 % capacity ≡ 0 → n % 2 ^ 32 % capacity ≡ n % capacity
wrap_mod capacity n power = mod-mod_of_dvd capacity n (dvd_of_mod-eq-zero capacity power)

module _ {R : Type 0} (capacity : ℕ) where
  -- What the core's step in hand says of the counts and the slots.
  abbrev pub InFlight : (received_count sent_count : ℕ) → (ℕ → R) → Producer R → Type 0
  InFlight t h slots resting = Unit {0}
  InFlight t h slots (writing r) = h < t + capacity
  InFlight t h slots (releasing r) = (h < t + capacity) × (slots (h % capacity) ≡ r)

  -- What the reader's step in hand says of its span.
  abbrev pub Copied : (received_count sent_count : ℕ) → (sent out : ℕ → R) → Consumer → Type 0
  Copied t h sent out idle = Unit {0}
  Copied t h sent out (copying count done) =
      (done ≤ count) × (t + count ≤ h) × ((j : ℕ) → j < done → out j ≡ sent (t + j))

  pub record Kept (h : History R) : Type 0 where
    pub head : h.log.head ≡ h.sent_count % 2 ^ 32
    pub tail : h.log.tail ≡ h.received_count % 2 ^ 32
    pub behind : h.received_count ≤ h.sent_count
    pub fits : h.sent_count ≤ h.received_count + capacity
    pub waiting :
        (n : ℕ) → h.received_count ≤ n → n < h.sent_count → h.log.slots (n % capacity) ≡ h.sent n
    pub in_flight : InFlight h.received_count h.sent_count h.log.slots h.log.producer
    pub copied : Copied h.received_count h.sent_count h.sent h.log.out h.log.consumer
    pub in_order : (n : ℕ) → n < h.received_count → h.received n ≡ h.sent n

module _ {R : Type 0} (capacity : ℕ) (small : capacity < 2 ^ 32)
    (power : 2 ^ 32 % capacity ≡ 0) where
  held_lem :
      (h : History R)
      → Kept capacity h
      → held h.log.head h.log.tail ≡ h.sent_count - h.received_count
  held_lem h k = omega (arith, k.head, k.tail, k.behind, k.fits)

  pub begin_append-Kept :
      (r : R) (h : History R)
      → h.log.producer ≡ resting
      → Kept capacity h
      → Kept capacity (record h { log = begin_append capacity r h.log })
  unfolding begin_append
  begin_append-Kept r h p k = elim (Bool-cases (held h.log.head h.log.tail == capacity)) [
    | inl e ↦ rw e (record {
      head = k.head;
      tail = k.tail;
      behind = k.behind;
      fits = k.fits;
      waiting = k.waiting;
      in_flight = k.in_flight;
      copied = k.copied;
      in_order = k.in_order;
    })
    | inr e ↦ rw e (record {
      head = k.head;
      tail = k.tail;
      behind = k.behind;
      fits = k.fits;
      waiting = k.waiting;
      in_flight = ground (arith, e, held_lem h k, k.fits, k.behind);
      copied = k.copied;
      in_order = k.in_order;
    })
  ]

  pub write_slot-Kept :
      (r : R) (h : History R)
      → h.log.producer ≡ writing r
      → Kept capacity h
      → Kept capacity (record h { log = write_slot capacity r h.log })
  unfolding write_slot
  write_slot-Kept r h p k =
      let room : h.sent_count < h.received_count + capacity = (rw p at k.in_flight) in
      let at_head : h.log.head % capacity ≡ h.sent_count % capacity =
        ap (λ (n : ℕ). n % capacity) k.head ∙ wrap_mod capacity h.sent_count power in
      record {
        head = k.head;
        tail = k.tail;
        behind = k.behind;
        fits = k.fits;
        waiting = λ n lo hi.
            ground (
              arith,
              at_head,
              k.waiting n lo hi,
              mod_apart capacity n h.sent_count hi (omega arith),
            );
        in_flight = (room, ground (arith, at_head));
        copied = k.copied;
        in_order = k.in_order;
      }

  pub release_head-Kept :
      (r : R) (h : History R)
      → h.log.producer ≡ releasing r
      → Kept capacity h
      → Kept capacity (record h {
        log = release_head capacity h.log;
        sent = update h.sent h.sent_count r;
        sent_count = h.sent_count + 1;
      })
  unfolding release_head
  release_head-Kept r h p k =
      let (room, slot) = (rw p at k.in_flight) in
      record {
        head = omega (arith, k.head);
        tail = k.tail;
        behind = omega (arith, k.behind);
        fits = omega (arith, room);
        waiting = λ n lo hi. ground (arith, slot, k.waiting n lo);
        in_flight = tt;
        copied = still_copied h.log.consumer k.copied;
        in_order = λ n lt. ground (arith, k.in_order n lt, k.behind);
      }
    where
      still_copied :
          (c : Consumer)
          → Copied capacity h.received_count h.sent_count h.sent h.log.out c
          → Copied capacity h.received_count
              (h.sent_count + 1)
              (update h.sent h.sent_count r)
              h.log.out
              c
      still_copied idle x = tt
      still_copied (copying count done) (le, inside, same) =
          (le, omega arith, λ j lt. ground (arith, same j lt))

  pub begin_read-Kept :
      (size : ℕ) (h : History R)
      → Kept capacity h
      → Kept capacity (record h { log = begin_read capacity size h.log })
  unfolding begin_read
  begin_read-Kept size h k = record {
    head = k.head;
    tail = k.tail;
    behind = k.behind;
    fits = k.fits;
    waiting = k.waiting;
    in_flight = k.in_flight;
    copied = (omega arith, omega (arith, held_lem h k, k.behind), λ j lt. absurd (omega arith));
    in_order = k.in_order;
  }

  pub copy_slot-Kept :
      (count done : ℕ) (h : History R)
      → h.log.consumer ≡ copying count done
      → done < count
      → Kept capacity h
      → Kept capacity (record h { log = copy_slot capacity count done h.log })
  unfolding copy_slot
  copy_slot-Kept count done h c lt k =
      let (le, inside, same) = (rw c at k.copied) in
      let next : h.log.slots ((h.log.tail + done) % capacity) ≡ h.sent (h.received_count + done) =
        ap h.log.slots at_slot ∙ k.waiting (h.received_count + done) (omega arith) (omega arith) in
      record {
        head = k.head;
        tail = k.tail;
        behind = k.behind;
        fits = k.fits;
        waiting = k.waiting;
        in_flight = k.in_flight;
        copied = (omega arith, inside, λ j lt. ground (arith, next, same j));
        in_order = k.in_order;
      }
    where
      at_slot : (h.log.tail + done) % capacity ≡ (h.received_count + done) % capacity
      at_slot =
          ap (λ (n : ℕ). (n + done) % capacity) k.tail
          ∙ sym (mod-add-mod (h.received_count % 2 ^ 32) capacity done)
          ∙ ap (λ (n : ℕ). (n + done) % capacity) (wrap_mod capacity h.received_count power)
          ∙ mod-add-mod h.received_count capacity done

  pub release_tail-Kept :
      (count : ℕ) (h : History R)
      → h.log.consumer ≡ copying count count
      → Kept capacity h
      → Kept capacity (record h {
        log = release_tail capacity count h.log;
        received =
            λ n. if ltb n h.received_count then h.received n else h.log.out (n - h.received_count);
        received_count = h.received_count + count;
      })
  unfolding release_tail
  release_tail-Kept count h c k =
      let (le, inside, same) = (rw c at k.copied) in
      record {
        head = k.head;
        tail = omega (arith, k.tail);
        behind = inside;
        fits = omega (arith, k.fits);
        waiting = λ n lo hi. k.waiting n (omega arith) hi;
        in_flight = further h.log.producer k.in_flight;
        copied = tt;
        in_order = λ n lt. elim (Bool-cases (ltb n h.received_count)) [
          | inl e ↦ rw e (k.in_order n (ground arith))
          | inr e ↦
              let at : h.received_count + (n - h.received_count) ≡ n = ground arith in
              rw e (same (n - h.received_count) (ground arith) ∙ ap h.sent at)
        ];
      }
    where
      further :
          (p : Producer R)
          → InFlight capacity h.received_count h.sent_count h.log.slots p
          → InFlight capacity (h.received_count + count) h.sent_count h.log.slots p
      further resting x = tt
      further (writing r) x = omega arith
      further (releasing r) (room, e) = (omega arith, e)
