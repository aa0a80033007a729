-- ===== src/Trace/InOrder.antt =====
-- The reader gets every record that was not dropped, once and in order.
use cyros.Common.{
  ℕ, ◌+◌, ◌%◌, ◌^◌, ◌≤◌, ◌<◌, ◌≡◌, refl, ap, ◌∙◌, some, arith, ltb, Bool-cases, inl, inr, got,
}
use cyros.Trace.Buffer.{Producer, Consumer, resting, writing, releasing, idle, copying}
use cyros.Trace.History.{
  History, Step, Reaches, take_step, produce, consume, begin_producing, begin_consuming, appends,
  reads, produces, consumes,
}
use cyros.Trace.Kept.{
  Kept, begin_append-Kept, write_slot-Kept, release_head-Kept, begin_read-Kept, copy_slot-Kept,
  release_tail-Kept,
}

module _ {R : Type 0} (capacity : ℕ) (small : capacity < 2 ^ 32)
    (power : 2 ^ 32 % capacity ≡ 0) where
  produce-Kept :
      (p : Producer R) (h h' : History R)
      → h.log.producer ≡ p
      → produce capacity p h ≡ some h'
      → Kept capacity h
      → Kept capacity h'
  unfolding produce
  produce-Kept resting h h' p e k = cc e
  produce-Kept (writing r) h h' p e k =
      got (Kept capacity) _ h' (write_slot-Kept capacity small power r h p k) e
  produce-Kept (releasing r) h h' p e k =
      got (Kept capacity) _ h' (release_head-Kept capacity small power r h p k) e

  consume-Kept :
      (c : Consumer) (h h' : History R)
      → h.log.consumer ≡ c
      → consume capacity c h ≡ some h'
      → Kept capacity h
      → Kept capacity h'
  unfolding consume
  consume-Kept idle h h' c e k = cc e
  consume-Kept (copying count done) h h' c e k = elim (Bool-cases (ltb done count)) [
    | inl more ↦
        got (Kept capacity) _ h'
          (copy_slot-Kept capacity small power count done h c (ground arith) k) (rw more at e)
    | inr ended ↦
        let (le, inside, same) = (rw c at k.copied) in
        let all : done ≡ count = ground arith in
        got (Kept capacity) _ h'
          (release_tail-Kept capacity small power count h (c ∙ ap (copying count) all) k)
          (rw ended at e)
  ]

  begin_producing-Kept :
      (r : R) (p : Producer R) (h h' : History R)
      → h.log.producer ≡ p
      → begin_producing capacity r p h ≡ some h'
      → Kept capacity h
      → Kept capacity h'
  unfolding begin_producing
  begin_producing-Kept r resting h h' p e k =
      got (Kept capacity) _ h' (begin_append-Kept capacity small power r h p k) e
  begin_producing-Kept r (writing q) h h' p e k = cc e
  begin_producing-Kept r (releasing q) h h' p e k = cc e

  begin_consuming-Kept :
      (size : ℕ) (c : Consumer) (h h' : History R)
      → begin_consuming capacity size c h ≡ some h'
      → Kept capacity h
      → Kept capacity h'
  unfolding begin_consuming
  begin_consuming-Kept size idle h h' e k =
      got (Kept capacity) _ h' (begin_read-Kept capacity small power size h k) e
  begin_consuming-Kept size (copying count done) h h' e k = cc e

  take_step-Kept :
      (step : Step R) (h h' : History R)
      → take_step capacity step h ≡ some h'
      → Kept capacity h
      → Kept capacity h'
  unfolding take_step
  take_step-Kept (appends r) h h' e k = begin_producing-Kept r h.log.producer h h' refl e k
  take_step-Kept (reads size) h h' e k = begin_consuming-Kept size h.log.consumer h h' e k
  take_step-Kept produces h h' e k = produce-Kept h.log.producer h h' refl e k
  take_step-Kept consumes h h' e k = consume-Kept h.log.consumer h h' refl e k

  -- reset's state: nothing recorded, nothing read, and nobody at work.
  pub record Fresh (h : History R) : Type 0 where
    pub at_start : (h.log.head ≡ 0) × (h.log.tail ≡ 0)
    pub at_rest : (h.log.producer ≡ resting) × (h.log.consumer ≡ idle)
    pub no_history : (h.sent_count ≡ 0) × (h.received_count ≡ 0)

  Fresh-Kept : (h : History R) → Fresh h → Kept capacity h
  Fresh-Kept h f = record {
    head = ground (arith, f.at_start, f.no_history);
    tail = ground (arith, f.at_start, f.no_history);
    behind = ground (arith, f.no_history);
    fits = ground (arith, f.no_history);
    waiting = λ n lo hi. absurd (ground (arith, f.no_history));
    in_flight = rw (f.at_rest.0) tt;
    copied = rw (f.at_rest.1) tt;
    in_order = λ n lt. absurd (ground (arith, f.no_history));
  }

  Reaches-Kept : {s u : History R} → Fresh s → Reaches capacity s u → Kept capacity u
  Reaches-Kept {s} f Reaches.here = Fresh-Kept s f
  Reaches-Kept f (Reaches.next {u} {v} step r e) = take_step-Kept step u v e (Reaches-Kept f r)

  -- Where the capacity is below 2 ^ 32 and divides it: however the steps of the core and of the reader
  -- interleave and however often the counters wrap, the n-th record that reads have returned is the
  -- n-th that the core released, whole, and those released and not read are at most the capacity.
  pub received-sent :
      {s u : History R}
      → Fresh s
      → Reaches capacity s u
      → (u.received_count ≤ u.sent_count)
        × (u.sent_count ≤ u.received_count + capacity)
        × ((n : ℕ) → n < u.received_count → u.received n ≡ u.sent n)
  received-sent f r = let k = Reaches-Kept f r in (k.behind, k.fits, k.in_order)
