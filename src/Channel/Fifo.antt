-- ===== src/Channel/Fifo.antt =====
-- What the ring's three writes do to the list of its values.
use cyros.Common.{
  ℕ, suc, ◌+◌, ◌-◌, ◌≤◌, ◌<◌, ◌≡◌, ◌≢◌, ap, ◌∙◌, sym, List, [], ◌∷◌, ◌++◌, arith, update, length,
}
use cyros.Channel.{Channel, advance, place_locked, replace_oldest, take_locked}
use cyros.Channel.Ring.{
  index_on, index_on_lem, index_on-advance, advance-lt, walk, walk_snoc, walk-update, length-walk,
}

module _ {T : Type 0} (capacity : ℕ) where
  -- The values in the ring, the oldest first.
  unfoldable pub contents : Channel T → List T
  contents c = walk capacity c.occupancy c.ring c.head

  -- The indices are in range and the tail stands behind the last value.
  pub record Sound (c : Channel T) : Type 0 where
    pub room : c.occupancy ≤ capacity
    pub head_in : c.head < capacity
    pub tail_at : c.tail ≡ index_on capacity c.occupancy c.head

  tail_away :
      (c : Channel T) (n k : ℕ)
      → Sound c
      → n < capacity
      → n ≤ c.occupancy
      → k < n
      → index_on capacity k c.head ≢ index_on capacity n c.head
  tail_away c n k s room le lt = ground (
    arith,
    index_on_lem capacity k c.head s.head_in,
    index_on_lem capacity n c.head s.head_in,
    s.head_in,
  )

  pub place_locked-contents :
      (v : T) (c : Channel T)
      → Sound c
      → c.occupancy < capacity
      → (contents (place_locked capacity v c) ≡ contents c ++ v ∷ [])
        × Sound (place_locked capacity v c)
  unfolding contents place_locked
  place_locked-contents v c s room = (
    ap (λ m. walk capacity m (update c.ring c.tail v) c.head) grown
        ∙ walk_snoc capacity c.occupancy (update c.ring c.tail v) c.head
        ∙ rw
            (walk-update capacity c.occupancy c.ring c.head c.tail v
              (λ k lt. rw s.tail_at (tail_away c c.occupancy k s room (omega arith) lt)))
            (ap (λ x. walk capacity c.occupancy c.ring c.head ++ x ∷ [])
              (ground (arith, s.tail_at))),
    record {
      room = omega arith;
      head_in = s.head_in;
      tail_at =
          ap (advance capacity) s.tail_at
          ∙ index_on-advance capacity c.occupancy c.head
          ∙ ap (λ m. index_on capacity m c.head) (sym grown);
    },
  )
    where
      grown : c.occupancy + 1 ≡ suc c.occupancy
      grown = omega arith

  pub take_locked-contents :
      (c : Channel T)
      → Sound c
      → 0 < c.occupancy
      → (contents c ≡ (take_locked capacity c).0 ∷ contents (take_locked capacity c).1)
        × Sound (take_locked capacity c).1
  unfolding contents take_locked
  take_locked-contents c s some_value = (
    ap (λ m. walk capacity m c.ring c.head) shrunk,
    record {
      room = omega (arith, s.room);
      head_in = advance-lt capacity c.head s.head_in;
      tail_at = s.tail_at ∙ ap (λ m. index_on capacity m c.head) shrunk;
    },
  )
    where
      shrunk : c.occupancy ≡ suc (c.occupancy - 1)
      shrunk = omega arith

  pub replace_oldest-contents :
      (v : T) (c : Channel T)
      → Sound c
      → c.occupancy ≡ capacity
      → (contents (replace_oldest capacity v c)
          ≡ walk capacity (capacity - 1) c.ring (advance capacity c.head) ++ v ∷ [])
        × (contents c
            ≡ c.ring c.head ∷ walk capacity (capacity - 1) c.ring (advance capacity c.head))
        × Sound (replace_oldest capacity v c)
  unfolding contents replace_oldest
  replace_oldest-contents v c s e = (
    ap (λ m. walk capacity m (update c.ring c.tail v) (advance capacity c.head)) grown
        ∙ walk_snoc capacity (capacity - 1) (update c.ring c.tail v) (advance capacity c.head)
        ∙ rw (walk-update capacity (capacity - 1) c.ring (advance capacity c.head) c.tail v away) (
            ap (λ x. walk capacity (capacity - 1) c.ring (advance capacity c.head) ++ x ∷ [])
              (ground (arith, last_at))),
    ap (λ m. walk capacity m c.ring c.head) grown,
    record {
      room = s.room;
      head_in = advance-lt capacity c.head s.head_in;
      tail_at = ap (advance capacity) s.tail_at ∙ index_on-advance capacity c.occupancy c.head;
    },
  )
    where
      grown : c.occupancy ≡ suc (capacity - 1)
      grown = omega (arith, s.head_in)

      last_at : index_on capacity (capacity - 1) (advance capacity c.head) ≡ c.tail
      last_at = sym (s.tail_at ∙ ap (λ m. index_on capacity m c.head) grown)

      away : (k : ℕ) → k < capacity - 1 → index_on capacity k (advance capacity c.head) ≢ c.tail
      away k lt same = absurd (
          ground (
            arith,
            same,
            s.tail_at,
            s.head_in,
            index_on_lem capacity (suc k) c.head s.head_in,
            index_on_lem capacity c.occupancy c.head s.head_in,
          ))

  pub length-contents : (c : Channel T) → length (contents c) ≡ c.occupancy
  unfolding contents
  length-contents c = length-walk capacity c.occupancy c.ring c.head
