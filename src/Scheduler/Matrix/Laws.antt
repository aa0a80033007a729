-- ===== src/Scheduler/Matrix/Laws.antt =====
-- The bitmap marks exactly the levels that hold a thread, so the pick is the first of the best level.
use cyros.Common.{
  ℕ, ◌<◌, ◌^◌, ◌≡◌, ◌≢◌, ◌∙◌, inl, inr, refl, true, false, not, Option, none, some, List, [], ◌∷◌,
  arith, ◌==◌, is_empty, is_empty-append_one, Bool-cases,
}
use cyros.Common.Bits.{
  test_bit, test_bit-change, test_bit-zero, change_bit-lt, countr_zero, countr_zero_lem,
  countr_zero_set, low_bits_set, low_bits_clear,
}
use cyros.Scheduler.Matrix.{
  Matrix, has_more_urgent_than, file_back, file_front, shrink, pop_level, pop_best,
}

pub record Marked (m : Matrix) : Type 0 where
  pub word : m.bitmap < 2 ^ 32
  pub bits : (p : ℕ) → test_bit p m.bitmap ≡ not (is_empty (m.levels p))

pub file_back-Marked : (p t : ℕ) {m : Matrix} → p < 32 → Marked m → Marked (file_back p t m)
unfolding file_back
file_back-Marked p t {m} h k = record {
  word = change_bit-lt (λ b. true) 32 p m.bitmap h k.word;
  bits = λ q. ground (
    arith,
    test_bit-change (λ b. true) p q m.bitmap,
    k.bits q,
    is_empty-append_one (m.levels p) t,
  );
}

pub file_front-Marked : (p t : ℕ) {m : Matrix} → p < 32 → Marked m → Marked (file_front p t m)
unfolding file_front
file_front-Marked p t {m} h k = record {
  word = change_bit-lt (λ b. true) 32 p m.bitmap h k.word;
  bits = λ q. ground (arith, test_bit-change (λ b. true) p q m.bitmap, k.bits q);
}

-- A level that held a thread and is now `rest`.
pub shrink-Marked :
    (p : ℕ) (rest : List ℕ) {m : Matrix}
    → p < 32
    → is_empty (m.levels p) ≡ false
    → Marked m
    → Marked (shrink p rest m)
unfolding shrink
shrink-Marked p rest {m} h held k = record {
  word = ground (arith, change_bit-lt (λ b. false) 32 p m.bitmap h, k.word);
  bits = λ q. ground (arith, test_bit-change (λ b. false) p q m.bitmap, k.bits q, k.bits p);
}

-- has_more_urgent_than(p) says whether some level below `p` holds a thread.
pub has_more_urgent_than-true :
    {m : Matrix} (p q t : ℕ) (rest : List ℕ)
    → Marked m
    → q < p
    → m.levels q ≡ t ∷ rest
    → has_more_urgent_than p m ≡ true
unfolding has_more_urgent_than
has_more_urgent_than-true {m} p q t rest k h e =
    ground (arith, low_bits_set p q m.bitmap h, k.bits q)

pub has_more_urgent_than-false :
    {m : Matrix} (p : ℕ)
    → Marked m
    → ((q : ℕ) → q < p → m.levels q ≡ [])
    → has_more_urgent_than p m ≡ false
unfolding has_more_urgent_than
has_more_urgent_than-false {m} p k empty =
    ground (arith, low_bits_clear p m.bitmap (λ q h. k.bits q ∙ rw (empty q h) refl))

-- What pop_best gives: nothing where every level is empty, else the first thread of the level `p`
-- that holds one and below which none does.
pub data Popped (m : Matrix) : Option ℕ × Matrix → Type 0 where
  nothing : ((q : ℕ) → m.levels q ≡ []) → Popped m (none, m)
  best :
      (p t : ℕ) (rest : List ℕ)
      → p < 32
      → m.levels p ≡ t ∷ rest
      → ((q : ℕ) → q < p → m.levels q ≡ [])
      → Popped m (some t, shrink p rest m)

empty_of : (xs : List ℕ) → is_empty xs ≡ true → xs ≡ []
empty_of [] h = refl
empty_of (x ∷ xs) h = cc

empty_below :
    {m : Matrix}
    → Marked m
    → (q : ℕ) → q < countr_zero 32 m.bitmap
    → countr_zero 32 m.bitmap < 32
    → m.levels q ≡ []
empty_below {m} k q h w =
    empty_of (m.levels q) (ground (arith, k.bits q, countr_zero_lem 32 m.bitmap q (omega arith)))

pop_level-Popped :
    (m : Matrix) (p : ℕ) (xs : List ℕ)
    → m.levels p ≡ xs
    → is_empty xs ≡ false
    → p < 32
    → ((q : ℕ) → q < p → m.levels q ≡ [])
    → Popped m (pop_level p xs m)
unfolding pop_level
pop_level-Popped m p [] e held h below = cc
pop_level-Popped m p (t ∷ rest) e held h below = best p t rest h e below

pub pop_best-Popped : {m : Matrix} → Marked m → Popped m (pop_best m)
unfolding pop_best
pop_best-Popped {m} k = elim (Bool-cases (m.bitmap == 0)) [
  | inl none_set ↦
      rw none_set (nothing λ q. empty_of (m.levels q) (ground (arith, k.bits q, test_bit-zero q)))
  | inr some_set ↦
      let low = countr_zero_set 32 m.bitmap k.word (ground arith) in
      rw some_set (
        pop_level-Popped m (countr_zero 32 m.bitmap) _ refl
          (ground (arith, low, k.bits (countr_zero 32 m.bitmap))) low.1
          (λ q h. empty_below k q h low.1))
]

-- What the pick answers and leaves, level by level.
pub data Takes (m : Matrix) : Option ℕ × Matrix → Type 0 where
  none_left : ((q : ℕ) → m.levels q ≡ []) → Takes m (none, m)
  first :
      (p t : ℕ) (rest : List ℕ) (m' : Matrix)
      → m.levels p ≡ t ∷ rest
      → ((q : ℕ) → q < p → m.levels q ≡ [])
      → m'.levels p ≡ rest
      → ((q : ℕ) → q ≢ p → m'.levels q ≡ m.levels q)
      → Marked m'
      → Takes m (some t, m')

Popped-Takes : {m : Matrix} (r : Option ℕ × Matrix) → Marked m → Popped m r → Takes m r
unfolding shrink
Popped-Takes r k (nothing empty) = none_left empty
Popped-Takes {m} r k (best p t rest small e below) =
    first p t rest (shrink p rest m) e below (ground arith) (λ q other. ground (arith, other))
      (shrink-Marked p rest small (rw e refl) k)

-- In a matrix whose bitmap is true of its levels, the pick is the first thread of the most urgent
-- level that holds one: it leaves that level, whose others stay in their order, every other level
-- stays as it was, and the bitmap is true of the levels again. Where every level is empty, there is
-- no pick, and nothing changes.
pub pop_best-Takes : {m : Matrix} → Marked m → Takes m (pop_best m)
pop_best-Takes {m} k = Popped-Takes (pop_best m) k (pop_best-Popped k)
