-- ===== src/Channel/Refinement.antt =====
-- The channel refines the bounded FIFO.
use cyros.Common.{
  ℕ, ◌<◌, ◌≡◌, refl, ap, ◌∙◌, sym, Bool, true, false, not, ◌||◌, Option, none, some, List, [], ◌∷◌,
  arith, ◌==◌, ltb, length, is_some, if_both, if_each,
}
use cyros.Channel.{
  Channel, Outcome, queued, Wake, one_receiver, one_sender, every_receiver, every_sender, ask,
  place_locked, replace_oldest, take_locked, try_place, send_overwrite, send_pass, try_receive,
  receive_pass, stop,
}
use cyros.Channel.Spec.{
  Fifo, Command, Reply, serve, specified, placed, nothing, ended, received, received_or, push,
  rest_of, first_of, is_full,
}
use cyros.Channel.Fifo.{
  contents, Sound, length-contents, place_locked-contents, take_locked-contents,
  replace_oldest-contents,
}

module _ {T : Type 0} (capacity : ℕ) where
  abbrev pub fifo_of : Channel T → Fifo T
  fifo_of c = record { values = contents capacity c; stopped = c.stopped }

  -- The same answer, and a state that the specification's describes.
  abbrev pub Matches : Reply T × Channel T → Reply T × Fifo T → Type 0
  Matches r q = (r.0 ≡ q.0) × (fifo_of r.1 ≡ q.1) × Sound capacity r.1

  Sound-ask : (w : Wake) (c : Channel T) → Sound capacity c → Sound capacity (ask w c)
  unfolding ask
  Sound-ask w c s = record { room = s.room; head_in = s.head_in; tail_at = s.tail_at }

  fifo_of-ask : (w : Wake) (c : Channel T) → fifo_of (ask w c) ≡ fifo_of c
  unfolding ask contents
  fifo_of-ask w c = refl

  asked :
      (a : Reply T) (w : Wake) (c : Channel T) (q : Reply T × Fifo T)
      → Matches (a, c) q
      → Matches (a, ask w c) q
  asked a w c q (e, k, s) = (e, fifo_of-ask w c ∙ k, Sound-ask w c s)

  is_full-occupancy : (c : Channel T) → (c.occupancy == capacity) ≡ is_full capacity (fifo_of c)
  unfolding is_full
  is_full-occupancy c = ap (λ n. n == capacity) (sym (length-contents capacity c))

  fifo_path : {x y : Fifo T} → x.values ≡ y.values → x.stopped ≡ y.stopped → x ≡ y
  fifo_path e k = cc

  place_locked-Matches :
      (a : Reply T) (v : T) (c : Channel T)
      → Sound capacity c
      → c.occupancy < capacity
      → Matches (a, place_locked capacity v c) (a, push v (fifo_of c))
  unfolding push place_locked
  place_locked-Matches a v c s room =
      let (e, k) = place_locked-contents capacity v c s room in (refl, fifo_path e refl, k)

  replace_oldest-Matches :
      (v : T) (c : Channel T)
      → Sound capacity c
      → c.occupancy ≡ capacity
      → Matches
          (nothing, replace_oldest capacity v c)
          (nothing, push v (record { values = rest_of (contents capacity c); stopped = c.stopped }))
  unfolding push replace_oldest rest_of
  replace_oldest-Matches v c s full_up =
      let (e, k, t) = replace_oldest-contents capacity v c s full_up in
      (refl, fifo_path (rw k e) refl, t)

  emptied-Matches :
      (c : Channel T)
      → Sound capacity c
      → 0 < c.occupancy
      → ((some (take_locked capacity c).0 ≡ first_of (contents capacity c))
          × (fifo_of (take_locked capacity c).1
              ≡ record { values = rest_of (contents capacity c); stopped = c.stopped })
          × Sound capacity (take_locked capacity c).1)
  unfolding first_of rest_of take_locked
  emptied-Matches c s held =
      let (e, k) = take_locked-contents capacity c s held in
      (rw e refl, fifo_path (rw e refl) refl, k)

  empty-Matches :
      (c : Channel T)
      → c.occupancy ≡ 0
      → (first_of (contents capacity c) ≡ none)
        × (fifo_of c ≡ record { values = rest_of (contents capacity c); stopped = c.stopped })
  unfolding first_of rest_of
  empty-Matches c e = from (contents capacity c) refl (length-contents capacity c)
    where
      from :
          (xs : List T)
          → contents capacity c ≡ xs
          → length xs ≡ c.occupancy
          → (first_of xs ≡ none) × (fifo_of c ≡ record { values = rest_of xs; stopped = c.stopped })
      from [] k l = (refl, fifo_path k refl)
      from (x ∷ xs) k l = absurd (omega arith)

  room_of :
      (c : Channel T)
      → Sound capacity c
      → (c.occupancy == capacity) ≡ false
      → c.occupancy < capacity
  room_of c s h = ground (arith, s.room)

  has_room :
      (c : Channel T)
      → Sound capacity c
      → ltb c.occupancy capacity ≡ not (is_full capacity (fifo_of c))
  has_room c s = ground (arith, is_full-occupancy c, s.room)

  serve-Matches :
      (command : Command T) (c : Channel T)
      → Sound capacity c
      → Matches (serve capacity command c) (specified capacity command (fifo_of c))
  unfolding serve specified try_place send_overwrite send_pass try_receive receive_pass stop
      contents
  serve-Matches (Command.send_if_room v) c s =
      if_both (λ (x : Outcome × Channel T) q. Matches (placed x.0, x.1) q) c.stopped c.stopped _ _ _
        _ refl (λ h. (refl, refl, s))
        (λ h.
          if_both (λ (x : Outcome × Channel T) q. Matches (placed x.0, x.1) q) _ _ _ _ _ _
            (is_full-occupancy c) (λ e. (refl, refl, s))
            (λ e.
              asked _ one_receiver _ _
                (place_locked-Matches (placed queued) v c s (room_of c s e))))
  serve-Matches (Command.overwrite v) c s =
      if_both (λ (x : Channel T) q. Matches (nothing, x) q) c.stopped c.stopped _ _ _ _ refl
        (λ h. (refl, refl, s))
        (λ h.
          if_both (λ (x : Channel T) q. Matches (nothing, x) q) _ _ _ _ _ _ (is_full-occupancy c)
            (λ e. replace_oldest-Matches v c s (ground arith))
            (λ e. asked _ one_receiver _ _ (place_locked-Matches nothing v c s (room_of c s e))))
  serve-Matches (Command.blocking v) c s =
      if_both (λ (x : Bool × Channel T) q. Matches (ended x.0, x.1) q) c.stopped c.stopped _ _ _ _
        refl (λ h. (refl, refl, s))
        (λ h.
          if_both (λ (x : Bool × Channel T) q. Matches (ended x.0, x.1) q) _ _ _ _ _ _
            (has_room c s)
            (λ e. asked _ one_receiver _ _ (place_locked-Matches (ended true) v c s (ground arith)))
            (λ e. (refl, refl, s)))
  serve-Matches Command.receive_now c s =
      if_each
        (λ (x : Option T × Channel T).
          Matches (received x.0, x.1) (specified capacity Command.receive_now (fifo_of c)))
        (ltb 0 c.occupancy) _ _
        (λ e.
          let (v, k, t) = emptied-Matches c s (ground arith) in
          asked _ one_sender _ _ (ap received v, k, t))
        (λ e. let (v, k) = empty-Matches c (ground arith) in (ap received (sym v), k, s))
  serve-Matches Command.receive_or_wait c s =
      if_each
        (λ (x : Option T × Bool × Channel T).
          Matches (received_or x.0 x.1, x.2)
            (specified capacity Command.receive_or_wait (fifo_of c)))
        (ltb 0 c.occupancy) _ _
        (λ e.
          let (v, k, t) = emptied-Matches c s (ground arith) in
          asked _ one_sender _ _
            (ap (λ (o : Option T). received_or o (is_some o || c.stopped)) v, k, t))
        (λ e.
          let (v, k) = empty-Matches c (ground arith) in
          (ap (λ (o : Option T). received_or o (is_some o || c.stopped)) (sym v), k, s))
  serve-Matches Command.finish c s =
      if_each
        (λ (x : Channel T). Matches (nothing, x) (specified capacity Command.finish (fifo_of c)))
        c.stopped _ _ (λ e. (refl, fifo_path refl e, s))
        (λ e. asked _ every_sender _ _ (
          asked _ every_receiver _ _
            (refl, refl, record { room = s.room; head_in = s.head_in; tail_at = s.tail_at })))

  abbrev pub serve_all : List (Command T) → Channel T → List (Reply T)
  serve_all [] c = []
  serve_all (command ∷ rest) c =
      let (reply, c') = serve capacity command c in reply ∷ serve_all rest c'

  abbrev pub specified_all : List (Command T) → Fifo T → List (Reply T)
  specified_all [] q = []
  specified_all (command ∷ rest) q =
      let (reply, q') = specified capacity command q in reply ∷ specified_all rest q'

  -- Whatever calls are made in whatever order, on a channel whose indices are in range, every answer is
  -- that of a list of at most `capacity` values: values come out in the order they went in, a full
  -- channel refuses, throws the oldest away or waits as the call says, an empty one gives none or
  -- waits, and a stopped one is drained and takes no more.
  pub serve_all-specified_all :
      (commands : List (Command T)) (c : Channel T)
      → Sound capacity c
      → serve_all commands c ≡ specified_all commands (fifo_of c)
  serve_all-specified_all [] c s = refl
  serve_all-specified_all (command ∷ rest) c s =
      let (e, k, t) = serve-Matches command c s in
      let ih = serve_all-specified_all rest (serve capacity command c).1 t in rw (e, ih, k) refl
