-- ===== src/Channel/Spec.antt =====
-- The calls of a channel, and the bounded FIFO with a flag that specifies them.
use cyros.Common.{
  ℕ, Bool, true, false, not, ◌||◌, Option, none, some, List, [], ◌∷◌, ◌++◌, ◌==◌, if◌then◌else◌,
  length, is_some,
}
use cyros.Channel.{
  Channel, Outcome, queued, full, refused, try_place, send_overwrite, send_pass, try_receive,
  receive_pass, stop,
}

pub record Fifo (T : Type 0) : Type 0 where
  pub values : List T
  pub stopped : Bool

pub data Command (T : Type 0) : Type 0 where
  send_if_room : T → Command T
  overwrite : T → Command T
  blocking : T → Command T
  receive_now : Command T
  receive_or_wait : Command T
  finish : Command T

-- What a call answers; a blocking pass answers whether it ended.
pub data Reply (T : Type 0) : Type 0 where
  placed : Outcome → Reply T
  nothing : Reply T
  ended : Bool → Reply T
  received : Option T → Reply T
  received_or : Option T → Bool → Reply T

module _ {T : Type 0} where
  unfoldable pub push : T → Fifo T → Fifo T
  push v q = record q { values = q.values ++ v ∷ [] }

  unfoldable pub rest_of : List T → List T
  rest_of [] = []
  rest_of (x ∷ xs) = xs

  unfoldable pub first_of : List T → Option T
  first_of [] = none
  first_of (x ∷ xs) = some x

module _ {T : Type 0} (capacity : ℕ) where
  unfoldable pub serve : Command T → Channel T → Reply T × Channel T
  serve (send_if_room v) c = let (o, c') = try_place capacity v c in (placed o, c')
  serve (overwrite v) c = (nothing, send_overwrite capacity v c)
  serve (blocking v) c = let (b, c') = send_pass capacity v c in (ended b, c')
  serve receive_now c = let (o, c') = try_receive capacity c in (received o, c')
  serve receive_or_wait c = let (o, b, c') = receive_pass capacity c in (received_or o b, c')
  serve finish c = (nothing, stop capacity c)

  -- The specification: a list of at most `capacity` values.
  unfoldable pub is_full : Fifo T → Bool
  is_full q = length q.values == capacity

  unfoldable pub specified : Command T → Fifo T → Reply T × Fifo T
  specified (send_if_room v) q =
      if q.stopped
      then (placed refused, q)
      else if is_full q
      then (placed full, q)
      else (placed queued, push v q)
  specified (overwrite v) q =
      if q.stopped
      then (nothing, q)
      else if is_full q
      then (nothing, push v (record q { values = rest_of q.values }))
      else (nothing, push v q)
  specified (blocking v) q =
      if q.stopped
      then (ended true, q)
      else if not (is_full q)
      then (ended true, push v q)
      else (ended false, q)
  specified receive_now q = (received (first_of q.values), record q { values = rest_of q.values })
  specified receive_or_wait q = (
    received_or (first_of q.values) (is_some (first_of q.values) || q.stopped),
    record q { values = rest_of q.values },
  )
  specified finish q = (nothing, record q { stopped = true })
