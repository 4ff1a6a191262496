-- ===== src/Live/Hub.antt =====
-- `LiveHub`: subscribers with bounded queues. A queue is told by its number, and a loop by its own.
pub mod Latest
use switch_ops.Prelude.{ℕ, Bool, ◌&&◌, List, [], ◌∷◌, ◌++◌, leb, ltb, ◌==◌, if◌then◌else◌, length}

-- An `asyncio.Queue`; a `maxsize` of 0 is no bound.
pub record Mailbox (M : Type 0) : Type 0 where
  pub maxsize : ℕ
  pub items : List M

pub record Subscriber : Type 0 where
  pub loop : ℕ
  pub queue : ℕ

module _ {M : Type 0} where
  full : Mailbox M → Bool
  full q = ltb 0 q.maxsize && leb q.maxsize (length q.items)

  -- `get_nowait`, whose exception is ignored
  drop_oldest : List M → List M
  drop_oldest [] = []
  drop_oldest (m ∷ ms) = ms

  -- `put_nowait`, whose exception is ignored
  put_nowait : M → Mailbox M → Mailbox M
  unfolding full
  put_nowait m q = if full q then q else record q { items = q.items ++ m ∷ [] }

  -- `_offer`
  unfoldable pub offer : M → Mailbox M → Mailbox M
  unfolding full drop_oldest put_nowait
  offer m q = put_nowait m (if full q then record q { items = drop_oldest q.items } else q)

  -- The callbacks of one queue in their order.
  unfoldable pub offer_all : List M → Mailbox M → Mailbox M
  unfolding offer
  offer_all [] q = q
  offer_all (m ∷ ms) q = offer_all ms (offer m q)

unfoldable pub subscribe : ℕ → ℕ → List Subscriber → List Subscriber
subscribe loop queue subscribers = subscribers ++ record { loop = loop; queue = queue } ∷ []

unfoldable pub unsubscribe : ℕ → List Subscriber → List Subscriber
unsubscribe queue [] = []
unsubscribe queue (s ∷ rest) =
    let others = unsubscribe queue rest in if s.queue == queue then others else s ∷ others

-- `publish`: the queues that get the message. A loop that has gone raises, and is passed over.
unfoldable pub publish : (ℕ → Bool) → List Subscriber → List ℕ
publish is_open [] = []
publish is_open (s ∷ rest) =
    let others = publish is_open rest in if is_open s.loop then s.queue ∷ others else others
