-- ===== src/Predictor/Pending.antt =====
-- `pstate` and `Pstate_queue` of inc/bp_candidates.h: the ring of four slots in which a perceptron keeps
-- its predictions until their outcomes are known.
use sandbox_predictor.Prelude.{ℕ, ◌+◌, ◌%◌, List, get_or, set, replicate}
use sandbox_predictor.Prelude.Int.{ℤ, pos}

pub record Pstate : Type 0 where
  pub history : ℕ  -- uint64_t
  pub sum : ℤ  -- int

abbrev pub no_state : Pstate
no_state = record { history = 0; sum = pos 0 }

abbrev pub queue_size : ℕ
queue_size = 4

pub record PstateQueue : Type 0 where
  pub head : ℕ  -- unsigned
  pub tail : ℕ  -- unsigned
  pub storage : List Pstate

unfoldable pub empty : PstateQueue
empty = record { head = 0; tail = 0; storage = replicate queue_size no_state }

unfoldable pub dequeue : PstateQueue → PstateQueue × Pstate
dequeue q = (record q { head = (q.head + 1) % queue_size }, get_or q.storage q.head no_state)

unfoldable pub enqueue : PstateQueue → Pstate → PstateQueue
enqueue q s = record q { storage = set q.storage q.tail s; tail = (q.tail + 1) % queue_size }

unfoldable pub reset : PstateQueue → PstateQueue
reset q = record q { head = 0; tail = 0 }
