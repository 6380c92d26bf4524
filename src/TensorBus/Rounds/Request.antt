-- ===== src/TensorBus/Rounds/Request.antt =====
-- The request signal of a direction, published before the first command of a round is parked.
use etha.Prelude.{ℕ, Bool, nat_eq, list_eq}
use etha.TensorBus.Rounds.{Direction, Session, is_done}

-- A reader of the request signal sees that round `q` was asked for.
abbrev pub is_requested : Direction → ℕ → Session → Bool
is_requested d q s = is_done q (s.hub.transfer_request_round d)
