-- ===== src/TensorBus/Client/Examples.antt =====
-- Queries of a batch of generation 2, and a handler of generation 1.
use etha.Prelude.{pair_eq, ℕ, ◌≡◌, refl, ◌≢◌, true, false, some, [], ◌∷◌, arith, nat_eq, list_eq}
use etha.TensorBus.Rounds.{Batch, Hub, Session, pos, send, failed, invalid_registration}
use etha.TensorBus.Status.{transfer_signal_round, transfer_request_round}
use etha.TensorBus.Client.{
  BatchHandler, value, close_command, query_transfer_signal, query_transfer_request, signal_query,
  request_query,
}
use etha.TensorBus.Client.Stale.{transfer_of, cleanup, asked_by, handler_stale}

abbrev batch : Batch
batch = record {
  generation = 2;
  local_leader = 0;
  role_ranks = 5 ∷ 6 ∷ [];
  dual_direction = some (5, 6);
  dual_direction_buckets = [];
  dual_direction_done = [];
  dual_round_pending = [];
  pending_register_semaphores = [];
}

abbrev hub : Hub
hub = record {
  dual_direction = λ g. some (5, 6);
  transfer_request_round = λ d. some 4;
  transfer_signal_round = some 3;
  log = [];
}

abbrev session : Session
session = record { rank = 0; batch = batch; hub = hub }

abbrev handler : BatchHandler
handler = record { batch_id = 7; generation = 1; closed = false }

one-ne-zero : ◌≢◌ {A = ℕ} 1 0
one-ne-zero h = absurd (omega arith)

two-ne-zero : ◌≢◌ {A = ℕ} 2 0
two-ne-zero h = absurd (omega arith)

one-ne-two : ◌≢◌ {A = ℕ} 1 2
one-ne-two h = absurd (omega arith)

handler_stale_example :
    (transfer_of handler send (some 5) (pos 3) (some 8) [] session
      ≡ value (failed invalid_registration session))
    × ((cleanup (close_command handler) session ≡ (some batch, hub))
        × ((query_transfer_signal true
                (some (pos 3))
                (asked_by 9 (signal_query handler (some (pos 3))) session true)
              ≡ value false)
            × (query_transfer_request true
                  (pos 3)
                  (asked_by 9 (request_query handler (5, 6)) session true)
                ≡ value false)))
handler_stale_example =
    handler_stale handler session true 9 3 (5, 6) send (some 5) (some 8) [] refl one-ne-zero
      two-ne-zero one-ne-two
