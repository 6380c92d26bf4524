-- ===== src/Comm/Pipeline/Examples.antt =====
-- The pipeline of comm_methods.py on a few buckets of two channels.
use etha.Prelude.{
  pair_eq, select, ℕ, ◌≡◌, refl, Bool, some, List, [], ◌∷◌, arith, leb, nat_eq, list_eq,
}
use etha.Comm.Pipeline.{
  prepare_turn, launch_turn, complete_turn, State, Call, prepare, launch, finalize, bucket_comm,
  sequential_comm,
}
use etha.Comm.Pipeline.Fifo.{Follows, at, on_channel, at-bucket_comm}
use etha.Comm.Pipeline.Sequential.{
  prepared_of, launched_of, finalized_of, bucket_comm-sequential_comm,
}
use etha.Comm.Pipeline.Terminates.{bucket_comm-ends}

-- A key and a name.
abbrev key : ℕ × ℕ → ℕ
key b = b.0

abbrev buckets : List (ℕ × ℕ)
buckets = (0, 1) ∷ (0, 2) ∷ (1, 3) ∷ (0, 4) ∷ []

-- The first polls find nothing.
abbrev is_complete : ℕ → ℕ × ℕ → Bool
is_complete n b = leb 3 n

abbrev on_zero : List (Call (ℕ × ℕ))
on_zero =
    prepare (0, 1)
    ∷ prepare (0, 2)
    ∷ launch (0, 1)
    ∷ launch (0, 2)
    ∷ finalize (0, 1)
    ∷ finalize (0, 2)
    ∷ prepare (0, 4)
    ∷ launch (0, 4)
    ∷ finalize (0, 4)
    ∷ []

abbrev last : State ℕ (ℕ × ℕ)
last = record {
  clock = 7;
  channels =
      (0, record { candidate = []; prepared = []; in_flight = []; calls = on_zero })
      ∷ (
        1,
        record {
          candidate = [];
          prepared = [];
          in_flight = [];
          calls = prepare (1, 3) ∷ launch (1, 3) ∷ finalize (1, 3) ∷ [];
        },
      )
      ∷ [];
}

bucket_comm_runs : bucket_comm key buckets 2 is_complete 20 ≡ some last
unfolding bucket_comm prepare_turn launch_turn complete_turn
bucket_comm_runs = refl

at-bucket_comm_example :
    Follows 2 ((0, 1) ∷ (0, 2) ∷ (0, 4) ∷ []) (at 0 last.channels).calls [] [] []
at-bucket_comm_example = at-bucket_comm key 2 is_complete 20 buckets last bucket_comm_runs 0

bucket_comm-sequential_comm_example :
    (prepared_of (at 0 last.channels).calls
      ≡ select (on_channel key 0) (prepared_of (sequential_comm buckets)))
    × (launched_of (at 0 last.channels).calls
        ≡ select (on_channel key 0) (launched_of (sequential_comm buckets)))
    × (finalized_of (at 0 last.channels).calls
        ≡ select (on_channel key 0) (finalized_of (sequential_comm buckets)))
bucket_comm-sequential_comm_example =
    bucket_comm-sequential_comm key 2 is_complete 20 buckets last bucket_comm_runs 0

bucket_comm-ends_example :
    (s : State ℕ (ℕ × ℕ)) × (bucket_comm key buckets 2 is_complete 8 ≡ some s)
bucket_comm-ends_example =
    bucket_comm-ends key is_complete 3 (λ n b h. ground arith) 2 8 buckets (omega arith)
      (omega arith)
