-- ===== src/KvStore/Examples.antt =====
-- The stores of src/etha/kvstore on a server that is a dictionary.
use etha.Prelude.{
  pair_eq, select, list_beq_iff, ℕ, ◌≡◌, refl, ◌≢◌, ◌⊎◌, Bool, true, false, ◌||◌, not, Option, none,
  some, List, [], ◌∷◌, arith, leb, ◌==◌, nat_eq, list_eq, if◌then◌else◌,
}
use etha.Prelude.Dict.{Dict, lookup, insert, erase, lookup-insert, lookup-erase}
use etha.KvStore.{Text, KvNames, slash, prefixed}
use etha.KvStore.Tcp
use etha.KvStore.Tcp.{TcpBackend, TcpStore, wait_for_key, poll_value, not_empty}
use etha.KvStore.Etcd
use etha.KvStore.Etcd.{EtcdBackend, EtcdStore, starts_with, is_some}
use etha.KvStore.Watch.{found, timed_out, wait_for_value}
use etha.KvStore.Waits.{any, hits, is_expected, wait_for_value_lem}
use etha.KvStore.Polling.{Outcome, wait_for_key-Outcome}
use etha.KvStore.Candidates.{Answers, RunsOut, wait_for_keys, wait_for_keys-Answers}
use etha.KvStore.Backends.{
  Change, set, delete, present, run_tcp, run_etcd, get-run_tcp, delete_differs,
}

abbrev Server : Type 0
Server = Dict Text Text

abbrev or_empty : Option Text → Text
or_empty none = []
or_empty (some v) = v

tcp_check-set :
    (s : Server) (k j v : Text)
    → is_some (lookup j (insert k v s)) ≡ (if j == k then true else is_some (lookup j s))
tcp_check-set s k j v = ground (arith, lookup-insert k j v s)

tcp_get-set :
    (s : Server) (k j v : Text)
    → or_empty (lookup j (insert k v s)) ≡ (if j == k then v else or_empty (lookup j s))
tcp_get-set s k j v = ground (arith, lookup-insert k j v s)

abbrev tcp : TcpBackend Server
tcp = record {
  check = λ s k. is_some (lookup k s);
  get = λ s k. or_empty (lookup k s);
  set = λ s k v. insert k v s;
  check-set = tcp_check-set;
  get-set = tcp_get-set;
}

abbrev outside : Text → Text × Text → Bool
outside p entry = not (starts_with p entry.0)

lookup-outside :
    (s : Server) (p j : Text)
    → lookup j (select (outside p) s) ≡ (if starts_with p j then none else lookup j s)
lookup-outside [] p j = ground arith
lookup-outside ((k, v) ∷ s) p j = ground (arith, list_beq_iff j k, lookup-outside s p j)

abbrev etcd : EtcdBackend Server
etcd = record {
  get = λ s k. lookup k s;
  put = λ s k v. insert k v s;
  delete = λ s k. (erase k s, is_some (lookup k s));
  delete_prefix = λ s p. select (outside p) s;
  get_prefix = λ s p. select (λ entry. starts_with p entry.0) s;
  get-put = λ s k j v. lookup-insert k j v s;
  get-delete = λ s k j. lookup-erase k j s;
  delete_found = λ s k. refl;
  get-delete_prefix = lookup-outside;
}

abbrev names : KvNames
names = record { namespace = b'n' ∷ []; component = b'c' ∷ [] }

abbrev key : Text
key = b'k' ∷ []

abbrev one : Text
one = b'1' ∷ []

-- The key in the server.
abbrev raw_key : Text
raw_key = b'n' ∷ slash ∷ b'c' ∷ slash ∷ b'k' ∷ []

abbrev tcp_empty : TcpStore Server
tcp_empty = record { names = names; server = []; known_keys = [] }

abbrev etcd_empty : EtcdStore Server
etcd_empty = record { names = names; server = [] }

abbrev tcp_one : TcpStore Server
tcp_one = record { names = names; server = (raw_key, one) ∷ []; known_keys = key ∷ [] }

abbrev etcd_one : EtcdStore Server
etcd_one = record { names = names; server = (raw_key, one) ∷ [] }

abbrev changes : List Change
changes = set key one none ∷ delete key none ∷ set key one (some (b'g' ∷ [])) ∷ []

one-ne-nil : one ≢ []
one-ne-nil h = cc

get-run_tcp_example :
    present (Tcp.get tcp (run_tcp tcp etcd changes tcp_empty) key none)
    ≡ Etcd.get etcd (run_etcd tcp etcd changes etcd_empty) key none
get-run_tcp_example =
    get-run_tcp tcp etcd changes tcp_empty etcd_empty (one-ne-nil, (tt, (one-ne-nil, tt)))
      (record { names = refl; values = λ k. refl }) key none

delete_differs_example :
    (Tcp.get tcp (Tcp.delete tcp tcp_one key none).0 key none ≡ some [])
    × (Tcp.exists tcp (Tcp.delete tcp tcp_one key none).0 key none ≡ true)
    × ((Tcp.delete tcp (Tcp.delete tcp tcp_one key none).0 key none).1 ≡ true)
    × (Etcd.get etcd (Etcd.delete etcd etcd_one key none).0 key none ≡ none)
    × (Etcd.exists etcd (Etcd.delete etcd etcd_one key none).0 key none ≡ false)
    × ((Etcd.delete etcd (Etcd.delete etcd etcd_one key none).0 key none).1 ≡ false)
unfolding Tcp.exists prefixed
delete_differs_example = delete_differs tcp etcd tcp_one etcd_one key none refl

-- The key appears at the third poll.
abbrev servers : ℕ → Server
servers n = if leb 3 n then (raw_key, one) ∷ [] else []

wait_for_key-Outcome_example :
    Outcome
      (poll_value tcp not_empty (prefixed names key none))
      servers
      (λ n. n)
      5
      0
      7
      (wait_for_key tcp names key 5 none servers (λ n. n) 8)
wait_for_key-Outcome_example =
    wait_for_key-Outcome tcp names key 5 none servers (λ n. n) 7 (omega arith)

wait_for_keys-Answers_example :
    Answers tcp names none one
      (λ n k. servers n)
      (key ∷ [])
      1
      (wait_for_keys tcp names none one
        (λ k p. true)
        (b'*' ∷ [])
        1
        5
        (some (key ∷ []))
        (λ n k. servers n)
        (λ n. n)
        8)
    ⊎ RunsOut tcp names none one
        (λ n k. servers n)
        (λ n. n)
        (key ∷ [])
        5
        1
        7
        (wait_for_keys tcp names none one
          (λ k p. true)
          (b'*' ∷ [])
          1
          5
          (some (key ∷ []))
          (λ n k. servers n)
          (λ n. n)
          8)
wait_for_keys-Answers_example =
    wait_for_keys-Answers tcp names none one (λ k p. true) (b'*' ∷ []) 1 5 (key ∷ [])
      (λ n k. servers n) (λ n. n) 7 (omega arith)

wait_for_value_lem_example :
    wait_for_value etcd etcd_empty key one none [] (((raw_key, some one) ∷ []) ∷ []) ≡ (
      if is_expected (prefixed names key none) one (Etcd.get etcd etcd_empty key none)
        || (any (any (hits (prefixed names key none) one)) []
            || any (any (hits (prefixed names key none) one)) (((raw_key, some one) ∷ []) ∷ []))
      then found one
      else timed_out)
wait_for_value_lem_example =
    wait_for_value_lem etcd etcd_empty key one none [] (((raw_key, some one) ∷ []) ∷ [])
