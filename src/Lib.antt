-- ===== src/Lib.antt =====
-- Etha moves the tensors of one set of processes to another over a device mesh. A verification
-- library for its Python package, src/etha.
--
-- The program's parts and the files that model them:
--
-- CommandQueue (src/etha/tensor_bus/command_queue.py): the ring buffer through which a host sends
-- commands to an agent. The state is the LMDB database (slots, head, tail) and the counts of the
-- two semaphores; each method is a function of the same name on it, `enqueue` and `dequeue` split
-- into the wait on a semaphore and the transaction. A wait that does not end is an outcome of its
-- own. Ring, Refinement and Fifo relate it to a bounded list, Interleaving has the steps of
-- concurrent producers and consumers, Corruption the records that do not decode. Positions are
-- natural numbers: the 64-bit counters of the file are taken not to overflow.
--
-- Comm (src/etha/comm): how a tensor gets from a source mesh to a target mesh. Layout and Trace
-- model get_m2m_map in src/etha/comm/get_m2m_map.py up to the gathered dicts, Routes the merging of
-- the dicts and the listing of the routes, Slices src/etha/comm/utils.py, Ir the types of
-- src/etha/comm/ir.py and src/etha/comm/transfer.py, Chunks m2m_to_chunks in
-- src/etha/comm/get_chunks.py, Groups the cache of src/etha/pg_utils.py and the functions that
-- create broadcast groups, Buckets src/etha/comm/get_buckets.py and the buffer of a bucket. A
-- tensor is an identity, a shape and a type; the bytes on the wire are modelled with the buckets.
-- Python's dictionaries are association lists in insertion order (Prelude.Dict), its sorted sets
-- are lists without repetition (Prelude.Sorting). The Euclidean algorithm in Layout runs on fuel,
-- one round more than its second number, which its divisibility lemma shows to be enough.
-- Pipeline models bucket_comm in src/etha/comm/comm_methods.py: a queue of buckets for each channel,
-- with at most max_in_flight of them prepared or in flight, and the answers of torch's work handles
-- as a function of the bucket and of how often it is asked. Each of its loops has the same fuel: if
-- a bucket answers that it is complete from its limit-th question on, limit and the number of
-- buckets together are enough.
--
-- KvStore (src/etha/kvstore): the two key-value stores. Names are the prefixes of base.py, Tcp and
-- Candidates the operations and waits of tcp.py, Etcd and Watch those of etcd.py. TCPStore and the
-- etcd client are parameters with the laws that the code relies on, and so are the encodings and the
-- pattern match. A wait of the TCP store is a sequence of polls, as many as its fuel, and time is a
-- function of the number of the poll; a wait of the etcd store gets the events that come before and
-- after its own check as arguments.
--
-- TensorBus (src/etha/tensor_bus): the agent and its clients. In agent.py, Rounds has the branches
-- of _execute_dual_transfer, Handlers the checks before them, the handlers of Transfer and
-- CleanupBatch for a batch whose two roles share one agent, the end of _execute_command and the
-- cleanup. The state is the batch, the store's keys of its id and a log of what the agent does:
-- rounds executed, errors recorded, semaphores released. What the ranks of the group gather is an
-- argument. InitPair has the registration of a side of a pair, Rendezvous the readiness of a pair's
-- sides, the leader's completion log in the store and its consumption by a rank; whether
-- _complete_pair returns or raises is an argument there. Pairs has _complete_pair itself with the
-- state it makes, that of src/etha/tensor_bus/pair_state.py; get_m2m_map is a parameter there, of
-- which the theorem takes the listing of the routes from Routes.
-- Registration has the merge of the two roles' tensors of a batch, with an argument for whether the
-- buckets are generated, and Generate what generates them: the chunks of every direction of a dual
-- batch, and the send and receive buckets of a split batch, with the types that the other side sent
-- as an argument. Layouts has the layouts that the ranks gather for RegisterTensors with the checks
-- on them, Admission what then becomes of the batch. Status has QueryStatus. Client models
-- src/etha/tensor_bus/client.py: waiting for a command, its error and result, the queries, and a
-- handler with its generation.
--
-- Not modelled: torch itself (distribution of tensors, collectives, devices, casts), LMDB's and the
-- semaphores' files, pickling, the agent's heartbeat and the way a client connects, the transfers of
-- a split batch, the entries that Partial placements add to get_m2m_map, and the start-up code
-- (src/etha/bootstrap.py, src/etha/utils.py).
pub mod Prelude
pub mod CommandQueue
pub mod Comm
pub mod KvStore
pub mod TensorBus
