-- ===== src/Lib.antt =====
-- A model of the chat of swindon (sessions, listener, replication, identifiers) and of its address
-- authorizer, with theorems about it.
--
-- The processor (src/chat/processor) is one thread that owns all session pools. Events come to it
-- over a channel (main.rs) and each is given to the pool that it names. A pool (pool.rs) holds
-- connections, first pending and then associated with a session, the sessions, active or inactive,
-- a table of subscriptions to topics, lattices of CRDTs by namespace, and who listens to whose
-- status. It answers over the channels of the connections and tells the inactivity handler about
-- sessions that fell idle. Backends send requests to the listener (src/chat/listener/codec.rs), which
-- gives events to the processor of its server and messages to the other servers; the watcher of
-- src/chat/replication keeps the links to these, and gives what it hears to its own processor. A
-- connection is named by a number and the id of its server. What clients call
-- (src/chat/dispatcher.rs) goes to backends, and the answers back.
--
-- Files, and the code that they model (paths from the root of the repository):
--   Intern, Intern/Validators   src/intern.rs: which texts are names of each kind.
--   Network/Subnets, SourceIp, Laws, Decision
--                               src/config/networks.rs and src/authorizers/source_ip.rs: which
--                               addresses are let in.
--   Pair, Pair/Laws             src/chat/processor/pair.rs: a map of sets as a relation.
--   Lattice/Crdt, State         src/chat/processor/lattice.rs: counters, sets and registers,
--                               `crdt_update`, `Lattice::update` and `Lattice::remove_session`.
--   Lattice/Laws, Merge, Rooms, Updates, Expiry, Sessions
--                               their laws.
--   Timers                      the interface of `HeapMap` (src/chat/processor/heap.rs): a map by
--                               key whose entries have deadlines, and the entry with the least one.
--   Heap/Slab, Order            the crate slab, and `Ord`, as interfaces with their documented laws.
--   Heap/Queue                  `Heap` of src/chat/processor/heap.rs, on lists with native indices.
--   Heap/Items, Places, Sifting, Sinking, Contract, Cutting, Removal
--                               its lists and index, its order on the way up and down, and what its
--                               operations do to the map from slots to values.
--   Heap/Map                    `HeapMap` of src/chat/processor/heap.rs, with string keys.
--   Heap/Map/Entries, State, Insertion, Changes, Taking, Refinement
--                               its invariant, what its operations do to a finite map, and runs.
--   Heap/Map/Filled             `HeapMap` as an instance of `Timers`, the interface that a pool is
--                               modelled over.
--   Ids/Digits, Base64          src/base64.rs, and the tables of digits.
--   Ids/RequestId, Decoding     src/request_id.rs, and what can be read from an id.
--   Ids/PubCid                  src/chat/cid.rs.
--   Replication, Replication/Links
--                               src/chat/replication/action.rs and the watcher of session.rs beside
--                               it (`attach`, `local_send`, `remote_send`, `reconnect`).
--   Listener, Listener/Requests src/chat/listener/codec.rs: `dispatch`, `headers_received`,
--                               `data_received`.
--   Listener/Owners, Reserved   which servers act on a request, and which routes are let through.
--   Calls                       src/chat/message.rs and `method_call` of src/chat/dispatcher.rs.
--   Calls/Encoding              the encoder of requests of the crate tk_http, as an interface.
--   Calls/Codec, Writing, Exchange, Identity
--                               `CallCodec` of src/chat/backend.rs, from a call to its answer.
--   Pool/Types                  the data of src/chat/processor/{pool,session,connection,mod}.rs.
--   Pool/Output, Topics, Attach, Connections, Activity, Lattices, Updates, Users
--                               the operations of src/chat/processor/pool.rs, one function for each,
--                               and one for each of their loops.
--   Pool/Actions                `pool_action` and the body of the loop over messages of `run` in
--                               src/chat/processor/main.rs.
--   Pool/Sync, Pool/Keys, Pool/Frames, Pool/Ready, Pool/Expiry
--                               the invariants of a pool, operation by operation.
--   Std, Outcome, World, Prelude
--                               maps and sets as lists, results that may be a panic, JSON and
--                               floating point numbers as a parameter, shared helpers.
--   Examples                    the theorems on concrete inputs.
--
-- How code becomes definitions: an operation on `&mut self` is a function from a pool to a pool. A
-- call that may panic (`unwrap`, `expect`, `unreachable!`) returns an `Outcome`. Maps and sets of the
-- standard library are lists without an order that matters to a theorem; a loop over one visits the
-- list in its order. What a pool sends, and the metrics that pool.rs counts, are the list `out`,
-- newest first. Times are whole numbers of milliseconds. The clock is an argument, which is read once
-- for each event. A channel is a number. Whether the receiver of a pool's messages is still there, on
-- which the panic of `clean_sessions` depends, is an argument of the cleanup.
--
-- Fuel: the loop of `clean_sessions` pops an entry in each round, and is given as much fuel as the
-- map has entries at the start, which is enough, because nothing in the loop adds one. The loop of
-- `percolate_up` gets one round more than the index it starts at, which shrinks in each round; the
-- loop of `percolate_down` one more than there are items, and the index grows in each round.
--
-- Not modelled: the check `assert_consistent` of debug builds; serialisation, logging, debug
-- assertions, and the metrics of lattice.rs; two calls that cannot fail here, the conversion of a
-- clock before 1970 (`user_status_update`; the clock is a natural number) and a write to a formatter
-- (`Base64`); the outer loop of `run`, which waits on the channel; and the other parts of the program
-- (HTTP, configuration, routing, authorization by a backend). The crate slab, the encoder of tk_http,
-- serde's reading of values and bodies, and the printing and parsing of numbers are parameters with
-- their documented behaviour; a name is parsed by what its validator accepts.
pub mod Prelude
pub mod Std
pub mod World
pub mod Lattice
pub mod Outcome
pub mod Intern
pub mod Network
pub mod Pair
pub mod Timers
pub mod Heap
pub mod Ids
pub mod Replication
pub mod Listener
pub mod Calls
pub mod Pool
pub mod Examples
