-- ===== src/Lib.antt =====
-- willow-rs: the data model, capabilities, and parts of the sync protocol of Willow.
--
-- The parts and how they interact. The data model (data-model/src) names entries by a namespace, a
-- subspace, a path and a timestamp; paths are ordered and have prefixes, and groupings (ranges, areas,
-- three-dimensional ranges) select entries. Meadowcap (meadowcap/src) grants access to areas: its
-- capabilities test areas for inclusion in areas, and its tokens test entries for inclusion in areas.
-- The sync protocol finds overlaps of the areas of interest of two peers with area maps
-- (wgps/src/pio/overlap_finder.rs), names data by handles (wgps/src/data_handles/handle_store.rs), and
-- multiplexes logical channels whose use is limited by guarantees (lcmux/src). A store keeps the
-- entries of a namespace and their payloads, drops entries that newer ones prune, and tells its
-- subscribers what happened (data-model/src/store.rs); store_simple_sled/src keeps one in the database
-- sled.
--
-- The files.
--   Prelude: shared names and helpers: Boolean tests, lists over the native numbers (Prelude/Lists),
--     orders as an interface (Prelude/Order) with consequences (Prelude/Compare), loops from the last
--     index on (Prelude/Backward) and the theory of the least greater list (Prelude/Least), results of
--     fallible functions with panics (Prelude/Outcome), and hash maps (Prelude/HashMap,
--     Prelude/Collect).
--   Path: data-model/src/path/component.rs, mod.rs and builder.rs. A path is the list of its
--     components; `PathBuilder` is its components with the two lengths it was promised.
--     Path/Representation: the buffer of bytes of representation.rs and its builder, which refine
--     the lists; Read reads a buffer, Builder fills one. Path/Construct,
--     Path/Prefix: construction and prefixes. Path/Successor: `successor` and
--     `greater_but_not_prefixed`; below it Step and Admissible say what one step of their loops does,
--     and Greater, Next, Exact and Gap what the loops find.
--     Path/NewMax: `new_max`, the upper end of the scans of the store.
--   Parameters: the trait `SubspaceId` of data-model/src/parameters.rs.
--   Entry: data-model/src/entry.rs.
--   Grouping: Range, Area, Range3d and AreaMap, NamespacedAreaMap for data-model/src/grouping.
--   Meadowcap: meadowcap/src. Keys has the data types and the interface of keys and signatures, Chain
--     what communal and owned capabilities share, Communal, Owned and Capability the three types of
--     capabilities and the tokens.
--   HandleStore: wgps/src/data_handles/handle_store.rs.
--   Guarantee: lcmux/src/guarantee_bound.rs (Bound) and guarantee_cell.rs (Cell, Unbounded); TakeCell
--     is the interface of the cell that a task waits on.
--   Overlap: wgps/src/pio/overlap_finder.rs.
--   Store: data-model/src/store.rs, lengthy_entry.rs, and `AuthorisedEntry` of entry.rs. Store/Events is
--     `EventSystem`: the queue, and the slab of subscribers with the cell that each of them shares with
--     its producer; Produce is that producer, Unread and Produce/Delivery relate the queue to what a
--     subscriber has yet to read.
--   SimpleSled: store_simple_sled/src/lib.rs. Sled is the interface of the database: a tree is
--     what its documentation says, a map from byte strings that is iterated in their order. Codec
--     is the interface of the encodings that the keys and values use. Keys has the keys of the
--     trees: RoundTrip decodes them, Scan says what a scan by a prefix finds, Order how they are
--     ordered. State is `StoreSimpleSled`, its three trees and its event system, with the values of
--     the trees; Seen says what a loop over a scan finds where some items of it are errors; Held is
--     the map from coordinates to entries that the first tree stands for. Open creates and reopens
--     it; Ingest, Forget, Append, Query, Ranges, Split and Subscribe are its operations, each with
--     the modules of its theorems below it.
--
-- Conventions. Integers are natural numbers; the arithmetic of `u64` is written out where it is
-- checked or saturating, and a counter wraps around at 2^64 as in a release build. The limits MCL,
-- MCC and MPL are one record, `Limits`; `IsPath` is the invariant of the type. `Outcome` is a
-- `Result` that may also panic. Types that the source is generic in are parameters, with their
-- order as an instance. The words of the buffer are an interface, since their width and byte order
-- are the machine's. The functions `await_threshold_sub` and `await_threshold_clear` are two
-- functions each, what they do up to their `await` and what they do from there when they are
-- polled; `start_threshold_sub`, the first poll of the former, does both, with nothing in between.
-- Loops run over the components or bytes that are there, but for three that run on fuel: the loop
-- that splits a key into components reads a byte in each round but the last, so it gets one round
-- more than there are bytes; the loop of a subscriber's `produce` reads an operation of the queue
-- in each round but the last, and gets one round more than the queue is long; the loop of
-- `summarise` takes a binding of the scan in each round but the last, and gets one round more than
-- the scan is long. An operation of the store is given what sled answers to each kind of request
-- in the course of the call (`Faults`), since sled may answer any of them by an error: to opening
-- a tree, to reading a payload, to yielding a binding of a scan, and to the transaction. Where the
-- source has `flatten`, bindings that are answered by an error are skipped; the producer of
-- entries and `count_area` return the error. A failed transaction changes nothing. The source of a
-- payload is the bytes that it yields, and the error that it ends with, if any.
--
-- Not modelled: the encodings, the frames and sessions of logical channels, the sessions,
-- messages, reconciliation and private interest overlap of the sync protocol, transport
-- encryption, sideloading, and the fuzz targets. Signatures are an interface: `verify_user` and
-- its like stand for the verification of the encoding of the value that they are given.
pub mod Prelude
pub mod Path
pub mod Entry
pub mod Grouping
pub mod Parameters
pub mod Meadowcap
pub mod HandleStore
pub mod Overlap
pub mod Guarantee
pub mod Store
pub mod SimpleSled
