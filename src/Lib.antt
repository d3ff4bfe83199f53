-- ===== src/Lib.antt =====
-- NLSR, the routing daemon of named data networks: a link state router that tells other routers of
-- its neighbors and its names, learns theirs, and installs routes in the forwarder.
--
-- How the parts work together. HelloProtocol finds out which neighbors are there and changes the
-- AdjacencyList; a change asks the Lsdb for a new adjacency LSA. The Lsdb keeps the LSAs of all
-- routers, asks for the newer ones, refreshes its own and drops the others' when they expire. What
-- it learns goes to the NamePrefixTable (which router advertises which name) and starts a routing
-- calculation, whose result is the RoutingTable (which faces lead to which router). The
-- NamePrefixTable joins the two and keeps the Fib up with them; the Fib registers faces in NFD.
--
-- The files, and the sources that they model:
--   Adjacency       src/adjacent.{hpp,cpp}, src/adjacency-list.{hpp,cpp}
--   NextHop         src/route/nexthop.hpp, src/route/nexthop-list.{hpp,cpp}
--   FaceMap         src/route/face-map.hpp
--   Fib             src/route/fib.{hpp,cpp}, src/route/fib-entry.hpp
--   Routes          src/route/routing-table-entry.hpp, the tables of src/route/routing-table.{hpp,cpp},
--                   src/route/name-prefix-table-entry.{hpp,cpp}
--   NamePrefixTable src/route/name-prefix-table.cpp
--   NamePrefixList  src/name-prefix-list.{hpp,cpp}
--   Sequencing      src/sequencing-manager.{hpp,cpp}
--   Lsa             src/lsa.{hpp,cpp}; Lsa/Content has the texts that LSAs are sent as
--   Lsdb            src/lsdb.{hpp,cpp}: Lsdb/Names, Lsdb/Adjacencies, Lsdb/Coordinates for the three
--                   kinds of LSA, Lsdb/Messages for the exchange with other routers
--   RouterMap       src/route/map.{hpp,cpp}, src/route/map-entry.hpp
--   Calculator      src/route/routing-table-calculator.cpp: the matrix of link costs
--   Dijkstra        src/route/routing-table-calculator.cpp: the distances of the routers
--   LinkState       src/route/routing-table-calculator.cpp: next hops, and the routes by links
--   Hyperbolic      src/route/routing-table-calculator.cpp: the routes by coordinates
--   Calculation     src/route/routing-table.cpp: a routing calculation
--   Tlv             src/tlv: the data sets of the LSDB as bytes, a module for each
--   Publisher       src/publisher: what is published of the LSDB, in segments, and for which interest
--   Config          src/conf-file-processor.cpp, src/conf-parameter.hpp: what the configuration file sets
--   Sync            src/communication/sync-logic-handler.cpp: the names of sync updates and what
--                   they ask for
--   Hello           src/hello-protocol.{hpp,cpp}
--   Nlsr            src/nlsr.{hpp,cpp}: the state that all parts share
--   PrefixUpdate    src/update/prefix-update-processor.cpp
--   Statistics      src/statistics.hpp
--   Runs            all handlers together, as a step relation
-- The other modules under these hold the proofs; Prelude, Keyed and Sorting hold what is shared, and
-- Instances and Examples the concrete inputs.
--
-- How they correspond. A class is a record with the fields of the class, and a member function is a
-- function of the record with the member's name in snake case, which returns the new record beside
-- the result. The parts refer to one another through the router, so the operations of
-- NamePrefixTable, Lsdb and Hello are functions of the record Nlsr. A pointer or an iterator into a
-- list is the key that found the element, and a change through it is `modify` at that key. Every
-- table is a list in the order of the `std::list`.
--
-- What belongs to other libraries. `ndn::Name` and `double` are records of the operations that are
-- called, with their documented laws (Prelude/Ndn, and Sync/Names for a name's components); Instances and
-- Examples/Updates have an instance of each. NFD, the face,
-- the scheduler, the sync socket and the packet counters are lists of calls, the latest first; an
-- event id is the number of the call that scheduled it. Tlv/Blocks has what is called of the TLV blocks of
-- ndn-cxx, and Lsa/Content
-- what is called for texts; Examples/Wires and Examples/Texts have simple ones with their laws. The
-- handlers of the Lsdb are given the LSA that a received text is read as. What ndn-cxx decodes or validates is an
-- argument of the handler. The clock is a field, in seconds.
--
-- Bounds. Link costs in the matrix are whole numbers, as they are rounded up; a double holds them
-- exactly up to 2 ^ 53. Numbers are natural numbers; where the source's type wraps, the wrap is written out
-- (`uint32_t` counters and LSA sequence numbers, the FIB's sequence numbers, the `int`
-- that an expiry event carries and the one that the count of builds is narrowed to, 64-bit
-- packed sequence numbers). Most loops run over a list. In
-- Dijkstra two loops count their turns: one turn for each router of the queue, which is all that there
-- are, as sorting keeps their number. The loop over parents in LinkState has one turn more than the
-- distance, as each parent is nearer to the source, and the loop over segments in Publisher has one
-- turn more than there are bytes, as each segment but the last takes one at least.
--
-- Not modelled: the encodings that data sets keep (`m_wire`), keys and certificates, logging,
-- the command line tool, and nsync, which is a library of its own. The expiry of a FIB entry, by which
-- a name leaves the FIB before the name prefix table, is `Fib.remove` and no step of a run.
pub mod Prelude
pub mod Keyed
pub mod Sorting
pub mod Adjacency
pub mod NextHop
pub mod FaceMap
pub mod Fib
pub mod NamePrefixList
pub mod Sequencing
pub mod Routes
pub mod Lsa
pub mod Nlsr
pub mod NamePrefixTable
pub mod Lsdb
pub mod Statistics
pub mod Hello
pub mod PrefixUpdate
pub mod Runs
pub mod Instances
pub mod Examples
pub mod Sync
pub mod RouterMap
pub mod Calculator
pub mod Dijkstra
pub mod LinkState
pub mod Config
pub mod Hyperbolic
pub mod Calculation
pub mod Tlv
pub mod Publisher
