-- ===== src/Lib.antt =====
-- mock-tikv: a mock of a TiKV cluster. Its core is a transactional key-value store with versions
-- (server/mvcc.go, server/mvcc_leveldb.go) on goleveldb, with the key encoding of server/codec.go. A
-- cluster (server/cluster.go) divides the keys into regions, which its stores serve
-- (server/store.go), and a member answers for the placement (server/member.go). A server
-- (server/server.go, server/handler.go) makes clusters, by its HTTP interface (server/api), and hands
-- out ids and timestamps. A client asks the member for the region of a key, and sends its requests to
-- the store of the region's leader; the store checks the region and calls one method of MVCCLevelDB,
-- which reads the keys that it names with an iterator, collects a batch, and writes it.
--
-- - Prelude: lists, tests and machine words. Numbers are natural numbers; a uint64 that can wrap is
--   reduced by `u64_mod` where it can.
-- - Errors: server/errors.go, and Go's (value, error) pairs as `Result`.
-- - Bytes: the standard library's bytes.Compare and bytes.Equal (`cmp`, `equal`), with the laws of
--   the order, and encoding/binary's fixed-width numbers (Endian).
-- - Codec: server/codec.go. A loop over the groups of a byte string runs on fuel: the length of the
--   string and one is enough, since a round uses up eight or nine bytes.
-- - Key: mvccEncode and mvccDecode of server/mvcc_leveldb.go, NewMvccKey and Raw of server/mvcc.go.
-- - Marshal: MarshalBinary and UnmarshalBinary of mvccLock and mvccValue in server/mvcc.go;
--   Marshal.Partial is what UnmarshalBinary leaves in the struct when it fails.
-- - Entry: mvccEntry of server/mvcc.go, one operation per method.
-- - Engine: goleveldb, a parameter: `Engine` is what is called of it, `EngineLaws` what a database in
--   memory promises, and Engine.Memory a database that meets the laws.
-- - Mvcc: MVCCLevelDB of server/mvcc_leveldb.go. An operation is a function of the database, since
--   the mutex makes it one step. Write has Prewrite, Commit, Rollback and Cleanup; Scan has Scan and
--   ReverseScan; Status has ScanLock, CheckTxnStatus, ResolveLock and BatchResolveLock; Raw has the
--   RawKV operations. Loops over the iterator run on fuel where a round may use up no item; Mvcc.Fuel
--   is about the number of rounds. Mvcc.Cells is the abstract content of the database, a lock and
--   values for each key (Cells.Scan, Cells.Locks and Cells.Resolve have the loops over a range of
--   keys), and Mvcc.Spec what the operations do to that content and what a reader sees
--   of it; Mvcc.Sample is a database for the tests.
-- - Cluster: validateRegion, the regions and the safe point of clusterInstance in
--   server/cluster.go, with server/region.go. The list and the map of regions share the regions, which
--   are kept once.
-- - Server: getTS and allocID of server/server.go, with the clock as an argument of each call.
-- - Store: server/store.go. The state is the cluster, the server's id counter and the database, and a
--   handler gives the state that it leaves and its reply: a panic, an error of the call, an error of
--   the region, an error of a key, or an answer. Store.Check is the check of a request, Store.Kv
--   and Store.RawKv are the key-value handlers, Store.Split is SplitRegion, and Store.Batch the
--   stream of batches. Store.Service has all requests as data (`serve`) and the states that sequences
--   of them reach (`Reach`); Store.Sound is the invariant of those states, and Store.Route the way of a
--   client to the leader's store. The fail points that are hit, and the size of a message, are
--   arguments of a call.
-- - Member: server/member.go, with the accessors of server/cluster.go that it calls.
-- - Admin: the clusters of server/server.go and the methods of server/handler.go. Admin.Create is
--   doCreateCluster, with start, initRegions and init; Admin.Convert is server/conversion.go;
--   Admin.Faults has the fail points of a store over the package failpoint, a parameter.
-- - Api: the handlers of server/api/cluster.go and server/api/store.go.
--
-- Not modelled: network listeners and the gRPC servers behind them (CreateServer, the rest of start
-- and stop), which only give addresses here; the handlers whose body is a panic or the status
-- Unimplemented; the router and the JSON of server/api; logging, configuration and the command. Errors
-- carry no stack trace.
pub mod Prelude
pub mod Errors
pub mod Bytes
pub mod Codec
pub mod Key
pub mod Marshal
pub mod Entry
pub mod Engine
pub mod Mvcc
pub mod Cluster
pub mod Server
pub mod Store
pub mod Member
pub mod Admin
pub mod Api
