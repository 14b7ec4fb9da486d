-- ===== src/Lib.antt =====
-- EA discovery server (repository ea): the replicated services behind the cluster's discovery.
--
-- The server runs three state machines over raft (braft): the discovery data, the id counters and the
-- timestamp oracle. A client's request is proposed to raft by the leader, and every replica applies the
-- committed entries in order (`on_apply`); the replica that proposed an entry also has a closure with the
-- response to fill.
--
-- - Common: shared names, bytes, maps, sets, signed integers.
-- - Api: the messages, generated from protocol files of another repository: records of the fields that the server
--   reads and writes.
-- - Base (ea/discovery/base_state_machine.{h,cc}): the response macros, `process`, leadership.
-- - AutoIncr (ea/discovery/auto_incr_state_machine.{h,cc}): `_auto_increment_map` is a map from servlet ids to
--   64-bit counters; add_servlet_id, drop_servlet_id, gen_id, update and on_apply are the functions of these names.
--   AutoIncr/Snapshot has the snapshot file, over a JSON library and turbo::Atoi as parameters.
-- - Tso (ea/discovery/tso_state_machine.{h,cc}, the constants of discovery_constants.h): `TsoObj` and the flags of
--   TSOStateMachine; gen_tso, reset_tso, update_tso, update_timestamp, on_leader_start and process. The mutex makes
--   one round of gen_tso atomic: an interleaving is a list of rounds and log entries (Tso/Run), and gen_tso itself
--   takes what the other threads do between its rounds as a function. Tso/Snapshot has the snapshot file, over
--   std::to_string and std::stol as parameters. The 50 rounds of gen_tso are the source's own bound. Sums of int64_t
--   timestamps are over ℤ: where they overflow the source is undefined.
-- - Rocks (ea/discovery/discovery_rocksdb.{h,cc}): the batches that the discovery data is written with. RocksDB is a
--   parameter (Rocks: a batch is written whole or not at all; an iterator gives the entries of a one-byte prefix),
--   and so is protobuf (Codec: what serializes parses back). Rocks/Store and Rocks/Wire are instances of the two,
--   for the examples.
-- - Schema (ea/discovery/schema_manager.cc, check_and_get_for_privilege): the names in a request, over what the
--   namespace, zone and servlet managers answer (SchemaIds). Schema/State has the state of the three managers and
--   their inline functions (namespace_manager.h, zone_manager.h, servlet_manager.h): `_namespace_id_map` and so on
--   are the maps of these names, and operator[] is value_at with touch, which inserts. Schema/Namespaces,
--   Schema/Zones and Schema/Servlets have the operations of the .cc files, Schema/Apply the part of
--   DiscoveryStateMachine::on_apply that calls them, Schema/Reload load_snapshot. Ids are natural numbers: they
--   start at 1 and count up, and as database keys they are the 8 bytes of Common/Words.
-- - Privilege (ea/discovery/privilege_manager.{h,cc}): `_user_privilege` beside the database; create_user,
--   drop_user, add_privilege, drop_privilege, load_snapshot and process_user_privilege. Rights has the code that is
--   the same for the entries of zones and of servlets (insert_zone_privilege and insert_servlet_privilege,
--   delete_...).
-- - Config (ea/discovery/config_manager.{h,cc}): `_configs`, a map from names to versions in increasing order;
--   create_config, remove_config, remove_config_all and load_snapshot are the functions of these names.
--   turbo::ModuleVersion is a parameter (Versions: a total order, with a text).
-- - Instances (ea/discovery/instance_manager.{h,cc}): Registry has the five maps of InstanceManager; the .cc file's
--   functions are in Instances and Instances/Manager. A TimeCost is the time it was made at, and the replica's clock
--   is an argument.
-- - Discovery (ea/discovery/discovery_state_machine.cc): on_apply over all the managers and the database that they
--   share. An entry comes with its index and with the replica's clock at that time. Discovery/Snapshot
--   (discovery_state_machine.cc) saves and loads that database, with ParsePath (parse_path.cc); the table files and
--   the ranges of RocksDB are a parameter (Tables), and so are butil::FilePath and turbo::StrSplit (Paths).
-- - Server (ea/discovery/discovery_server.cc, and process_schema_info of schema_manager.cc and config_manager.cc):
--   where a request goes. A proposal to raft is a value (Base: Routed).
-- - Wires: wire formats of the messages, for the examples.
-- - Query (ea/discovery/query_*_manager.cc, and discovery_query of discovery_server.cc): what the managers answer
--   from their maps. Query/Managers has the namespaces, zones, servlets, users and configs, Query/Instances the
--   instances, Query/Privileges the flattened rights (turbo::Trim is a parameter), Query/Service the switch. A map
--   that operator[] may add to comes back beside the answer.
-- - Client (ea/client/utility.cc): check_valid_name_type, which the client calls on the names that it sends, and
--   string_to_version. Client/Requests and Client/Calls (ea/client/discovery.cc, config_info_builder.cc): the
--   requests of the calls that change data, and what the calls make of the answer, over the sender as a function.
--   Client/Reads (ea/client/discovery.cc, dumper.cc): the calls that read, over the same sender, with JSON, files
--   and the text of a number as parameters; a list that the caller gives is an argument, and comes back with what is
--   pushed. Client/Sender (ea/client/discovery_sender.{h,cc}): send_request, whose channels are a function from the
--   number of the call and the address to what comes back; its fuel is the number of tries, at least one, since each
--   round that goes on counts one of them. Client/Cache (ea/client/config_cache.{h,cc}): `_cache_map` and the calls
--   on it; CacheEnv has the file system and the texts that name a file, and FLAGS_config_cache_dir and what the
--   directory holds are arguments of init. Client/Watch (ea/client/config_client.{h,cc}): ConfigClient over that
--   cache; period_check runs over a list of rounds, each with what the server answers in it and with what the other
--   threads do to the client between the two locked sections of the round; the calls of the listeners come back in
--   order.
--
-- Not modelled: braft, brpc, logging, the command line, and the rest of the client library (calls of other libraries,
-- input and output).
pub mod Common
pub mod Api
pub mod Base
pub mod Rocks
pub mod Wires
pub mod Schema
pub mod Rights
pub mod Privilege
pub mod Config
pub mod Client
pub mod AutoIncr
pub mod Instances
pub mod Discovery
pub mod Query
pub mod Server
pub mod Tso
