-- ===== src/Lib.antt =====
-- Aimili Gateway: the services of services/aimili-egress that decide about VPN exits, and the transaction
-- of scripts/aimili_xui_protocol_transaction.py that switches the protocol of an inbound.
--
-- The program keeps one main VPN connection and several exit slots. Four of its parts keep state
-- that other parts rely on, and are modelled here:
--   - services/aimili-egress/main_assignment.py, `MainAssignmentCoordinator`: the switch of the main
--     connection in two phases, and the lease that keeps other mutations away from it. It persists a
--     JSON document, and calls out to callbacks that move the connection;
--   - services/aimili-egress/egress_repair.py, `RepairStore`, with recovery_policy.py: a file with one
--     row per exit, which says whether and when a failed exit may be repaired automatically;
--   - services/aimili-egress/proxy_server.py, `ProxyCapacity`: the limits on proxy connections;
--   - scripts/aimili_xui_protocol_transaction.py, `ProtocolTransactionManager`: the change of Xray's
--     running configuration and of the panel's database, with a snapshot on disk from which it can be
--     undone after a failure or a crash.
-- Of the parts that keep none, services/aimili-egress/capacity.py computes how many exits and cached nodes a host can
-- carry, and services/aimili-egress/node_pool.py selects the nodes that are kept; recovery_policy.py also ranks
-- candidates, and proxy_server.py has a DNS client.
-- The manager (vpngate_manager.py) and the HTTP interface (control_api.py) call these; the parts share
-- no state with each other except through those callers.
--
-- Files:
--   Prelude          Boolean tests on numbers, Python's `str` as a list of code points (Strings),
--                    `dict` with text keys as an association list (Dicts), `for` loops as folds (Folds)
--                    and `sorted` and `min` as stable insertion (Sorting).
--   Assignment       main_assignment.py. Types: the document, operations, leases and replies. Document:
--                    `_write`, `_save_operation`, `_find_operation`, `_validation`, `_verified`,
--                    `_public`. Lease: the mutation lease and the methods that ask whether a mutation is
--                    allowed. Restore: `_restore`. Stage: `stage`. Finish: `commit`, `rollback`,
--                    `recover`. Repair: `repair_commit`, `repair_replace`, `_repair_candidate`. Validate:
--                    `_valid_document` and what it calls, `_read`, `__init__`. Legacy: what `_read`
--                    makes of older documents. World: threads, of which each runs one locked section
--                    at a time, and crashes. The other files hold proofs.
--   Recovery         Policy: `validate`, `failed_round` of recovery_policy.py. Ranking: `targets`,
--                    `country_statistics`, `rank_candidates` of it. Store and Attempts: `RepairStore`
--                    of egress_repair.py. Rounds, RoundsEnd, Lasting, Backoff, Ranked, Counted, Frame,
--                    Restart: proofs.
--   Proxy            Capacity: `ProxyCapacity`. Dns: the packet of `dns_query_over_tun0` and what it reads
--                    of a reply. Totals, Bounds, RoundTrip, DnsName, DnsReply: proofs.
--   Host             Limits: capacity.py. Growth: proofs.
--   Nodes            node_pool.py. Node, Merge, Rebalance: its functions, of which each loop is a fold.
--                    Unique, Members, Known, Membership: nodes, their identifiers and dictionaries.
--                    MergeTurns, MergeKeeps, MergeBounds, Probes, Queue, Selection, Coverage, Pool: proofs.
--   Protocol         aimili_xui_protocol_transaction.py. Types: rows, clients, templates, snapshots.
--                    Database: `persist_template`, `_restore_database`, `_database_matches_snapshot` and
--                    the checks on clients. World: calls that may fail or be the last. Rollback:
--                    `_rollback_snapshot`. Apply: `apply`, `finalize`, `renew`, `rollback`,
--                    `recover_pending` for one operation. Commands: these in any order. Triples: rules
--                    for such programs. Mixed, Restores, RollbackSafe, RollbackWorks, ApplySafe, ApplyUndo,
--                    Recovers, Stuck: proofs.
--   Examples, CrashExamples, RankingExamples, DnsExamples: runs at concrete data.
--
-- How the code corresponds: a method that holds the lock throughout is a function from the state to
-- the state and its reply. `stage`, `_repair_candidate` and `_restore` hold it twice and call a callback
-- in between; they are two functions (`stage_begin` and `stage_finish`, and so on), and a function of
-- the method's name that runs both where no other thread comes in between. The `finally` of `stage`, a
-- section of its own that only forgets a live operation, is one with the end of `_restore`. In World a thread between
-- its two sections is a flight, which carries the thread's copy of the operation. A callback that raises,
-- or returns what is not a dictionary, gives `none`. The clock's readings, the random tokens and the
-- callbacks' answers are arguments; sha256 and the JSON text are the parameter `Hashing`, of which no
-- law is assumed. A fresh identifier is one that no operation on record has.
--
-- In Protocol a call that leaves the process (a command of xray, a transaction of the database, a file)
-- works, raises before or after it has taken effect, or is where the process dies, before or after: a list
-- says which, so that a statement for all lists covers every failure and every crash. Where the list ends
-- the calls work. The state is what outlives the process: the inbound that runs under the operation's tag,
-- the database's row of the inbound with its clients, snapshot.json, and whether rollback-inbound.json is
-- in the directory. Rows are changed by nobody else while an operation is pending. Clients stand in the
-- order of their identifiers. The result of `build_template` and the target that `load_target` finds are
-- in the snapshot that `apply` is given. A temporary file of `apply` has no reader after it, so only the
-- one that a rollback finds again is state.
--
-- Times are whole numbers of one unit, which is left open for main_assignment.py and proxy_server.py
-- and is the microsecond in Recovery; a load is in hundredths. A write to a file happens whole or not
-- at all, as the replacement of the file by a temporary one gives; in main_assignment.py and
-- egress_repair.py it never raises. The loop over a name in a DNS
-- reply runs on fuel, the number of the reply's bytes, of which each turn uses up at least one; every other
-- recursion is structural.
--
-- Not modelled: in main_assignment.py JSON values of a wrong type, which are corrupt documents,
-- error codes that the coordinator does not write itself, a `_write` that raises (which leaves the
-- document in memory ahead of the file), and the content of an older document that is refused (the
-- corrupt document stands for it); in egress_repair.py a file that cannot be read, which counts as
-- missing, and a write that raises; in proxy_server.py the waiting in
-- `try_acquire`, of which one round is a step, and all but `ProxyCapacity` and the DNS messages; in
-- recovery_policy.py and node_pool.py values of a wrong type; in aimili_xui_protocol_transaction.py
-- the validation of requests and ownership, the making of templates, and the directory of requests;
-- the rest of the repository: sockets, reading the host's memory and load, OpenVPN processes and
-- routes (vpngate_manager.py, vpn_utils.py), the HTTP interface (control_api.py), the gateway
-- written in Go (cmd, internal), the web interface, the installers and the scripts that check a
-- deployment.
pub mod Assignment
pub mod Host
pub mod Nodes
pub mod Prelude
pub mod Protocol
pub mod Proxy
pub mod Recovery
