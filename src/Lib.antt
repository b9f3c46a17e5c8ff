-- ===== src/Lib.antt =====
-- Verification of the signer of OpenDNSSEC (signer/src): its schedule of tasks, what a worker does
-- with a task, the queue between workers and drudgers, the serial numbers and the journals of the zones
-- it publishes, the names of a zone with their sets of records and the signatures over them, the packet
-- buffer and the TCP connections with which it reads what comes from the network, the lists of hosts
-- that may ask, and durations and dates.
--
-- How the parts work together. The signer keeps one task for each zone in a schedule. A worker takes
-- the first task (`schedule_pop_task`), performs its steps (`worker_perform_task`: configure, read,
-- sign, write), and puts it back with its next step and time (`schedule_task`). To sign, it queues the
-- RRsets of the zone for the drudgers (fifoq), and checks their counters (`worker_check_jobs`). A
-- drudger signs a set (`rrset_sign`): signatures that can be used again stay, and the keys of the
-- signer configuration make those that are missing. Reading a zone marks its records as added or
-- removed; then the names take the differences over (`domain_diff`, `rrset_diff`) or give them up
-- (`domain_rollback`). Before that the zone gets a new serial (`namedb_update_serial`); the writing of
-- the zone (`tools_output`) makes it the serial that was published. Commands interrupt a task
-- (`zone_reschedule_task`) or mark all of them (`schedule_flush`). Transfers come over TCP connections
-- (wire/tcpset.c) into a packet buffer, from which names and records are read (wire/buffer.c); who may
-- ask for a transfer is looked up by `acl_find` (wire/acl.c). What changed, records and signatures,
-- goes to a journal (signer/ixfr.c).
--
-- Files:
-- - Common: shared names, lists and integers over the native numbers, and `Result`, the outcome of a
--   call that can fail an assertion or leave its memory (a fault).
-- - Scheduler/Fifoq: signer/src/scheduler/fifoq.c. Bounded is its specification, a bounded list;
--   Refine relates the two.
-- - Scheduler/Task: signer/src/scheduler/task.c and task.h; Order is about `task_compare`.
-- - Scheduler/Rbtree: the red-black tree of ldns, which is not in the repository: a record of
--   operations on the list of tasks in tree order, with what the library documents for a search by an
--   order. Linear is an instance, by which the hypotheses are met.
-- - Scheduler/Schedule: signer/src/scheduler/schedule.c, over that tree. Order says when a
--   schedule is in order: every zone at most once, all times in one window of 2 ^ 31 seconds, as the
--   difference of two times is cut to an `int`. Flush is about the flush counter, Queue about adding
--   and removing, Pop about what a worker gets.
-- - Daemon/Worker: `worker_check_jobs` and `worker_perform_task` of signer/src/daemon/worker.c, and
--   `zone_reschedule_task` of signer/src/signer/zone.c. What the tools return, and the clock, are the
--   argument `Env`. Laws and Reschedule are about them.
-- - Daemon/Work: `worker_work`, a round of which takes a task from the schedule, performs it and puts it
--   back, or sleeps; Laws is about it.
-- - Daemon/Crew: a worker that queues a zone (`worker_queue_zone`) and sleeps until its jobs are done
--   (`worker_sleep_unless`), the drudgers that sign (`worker_drudge`) and wake it (`worker_wakeup`), as
--   a relation of steps, one for each section of code that a lock protects or that reads a shared
--   field. Balance counts the jobs wherever they are, Signed is about the end, Wakeup about the sleep.
-- - Signer/Serial: `util_serial_gt` of signer/src/shared/util.c, `namedb_update_serial` of
--   signer/src/signer/namedb.c, and what `tools_output` of signer/src/signer/tools.c does to the
--   serials.
-- - Signer/Ixfr: signer/src/signer/ixfr.c: the journal of the last three differences of a zone; Journal
--   relates it to the list of all of them.
-- - Signer/Rrset: signer/src/signer/rrset.c, the sets of records. Diff is about `rrset_diff`, Keys is the
--   key list of signer/src/signer/keys.c, Recycle is `rrset_recycle`, and Sign `rrset_sign`, with
--   `lhsm_sign` of signer/src/shared/hsm.c: Induction follows the walk over the keys, Coverage, Accounts
--   and Outcome say what it leaves, Listed which records are signed, and Period is about the validity
--   of signatures.
-- - Signer/Domain: signer/src/signer/domain.c, the sets of a name. Diff, Rollback and Undo are about
--   updates that are taken over or given up, Status about names that are occluded, Delete about
--   `domain_del_rrset`.
-- - Wire/Buffer: signer/src/wire/buffer.c and buffer.h: the cursor, bytes and numbers. Bits is the
--   bit set of `buffer_read_dname`, Dname the reading (Safe) and skipping (Skip) of domain names,
--   Valid the invariant, Words what is written and read back; Rr the skipping (Skip) and writing
--   (Whole) of resource records, Packet the header and new packets, Flags its setters.
-- - Wire/Tcpset: signer/src/wire/tcpset.c: messages behind their length over a TCP connection. Filling
--   and Receive are about `tcp_conn_read`, Send and Deliver about `tcp_conn_write`.
-- - Wire/Edns: signer/src/wire/edns.c: the OPT record, with the flag that `query_add_optional` of
--   signer/src/wire/query.c sets; Parse is about reading it, Answer about what the server writes.
-- - Wire/Acl: signer/src/wire/acl.c: which hosts may ask. inet_pton, ldns_dname_compare and the host's
--   byte order are parameters. Create is `acl_create`, with `tsig_lookup_by_name` of
--   signer/src/wire/tsig.c; Range, Subnet and Find are about ranges, masks and `acl_find`.
-- - Shared/File: `ods_strcmp` and `ods_strlowercmp` of signer/src/shared/file.c; Common/Text has strings.
-- - Shared/Duration: signer/src/shared/duration.c; Digits and Print are about `duration2string`, Parse
--   is `duration_create_from_string` (Text, Steps and Parts search a printed text, Date and Whole read
--   it), Calendar is about the leap days and the seconds of a date.
-- - The Tests module of a part holds its tests and the instances of its theorems.
--
-- Bounds. A `uint32_t` is a number below 2 ^ 32 and its arithmetic wraps; a `size_t` sum wraps at 2 ^
-- 64, and a capacity is below 2 ^ 63. A `time_t` is a natural number, or an integer where it can be
-- negative (durations, periods of validity). The loops over the entries of an array that shrinks run
-- for as many rounds as it has entries at first, each of which passes over one or deletes one. The
-- indices of `rrset_diff`, `domain_rollback`, `rrset_del_rr` and `rrset_del_rrsig` are `uint16_t`
-- while the counts are `size_t`: they wrap at 2 ^ 16, and a loop that goes on behind its rounds, or
-- that moves the entries of a larger array down without an end, is the fault `unfinished`; the
-- theorems say for which sets the loops end. The flush counter of the schedule, an `int`, is a number
-- below 2 ^ 32 that wraps, and is negative from 2 ^ 31 on. A uint32_t has at most ten digits. The
-- loops over domain names run on fuel, one unit for a round: a round of `buffer_read_dname` marks a
-- place before the limit that was not marked, and a round of `buffer_skip_dname` (also in
-- `buffer_skip_rr`) moves the cursor forward, so one more than the limit is enough. All other loops
-- recurse on their list or counter.
--
-- Not modelled: locks (an operation is a step that holds its lock; the calls on the queue come in any
-- order), logging, printing and freeing; the work of the tools themselves, that is the adapters, the
-- denial of existence, the name database beside its serials; transfers and queries, TSIG, sockets; the
-- parsers; the enforcer and libhsm, which are calls of SQL, XML and PKCS#11. What ldns does with
-- records and libhsm with keys is a parameter.
pub mod Common
pub mod Daemon
pub mod Scheduler
pub mod Shared
pub mod Signer
pub mod Wire
