-- ===== src/Lib.antt =====
-- atomix-go-raft: a Raft server in Go, verified.
--
-- A server keeps a log of entries, a protocol state (term, vote, leader, commit index) and a manager
-- that applies committed entries to a state machine. Its current role, follower, candidate or leader,
-- handles the requests of the other servers: it polls and votes in elections, writes the entries that
-- a leader sends, and as a leader counts what its followers have stored.
--
-- The files and the code they model, with paths below pkg/atomix/raft:
--   Base, Base/*: Boolean tests, lists over native numbers, uint64 arithmetic, float64 rounding,
--     sorting, membership in lists, and Go code that may panic as Option.
--   Store/Log: store/log/log.go, the memory log. The writer and the readers share one list of entries,
--     so a log owns its readers and a reader is a position among them; a reader's index is kept plus
--     one. Children: Invariant, the well-formedness of a log; View, the log as its contents.
--   Protocol/Cluster, Metadata, Raft, Messages: protocol/cluster.go, metadata.go, raft.go and the
--     messages of protocol.proto and log.proto. Raft/Invariant has the invariant of the state.
--   State/Manager: state/manager.go (ApplyIndex, ApplyEntry, execChange, execPendingChanges,
--     execEntry). Children: Range and Rounds, lemmas on the loop; Order and Repeats, what is applied.
--   Roles/Transition: Start and Stop of the roles in roles/follower.go, candidate.go and leader.go, and
--     the changes of role they make through SetRole. Roles/Steps: all calls that change the protocol
--     state, and restarts, which lose the term and the vote since the metadata store is in memory.
--   Roles/Server: what a role works on. Roles/Election: Poll and Vote of every role (roles/active.go,
--     follower.go, candidate.go, leader.go). Children: Votes, when a vote is granted; Record, votes
--     over time; Restarts, votes after a restart.
--   Roles/Append: Append of every role (roles/passive.go, active.go, follower.go, leader.go). Children:
--     Merge, what a request should make of a log; Rounds and Loop, the loop of appendEntries; Previous,
--     checkPreviousEntry; Replies and Handled, a request as a whole; Outcomes, what follows.
--   Roles/Appender: the leader's commit index in roles/appender.go (commit, commitMemberIndex,
--     commitIndex). Children: Quorum, the majority behind it; Waiting, the callers that
--     wait; Signals, who is told.
--   Roles/Replication: the replication to one follower in roles/appender.go (nextAppendRequest,
--     emptyAppendRequest, entriesAppendRequest, handleAppendResponse). Children: Batch and Requests,
--     what a request carries; Exchange, a request with its answer.
--   Roles/Candidacy: a candidate's election, sendVoteRequests of roles/candidate.go. Child: Ballots, the
--     channel of votes.
--   Roles/Polling: sendPollRequests of roles/follower.go. Child: Quorum, what the count comes to.
--   Agreement: the servers of a cluster and their elections, as steps that any interleaving of the
--     servers may take, without restarts. Children: Moves, what a step does to a server; Talks, whose votes a candidate
--     has; Invariant, Elections, Granted and Steps, the invariant and its preservation; Leaders.
--   Roles/Driver: the events of one follower's appender in roles/appender.go (processEvents, append,
--     handleInstallResponse and its kin). Child: Stall, which appends run.
--   Roles/Heartbeats: heartbeat, commitMemberTime and failTime of roles/appender.go. Child: Majority.
--   Store/Snapshot, Roles/Install: store/snapshot/snapshot.go, sendInstallRequests of roles/appender.go and
--     Install of roles/passive.go. Children: Chunks and Transfer, a snapshot from a leader
--     to a member.
--   Roles/Commands: Command and Query of roles/leader.go and passive.go, and the refusals of
--     roles/role.go. Children: Results, what the handlers make of the state machine's results; Routes,
--     where queries and writes go.
--   Client, Protocol/Streams: client/client.go and the streams of protocol/protocol.go. Children: Attempts,
--     what the caller's stream gets; Places, Reads, Writes, Resets and Leader, which member a request
--     goes to.
--   Examples, Examples/*: concrete runs.
--
-- Numbers are native, and a uint64 wraps at 2^64 where the code adds or subtracts. A request is a
-- function from the state to the state and the reply, under the write lock that the code holds;
-- deferred changes of role come last. A panic is `none`, a Go error is a value.
--
-- Bounds: the loop of execPendingChanges reads one entry in a round, so one round more than the log
-- has entries is enough. float64 doubles its unit at most 11 times for 64 bits. All other loops run
-- over a list or a number of rounds known before, but the loop of entriesAppendRequest: each of its
-- rounds takes an entry off the queue or goes on to the next index, and it has a round for each. The
-- loop that sends a snapshot has one round more than the snapshot has bytes. A client tries again
-- without a bound; its attempts are counted by fuel, and Client.Reads and Client.Leader say how many
-- are enough.
--
-- Parameters: whether a call of the state machine returns or panics, and what the platform makes of
-- the conversion of the float64 2^64 to uint64, which the language leaves open; the encoded size of an
-- entry, which generated code computes; what the members answer to a client, the results of the
-- state machine, and the outcomes of commits and heartbeats; and what a request of a snapshot has on
-- the wire, since all of them point into one buffer that is filled again.
--
-- Not modelled: locks and scheduling, timers, stopping the appender, the entry that a new leader
-- commits, gRPC, configuration, logging and generated code.
pub mod Base
pub mod Store
pub mod Protocol
pub mod State
pub mod Roles
pub mod Agreement
pub mod Client
pub mod Examples
