-- ===== src/Lib.antt =====
-- Verification of the Raider Mate service, a Go backend for World of Warcraft raid signups.
--
-- internal/signup keeps the signup sheet of an event, and internal/comp turns the signups into a
-- composition. The files and what they model:
--   Prelude                 shared: tests on numbers, lists, Go's int and int16 (Prelude/Int), sort.Slice
--                           (Prelude/Sort), Go maps keyed by an id (Prelude/Map), the where clauses
--                           of queries (Prelude/Filter), texts (Prelude/Text)
--   Tables                  the rows and queries of internal/db (comp.sql.go, signup.sql.go,
--                           notification.sql.go, raidlead.sql.go) that the stores below use
--   Comp/Types              the data of internal/comp/comp.go and the enums of internal/db/models.go
--   Comp/Resolve            Template.Resolve and its helpers (internal/comp/comp.go)
--   Comp/Roles              canPlay, groupPriority, placeInGroup, chooseDPSRole (internal/comp/assign.go)
--   Comp/Rank               rankCandidates, lessCandidate, signupRanks (internal/comp/assign.go)
--   Comp/Fill               fillGroup, backfill, trySwapInto, the repair loop (internal/comp/assign.go)
--   Comp/Assign             Assign and buildAssignments (internal/comp/assign.go)
--   Comp/Manual             manualAssignments (internal/comp/manual.go)
--   Comp/Store              the stores that internal/comp works against, its errors, and their Postgres
--                           implementation (internal/comp/store.go) over the tables
--   Comp/Board              Locker.Lock (internal/comp/lock.go), Manual.Save, Rename and SetMode
--                           (internal/comp/manual.go), Reader.List and Get (internal/comp/read.go)
--   Comp/Spec               the boards of the events, as internal/comp promises them
--   Comp/Advise             Advise (internal/comp/advise.go)
--   Signup/Types            the data of internal/signup and the enums of internal/db/models.go
--   Signup/Policy           AllowedStatuses, checkDeadline (internal/signup/signup.go) and jobsFor
--                           (internal/signup/schedule.go)
--   Signup/Store            the interface of the store, TransactSignups and TransactLate
--                           (internal/signup/store.go); Signup/Store/Postgres implements it over the
--                           tables (UpsertSignup, DeleteSignup and the late requests)
--   Signup/Notify           notifySignupChanged, notifyCompSlotsDropped (internal/signup/signup.go)
--   Signup/Write            Signups.Write and Withdraw (internal/signup/signup.go)
--   Signup/Late             LateRequests.File, Approve and Reject (internal/signup/late.go)
--   Signup/Reminder         Events.ReminderState (internal/signup/event.go) and the defaults of
--                           internal/signup/guildsettings.go
--   Signup/Runner           Runner, the worker that drains due jobs (internal/signup/reminder.go)
--   Signup/Schedule         scheduleJobs and the reschedule of UpdateEvent (internal/signup/store.go,
--                           internal/db/jobs.sql.go)
--   Signup/Outbox           Outbox (internal/signup/outbox.go)
--   Roster                  RealmSlug (internal/roster/slug.go)
--   RaidLog                 Match and Reckon (internal/raidlog/match.go)
--   Audit                   Attendance, CompBalance, RosterHealth and Throughput of Analysis
--                           (internal/audit/analysis.go), over any store of counts
--   Billing                 Effective, For and Require (internal/billing/tier.go)
-- The modules below each of these hold its proofs; Comp/Examples runs them on small pools, and
-- Signup/Examples on a small store in memory; Tables/Sample is a small database for both.
--
-- How the model reads the source:
--   * A character id is a number, ordered as its canonical text is. A score is a number on a scaled
--     grid, since the program only compares scores; a time is a number of nanoseconds.
--   * An int is an integer, and each sum and difference of ints wraps at 64 bits (to_int); a slot
--     index wraps at 16 bits (to_int16). Counts of list items are numbers without a bound.
--   * A Go map is an association list with the laws of lookup, insert and delete; the source reads
--     maps by key, copies them and counts their values, so the order of entries is not observable.
--   * sort.Slice is an insertion sort. On distinct characters the orders are strict and total, so
--     every correct sort gives the same list.
--   * A formatted sentence (an advisory, a reason) is a constructor that carries its arguments.
--   * internal/signup works on any store: a record of operations on a state, in which a write answers
--     the new state or a failure. A transaction starts from a state and, when its body or its commit
--     fails, gives that state back. Each reading of the clock is an argument. Log lines are left out,
--     and encoding/json does not fail on the payloads.
--   * The tables are lists of rows in the order of their insertion. A query is a function on them that
--     checks the constraints of the migrations and answers an SQLSTATE where one is violated. Whether
--     a transaction begins and commits is a parameter (Connection), and so are json.Unmarshal of a comp
--     template, the collation of names and strings.ToLower. Other failures of the driver are left out.
--   * RealmSlug and Match work on lists of code points. An overlap of a turnout is a fraction.
--   * A panic by an index out of range is none.
--   * Assign mutates its map of placements; here each pass returns the new map. The repair loop runs
--     a round for each raider, as the source does, and that bound is proved to be enough.
--
-- Not modelled: the creation of events, the redraw and the report row of an edited one, the guild
-- settings' writes and the notification hub (internal/signup), the characters, gear and sync of internal/roster, the ingest of
-- internal/raidlog, the store and the ilvl series of internal/audit, the HTTP API (internal/api), the
-- queries that no modelled store uses (internal/db), the third-party clients (internal/raiderio,
-- internal/warcraftlogs), encryption (internal/secretbox) and the two commands (cmd).
pub mod Prelude
pub mod Comp
pub mod Tables
pub mod Roster
pub mod RaidLog
pub mod Signup
pub mod Billing
pub mod Audit
