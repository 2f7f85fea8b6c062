-- ===== src/Lib.antt =====
-- Ayd, a status monitoring tool, and the parts of it that decide what a user is told: the
-- in-memory history of probes and incidents, and the queries over log records.
--
-- A probe reports a record to the store (internal/store/store.go, `Report`), which opens, continues
-- or ends an incident of its target, calls the handlers of `OnStatusChanged` and appends the record
-- to the history of the target. At start `Restore` feeds the records of the log files through the
-- same code, without the handlers. A query (internal/query/query.go) is optimised, gives the period
-- for which logs are read, and is matched against each record; its texts with wildcards are matched
-- by the matchers of internal/query/stringmatcher.go.
--
-- Files, and what they model:
--   Common/*            bytes, Boolean tests, lists and maps that the parts share
--   Api/Status          lib-ayd/status.go
--   Api/Record          lib-ayd/record.go and url.go, the data only
--   Api/ParseTime       lib-ayd/time.go, with Formats for `ParseTimeWithResolution`; Holds, Total, Round
--                       and Positive hold the proofs
--   Query/Ast           internal/query/query.go: the query types and `Match`
--   Query/Optimize      `Optimize` and `invert`; Normal and Sound hold their proofs
--   Query/TimeRange     `TimeRange`; Period, Sound and Gap hold its proofs
--   Query/Glob          internal/query/stringmatcher.go; Pattern says what a match is, Index, Chunks,
--                       Matcher and Build hold the proofs
--   Query/Parse         `ParseQuery`, on tokens; Negation, Flat and Conjunction hold its proofs
--   Query/Tokens        internal/query/tokenizer.go, with Scan for `Scan`; Keyword and Progress hold the
--                       proofs
--   Query/Values        internal/query/valuematcher.go, with Make for the constructors and Match for the
--                       methods; Period and Order hold the proofs
--   Store/History       internal/store/probehistory.go; Order, Sources and Valid hold the proofs
--   Store/Message       internal/store/incident.go: `isSameIncidentMessage`; Mask holds its proofs
--   Store/Incident      the incidents of internal/store/store.go and `searchLastIncident`
--   Store/SetIncident   `setIncidentIfNeed`, with its proofs in the modules below it
--   Store/Report        `Report`, `ActivateTarget`, `DeactivateTarget` and the exported views
--   Store/Restore       `Restore` and `restoreOneFile`
--   Store/View          `MakeReport` and the order of internal/store/incident.go; Order holds the proofs
--   Store/Errors        `setHealthy` and `addError`
--   Ayderr              internal/ayderr/list.go; Lines holds its proofs
--   Scheme/Search       the binary search and the order of strings that urlset.go takes from Go's library
--   Scheme/Tracker      internal/scheme/reporter.go and targettracker.go; Round holds the proofs
--   Scheme/UrlSet       internal/scheme/urlset.go; Members and Adding hold the proofs
--   Endpoint            the scanners of internal/endpoint/log.go; Paging and Collect hold the proofs
--   Endpoint/Options    `newLogOptionsByRequest` of internal/endpoint/log.go; Gap is about the queries of
--                       one time
--   Store/Path          internal/store/pattern.go: the fragments; Files and Listing for the patterns, Parse for
--                       `ParsePathPattern`; Fields, Round, Cover and Select hold the proofs
--   Store/Search        internal/store/search.go; Ends, Behind and Outcome hold the proofs
--   Store/Scanner       internal/store/scanner.go: the scanners of files; File, Merge, Drain, Open and Log hold
--                       the proofs
--   Calendar            what pattern.go and time.go take from Go's time package; Months, Order and Clear hold
--                       its proofs
--   Tests/*             runs on concrete input
--
-- How the code is represented:
--   - Text is a list of bytes. An instant counts nanoseconds since Go's zero time, so the zero
--     `time.Time` is 0, and `Add(-1)` at 0 stays there. A URL is its scheme and the text of
--     `URL.String`, which is all that these parts read.
--   - Incidents are shared by pointers, between the current incidents, the history and the caller.
--     The state holds them in a heap from addresses to incidents, and maps and lists hold addresses.
--   - The handlers of `OnStatusChanged` are numbered, and a call is an entry of a log. The store
--     holds its lock throughout each operation, so an operation is one step.
--   - The value matchers of a query, an interface of the code, are the record `Matchers`, which the
--     query modules take as a parameter. `value_matchers` of Query/Values/Match fills it, and
--     `value_makers` the constructors for the tokenizer. Floats, and the parsers of Go's library for
--     numbers, durations, days and clocks, are the record `Standard`. The present day has no change of
--     clocks.
--   - `Optimize` calls itself on queries that it has made. It runs on fuel, `rank` plus one, which is
--     at most twice the height of the query plus two, and is shown to be enough.
--   - The nodes `And` and `Or` that `ParseQuery` shares by pointers are cells of a heap. `read` follows
--     the pointers at the end, on fuel, and is shown to end for queries without OR and parentheses.
--   - `Scan` calls itself behind `and`, and is called until it finds no token. Both run on one more
--     than the count of bytes for fuel, which is shown to be enough. The constructors of matchers are
--     the record `Makers`.
--   - A log is the list of the records that it still has. The loops that read a page run on fuel, for
--     which any number above that of the matching records is enough.
--   - The parser of times reads bytes by their index, and one out of range is a `panic`, which is shown not
--     to happen. A time is its reading and its location, and `time.Date` is computed 400 years later, where
--     the calendar is the same, so that no month before the first is met.
--   - A slice out of range is `none` in `match_chunks`, and is shown not to happen.
--   - The binary search runs on the length of the slice for fuel, which is shown to be enough.
--   - What the reporters of the program change is one state, and a reporter is a record of functions
--     on it.
--   - A `time.Time` of a log path is an instant and what the clocks of its location read then. A location
--     is the function from readings to instants that `time.Date` computes, whatever changes of clocks it
--     has. What `filepath.Glob` answers is a parameter.
--   - `searchLog` runs on the bytes of a file, on fuel, for which a bound is shown to be enough. A scanner
--     has the lines behind the position found, each with its length and what `UnmarshalJSON` makes of it.
--   - `Restore` takes the log files as what opening them and parsing their lines gives.
--
-- Not modelled: the goroutine that writes the log file, and the opening and closing of files
-- (internal/store/store.go, scanner.go); the scanner of records in memory; the HTTP handlers and
-- templates of internal/endpoint; the probes of each scheme, the loading of lists of targets and the
-- decoding of their output (internal/scheme); the schedules and the command line (cmd/ayd); the
-- conversion of logs (internal/logconv); and the JSON of lib-ayd. They are input and output, or rest on
-- packages outside the repository. The texts that queries and matchers print of themselves are left out.
pub mod Common
pub mod Calendar
pub mod Api
pub mod Query
pub mod Store
pub mod Scheme
pub mod Endpoint
pub mod Ayderr
pub mod Tests
