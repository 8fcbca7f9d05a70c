-- ===== src/Lib.antt =====
-- A model of the core of Crucible Analytic, a collector that measures traffic per address, and what
-- makes that core correct.
--
-- The collector reads the first bytes of a TLS connection, takes the ClientHello out of its records
-- and computes the JA4 fingerprint (internal/ja4). It works out which address a request came from
-- (internal/clientip), counts the request in the rate store (internal/ratestore), looks the address
-- up in range tables behind a cache (internal/asnlookup), scores the address by its rate, fingerprint
-- and ASN (internal/scoring), and bounds its own load and refuses blocked countries and ASNs
-- (internal/limiter). Strings that it did not write itself go through one filter before they are
-- stored (internal/textsafe), and site identifiers through one rule (internal/siteid). A flusher
-- writes the counters of the rate store as rows, with the addresses as the privacy settings allow
-- (internal/privacy), and a rollup sums the rows up (internal/storage).
--
-- Beside it stands a panel. It decides who may do what on a site, writes the memberships, invites
-- people to them, and lets an account back in by a recovery code (internal/panel). It asks for a
-- second password before settings with legal weight change (internal/devgate), queues requests for
-- backups that an upgrader with more rights answers (internal/backup), and writes requests on which
-- the other processes restart (internal/restartreq). The upgrader compares schemas by their text
-- without comments (internal/schemaver).
--
-- Which file models what:
--   Ja4/Cursor           internal/ja4/cursor.go, the reader over a byte slice; Cursor/View is what each
--                        read gives in terms of the bytes that are left
--   Ja4/Hello            internal/ja4/clienthello.go and grease.go: Lists has the list parsers, Parse has
--                        ParseClientHello and parseExtensions. Wire is an encoder of the wire format,
--                        written independently of the parser; Alpn, RoundTrip, Total and Payloads are proofs
--   Ja4/Records          internal/ja4/records.go, ParseClientHelloFromRecords
--   Ja4/Fingerprint      internal/ja4/ja4.go, Fingerprint with partA, partB and partC
--   RateStore/Window     rotatedCounts and windowStatsAt of internal/ratestore/memory.go
--   RateStore/Store      MemoryRateStore with RecordRequest, Snapshot and removeExpired
--   RateStore/History, RateStore/Requests   the counters against the whole list of past requests;
--                        Sweeps lets the cleanup run between them
--   Limiter/Rate         globalRateCounter of internal/limiter/limiter.go
--   Limiter/Admit        Limiter with Admit, tryProceed, tryAcquire, throttleWait and release
--   Limiter/Slots, Limiter/Caps, Limiter/Looks   invariants over all interleavings
--   Limiter/GeoBlock     internal/limiter/geoblock.go
--   Scoring              internal/scoring/scoring.go and known_bots.go; Verdict has the proofs
--   AsnLookup/RangeTable internal/asnlookup/rangetable.go; Search and Lookup have the proofs
--   AsnLookup/Cache      internal/asnlookup/cache.go, its list and its map; Elements, Agreement and Laws
--                        have the proofs
--   ClientIp/Resolver    internal/clientip/clientip.go; Spoofing and Proxies have the proofs
--   TextSafe             internal/textsafe/textsafe.go and internal/siteid/siteid.go; Runes, Storable and
--                        FitBytes have the proofs
--   SchemaVer/Ddl        internal/schemaver/ddl.go. Pieces is a grammar of schema files, written
--                        independently of the scanner; Quotes, Comments, Unfinished and Collapse
--                        are proofs
--   DevGate/Gate         internal/devgate/devgate.go; Bounds, Earned and Grants are proofs
--   Backup/Sets          internal/backup/sets.go, with KindOf of secrets.go and validateSets of
--                        queue.go; Kinds and Tables are proofs
--   Backup/Queue         the queue of internal/backup/queue.go on the table of schema.sql, and RunOnce
--                        of runner.go; Rows, OneInFlight and Released are proofs
--   Panel/Roles          internal/panel/roles.go
--   Panel/Members        the writes of internal/panel/members.go; Owners, Kept, Writes and Authority are
--                        proofs
--   Panel/Attempts       internal/panel/attempts.go but for the list of locks; Guesses is the sign-in
--                        forms' use of it (internal/panel/web/auth.go) as events, Budget, Lifted and
--                        Expiry are proofs
--   Panel/Invites        internal/panel/memberinvite.go but for the list of invitations; Office is its
--                        transactions as events, Outcomes, Open, Spent and Owners are proofs
--   Panel/Recovery       internal/panel/recovery.go, and checkTOTP and VerifyTOTP of totp.go; Office is
--                        their transactions as events, Outcomes, Typed, Once, Steps and Replay are proofs
--   Privacy              internal/privacy/ip.go; Network and Tokens are proofs
--   Restart/Watcher      the step of internal/restartreq/restartreq.go; Service is the process under
--                        its supervisor, Loop the proofs
--   Storage/Rows         internal/storage/row.go; Raw is a proof
--   Storage/Pause        the recording pause of internal/storage/flusher.go; Span is a proof
--   Storage/Flusher      the rest of flusher.go, with the counters of writer.go, on the store of
--                        RateStore; Latest and Accounts are proofs
--   Storage/Buckets      the upsert by buckets of time; Right is a proof
--   Storage/Rollup       internal/storage/rollup.go; Steps takes Refresh apart into its statements, Claim,
--                        Held, Cycles and CatchUp are proofs
--   Prelude              tests, lists, results, integers, maps, sorting and text that they share
-- Each part has a module Examples with its theorems at concrete inputs.
--
-- How state and operations correspond. A Go struct is a record with the same fields; a method that
-- changes its receiver returns the new record beside its results. A section under a mutex is one
-- step. Admit runs without a lock, so there each atomic operation is a step: a Caller is the place
-- in the code where a goroutine stands with its local values, `advance` takes it over one atomic
-- operation, and a list of events is an interleaving of any number of callers with changes of the
-- configuration. Gate.decide is taken apart in the same way. An early return with an error is `err` or
-- `none`. A statement or a transaction of the database is one step on a list of rows; the checks and
-- unique indexes of its tables are part of the step, and a transaction that fails leaves the rows.
--
-- The sign-in forms are such events too: a wrong guess is the check of the throttle and the record of
-- the failure in one step, so guesses that are verified at the same moment are left out. The audit
-- log is its entries on lifted locks.
--
-- Refresh issues its statements without a transaction, so Storage/Rollup/Steps has a step for each of
-- them, and rows are stored and expire in between. One Refresh is under way at a time. The clock of
-- the database, as Restart/Service has it, does not go back. An IPv6 address has no zone.
--
-- Numbers. Bytes, words and lengths are natural numbers; Go's int and int64 counters, and the
-- uint64 counters of writer.go, are numbers without a bound; the refusal counter wraps at 2^64.
-- Times and durations are nanoseconds, times counted from Go's zero time, those of the second
-- factor from the Unix epoch; time.Duration does not saturate. A float64 is an exact fraction. Text
-- is a list of bytes, and ToUpper, ToLower and TrimSpace are those of ASCII; a recovery code is
-- read by runes. A map is an association list, a set is a list.
--
-- Loops. Loops over a slice recurse on the list. The loops over a cursor and over records run on
-- fuel, one more than the number of bytes, since each round takes a byte off or stops; the ALPN loop
-- on one more than the declared length, since each round reads a byte of it. A loop that is out of
-- fuel says so. sort.Search is bounded by the length of the slice, as each round makes the gap smaller.
--
-- Parameters. crypto/sha256, and the parsers net.SplitHostPort, netip.ParseAddr and
-- netip.ParsePrefix, are arguments of the definitions that use them; so are argon2id.Verify and
-- CheckEncoding for the gate, HMAC-SHA256, the hash of the tokens and codes of the panel, the otp
-- package's GenerateCodeCustom, the reading of a restart request, the result of COPY, and the carrying
-- out of a request for the run of the upgrader.
-- sort.Slice and sort.Strings are insertion sort, for sort.Slice one of the orders that it may give.
--
-- Not modelled: the goroutines, tickers and channels around these parts, sockets, HTTP handlers, other
-- SQL, lost connections to the database, files, the rest of the panel, of the backups and of the
-- upgrade services.
pub mod Prelude
pub mod Ja4
pub mod RateStore
pub mod Limiter
pub mod Scoring
pub mod AsnLookup
pub mod Backup
pub mod ClientIp
pub mod DevGate
pub mod Panel
pub mod Privacy
pub mod Storage
pub mod Restart
pub mod TextSafe
pub mod SchemaVer
