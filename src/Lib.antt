-- ===== src/Lib.antt =====
-- qiniu_exporter: a Prometheus exporter for Qiniu's object storage (Kodo), CDN and billing.
-- Pollers fetch JSON from Qiniu's APIs through rate limiters, check it, select or aggregate what is
-- complete, and publish it to snapshot stores, which the Prometheus collectors read on a scrape.
--
-- The parts and their files:
--   Snapshot  internal/snapshot/snapshot.go: ResourceStore (Publish, Retain, Load) and Store, with
--             the age after which a value is no longer served. The locks make each call atomic, so
--             an interleaving of calls is a list of them.
--   Limiter   internal/limiter/limiter.go: the gate of concurrent calls and the paced rate with its
--             cooldown and recovery. Acquire's loop is a list of attempts, each at its own time.
--   Cdn       internal/qiniu/cdn: of client.go the response types and the checks of names and dates
--             (Cdn, Cdn/Names, Cdn/Queries), of transform.go the time axis (Cdn/Points), the
--             series (Cdn/Series),
--             the selectors (Cdn/Select, Cdn/Status), of usage.go the period that a response must
--             cover (Cdn/Usage), the checks of batches (Cdn/Usage/Batches) and the two aggregations
--             (Cdn/Usage/Traffic, Cdn/Usage/Bandwidth), and ListDomains of discovery.go
--             (Cdn/Discovery), its pages given by a parameter.
--   App       internal/app/cdn.go: batches and matchingCDNBucketEnd (App), the bounded isolation of
--             bad domains (App/Isolation), the joining of two periods (App/Merge), the cache of the
--             month's completed days (App/Backfill), the snapshot of a round (App/Usage).
--   Kodo      internal/qiniu/kodo: transform.go and the types it uses (Kodo), and ListBuckets of
--             discovery.go (Kodo/Discovery), its pages given by a parameter.
--   AuthHttp  internal/authhttp/client.go: the policy and the reading of answers (AuthHttp), acquire
--             and onRateLimited on the limiters of Limiter (AuthHttp/Slots), of which two pointers of
--             a client may be the same, and the attempts of Do (AuthHttp/Exchange).
--   Billing   internal/qiniu/billing: client.go on decoded responses (Billing, Billing/Details,
--             Billing/Packs) and schedule.go (Billing/Schedule); of internal/app/billing.go
--             collectDailyEstimates (Billing/Daily), finalizedHistoryCache (Billing/History),
--             validateResourcePacks (Billing/Packs) and the times of its jobs (Billing/Schedule).
--   Poller    internal/poller/scheduler.go: the jobs that are accepted and the delays of runs.
--   Base      what the parts share: lists, texts as keys, results, integers, times, the calendar.
-- The file Examples of a part runs its theorems on concrete inputs.
--
-- How Go's values are modelled:
--   time.Time is a number of nanoseconds from the start of the year -399 (UTC), so Go's zero time
--   and every date of four digits is a number; time.Duration is such a difference, bounded by
--   max_duration where the source converts a float. A *time.Location is one fixed offset from UTC,
--   as Asia/Shanghai has had since 1991; nil is none.
--   float64 is a type with the operations of the record Floats: the definitions run with any, the
--   theorems name the few laws of IEEE 754 they use, all of values that are not negative
--   and of divisors above zero (Base/Floats/Laws). Base/Floats/Whole is a type that meets them, to run the definitions.
--   A map is an association list, with Go's overwriting and missing keys; a range over a map takes
--   the list's order, which the theorems leave open. Maps of Billing, over which no range runs, are
--   functions on their keys. A string is valid UTF-8. An int that counts is
--   a natural number; an index out of range is the error index_panic.
--   The errors are the constructors of CdnError, KodoError, ClientError and BillingError; the
--   texts of errors are left out.
--   Fuel occurs in batches_from, isolate, fill, list_from and periods_until. It is the number of values or domains for the
--   first two, which is enough since every round takes one value at least and every split halves
--   two or more; for fill it is the number of days that are left, of which a round takes three.
--   list_from has 200, since each of its rounds but the last adds a bucket and 200 are the limit;
--   periods_until has 13, one more than the months that it returns.
--   An amount of money, an int64, is the number that its 64 bits spell, so that sums and differences
--   wrap. Months are counted on from the calendar's epoch, twelve to a year.
--
-- Not modelled: HTTP, JSON, signing and the Prometheus client library, which are libraries; the
-- command and its flags, the goroutines and timers of the scheduler; the client of Kodo, the
-- configuration and the collectors, which for the most part decode,
-- wire or emit; the random wait between attempts and the durations that are observed.
pub mod Base
pub mod App
pub mod AuthHttp
pub mod Billing
pub mod Cdn
pub mod Kodo
pub mod Limiter
pub mod Poller
pub mod Snapshot
