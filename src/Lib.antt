-- ===== src/Lib.antt =====
-- A model of the backend of the IPO tracker: the service that scrapes issues from a public source,
-- keeps them in a database, and notifies users of issues whose grey-market premium meets their
-- rules.
--
-- Parts, their files and the code that they model:
--
-- - Dates: app/utils/dates.py. Instants are microseconds since the epoch, dates are days; the time
--   zone is a function from instants to the wall clock, a parameter wherever it is used.
-- - Models, Store: the rows of app/db/models/ and the tables as one session sees them. A UUID is a
--   number that is only compared, a decimal a whole number of millionths.
-- - Devices: `DeviceRepository` of app/repositories/device.py and `DeviceService` of
--   app/services/notifications/service.py.
-- - Ipos: Ipos/Upsert is the loop of `upsert_many` of app/repositories/ipo.py (`_diff` is `diff`,
--   the assignments are `apply_changes`, one turn of the loop is `upsert_record`), Ipos/Flush its
--   flush against the constraints of app/db/models/ipo.py, and Ipos/Columns what the types of its
--   columns refuse and how they round. Ipos/Closing is `list_closing_on`, and
--   Ipos/Status has `ipo_status_expression`, in the three-valued logic of SQL, and `derive_status`
--   of app/services/ipo.py. Ipos/Filters is `_apply_filters` without its text search,
--   Ipos/Shortcuts the date shortcuts of app/schemas/ipo.py, and Ipos/Pages has the offset and
--   limit of a query and `PaginationMeta` of app/schemas/common.py.
-- - Scraper: `NormalizedIPO` and the reports of app/services/scraper/models.py (Records), and
--   `IPOValidator` of app/services/scraper/validator.py (Validator). The fields that the checks
--   clear or swap are `cleaned`, their messages `fatal_issues` and `other_issues`. Client is the
--   retry loop of app/services/scraper/client.py. Columns is app/services/scraper/field_map.py: the
--   table of fields (Fields), the labels (Words), and the scores and the greedy assignment of
--   `map_columns`. Extraction is app/services/scraper/extractor.py: the rows of a JSON document
--   (Document), `_build_result`, the two strategies and `ExtractorChain`. Confidence has
--   `compute_confidence` and `_score_mapping`; Stages has what the stages pass on; Runs is
--   `ScrapeRepository` of app/repositories/scrape.py; Normalizer is
--   app/services/scraper/normalizer.py (Identity, Values) with `parse_price_band` of
--   app/utils/parsing.py; and Pipeline is `ScrapePipeline` of
--   app/services/scraper/pipeline.py with `run_scrape` of app/workers/scraper_worker.py.
-- - Parsing: `parse_date` of app/utils/parsing.py over what its patterns find, with the calendar of
--   `dt.date`. The normalizer takes the reading of a date as a parameter, in days.
-- - Users: `UserRepository` of app/repositories/user.py with the constraints of
--   app/db/models/user.py, Security (app/core/security.py) and Auth (`AuthService` of
--   app/services/auth.py, and `get_current_user` of app/api/deps.py).
-- - Workers: the jobs of app/workers/scheduler.py, and the daily windows of app/core/config.py
--   (Times).
-- - Notifications: Rules (`rule_matches_ipo`, `within_notification_window`), Ledger
--   (`NotificationDeliveryRepository`), Preferences (the repository and the service of rules),
--   Requests (app/schemas/notification.py), Providers and WebPush
--   (app/services/notifications/providers.py), World, Targets and Engine (`NotificationEngine` of
--   app/services/notifications/engine.py, and the worker around it,
--   app/workers/notification_worker.py with `session_scope` of app/db/session.py).
-- - RateLimit: `RateLimitMiddleware` of app/core/middleware.py.
--
-- How they interact. The engine reads rules, issues and devices from the tables, claims a key in
-- the ledger, commits, and calls the provider. A `World` has the tables twice, as the session has
-- them and as committed, so a commit, a rollback and the death of the process are values; the
-- calls of the provider are listed in the order of time, newest first. The provider's answers, the
-- readings of the clock, the settings and the formatting of numbers are parameters (`Env`), so the
-- theorems hold for all of them: an answer is a result, an exception or the death of the process.
-- The upsert takes the records that the validator keeps. The pipeline fetches through the client,
-- extracts, normalises, validates and upserts; a flush that fails leaves its session unusable, so
-- that the job that runs it ends with a rollback. The pipeline takes the extractor as a parameter,
-- as its constructor does, and also the normalizer.
--
-- All loops are recursion on lists or on a document, and the retry loop of the client on the
-- attempts that are left, so nothing needs fuel. A confidence is a whole number of thousandths,
-- since the code rounds it to three decimals, and the smallest one that is trusted is rounded up
-- to thousandths, which no comparison can tell; the error of floating-point arithmetic before the
-- rounding is left out. The HTTP client, the parsers of JSON and HTML, what regular expressions
-- read in a text, Argon2, the token and phone libraries and the scheduling library are parameters.
--
-- Not modelled: the parsing of single numbers, the reading of HTML tables, the text search and
-- the sorting of the API, and the other checks of its schemas. The rows of a run and of its
-- payload are taken to be storable (their texts have no NUL), and a successful answer of FCM to
-- be JSON. HTTP, SQL's own engine, third-party libraries and logging are outside the model.
-- Unique constraints of the tables are hypotheses where an operation relies on them. Workers are
-- modelled one after the other, as the advisory lock runs them.
pub mod Base
pub mod Dates
pub mod Models
pub mod Store
pub mod Users
pub mod Workers
pub mod Devices
pub mod Ipos
pub mod Parsing
pub mod Notifications
pub mod RateLimit
pub mod Scraper
