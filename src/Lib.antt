-- ===== src/Lib.antt =====
-- PT-Reseeder finds, for the torrents that a downloader already seeds, the same content on other
-- sites, and adds it there; it also queues torrents to be posted again and runs tasks on a
-- schedule. This library models the core crate (crates/core/src) and shows what its parts do.
--
-- The parts and their files:
--   Error models error.rs: the error enums, and results. `Outcome` is a result that may also be a
--     panic, or a run that the model cut off; Error.Ends has the rules for postconditions.
--   Torrent.Bencode models torrent/bencode.rs (`encode`, `decode` and their helpers), and
--     Torrent.Parser torrent/parser.rs (`parse_bytes`) and torrent/models.rs. A position in the input
--     is its index with the bytes from there on. `parse_bytes` decodes, and hashes the re-encoded
--     info dict.
--   Site.RateLimiter models site/rate_limiter.rs: the limiter's atomics are the fields of a record.
--   Engine.Stats, Engine.Filter, Engine.Matcher, Engine.Adder and Engine.Pack model engine/stats.rs,
--     filter.rs, matcher.rs, adder.rs and pack.rs. The matcher asks a site through its limiter for
--     the hashes that pass the filters; the adder downloads a match, parses it, claims its info hash
--     and hands it to the destination downloader.
--   Engine.DryRun models engine/dry_run.rs, and where engine/pipeline.rs puts the preview of a run
--     together.
--   Engine.Matcher.Sites joins the sites of a run, and Engine.Pipeline with Engine.Pipeline.Run are the
--     phases of engine/pipeline.rs one after the other: scans, matches and additions.
--   Engine.Adder.Concurrent is the third phase of engine/pipeline.rs: all adders of a run at once, as
--     steps on the claims that they share.
--   Engine.Scanner models engine/scanner.rs. Engine.Scanner.Sources has `scan_folder` and
--     `scan_downloader`, Engine.Scanner.Materialize the loop of the latter over the client's hashes, and
--     Engine.Scanner the list of the client and the filling of the cache.
--   Db.Tables and Db.Writer model db/writer.rs: the statements on the tables, and the task that
--     collects operations from its channel and writes them in batches.
--   Repost.Status, Repost.Queue, Repost.Review and Repost.Submit model repost/models.rs, the
--     statements on the queue in db/repo.rs, repost/review.rs and repost/submitter.rs.
--   Repost.Adapter models repost/adapter.rs: Repost.Format has its texts and what a title names,
--     Repost.Mapping the mapping of a target site and the default numbers, and Repost.Replace the string
--     functions of Rust that it calls. Repost.Extract models repost/extractor.rs.
--   Db.Tasks models the statements of db/repo.rs on the rows of the tasks.
--   Scheduler.Task models scheduler/task.rs over an interface of the repository, and Scheduler.Task.Store
--     implements that interface by the statements of db/repo.rs.
--   Scheduler.Executor models scheduler/executor.rs: `execute` over any run. Scheduler.Executor.Sources,
--     Downloaders and Reseed have the reseed run up to the call of the engine, and Jobs the repost and
--     statistics runs and the choice between the three.
--   Session models session.rs and the statements of db/repo.rs on the table of sessions: a request's
--     cookies are resolved to the row of their token.
--   A module below one of these holds its theorems, and is named for what they are about.
--   Base holds the shared helpers, and Tests runs the definitions at concrete inputs.
--
-- Texts and byte strings are lists of bytes, machine integers are natural numbers with the wrap
-- written out, and times are milliseconds (seconds in Session). Overflow of a sum of sizes wraps, as
-- in the release profile. Hashes, regular expressions, the case mapping of Unicode, the cron
-- expressions, JSON, the reading of dates, the HTTP client, the site adapters and the downloader are
-- parameters. The database answers every query in Repost, and may fail at each call in Scheduler.Task
-- and at the lookup and the deletion in Session; in Db.Writer it may refuse any statement and fail any
-- transaction. The walk of a directory, the files and the answers of the source client are
-- parameters of the scanner. Floats are their bit patterns. The history writer is taken to accept
-- each line.
--
-- Fuel: `decode` has twice the length of the input and one more, since each call takes a byte or
-- ends a loop; `match_single_site` has one round for each hash and each unit of the batch size,
-- since a round takes a hash or makes the batch smaller. `chunks` has one round for each item. The
-- depth of nesting that the stack allows in `decode` is not modelled.
--
-- Not modelled: the search for pack components through Jackett, the vault, the site adapters,
-- the downloaders' clients, the server, the desktop shell and the web interface. Site adapters and
-- clients speak HTTP, and are parameters.
pub mod Base
pub mod Error
pub mod Db
pub mod Torrent
pub mod Site
pub mod Repost
pub mod Engine
pub mod Scheduler
pub mod Session
pub mod Tests
