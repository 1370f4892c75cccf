-- ===== src/Lib.antt =====
-- Verification library of the competitor intelligence engine, a crawler and analyser of competitors'
-- web sites (app/). The parts that are modelled, and the files of this folder:
--
-- * Queue (app/messagequeue/queue.py): Queue/Json and Queue/Message are the messages and their
--   dictionaries; Queue/Backend is the interface `QueueBackend` with the contract of a first-in
--   first-out queue with messages in flight; Queue/Memory and Queue/Redis are the two backends;
--   Queue/Broker is `MessageQueue`, over any backend. A method that may raise is a function from the
--   state to an optional result and the state (Queue/Exec).
-- * Worker (app/workers/__init__.py): `CollectionWorker`, whose loop calls the broker.
-- * Utilities (app/utilities/performance.py): LruCache, UrlDedup, ContentDedup and CachedParse.
-- * Fetcher (app/collectors/fetcher.py): PageAnalyzer, RateLimiter, HttpCache (`HttpCacheLayer`),
--   Static (`_fetch_static` with its retries) and Hybrid (`HybridFetcher.fetch`). Result holds the
--   data that they share, and what they call in libraries and parsers, as a record of parameters.
-- * Alerting (app/observability/alerting.py): `AlertManager`, with the alert objects in a store,
--   since its history and its table of active alerts share them.
-- * Validation (app/services/quality/validation_pipeline.py): the thirteen stages, one function for
--   each, and the loop over a batch. Floats are a type with the comparisons that the code makes.
-- * Changes (app/services/change_detection_service.py): `detect_changes` on the rows of a table.
-- * Resolution (app/parsers/resolution.py): Levenshtein (the edit distance), Item (the items of a
--   parsed result, `_first_value`, `_update_cross_references`), Clusters (the clusters of
--   `_resolve_list`), Merge (`_pick_canonical`, `_merge_cluster`) and Duplicates
--   (`_deduplicate_list`).
-- * LlmCache (app/ai/infrastructure/cache.py): `LLMResponseCache` and the Redis server behind it.
-- * Discovery (app/collectors/discovery.py): the URLs and their deduplication, by Utilities/UrlDedup;
--   Rank is `_rank`, Sitemaps `_fetch_sitemaps`, whose fuel is the number of addresses plus one, and
--   Crawl `discover` with the links of a page.
-- * Scheduler (app/schedulers/scheduler.py, with the queries of competitor_repository.py and
--   collection_log_repository.py in app/database/repositories/): Due and Life are about the due
--   competitors and the tasks, Round is one turn of `_run_loop`.
-- * Collection (app/services/collection_service.py): Urls and Modules are the pages of a module and the
--   loop over the modules, Retry `_collect_with_retry`, Crawls the calls that run at once, and Logs
--   the logs, which Scheduler reads.
-- * Adaptive (app/parsers/adaptive_orderer.py): Stats is `StrategyStats`, Ranking is about
--   `rank_strategies`, and Files are `_load_stats` and `save_stats`.
-- * KnowledgeGraph (app/services/knowledge_graph/engine.py): Build is `build_from_database`, Paths
--   `find_path`, whose fuel is one round for the start and one for each listed edge, and Queries the
--   questions of the API. A weight counts tenths.
-- * AiPipeline and AiWorker (app/ai/application/): `run_analysis` over LlmCache, and `process_task`.
--
-- Base holds the shared tests, lists and texts, and Dict Python's dictionaries, as association lists
-- in insertion order; Sorting is the stable sort of `list.sort`. Times are numbers of ticks that are
-- given to the operations that read a clock; a concurrent run is the sequence of its locked sections. Loops are recursions on lists, or on
-- the count that bounds them in the code (`max_messages`, `retry_attempts`); the loop of a worker
-- runs for a given number of rounds, with a bound on the rounds that empty a queue.
--
-- Not modelled: network and browser I/O, the database, logging and metrics, the extraction
-- strategies over HTML trees, the forecasting on floats, the HTTP API, and URLs that `urlparse`
-- refuses.
pub mod Base
pub mod Dict
pub mod Sorting
pub mod Adaptive
pub mod Queue
pub mod Worker
pub mod Utilities
pub mod Fetcher
pub mod Alerting
pub mod Validation
pub mod Changes
pub mod Resolution
pub mod Discovery
pub mod Scheduler
pub mod Collection
pub mod KnowledgeGraph
pub mod LlmCache
pub mod AiPipeline
pub mod AiWorker
pub mod Tests
