-- ===== src/Lib.antt =====
-- The web search API (app/): an HTTP service that searches the web, fetches and extracts pages and has
-- a model summarise them, at once or as background jobs. This library models the services that
-- decide what is fetched, what is searched, what is kept and what is sent to a model, as functions on
-- explicit state, and proves what callers rely on.
--
-- How the parts interact. A search goes through `SearchRouter` to one of several backends. Each
-- result's page goes through `PageFetcher`, which validates the URL, asks robots.txt and calls
-- `HttpFetcher`, and that validates every hop again. Page text is cut to a model's budget, and the
-- request body is shaped to what the model accepts. `ModelRegistry` probes the providers of models with
-- the credentials that the keyring holds for a caller, picks a model and sends the request, under the
-- filter and the defaults that `SettingsApiPreferences` reads of the person. The pipelines run a batch of
-- queries or URLs through these, summarise what comes back with `Summarizer`, and turn a failure into
-- the result of its item. A request may instead be a job, kept in the job store, which a client polls or
-- waits on; `JobRunner` runs it as a task behind a semaphore.
--
-- Files, with the code that each models:
--   Prelude      names of the libraries, Boolean tests on numbers, lists and texts that all parts use
--   Core/Errors  app/core/errors.py: an exception class is a constructor of `ErrorKind`
--   Core/Result  a call that may raise a domain error
--   Core/Cache   app/core/cache.py: `TTLCache`
--   Core/Concurrency  app/core/concurrency.py: `bounded_gather`; Gathering on its runs
--   Jobs/Base    app/services/jobs/base.py: `JobStatus`, `Job`
--   Jobs/Store   app/services/jobs/memory.py: `InMemoryJobStore`; its children Jobs, Eviction,
--                Capacity, Reads, Links, Events and Waiting hold the proofs on ids, the size cap, reads
--                and long polls
--   Jobs/Runner  app/services/jobs/runner.py: `JobRunner`; Steps is the relation of what may happen to
--                it, Slots, Saving, Flags, Sound, Turns and Runs lead to its invariant, Stops to its
--                ends
--   Fetch/UrlSafety  app/services/urlsafety.py, with the independent description in Policy
--   Fetch/Http   app/services/fetch/http.py: `HttpFetcher`; Hops on redirects, Body on documents
--   Fetch/Robots app/services/robots.py: `RobotsPolicy`; Copies on how long a copy is used
--   Fetch/Page   app/services/fetch/page.py: `PageFetcher`; Modes on the render modes
--   Search/Base  app/services/search/base.py: levels of filtering, queries and responses
--   Search/Router  app/services/search/router.py: `SearchRouter`; Order and Failover hold the proofs
--   Text/Truncate  app/services/text/truncate.py and the constants of app/constants.py
--   Llm/Capabilities  app/services/llm/capabilities.py; Rules is app/services/llm/capability_rules.py,
--                Resolve, Keys, Efforts, Shape and Thinking hold the proofs
--   Llm/Models   app/services/llm/base.py and `split_model_id` of app/services/llm/registry.py; Ids on
--                the round trip of ids
--   Llm/Registry app/services/llm/registry.py: `ModelRegistry`; Probing, Catalog and Completion hold its
--                methods, Listed, Isolation, Bounds, Chosen, Named, Contacts and Completed the proofs
--   Llm/Specs    app/services/llm/specs.py; Rows on the rows of its table
--   Preferences  app/services/preferences.py: Reading has the readers of single settings, Source
--                `SettingsApiPreferences`; Ceilings and Operator hold the proofs
--   Pipelines    app/services/pipelines.py and its schemas of app/schemas: Searching is `run_search`,
--                Scraping `run_scrape` and `run_summarize`; Outcomes, Shown and Summaries hold the proofs
--   Keyring      app/services/keyring/caller.py and client.py
--   Llm/Prompts  app/services/llm/prompts.py; Fence, Layout and Tags on the tags around
--                the content
--   Llm/Summarizer  app/services/llm/summarizer.py: the reading of an answer, and `summarize` in Calls;
--                Sent on what is sent to a model
--   Llm/Chat     app/services/llm/providers/openai_compatible.py: `chat`, and
--                `find_unsupported_parameter` of capabilities.py; Named and Retry on the second attempt
--   Tests        each result at a concrete input
--
-- How code becomes definitions. A method takes its object's state and returns the new state; a raise
-- is `err` of `Core/Result`. A clock reading is an argument, in whole ticks. An asyncio event is a
-- number, and the store keeps which numbers are set, so that an event which is no longer in the
-- dictionary can still wake its waiter. What runs under one lock is one step,
-- and a task of the runner runs from one suspension to the next in one step. URL and address parsers,
-- DNS, the origin's answers, the settings client, the JSON parser, hashes, the robots.txt parser, the
-- browser and the extractor are parameters, and so are regular expressions but for the one that fences
-- a prompt's content, which is a walk over its characters. Calls of the model registry run one after
-- another. Logging is left out.
--
-- Bounds. No loop has fuel of the model's own: the redirect loop runs on the code's own bound,
-- `max_redirects + 1` rounds, and the other loops on the list that they walk. Numbers are natural
-- numbers: times, retention and limits are not negative, and a difference of clock readings stops
-- at 0, where the code's tests read the same way. The float product in `truncate` is written as a
-- whole division, which agrees with it below 2^50.
--
-- Not modelled: the Anthropic and Ollama clients, the search backends, the verification of tokens, the
-- API's routes, the bounds and validators of the schemas' fields, and the fields that only describe a
-- duration. What the code does not translate to an exception of its own is outside the model: a
-- `ValueError` of Python's `urljoin` and httpx's `InvalidURL` on a malformed URL, a `UnicodeError` of
-- the resolver on a host that cannot be encoded, an `AttributeError` on a completion whose JSON is no
-- object, and a factory of `bounded_gather` that raises.
pub mod Prelude
pub mod Core
pub mod Jobs
pub mod Fetch
pub mod Search
pub mod Text
pub mod Keyring
pub mod Preferences
pub mod Pipelines
pub mod Llm
mod Tests
