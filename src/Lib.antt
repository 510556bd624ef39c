-- ===== src/Lib.antt =====
-- The worker of the document pipeline, the stages that it runs, and the cache, the retries and the
-- path search that serve its graph: graph-worker/graphrag-service/src of the repository.
--
-- How the parts interact. A consumer takes task envelopes from a RabbitMQ queue, counts the
-- retries that an envelope has taken, asks a guard whether this attempt was seen before, runs the
-- handler, and answers by publishes and one ack or requeue. The handler validates the envelope,
-- downloads the document, and runs the ingestion and the GraphRAG pipeline; a pipeline selects its
-- stages and hands them to a runner.
--
--   Prelude     shared names, lists and dicts, integers, actions over a state that may raise
--               (Prelude/Effect) and their pre- and postconditions (Prelude/Triple)
--   Values      Python values as json.loads gives them: truth, `d.get`
--   Text        the methods of `str` that the stage selection calls
--   Worker      worker/retry.py (Worker/Retry: select_tier, death_count), worker/idempotency.py
--               (Worker/Guard), worker/consumer.py (Worker/Consumer: _handle_delivery and what it
--               calls, an action over the state of the guard, the clock, the coming faults of the
--               broker and the trace of events, the newest first; Worker/Reconnect: consume),
--               worker/processor.py and _handle_message of worker/base_worker.py (Worker/Processor:
--               actions over the temporary files)
--   Cache       lib/caching/lru_cache.py: LRUCache and the wrapper of `cached`
--   Pipeline    domain/graphrag/pipeline.py (Pipeline/Selection: _parse_stage_selection up to
--               run_with_resume) and domain/shared/pipeline_runner.py (Pipeline/Runner: run)
--   Paths       app/api/graph/handlers/path_finding.py: _build_adjacency_list, _bfs_find_paths,
--               _enrich_paths, find_shortest_paths
--   Api         app/api/stages: validation.py (Api/Fields, Api/Validation), metrics.py (Api/Tracker)
--               and execution.py: the state and its updates (Api/State), the thread and the
--               cancellation (Api/Background), the calls (Api/Execution)
--   Stage       core/base/stage.py: BaseStage.run (Stage/Run) and its concurrent mode (Stage/Tpm)
--   Agents      domain/graphrag/agents/relationship_resolution.py: the groups (Agents/Groups) and
--               their resolution (Agents/Relationships), with the model of core/models/graphrag.py;
--               entity_resolution.py: the groups and the choice of a name and a type
--               (Agents/Entities), the texts of the descriptions (Agents/Descriptions)
--   Limiter     lib/rate_limiting/limiter.py: RateLimiter and rate_limit
--   Histogram   the class Histogram of lib/metrics/collectors.py
--   Retrying    lib/retry: the policies and the wrapper of with_retry (decorators.py, policies.py)
--   Examples    the theorems at concrete inputs
--
-- Parameters. The names from the configuration, `str`, `int` at texts, json.loads, the handler, the
-- redis client, the object store, the configuration and the runs of the pipelines, the stage
-- classes, the key function of the cache and the answers of the database are arguments. An
-- exception of the broker is an entry of the list of faults, so every interleaving of answers and
-- failures of one delivery is covered. A thread of the stages API is a machine that takes one step
-- for each section under the lock, and a run of it is any list of its steps and of cancellations.
--
-- Bounds and fuel. Integers of Python are unbounded; times (of the limiter, ticks of which its
-- interval is a whole number), sizes and completion counts are natural numbers, completion ratios
-- fractions, confidences numbers of millionths. The dependencies of a stage are followed to the
-- depth 4, the number of stages, which no chain exceeds. The search of Paths runs on fuel, the
-- weight of the start: an element with r hops left is worth one more than all edges of the graph
-- times an element with r - 1 hops left. Texts are compared by code points; letter case and white
-- space are those of ASCII.
--
-- Not modelled: the database behind the stages API and its recovery at start-up, the connection
-- and its declares, logs, spans and the durations of metrics, the ids and times of published
-- results, the wall clock, the experiment tracking and the database work of the pipeline, the
-- confidence of a resolved entity, which is a logarithm, and the assembly and the blocking keys of
-- entities, the other libraries, agents and handlers of the service, and the
-- services in Go and TypeScript.

pub mod Prelude
pub mod Values
pub mod Text
pub mod Worker
pub mod Cache
pub mod Pipeline
pub mod Paths
pub mod Retrying
pub mod Limiter
pub mod Histogram
pub mod Api
pub mod Stage
pub mod Agents
pub mod Examples
