-- ===== src/Lib.antt =====
-- A verification library for fabri, an agent framework in Python. Each part models one component
-- of src/fabri: its data as records and data types, its functions as functions of the same names,
-- its exceptions as results, and its mutations as state that is passed on.
--
-- Waves models src/fabri/builder/waves.py. Waves.Defs has `_normalize`, `plan_waves` and
-- `spawn_descriptors`; the dictionaries `indeg` and `children` are a Graph, the variables of the
-- loop a Layering. `while ready` is `rounds` on one unit of fuel more than there are items: each
-- round places an item, so that this is enough.
--
-- Decide models src/fabri/decide. Decide.Question and Decide.Answer are types.py: the validation
-- of questions, their allowed values, the answers and `split_evenly`. Decide.Cascade is
-- cascade.py; a decider is the result of one call, and the answers that the loop changes in place
-- are a state of their own. Decide.Tree is tree.py: Config reads nodes and branches, Graph is
-- `_validate_graph`, Run is `run` with the decider's answers by the number of the call, Report is
-- what TreeResult says of costs. `walk` has one unit of fuel more than there are nodes, as a path
-- repeats none; `run_loop` has the `MAX_DEPTH` turns of the source. Floats are a parameter with
-- the operations that the code uses.
--
-- Actions models src/fabri/orchestrator/action_execution.py: Defs plans the changes of a
-- resolution, Apply merges them by role, writes them and restores what was written when a write
-- fails. The disk is a dictionary of texts by path; YAML, the writes that fail and the text that a
-- restoring write leaves are parameters.
--
-- Memory models src/fabri/memory. Entry and Payload are schema.py. Tier, Ingest, Evict and
-- Guideline are pruning.py: the tier of an entry, the merge or insertion of a candidate, the
-- eviction with or without summaries, and `ingest_guideline` that joins them. Promotion and Scan
-- are global_promotion.py: the candidates that recur across organizations, their approval, and the
-- withdrawal of an organization; Stale is staleness.py. A store is a dictionary of entries by id,
-- the collections are a dictionary of stores by name. The digest behind an id, the clock, the
-- searches of a store, the eviction score, the language model and the de-identification of texts
-- are parameters. The groups of the summaries are formed on as much fuel as there are entries, of
-- which each group takes one or more.
--
-- Memory.Recurrence is recurrence.py: Signature has `canonicalize` and `fingerprint`, Applicable
-- the hard checks of a recovery, Confidence the score on floats that are a parameter.
--
-- Memory.Scopes is scopes.py: Guard names the collections and has `check_collection_access`, Context
-- the calls that it guards inside `scope_context` and `admin_access`, and the stores of a scope. The
-- digest of an id is a parameter.
--
-- Agent models src/fabri/core/agent.py. Agent.Defs has the messages, the replies, the account of
-- what is spent and the outcomes of outcome.py; Calls, Turn and Dispatch are
-- `_dispatch_tool_calls`, Steps is `_run_step_loop`, Structured `_finalize_structured`, Plan and
-- Attempt `_run_single_attempt`, Repair `_run_with_repair` and `run_agent`. The model and the tools
-- act on a world of any type. The parser of a structured answer, the selection of a convention's
-- branch and the verifier are parameters. Runs have no narrator; traces, telemetry of sub-agents
-- and the totals of usage are left out. A member of a parallel group sees what the run had spent
-- before the groups began, as its cost is added after all have finished.
--
-- Pricing models src/fabri/pricing.py: the table of rates in thousandths of a dollar, the lookup by
-- the longest prefix and `cost_for`, on floats and a map of litellm's that are parameters.
--
-- Planner models src/fabri/core/planner.py: the items that are read from the model's reply, and
-- `topological_order`, whose `while ready` is `loop` on one unit of fuel for each item, as each
-- turn places one. JSON and the regular expressions are parameters.
--
-- Service.RunStore models src/fabri/service/run_store.py: the table is a list of rows, the SQL
-- statements are functions on it. Index is the import of an older index, Totals the sums by
-- agency, in which the order of a float sum is fixed. The column types are parameters; a limit and
-- an offset are natural numbers.
--
-- Tools models two files of src/fabri/tools: Approval is approval.py, the approval classes and the
-- defaults for operations and MCP tools; Policy is policy.py, the caller's limits, from their
-- mapping to each check. Patterns, hosts, upper and lower case and the words of a name are
-- parameters.
--
-- Value has the YAML and JSON values that the parts read, without floats. Prelude has what they
-- share: tests, lists over the native numbers, results, dictionaries in insertion order, texts.
--
-- Not modelled: language models and HTTP, the command line, HTTP services, files other than those
-- of Actions, databases but for the run table, regular expressions, float arithmetic, locks
-- between processes, and log lines.
pub mod Prelude
pub mod Indices
pub mod Value
pub mod Waves
pub mod Decide
pub mod Actions
pub mod Memory
pub mod Agent
pub mod Planner
pub mod Pricing
pub mod Service
pub mod Tools
