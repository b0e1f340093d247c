-- ===== src/Lib.antt =====
-- suiban: the inference and orchestration core of the bonsai stack, modelled and verified.
--
-- The program plans a loadout of llama-server slots for the machine it finds (src/suiban/sched, kv.py,
-- effort.py), warms and unloads it (src/suiban/llama/load_controller.py), and runs chats, sub-agents
-- and research jobs against it.
--
-- Prelude: the shared names, Boolean tests, lists over the native numbers, signed integers.
-- Effort (effort.py): the effort ladder. `int(ctx * 0.4)` is `ctx * 2 / 5`, the same number for every
--   context below 2 ^ 50.
-- Sched/Budget (sched/budget.py): the model tables (Models), Python's rounding (Rounding), slot prices
--   and measured overrides (Provider). The float constants are exact rationals here: GiB in hundredths,
--   KV bytes in sixteenths. Reading and writing budget.json is not modelled; its table is the state.
-- Sched/Kv (kv.py): the KV-cache types and their fallback chain.
-- Sched/Planner (sched/planner.py): `plan_loadout`. A notice is its code with the values of its text.
-- Residency (llama/load_controller.py): the controller as one function for each stretch of code between
--   two awaits, a step relation that interleaves requests and reaper passes, and runs of it.
-- Agent (agent/loop.py, agent/events.py, tools/base.py): one agentic run. The slot's completion
--   endpoint, `json.loads` and the tool registry are a parameter (`Environment`), whatever they answer;
--   the run returns its events and the requests it sent. Its loop goes by the rounds left, from
--   `max_iterations` on, so no fuel is needed. An answer that raises when it is read, such as a message that
--   is null, is a value of `Choice` or `Counted` and ends the run. Sampling fields and log lines are left
--   out.
--   Agent/Structured (agent/structured.py): completions whose output must be an instance of a schema. The
--   slot, `json.loads` and the text of a mismatch are parameters; the loop goes by the attempts left. A
--   reply that raises when it is read is a value of `Content` or `Counted`, and the call leaves what it
--   raises.
-- Ultra (modes/ultra.py): a request is planned, contained sub-agents run the parts, and the orchestrator
--   synthesizes. Trace is the messages of a run, Plan its plan, Contained one sub-agent, Sequential a run
--   on one slot, Parallel the dispatch over worker slots: a step relation whose steps are the stretches of
--   a job between two awaits. What ends a sub-agent early, the reading of the git revision and the static
--   prompts are parameters. A notice is its code with the values of its text. What a sub-agent raises is its failed
--   result; an answer to the plan or the synthesis whose reading raises what `run` does not catch is left
--   out.
-- Memory/Compression (memory/compression.py): when a conversation is compressed, and to what. The test
--   for 70% of the context is done on exact numbers; the summarizing model is a function argument.
-- Tools (tools/registry.py): the names that the registry of a run holds; Tools/Dispatch: the check of a
--   call's arguments, and its run. How the body of a tool ends in its time is a parameter.
--   Tools/Arguments (tools/schema.py): the validator of tool arguments.
-- Json: the values of Python's json, the schemas that the two validators know (Schema) and what they
--   accept (Accepts). Constants and enums are texts and bounds are integers, as in every schema there.
-- Slap (slap/validation.py, slap/builders.py, slap/protocol.py, slap/trace.py, slap/schemas): messages of
--   sub-agents.
--   Validation and Messages are the validator, Builders the nine builders, Shapes and Operations the
--   schemas. `re.search` and the text of an error are parameters. Trace is the bounded store of
--   recorded messages, newest first.
-- Schedules (schedules/store.py, schedules/runner.py): cadences and next runs, the table and the
--   scheduler. A moment is a number of microseconds on the wall clock of a zone with a constant offset.
-- Jobs (research/jobs.py): the table of research jobs and the manager, with a step relation that
--   interleaves requests, task bodies and the shutdown.
-- Research (research/engine.py): the pipeline of a deep-research job. Sources chooses and reads the
--   sources, Engine is its stages and the run. The slot, the search provider and the fetcher are
--   parameters (`Seams`). `round(45 * i / total)` is done on the exact quotient, the same number for
--   every total below 2 ^ 40. The progress seam is a list of what it is told.
--
-- No definition takes fuel: every loop goes over a list, a schema or a count that it starts from.
--
-- Not modelled: HTTP routers, process control, file and database access, downloads and gateways, which
-- are glue round services; the mode registry and state files, on which the modelled parts do not depend.
pub mod Agent
pub mod Effort
pub mod Jobs
pub mod Json
pub mod Memory
pub mod Prelude
pub mod Research
pub mod Residency
pub mod Sched
pub mod Schedules
pub mod Slap
pub mod Tools
pub mod Ultra
