-- ===== src/Lib.antt =====
-- The Industrial Context-Aware Agent Benchmark: which contexts an investigation agent is given,
-- how it investigates, and how its runs are executed, scored, classified, aggregated and counted.
--
-- Context (src/icab/tasks): `Dimensions` follows context_dimensions.py, `Combinations`
-- context_combinations.py and `Conditions` context_conditions.py. A combination of dimensions is
-- resolved to the architectures that realise it, and `Design`, after experiment_design.py, selects
-- the combinations to test; exceptions are the values of `Base.Errors`.
-- Tasks: `Scenarios` follows src/icab/scenarios/models.py, `BenchmarkTasks` and `Splits` follow
-- benchmark_task.py and splits.py of src/icab/tasks, and `UseCases` src/icab/usecases/models.py;
-- `Validation` is about their validators.
-- Agent (src/icab/agent, src/icab/trace): `Interface` and `Trace` hold the results and the events,
-- `Tools` follows agent/llm/tools.py, `Calls` follows one tool call through agent/llm/agent.py and
-- agent/client.py, and `Loop` follows `LLMInvestigationAgent.run`. The state of a run is the record
-- `State`, which the steps pass on. The model provider, the gateway's answers and the clock are the
-- record `World`, by the number of earlier calls, so that the theorems hold for every behaviour of
-- them. `Loop.run` is the loop with a provider whose calls all return; the runner uses
-- `Loop.attempt`, whose provider may raise.
-- Evaluation (src/icab/evaluation): `Report` has the report types; `Patterns`, `Observations`,
-- `Mentions` and `Grounded` follow grounded.py, from its regular expressions to the evaluator that
-- grades an agent's result by its trace. `ToolResults` and `InformationFlow` follow
-- `InformationFlowAnalyzer`, which reads the same traces.
-- Experiment (src/icab/experiments): `Models` follows models.py, the records that runs leave, and
-- `Presets` architecture_combinations.py. `Runner` follows `ExperimentRunner.run_task`, which runs
-- an agent and grades it; the record `Lab` stands for what it calls outside: the preparation of a
-- scenario, the deterministic agents, the provider's client, the installation. `Comparison` follows
-- the comparison of architectures over one preparation. `Metrics` and `Hypotheses` follow
-- hypotheses.py, `Controls` controls.py.
-- Reporting (src/icab/reporting): `Stats` follows stats.py and `Aggregation` aggregation.py, which
-- groups the records by the values of `Aggregation.Dimensions`.
-- Analysis (src/icab/analysis): `Taxonomy` follows failure_taxonomy.py, `Discoverability`
-- discoverability.py, `Sufficiency` _shared.py with sufficiency.py, and `Necessity` necessity.py; the
-- last two aggregate the runs of combinations that they look up in Context.Combinations.
-- Benchmark (src/icab/benchmark): `Completeness` follows completeness.py, and `Execution` follows
-- _execution.py, where `run_one` turns every exception of a run into a failed record. Faults follows
-- src/icab/tep/faults.py with the record of fault_characterization.py.
-- Base has what the parts share; Samples and Tests have examples at concrete inputs.
--
-- Python's integers are natural numbers here, since those that occur are counts. Floats are the
-- interface `Base.Float.Float` over any type; the theorems on scores take the laws of Python's
-- ratios of small counts as hypotheses, with a limit on the counts (2 ** 53 for Python's floats).
-- Sets are lists read by membership, dictionaries lists of pairs in the order of insertion. A text
-- that the code searches is its list of code points, with the digits, letters and lower case of
-- ASCII; each regular expression is a function that measures the match at the start of a text, and
-- the scans recurse on the text. The loop over the steps recurses on the steps that are left,
-- starting at `max_steps`, which is the bound of the source's `range`; `decimal` recurses on the
-- number itself, which has fewer digits than that.
--
-- Not modelled: the gateway and its services, the plant simulator, the loading of tasks and
-- questions, the storage of results, the plots and the reports, which are input and output or
-- calls of external packages; the deterministic agents, which are parameters of the runner;
-- exceptions of the evaluator on gateway replies that break gateway/schemas.py; and, not yet, the
-- runners over arms and repetitions and the analyses of composition and efficiency.
pub mod Base
pub mod Context
pub mod Tasks
pub mod Agent
pub mod Evaluation
pub mod Experiment
pub mod Reporting
pub mod Analysis
pub mod Benchmark
pub mod Faults
pub mod Samples
pub mod Tests
