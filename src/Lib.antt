-- ===== src/Lib.antt =====
-- HelixGrid: the reference model of the chaos lab (tools/chaos_lab) and the workflow language of
-- the Python SDK (sdk/python), modelled and proved correct in parts.
--
-- The chaos lab drives a model of the coordinator: workflows of dependent tasks, workers that
-- lease ready tasks, leases that expire, retries with a delay, and a log of events. The generator
-- makes scenarios, the runner makes the calls of a scenario on the model and checks the model's
-- invariants after each, and the shrinker looks for a smaller scenario that fails. The Python SDK
-- has a small language in which workflows are written: a lexer, a parser, validation, graph
-- algorithms and a printer.
--
-- Files, with the code they model:
--   Prelude            shared names: numbers, tests, lists, sorting, texts (Prelude/Texts) and code
--                      points (Prelude/Codes), Python dictionaries (Prelude/Dict), JSON values and
--                      json.dumps (Prelude/Json), and statements that change an object and may
--                      raise (Prelude/Exec), with what they respect (Exec/Respects), what they may
--                      return (Exec/Returns), what they do return (Exec/Yields) and what
--                      they leave behind (Exec/Leaves)
--   Chaos              tools/chaos_lab/model.py: Types (the classes), Policy (RetryPolicy), State
--                      (Model, emit, reject), Tasks (recompute, transition_task), Leases (sweep,
--                      expire_lease, close_lease), Dag (validate_dag), Admin (add_workflow,
--                      register_worker, cancel_workflow, advance), Handlers (start, renew, complete
--                      and their stale forms), Dispatch (lease_next, apply), Checks (the _check_
--                      methods)
--   Chaos/Moves        the small moves of four kinds that the operations are made of, and the rules
--                      that carry a property over them; the grant of a lease is in Moves/Grants
--   Chaos/Snapshot     the reports of model.py: snapshot, digest, event_jsonl, state_counts and others
--   Chaos/Session      tools/chaos_lab/runner.py: the calls of a scenario, in their order
--   Chaos/Invariants   invariants and progress over the calls, from the moves; what becomes of a
--                      lease's token is in Invariants/Leases
--   Lab/Types          the scenarios of tools/chaos_lab/generator.py
--   Lab/Runner         tools/chaos_lab/runner.py: ScenarioRunner and its reports
--   Lab/Reports        the reports of runner.py as JSON values
--   Lab/Files          scenario_to_dict and scenario_from_dict of runner.py
--   Lab/Campaign       run_campaign of runner.py, generate_many of generator.py
--   Lab/Shrinker       tools/chaos_lab/shrinker.py: Ddmin (_ddmin_actions), Actions
--                      (_simplify_actions), Removal (_remove_workers, _remove_tasks), Search (shrink)
--   Lab/Generator      tools/chaos_lab/generator.py: Draws (GeneratorConfig, the random numbers),
--                      Tasks (workflow), Workers (workers), Scenario (scenario, next_action)
--   Dsl                sdk/python/src/helixgrid/dsl.py: Literals and Lexer (class Lexer), Cursor,
--                      Fields and Parser (class Parser), Durations, Graph (reverse_edges,
--                      topological_order, find_cycle, critical_path, statistics), Validate
--                      (validate, compile_node), Format (format_source)
--   Dsl/Shell          Python's shlex.split, as the parser calls it
--   Samples, Examples  test data; tests, and the theorems at concrete inputs
--
-- A method of the class Model is an action of Prelude/Exec: it takes the state and gives back a
-- result or an error together with the state, so what was written before a raise stays written.
-- The digest blake2s of `next_id` is an argument `digest`; nothing is assumed of it but where a
-- theorem takes it that no later id is a given token again, `IsUsedUp`, since a digest of six bytes
-- may make one id twice. A clone() is the value itself, and a dictionary is an association list in
-- insertion order. Clock readings and counters are natural numbers. An error prints a state by its
-- value.
-- Candidates for a lease are ordered by their number where the code orders by that number's
-- eight-digit text, which is the same below a hundred million tasks. The three refused calls on a
-- closed lease share the definition `refuse_closed`. A violation of an invariant is its code
-- alone, without the message; a KeyError in the check of the dependencies counts as a violation.
--
-- In the lab, what the standard library computes is a parameter, `Host`: the two hashes, and `repr`
-- of a text, which the text of a KeyError shows. The time that a run takes is left out. A failure
-- predicate of the shrinker gives `none` where it raises, and a worker is named as a record. The
-- generator draws from a parameter `Random`, for `random.Random`, of which a theorem may take the
-- documented bounds, `IsRandom`. A random number is a multiple of 2⁻⁵³, and a probability the least
-- number of such multiples that is not below it; a weight is a number of tenths, and the pick among
-- the weights is made without rounding. The settings are natural numbers.
-- What Python makes of a JSON value of another type than the code means, the `repr` of a text
-- or a list and the integer that a text spells, is a parameter, `Conversions`; the keys of a JSON
-- object differ, and a number in it is an integer, no float.
--
-- A text of the language is a list of code points. An error of the lexer or the parser keeps its
-- words, with {} for what it prints, the texts it quotes and its position; the file name is left
-- out. The parser's index is the current token with those after it.
--
-- Fuel: the rounds of `ddmin` are at most n² + n + 1 for n actions, since each removes an action or
-- doubles the granularity; `drop_tasks` goes over the positions of the list; the rounds of `shrink`
-- are bounded in the code. `kahn` runs for as many rounds as there are tasks, since each round
-- moves one task to the order; `decimal` and `digits` for one more than the number; `lex` for as many rounds as there are
-- characters and `string_body` for one more; the parser's loops for as many rounds as there are
-- tokens left, since each takes one at least; `visit` is nested at most as deep as there are ids,
-- and one; `order_from`, `widest` and `walk` run for the number of ids.
--
-- Not modelled: files, printing and the command line of the runner; `replace_task` of the generator,
-- which sets attributes by their names; `graphviz` and `compile_file`; the HTTP client, the command
-- line, the dashboard, the file tools and the scripts, which are input and output for the most part;
-- and the parts of HelixGrid that are written in other languages.
pub mod Prelude
pub mod Chaos
pub mod Dsl
pub mod Lab
