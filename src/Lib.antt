-- ===== src/Lib.antt =====
-- A model of the Python tools of this repository (tools/wowsim) and theorems about them. The tools
-- watch and steer a game server from outside: they read its telemetry log and talk to its control
-- channel.
--
-- The parts, and the files that model them:
--   tools/wowsim/models.py         Models/*: a record for each class, an enumeration for each closed
--                                  literal with the text of each member beside it
--   tools/wowsim/log_parser.py     Logs/*: parsing, filters, the summary, the four anomaly detectors
--   tools/wowsim/game_metrics.py   Mechanics/*: cast and combat statistics
--   tools/wowsim/health_check.py   Health/*: tick, zone and player statistics, the status, the report
--   tools/wowsim/fault_trigger.py  Control/*: the client of the control channel, and durations
--   tools/wowsim/pipeline.py       Pipeline/*: the gates, and the staged run
--   tools/wowsim/benchmark.py      Benchmark/*: percentiles, the verdicts, and the whole run
--   tools/wowsim/mock_client.py    MockClient/*: the generated traffic, a client's run, the spawning
--   tools/wowsim/dashboard.py      Dashboard/*: the watermark filter, the texts, the fault catalogue;
--                                  Dashboard/App/*: the application as a state machine
--   tools/wowsim/demo_runner.py    Demo/*: the life of the server process
--   tools/wowsim/cli.py            Cli/*: the commands
-- The reports that a part prints are in its Format.antt.
-- A function keeps its Python name without a leading underscore (`_detect_error_bursts` is
-- `detect_error_bursts`); a loop in a function's body is a recursive function of its own, with the
-- variables that the loop updates as a record or as arguments.
--
-- How the parts interact: the log parser turns lines into entries, the mechanics and the health
-- functions turn entries into statistics and a status, the health report adds a probe of the
-- control port and a query of the faults through the control client, and the pipeline decides by
-- such reports when to send a fault command and when to reverse it. The dashboard and the commands
-- put these together: a thread of the dashboard does the calls and reports what comes of them to
-- the main thread, whose handlers change the state.
--
-- Input and output (Effects.antt): an action takes a session (the calls made so far, the sockets
-- opened and closed, the requests written) and returns an outcome and a session. What the outside
-- answers, the clock, the file system, the sockets and pydantic included, is an environment `Env`,
-- a parameter of every theorem; an answer depends on the number of the call, so two calls may be
-- answered differently. Python's exceptions are the outcome `raise`.
--
-- Numbers: floats are a type `R` with the operations that the tools use (Float.antt), a parameter
-- too. Python's floats obey the laws `IsFloat` as long as no NaN, infinity or overflow comes up;
-- a theorem that needs them has them as a hypothesis. Float/Fixed.antt is an executable instance
-- that meets them, for the tests.
-- Ids, counters and damage are natural numbers, as the server writes them. A datetime is its
-- microseconds since the epoch.
--
-- A mock client keeps its calls and what it has written in its own record, and each client has a
-- `World` of its own that answers it: clients share nothing but the event loop, so how they are
-- interleaved only decides what their calls are answered. Random numbers are part of that world.
--
-- The dashboard (Dashboard/App): its record has the attributes of the application, and what its
-- handlers touch outside of it: the Event objects, the threads that spawn clients, the open modal
-- screens and the texts of the widgets. Dashboard/App/Steps.antt is the relation of the steps that
-- may happen in any order; a modal screen takes the keys, as the textual framework documents. The
-- threads (Dashboard/App/Workers) are actions on the session that end in a report.
--
-- The demo and its server process have a state of their own, `Host`: the process that is attached,
-- how many were started and how many were seen to end, the signals, and what was printed. What the
-- operating system answers is a `World`, by the number of the call.
--
-- Commands: click has read the options before, and prints a ClickException; a command returns what
-- it echoes. Ints are signed where a command or a request takes them from an option.
--
-- Fuel: the polling loop of the canary, the loop of a mock client and the loop that waits for the
-- server of the demo wait for a clock, and have no bound in the source. They run on fuel, and the
-- outcome `spent` says that the fuel was too little; fuel for more rounds than the clock allows
-- before the deadline is enough.
--
-- The watch mode of the command `health` has no end in the source; its fuel is the number of rounds.
--
-- Not modelled: the declarations of options to click and of widgets, keys and timers to textual, and
-- its cancelling of workers; the event loop of `WoWDashboardApp(config).run()`; the limit of 4300
-- digits above which CPython's int() refuses a text; the OverflowError of a float whose square is
-- too large; decimal digits beyond ASCII; the time that sleeping takes; errors raised by closing a
-- socket; NaN, but for the conversion to an int; and telemetry values of another type than the
-- server writes.
-- The C++ server is not part of the tools.
pub mod Common
pub mod Float
pub mod Models
pub mod Demo
pub mod Cli
pub mod Logs
pub mod Mechanics
pub mod Health
pub mod Effects
pub mod Control
pub mod Pipeline
pub mod Benchmark
pub mod MockClient
pub mod Dashboard
pub mod Tests
