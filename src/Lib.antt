-- ===== src/Lib.antt =====
-- Mecone tests how well an HTTP proxy or cache keeps to the HTTP specifications. A client sends the
-- requests of each test through the proxy to an origin that the program itself provides. The origin
-- answers from a script that the client uploads before the test, and logs every request that
-- reaches it. The client then compares what it saw and what the origin logged with the test's
-- expectations, and a report counts and scores the verdicts.
--
-- The files and what they model:
--
-- Prelude, Sorting, Maps, Strings, Strconv, Http and Regexp are shared: lists, Booleans and
-- integers over the native numbers, and what the program calls of Go's standard library. A string
-- is the list of its characters; every string that the program compares or cuts is taken apart at
-- ASCII characters. A Go map is an association list. Sorting is insertion sort, which is stable. A
-- regular expression is matched by derivatives.
--
-- Protocol is pkg/protocol: protocol.go and log.go in Protocol, ids.go in Protocol.Ids, lines.go in
-- Protocol.Lines. `response_for` is Script.ResponseFor, `expand_templates` is expandTemplates.
-- Proto is pkg/proto/proto.go. TestDef is pkg/testdef: testdef.go and types.go in TestDef,
-- script.go in TestDef.Script, validate.go in TestDef.Validate. A test of TestDef.Test has no nil
-- step or response; one of TestDef.Decoded may have. Results is the record of a run,
-- pkg/results/results.go. Check is pkg/check/check.go: `evaluate` and `verdict`, and one function
-- per kind of expectation. Origin is pkg/origin: store.go in Origin.Store, the comparison of entity
-- tags of respond.go in Origin.Etags, the building of a response in Origin.Respond, and the
-- handlers of control.go and respond.go in Origin.Serve. An entry of the store is shared between
-- the map and the handlers that use it, so entries stand on a heap, and Origin.Store.Sharing
-- interleaves the handlers' locked sections. Corpus is pkg/corpus/corpus.go: how the tests of the
-- suites get under their IDs, the search for cycles in what they require (checkRequires and visit)
-- in Corpus.Requires, and the selection of tests with all that they require (Select and include) in
-- Corpus.Selection. Client is pkg/client/runner.go: the plan of the jobs and the steps of one test
-- with its parallel groups in Client, `exercise` in Client.Exercise, `New`, `handshake` and
-- control.go in Client.Control, and the goroutines of `execute` and `schedule` in Client.Schedule,
-- as a step relation on the phases of the jobs and the tokens of the semaphore. Config is
-- pkg/config: the data of config.go, managed.go and target.go with their defaults, and validate.go
-- in Config.Validate. Target is the part of pkg/target that runs no command: the variables
-- (target.go), the places of files (files.go), the host of the origin (docker.go) and the wait for
-- readiness (ready.go). Orchestrate is pkg/orchestrate/orchestrate.go: the test of one target, with
-- what it starts and stops, the client's run and the messages as a list of events. Cli is pkg/cli:
-- the exit code (cli.go), the selection of tests (commands.go) and the settings that a file
-- supplies (catalog.go). Report is pkg/report: report.go in Report and Report.Changes, targets.go
-- in Report.Ranking, csv.go in Report.Rows (`none` is a panic at a column out of range), and the
-- notice of text.go in Report.Wrapping. Examples has runs at concrete inputs.
--
-- How they interact: TestDef.Script makes the script that Origin.Serve stores and answers from;
-- Origin.Serve finds the response with Protocol's `response_for`, builds it with Origin.Respond and
-- logs it in Origin.Store; Check reads that log through Protocol's `log_step`; Report reads
-- Results. The jobs of Client.Schedule wait for those of the tests that Corpus.Requires has
-- checked, and Client.Exercise puts a script into Origin.Store and asks for its removal. Cli turns
-- flags and a Config into a filter for Corpus.Selection.
--
-- Loops over slices are structural. Seven loops run on fuel. The searches of Corpus.Requires and
-- Corpus.Selection have the number of tests and one: each call marks a test that was not marked.
-- The wait of Target has the number of an attempt after whose end the deadline has passed. Sending
-- a test's steps has their number as fuel: each round goes on by at least one step. Expanding
-- templates has the length of the text as fuel: each round drops at least the two characters of a
-- template's opening. Comparing entity tags has the length of the list and one: each round drops at
-- least two quotes. Printing a number has the number itself and one, and each round divides it by
-- ten.
--
-- What is not modelled: the wording of messages (a failure is a case with the values that it
-- prints); percentages and timings as floats; the encoding and decoding of JSON, YAML and CSV;
-- listeners, TLS and shutdown; the sending of one request; the start and stop of containers and
-- processes; the parsing of flags; the tables of the reports. A context that is cancelled is a flag
-- of the state of Client.Schedule, and in Client.Exercise and Orchestrate a part of what the
-- network or the steps come to. The requests of a step are listed as they are started; what the
-- network makes of one is a parameter. Libraries that a definition calls are its parameters:
-- `Times` for package time, `Patterns` for package regexp on the patterns of a test, `Content` for
-- http.ServeContent, `Url` and its parser for net/url, path.Match, filepath and os.Expand as
-- functions, the decoded script for encoding/json. Of the multiplexer of net/http, the routes of
-- the tests and its redirect to clean paths are modelled, on paths without escapes. Integers are
-- unbounded where the program only counts; the numbers that are read from the wire keep the range
-- of 64 bits.
pub mod Prelude
pub mod Strings
pub mod Strconv
pub mod Maps
pub mod Sorting
pub mod Http
pub mod Regexp
pub mod Protocol
pub mod Proto
pub mod Target
pub mod TestDef
pub mod Results
pub mod Check
pub mod Config
pub mod Corpus
pub mod Cli
pub mod Client
pub mod Report
pub mod Orchestrate
pub mod Origin
pub mod Examples
