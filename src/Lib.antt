-- ===== src/Lib.antt =====
-- A transparency log for host and binary attestations, over the Tessera log library. A token is signed
-- by the entry signer, submitted to a log through a REST API, and proved to be in the log by Merkle
-- proofs that anyone can check.
--
-- The parts, the files that model them, and the code that they stand for:
--
--   Base     lists, Boolean tests, bytes and results that the other parts share.
--   Text     what the code uses of Go's strings, base64, hex and strconv packages.
--   Json     what it uses of encoding/json: writing a value, and parsing a text into a value.
--   Schema   internal/schema/token.go. HostToken and BinaryToken are the two structs; marshal,
--            marshal_for_signing and unmarshal are their encodings and decoders. A []byte is an
--            optional list of bytes, since nil and the empty slice differ in JSON.
--   Signer   internal/signer/signer.go. Keys is privFromNoteKey, pubFromNoteKey, decodeBase64Payload
--            and fromNoteStrings; Lines is splitLines; Store is New over an operating system given as
--            a parameter; Tokens is SignHTT, SignBTT, VerifyHTT and VerifyBTT.
--   Log      the libraries behind the program as records of operations: the appender, the reader and
--            the proof builder of Tessera, the checkpoint format, SHA-256 and the proof verifiers.
--            Log/Indexes names what some theorems rely on of a log: it holds the entries in the order
--            of the calls of Add, and Await ends with the index of its entry, where it does not fail.
--   Api      internal/api. Response is what net/http carries; Handlers is handler.go; Server is the
--            routes, the checkpoint endpoint and the cache headers of server.go.
--   Verify   cmd/verify/main.go, as a function from the flags to what is printed and how it ends.
--   Bench    cmd/sprint4/main.go: Throughput is the loop of runThroughput, with Pacing, Leaves and
--            Tokens (makeHTT, makeBTT); Attempts is runLatencyPhase and runLatencyLevel, with their
--            client in Client and the percentiles in Latency; Appending is runCorrectnessPhase, with
--            its checks in Correctness; Reports is the four CSV files; Run is run and main; Summary is passOrFail and commaf.
--   Sprints  what cmd/sprint2, cmd/sprint3 and cmd/sprint4 each hold a copy of: Split is splitLines,
--            splitBy and dirOf; KeyFile is loadOrGenKey in its three forms. FirstLeaf, TwoBatches,
--            ThreeTokens and Endpoints are main of cmd/sprint1, cmd/sprint1b, cmd/sprint2 and
--            cmd/sprint3 behind the set-up of their logs; Endpoints takes HTTP as a parameter, and
--            Endpoints/Served and Endpoints/Refused join it with the server of Api, for the requests
--            that HTTP delivers: each such request is a hypothesis.
--   Tests    concrete inputs, with every parameter filled by a function that runs.
--
-- An error that the code returns is a value of a result type; an early return is its bind. State that
-- an operation changes is passed in and returned. A pointer to a token that a method changes is the
-- token before and after.
--
-- Time is a number of nanoseconds or seconds. What a goroutine, the clock or the random generator gives
-- is an argument: the events of a throughput run are a list in the order in which the program takes
-- them, and the order in which the goroutines of a batch finish is a list too.
--
-- Recursion is structural, but for three functions. The table of leaf hashes grows with the size
-- that is needed as its fuel, which is shown to be enough. The printer of decimal numbers has fuel 20,
-- which is the number of digits of the largest number of 64 bits; the JSON parser has fuel
-- 2 * length + 2, and every printed value is shown to need less. Numbers of 64 bits keep their bounds: the decimal parser
-- computes modulo 2^64 as strconv does and refuses what overflows.
--
-- Not modelled: the network and the process (Start of internal/api/server.go, flag parsing, time
-- limits), the set-up of the logs that the programs under cmd write to, what those programs print
-- (tables, banners, the summary), the size of a directory in cmd/sprint4, the protocol buffer
-- definitions, and the libraries themselves. Of encoding/json the depth limit is left out.
-- Floating-point numbers are a parameter. In cmd/sprint2 the hash of the last checkpoint is
-- taken to have the eight bytes that are printed.
pub mod Base
pub mod Text
pub mod Json
pub mod Schema
pub mod Signer
pub mod Log
pub mod Api
pub mod Verify
pub mod Bench
pub mod Sprints
pub mod Tests
