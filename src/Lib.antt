-- ===== src/Lib.antt =====
-- A model of the Ethereum light client for LCP, with its theorems: the crate light-client of the
-- repository, with its unit tests, the protobuf messages of proto that it reads and writes, and
-- proto-compiler, the tool that generates them.
--
-- The program is one client type of a light client framework. The framework keeps, for each
-- client, an encoded client state and an encoded consensus state for every height, and calls the
-- client with a reader of them. A call decodes the states, checks a header, evidence of
-- misbehaviour or a storage proof against them, and returns new encoded states and a message,
-- which the framework stores and signs; the client itself keeps nothing. So a call is modelled as
-- a function of the reader and the message, and the life of a client as a step relation in which
-- the results of a call are stored.
--
-- The files, and what each models:
--   Base            shared names and helpers. Base/Results has the outcome of a Rust function (a value,
--                   an error or a panic) with `?`, `ok_or`, `unwrap` and `expect`; Base/Panics the
--                   predicate that a function does not panic, with the rules to prove it; Base/Tests
--                   the Boolean tests on numbers.
--   Std             what is used of Rust's standard library: Duration, integer casts (as i64, as i32,
--                   as usize) with their wrap-around, checked conversions, and the decimal Display.
--   External        the crates that are not in the repository, as records of types and operations:
--                   ethereum_consensus, ethereum_light_client_types and _verifier, light_client and
--                   the protobuf types of other crates. Every definition takes them as the instance
--                   argument Crates.
--   Services        the operations of those crates that are generic in the client's own types (the
--                   update verifier, the membership proofs, prost's encode and decode, the framework's
--                   conversions), as the instance argument Services. Services/Messages has the types
--                   of the framework that hold the client's messages and results.
--   Laws            what the theorems assume of these crates, as named fields of two records:
--                   conversions that read what they wrote (IsLawful) and decode after encode (IsCodec).
--                   Laws/Forks says when a message has the fields of fork parameters.
--   Errors          light-client/src/errors.rs.
--   Raw             proto/src/prost/ibc.lightclients.ethereum.v1.rs.
--   Misc            light-client/src/misc.rs. Misc/Bounds is about the range of new_timestamp.
--   ConsensusState  light-client/src/consensus_state.rs: the state, validate and the traits; Codec the
--                   conversions and Codec/RoundTrip their round trips; Checks what validate accepts.
--   ClientState     light-client/src/client_state.rs: the state, validate and build_context; Codec and
--                   Codec/RoundTrip the conversions; Checks what validate accepts; Update the checks
--                   of headers and misbehaviour, with Update/Accepted (when they succeed),
--                   Update/Refused (why they fail) and Update/Order (at another latest height).
--   Header          light-client/src/header.rs; Codec its decoders, Codec/Kinds the type URLs.
--   Misbehaviour    light-client/src/misbehaviour.rs; Codec and Codec/RoundTrip the conversions.
--   StateId         light-client/src/state.rs, gen_state_id; Identity the parts of an identifier and the
--                   states up to what it forgets, Collision what equal identifiers say.
--   Client          light-client/src/client.rs: latest_height and create_client, and read_states, which
--                   is how the four other calls begin. Client/Update has update_client with
--                   update_state, submit_misbehaviour and make_prev_states; Client/Membership has
--                   verify_membership and verify_non_membership. The rest of the folder is named for
--                   what it is about: Read, Create, Processed, Updated, Verified, Refused, Frozen, Panics.
--   Registry        light-client/src/lib.rs, register_implementations, and build_lc_registry of
--                   tests/enclave/src/lib.rs.
--   Chain           a client over time: what the framework stores, the step relation of calls that
--                   returned, reachability, and what holds over any calls (View the abstract client,
--                   Steps what one call leaves, Diamond two updates in either order, Evidence,
--                   Freeze, Links, Created, Latest; Written when states can be written, Sync a relay of headers).
--   ProtoCompiler   proto-compiler/src/main.rs and proto-compiler/src/cmd/compile.rs, as calls on a disk that
--                   print lines and return, panic or exit. Process has such calls, External the crates
--                   std::path, std::fs, walkdir and tonic_build, Laws what is assumed of them, Ends a
--                   run as one expression, ExitStatus its ends, Selected, Configured and Handed what the
--                   generator gets, Rerun what a run leaves alone.
--   UnitTests       the modules tests of light-client/src: a test returns, or panics where an assertion or an
--                   unwrap does. Fixtures and States have the values of the tests, ClientStates,
--                   ConsensusStates, StateIds and Messages the tests of client_state.rs,
--                   consensus_state.rs, state.rs, header.rs and misbehaviour.rs, MockHost the mock host
--                   of client.rs over a store in memory, Calls the tests of the calls over it, Evidence
--                   the tests of misbehaviour of integration_tests and Updates its test of an accepted
--                   header. The modules Pass put the tests of a file together.
--   Tests           small concrete crates, the proof that they keep Laws, a keeper over a store in memory,
--                   and the theorems applied to concrete clients, headers and evidence.
--
-- How the code is read. A Rust struct is a record and an enum a data type, with the source's names
-- in snake case (but the field `data` of Misbehaviour is `evidence`). u64 and u32 values are
-- natural numbers: the client only compares them, copies them and casts them, and every cast that
-- can change a value is written out in Std/Int. `==` on a foreign type is its decision of
-- equality. `TryFrom` and `From` impls are the functions named *_try_from, *_into, *_from_ibc,
-- *_to_ibc, *_from_any and *_to_any. `?` on the client's own errors in a function of the
-- framework's error type is `own`; on an answer of the host it is `from_host`. The two phases of
-- `update_state` and the common beginning of the calls are functions of their own (update_data,
-- read_states); the order of the checks is the source's. The loop of make_prev_states is the
-- recursion `collect` over the list of heights, so no fuel is needed; the only recursion on fuel
-- is in the decimal Display, where the number itself is the fuel, and each step divides by ten.
--
-- Not modelled: the display texts of errors, which no code branches on; the wire format of
-- protobuf and the cryptography, which are other crates' and stand as parameters; the parsing of
-- the arguments of proto-compiler, which argh generates, so that main takes its result, and the
-- files that a generator makes for a while and removes; the test utilities (TestFixture signs
-- updates with the keys of other crates, so the unit tests take what it makes as any values that
-- the checks accept), the test of header timestamps, test_update_client_with_misbehaviour, and the
-- other tests of the module integration_tests of client_state.rs, which are about generated
-- cryptographic data; and the relayer of the end to end tests. That a framework stores results as
-- Chain says is an assumption on the host; concurrent calls on one client are orders of steps.
pub mod Base
pub mod Std
pub mod External
pub mod Errors
pub mod Misc
pub mod Raw
pub mod ConsensusState
pub mod ClientState
pub mod Misbehaviour
pub mod Header
pub mod Services
pub mod StateId
pub mod Client
pub mod Laws
pub mod Registry
pub mod Chain
pub mod ProtoCompiler
pub mod UnitTests
pub mod Tests
