-- ===== src/Lib.antt =====
-- The verification library of the Paratro SDK for Rust: a client of a wallet gateway. The program
-- authenticates against the gateway, sends requests as JSON over HTTP, repeats a request once if its
-- token has expired, classifies the errors that the gateway answers, and signs and checks the payloads
-- of webhooks.
--
-- The parts and their files:
--   src/error.rs        Error (the error type, `kind`, `reason_tag` and the predicates), Error/Code,
--                       Error/Checks (the free functions), Error/Wire (the JSON of an error body),
--                       Error/Display (its texts)
--   src/reason_tag.rs   ReasonTag (the lists, `is_known`), ReasonTag/Tags (the constants)
--   src/config.rs       Config (`Config`, `normalize_base_url`)
--   src/webhook.rs      Webhook (signing and `verify_payload`), Webhook/Display (the texts of its errors),
--                       Webhook/Event (the event it delivers), Webhook/Event/Wire (its JSON)
--   src/token.rs        Token (`TokenManager`), Token/Wire (the reply of the token endpoint)
--   src/client.rs       Client (`MpcClient`: `new`, `post_..`, `get_..`, `send`, `execute`, `decode`)
--   src/transaction.rs  Transaction (requests and replies), Transaction/Builders, Transaction/Wire and
--                       Transaction/Reply (their JSON), Transaction/Endpoints
--   src/transfer.rs     Transfer
--   src/wallet.rs, src/account.rs, src/asset.rs, src/x402.rs
--                       Wallet, Account, Asset, X402: the endpoints; the child Wire of each: the records
--                       and their JSON
--
-- Api has all public operations of a client as one type, `Call`, and runs one by `perform`; Api/Route is
-- the interface of the gateway as it is documented, a table of paths, filters, bodies and keys which does
-- not mention how the client builds a request, but for the bodies, which are those that the encoders of
-- their types make. Client/Replay has the record `Replays`, what the gateway is documented to do with an
-- idempotency key.
--
-- Base holds what stands for the language and its standard library: text as lists of code points with
-- its UTF-8 bytes, `i64` with its wrap, decimal text, durations and results. Json holds JSON documents
-- and what serde derives for a struct: keys, `rename`, `default`, `skip_serializing_if`, `tag`; a key
-- that occurs twice is refused, an unknown one ignored. Query holds the query parameters.
--
-- Session holds what comes from outside, as one record `Env` that the definitions take: the HTTP client
-- of the crate reqwest (`build`, `exchange`), the JSON text of the crate serde_json (`parse`, `print`,
-- `mismatch`) and the clock. The state of a client is a `Session`: the token that the lock of
-- `TokenManager` guards, the world that the answers depend on, and the list of the requests that were
-- sent, which no operation reads. An `async fn` is an `Action`, a function from a session to a result
-- and a session; `?` is the bind of its `do` blocks. In one call that runs alone a renewal is one
-- step. Client/Tasks cuts a call at its points of waiting, with the guards of the `RwLock` that it holds
-- and waits for there, and Client/Tasks/Schedule interleaves calls, which may be dropped there, under
-- that lock; in which order the lock serves those that wait is left open. Session/World says which worlds
-- exchanges lead to. An `f64` is its bit pattern; Json/Texts says what becomes of one that is written as
-- text and read again. Webhook takes HMAC-SHA256 and the hexadecimal text as a record `Crypto`, of which
-- it uses only that the text is of characters.
--
-- Session/Scripted, Client/Scripted and Client/Replaying are small gateways and clients for the runs of
-- the tests. The module UnitTests of a part has the unit tests that stand in its file of the source,
-- each as the conjunction of its assertions. Contract is the fake gateway of tests/common/mod.rs with
-- its client, Contract/Auth and Contract/Transactions are tests of tests/http_contract.rs against it;
-- a body is the compact text that serde_json prints, for strings without escapes.
--
-- Nothing runs on fuel but the digits of a number and the highest bit of one, whose fuel bounds both.
-- Not modelled: the positional form in which serde reads a struct from an array; the text of the errors
-- of serde and reqwest; a system clock before 1970 and instants out of range, where the program panics;
-- overflow checks of `i64` (the model wraps, as a build without them does); src/lib.rs, which has the
-- re-exports and `VERSION`, which the build takes from the manifest of the package.
mod Base
pub mod Json
pub mod Error
pub mod ReasonTag
pub mod Config
pub mod Webhook
pub mod Session
pub mod Token
pub mod Client
pub mod Query
pub mod Transaction
pub mod Transfer
pub mod Wallet
pub mod Account
pub mod Asset
pub mod X402
pub mod Api
pub mod Contract
