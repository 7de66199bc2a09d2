-- ===== src/Transaction/Replay.antt =====
-- Creating a transaction a second time under its idempotency key (src/transaction.rs).
use paratro_sdk_rust.Base.Str.{Str}
use paratro_sdk_rust.Session.{Session}
