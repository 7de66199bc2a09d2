-- ===== src/X402/Replay.antt =====
-- Settling a second time under an idempotency key (src/x402.rs).
use paratro_sdk_rust.Base.Str.{Str, codes}
use paratro_sdk_rust.Session.{Session}

abbrev pub settle_path : Str
settle_path = codes "/api/v1/x402/settle"
