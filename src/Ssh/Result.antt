-- ===== src/Ssh/Result.antt =====
-- Errors of the package ssh (v2/simulator/ssh/packet.go, v2/simulator/ssh/client.go) as values. Go's
-- pair of a value and an error is `ok` or `err`; a run-time panic is `panic`.
use flightsim.Prelude.{ℕ}
use flightsim.Prelude.Bytes.{Bytes}
use flightsim.Ssh.Fxp.Parser.{FxpError}

-- Errors of an `io.Reader` or `io.Writer`; `io_failure` is any error but the two of package io.
pub data IoError : Type 0 where
  eof unexpected_eof : IoError
  io_failure : ℕ → IoError

-- The text in front of a wrapped error, by the words that it begins with.
pub data Context : Type 0 where
  failed_reading_response failed_parsing_version failed_parsing_open failed_parsing_status : Context
  failed_init failed_open failed_write failed_close failed_transfer : Context

-- `fmt.Errorf` with a `%w` is `wrapped`; `server_message` carries the text of a Status;
-- `version_mismatch` is the error of `newClient` (v2/simulator/ssh-transfer.go).
pub data Error : Type 0 where
  io : IoError → Error
  parse : FxpError → Error
  wrapped : Context → Error → Error
  server_message : Bytes → Error
  version_mismatch : ℕ → Error
  unexpected_response_type unsupported_response_type invalid_response : Error

pub data Result {ℓ} (A : Type ℓ) : Type ℓ where
  ok : A → Result A
  err : Error → Result A
  panic : Result A
