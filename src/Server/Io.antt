-- ===== src/Server/Io.antt =====
-- src/io.rs: the stream of a connection, plain (`I`) or with TLS (`S`).
pub mod Forward
use sui_http.Prelude.{ℕ, Bool, Option, none, List, Result, Poll, Bytes}

pub data ServerIo (I S : Type 0) : Type 0 where
  io : I → ServerIo I S
  tls_io : S → ServerIo I S

-- `peer_certificates` reads the session of the TLS stream.
unfoldable pub peer_certs : {I S Certs : Type 0} → (S → Option Certs) → ServerIo I S → Option Certs
peer_certs peer_certificates (io stream) = none
peer_certs peer_certificates (tls_io stream) = peer_certificates stream

unfoldable pub new_io : {I S : Type 0} → I → ServerIo I S
new_io stream = io stream

unfoldable pub new_tls_io : {I S : Type 0} → S → ServerIo I S
new_tls_io stream = tls_io stream

-- tokio's `AsyncRead` and `AsyncWrite`: a call returns its result, the buffer that it read into,
-- and the stream afterwards.
pub record AsyncIo (St Buf E : Type 0) : Type 0 where
  pub poll_read : St → Buf → Poll (Result (Unit {0}) E) × Buf × St
  pub poll_write : St → Bytes → Poll (Result ℕ E) × St
  pub poll_flush : St → Poll (Result (Unit {0}) E) × St
  pub poll_shutdown : St → Poll (Result (Unit {0}) E) × St
  pub poll_write_vectored : St → List Bytes → Poll (Result ℕ E) × St
  pub is_write_vectored : St → Bool

module _ {I S Buf E : Type 0} (plain : AsyncIo I Buf E) (tls : AsyncIo S Buf E) where
  unfoldable pub poll_read : ServerIo I S → Buf → Poll (Result (Unit {0}) E) × Buf × ServerIo I S
  poll_read (io stream) buf = let (r, buf', s) = plain.poll_read stream buf in (r, buf', io s)
  poll_read (tls_io stream) buf = let (r, buf', s) = tls.poll_read stream buf in (r, buf', tls_io s)

  unfoldable pub poll_write : ServerIo I S → Bytes → Poll (Result ℕ E) × ServerIo I S
  poll_write (io stream) buf = let (r, s) = plain.poll_write stream buf in (r, io s)
  poll_write (tls_io stream) buf = let (r, s) = tls.poll_write stream buf in (r, tls_io s)

  unfoldable pub poll_flush : ServerIo I S → Poll (Result (Unit {0}) E) × ServerIo I S
  poll_flush (io stream) = let (r, s) = plain.poll_flush stream in (r, io s)
  poll_flush (tls_io stream) = let (r, s) = tls.poll_flush stream in (r, tls_io s)

  unfoldable pub poll_shutdown : ServerIo I S → Poll (Result (Unit {0}) E) × ServerIo I S
  poll_shutdown (io stream) = let (r, s) = plain.poll_shutdown stream in (r, io s)
  poll_shutdown (tls_io stream) = let (r, s) = tls.poll_shutdown stream in (r, tls_io s)

  unfoldable pub poll_write_vectored : ServerIo I S → List Bytes → Poll (Result ℕ E) × ServerIo I S
  poll_write_vectored (io stream) bufs =
      let (r, s) = plain.poll_write_vectored stream bufs in (r, io s)
  poll_write_vectored (tls_io stream) bufs =
      let (r, s) = tls.poll_write_vectored stream bufs in (r, tls_io s)

  unfoldable pub is_write_vectored : ServerIo I S → Bool
  is_write_vectored (io stream) = plain.is_write_vectored stream
  is_write_vectored (tls_io stream) = tls.is_write_vectored stream

  -- `impl AsyncRead for ServerIo` and `impl AsyncWrite for ServerIo`.
  abbrev pub server_io : AsyncIo (ServerIo I S) Buf E
  server_io = record {
    poll_read = poll_read;
    poll_write = poll_write;
    poll_flush = poll_flush;
    poll_shutdown = poll_shutdown;
    poll_write_vectored = poll_write_vectored;
    is_write_vectored = is_write_vectored;
  }
