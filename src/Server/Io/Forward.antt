-- ===== src/Server/Io/Forward.antt =====
-- src/io.rs: what the user of a stream sees.
use sui_http.Prelude.{ℕ, ◌≡◌, refl, ap, ◌∙◌, Bool, List, [], ◌∷◌, Result, Poll, Bytes}
use sui_http.Server.Io.{
  ServerIo, io, tls_io, AsyncIo, poll_read, poll_write, poll_flush, poll_shutdown,
  poll_write_vectored, is_write_vectored, server_io,
}

pub data Call (Buf : Type 0) : Type 0 where
  read : Buf → Call Buf
  write : Bytes → Call Buf
  flush shutdown : Call Buf
  write_vectored : List Bytes → Call Buf
  vectored : Call Buf

pub data Reply (Buf E : Type 0) : Type 0 where
  did_read : Poll (Result (Unit {0}) E) → Buf → Reply Buf E
  wrote : Poll (Result ℕ E) → Reply Buf E
  did : Poll (Result (Unit {0}) E) → Reply Buf E
  is_vectored : Bool → Reply Buf E

module _ {St Buf E : Type 0} (a : AsyncIo St Buf E) where
  abbrev pub ask : Call Buf → St → Reply Buf E × St
  ask (read buf) s = let (r, buf', s') = a.poll_read s buf in (did_read r buf', s')
  ask (write buf) s = let (r, s') = a.poll_write s buf in (wrote r, s')
  ask flush s = let (r, s') = a.poll_flush s in (did r, s')
  ask shutdown s = let (r, s') = a.poll_shutdown s in (did r, s')
  ask (write_vectored bufs) s = let (r, s') = a.poll_write_vectored s bufs in (wrote r, s')
  ask vectored s = (is_vectored (a.is_write_vectored s), s)

  -- The replies to the calls of one user, and the stream afterwards.
  abbrev pub talk : List (Call Buf) → St → List (Reply Buf E) × St
  talk [] s = ([], s)
  talk (c ∷ cs) s = let (r, s') = ask c s in let (rs, s'') = talk cs s' in (r ∷ rs, s'')

module _ {I S Buf E : Type 0} (plain : AsyncIo I Buf E) (tls : AsyncIo S Buf E) where
  -- The same with the stream inside.
  abbrev pub talk_inside : List (Call Buf) → ServerIo I S → List (Reply Buf E) × ServerIo I S
  talk_inside cs (io stream) = let (rs, s) = talk plain cs stream in (rs, io s)
  talk_inside cs (tls_io stream) = let (rs, s) = talk tls cs stream in (rs, tls_io s)

  ask_io :
      (c : Call Buf) (stream : I)
      → ask (server_io plain tls) c (io stream)
        ≡ ((ask plain c stream).0, io (ask plain c stream).1)
  unfolding poll_read poll_write poll_flush poll_shutdown poll_write_vectored is_write_vectored
  ask_io (read buf) stream = refl
  ask_io _ stream = refl

  ask_tls_io :
      (c : Call Buf) (stream : S)
      → ask (server_io plain tls) c (tls_io stream)
        ≡ ((ask tls c stream).0, tls_io (ask tls c stream).1)
  unfolding poll_read poll_write poll_flush poll_shutdown poll_write_vectored is_write_vectored
  ask_tls_io (read buf) stream = refl
  ask_tls_io _ stream = refl

  -- One call, then the rest.
  abbrev chain : List (Call Buf) → Reply Buf E × ServerIo I S → List (Reply Buf E) × ServerIo I S
  chain cs a = let (rs, s) = talk (server_io plain tls) cs a.1 in (a.0 ∷ rs, s)

  -- To the user of a `ServerIo`, it is the stream inside: any calls get the replies that the
  -- plain or the TLS stream gives, which is left as it is after those calls, and a stream with TLS
  -- stays one.
  pub talk-server_io :
      (cs : List (Call Buf)) (x : ServerIo I S) → talk (server_io plain tls) cs x ≡ talk_inside cs x
  talk-server_io [] (io stream) = refl
  talk-server_io [] (tls_io stream) = refl
  talk-server_io (c ∷ cs) (io stream) =
      ap (chain cs) (ask_io c stream)
      ∙ ap (λ q. ((ask plain c stream).0 ∷ q.0, q.1))
          (talk-server_io cs (io (ask plain c stream).1))
  talk-server_io (c ∷ cs) (tls_io stream) =
      ap (chain cs) (ask_tls_io c stream)
      ∙ ap (λ q. ((ask tls c stream).0 ∷ q.0, q.1))
          (talk-server_io cs (tls_io (ask tls c stream).1))
