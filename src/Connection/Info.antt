-- ===== src/Connection/Info.antt =====
-- src/connection_info.rs: what the server keeps of a connection. The token of a connection is a
-- child of the server's, so a connection is asked to shut down by its own flag or the server's.
use sui_http.Prelude.{ℕ, Bool, true, false, ◌||◌, Option}

abbrev pub ConnectionId : Type 0
ConnectionId = ℕ

-- `closed` says that the connection's own token is cancelled.
pub record ConnectionInfo (A Certs : Type 0) : Type 0 where
  pub address : A
  pub time_established : ℕ
  pub peer_certificates : Option Certs
  pub closed : Bool

module _ {A Certs : Type 0} where
  unfoldable pub new : A → ℕ → Option Certs → ConnectionInfo A Certs
  new address now peer_certificates = record {
    address = address;
    time_established = now;
    peer_certificates = peer_certificates;
    closed = false;
  }

  unfoldable pub close : ConnectionInfo A Certs → ConnectionInfo A Certs
  close c = record c { closed = true }

  -- The child token's state, where `cancelled` is the state of the server's token.
  unfoldable pub is_cancelled : Bool → ConnectionInfo A Certs → Bool
  is_cancelled cancelled c = cancelled || c.closed

pub record ConnectInfo (A : Type 0) : Type 0 where
  pub local_addr : A
  pub remote_addr : A
