-- ===== src/Session.antt =====
-- A session on the control connection: command_connect of tsunami-udp/client/command.c, the negotiations
-- of client_handler in tsunami-udp/server/main.c, and ttp_open_port in tsunami-udp/client/protocol.c and
-- tsunami-udp/server/protocol.c. Sockets are parameters.
pub mod Handshake
pub mod Serve
pub mod Names
pub mod Whole
mod Tests
use tsunami_udp.Prelude.{
  ℕ, zero, suc, ◌*◌, ◌%◌, ◌^◌, Bool, true, false, List, [], ◌∷◌, ◌++◌, Option, none, some, ◌==◌,
  if◌then◌else◌, length,
}
use tsunami_udp.Decimal.{atol}
use tsunami_udp.Wire.{to_bytes, Host}
use tsunami_udp.Wire.Connection.{
  Line, Action, Outcome, exits, ends, pure, check, or_fail, fatal, or_else, ◌>>=◌, ◌>>◌, send,
  full_read,
}
use tsunami_udp.Authentication.{client_authenticate, server_authenticate}
use tsunami_udp.Negotiation.{Shared, Serving, client_negotiate, server_negotiate, server_open}
use tsunami_udp.Console.Settings.{Parameters}

-- DEFAULT_SECRET, `kitten`, of the client and of the server
abbrev pub default_secret : List ℕ
default_secret = b'k' ∷ b'i' ∷ b't' ∷ b't' ∷ b'e' ∷ b'n' ∷ []

-- The host and the port that the words of the command name.
unfoldable pub with_server : List (List ℕ) → Parameters → Parameters
with_server (command ∷ name ∷ port ∷ rest) p = record p {
  server_name = name;
  server_port = atol 16 port;
}
with_server (command ∷ name ∷ []) p = record p { server_name = name }
with_server (command ∷ []) p = p
with_server [] p = p

abbrev pub secret_of : Option (List ℕ) → List ℕ
secret_of none = default_secret
secret_of (some passphrase) = passphrase

module _ (md5_digest : List ℕ → List ℕ) (revision : ℕ) where
  -- The session of `command_connect` once there is a stream.
  unfoldable pub client_connect : List ℕ → Action (Unit {0})
  client_connect secret = do client_negotiate revision; client_authenticate md5_digest secret

  -- `command_connect`: `reach` is the stream that create_tcp_socket and fdopen give for a host and a port.
  -- It gives the parameters as they are then, and what happens on the stream, if there is one.
  unfoldable pub command_connect :
      (List ℕ → ℕ → Option Line)
      → List (List ℕ)
      → Parameters
      → Parameters × Option (Outcome (Unit {0}))
  unfolding client_connect with_server
  command_connect reach words p =
      let q = with_server words p in
      elim (reach q.server_name q.server_port) [
        | none ↦ (q, none)
        | some stream ↦ (q, some (client_connect (secret_of q.passphrase) stream))
      ]

  -- `client_handler` to its loop: a failure ends the process.
  unfoldable pub admit : Option (List ℕ) → List ℕ → Action (Unit {0})
  admit random_data secret = do
    fatal (server_negotiate revision)
    fatal (server_authenticate md5_digest random_data secret)

-- `ttp_open_port` of the client, with the port of the socket that create_udp_socket gives.
unfoldable pub client_open_port : Option ℕ → Action (Unit {0})
client_open_port udp_port = do port ← or_fail udp_port; send (to_bytes 2 port)

-- What the network gives the server: whether the address of the receiver is known, which only getaddrinfo
-- of a receiver of the --client option can fail at, and whether a socket can be created.
pub record UdpNetwork : Type 0 where
  pub address_known : Bool
  pub socket_created : Bool

-- `ttp_open_port` of the server, with the port that it sends to.
unfoldable pub server_open_port : UdpNetwork → Action ℕ
server_open_port network = do
  if network.address_known then pure tt else ends exits
  port ← full_read 2
  check network.socket_created
  pure port

-- The negotiations in a round of the loop of `client_handler`.
unfoldable pub negotiate_transfer :
    Host → ℕ → Shared → UdpNetwork → ℕ → Action (Option (Serving × ℕ))
unfolding server_open_port
negotiate_transfer host file_name_size shared network now = do
  serving ← server_open host now file_name_size shared
  port ← server_open_port network
  pure (some (serving, port))

-- The loop of `client_handler` up to the first transfer, for as many rounds as there are times, the clock
-- of each round: a negotiation that fails is followed by the next round.
unfoldable pub handle_requests :
    Host → ℕ → Shared → UdpNetwork → List ℕ → Action (Option (Serving × ℕ))
unfolding negotiate_transfer
handle_requests host file_name_size shared network [] = pure none
handle_requests host file_name_size shared network (now ∷ times) =
    or_else (negotiate_transfer host file_name_size shared network now)
      (handle_requests host file_name_size shared network times)
