-- ===== src/Examples/Socks.antt =====
-- examples/socks4a/socks4a.cpp: one connection of a user, its request, and its tunnel to the server that
-- it asks for. An address is its bytes in the order of the network, and `resolve` is the answer of
-- `InetAddress::resolve`. The callbacks of a tunnel come only while there is one, since its end takes
-- the handler off its connection.
pub mod Requests
pub mod Conserved
pub mod Delivered
mod Tests
use sevent.Base.{
  ℕ, Bool, true, false, not, ◌&&◌, ◌||◌, Option, none, some, List, [], ◌∷◌, ◌++◌, ◌==◌, length, ltb,
  if◌then◌else◌,
}
use sevent.Http.{cut}

-- What `onMessage` makes of the input before there is a tunnel.
pub data Request : Type 0 where
  waits too_long refused : Request
  granted : List ℕ → List ℕ → List ℕ → Request

-- `ver == 4 && cmd == 1 && okay`, with the port, the address if there is one, and what is behind.
abbrev pub decide : Bool → List ℕ → Option (List ℕ) → List ℕ → Request
decide okay port none rest = refused
decide false port (some ip) rest = refused
decide true port (some ip) rest = granted port ip rest

abbrev pub with_host :
    (List ℕ → Option (List ℕ)) → Bool → List ℕ → Option (List ℕ × List ℕ) → Request
with_host resolve okay port none = waits
with_host resolve okay port (some (hostname, rest)) = decide okay port (resolve hostname) rest

-- `netToHost32(addr.sin_addr.s_addr) < 256`
abbrev pub is_socks4a : List ℕ → Bool
is_socks4a (a ∷ b ∷ c ∷ d ∷ []) = (a == 0) && ((b == 0) && (c == 0))
is_socks4a _ = false

abbrev pub with_user :
    (List ℕ → Option (List ℕ)) → Bool → List ℕ → List ℕ → Option (List ℕ × List ℕ) → Request
with_user resolve okay port ip none = waits
with_user resolve okay port ip (some (user, behind)) =
    if is_socks4a ip
    then with_host resolve okay port (cut 0 behind)
    else decide okay port (some ip) behind

abbrev pub parse_fields : (List ℕ → Option (List ℕ)) → List ℕ → Request
parse_fields resolve (ver ∷ cmd ∷ p₁ ∷ p₂ ∷ a ∷ b ∷ c ∷ d ∷ behind) =
    with_user resolve ((ver == 4) && (cmd == 1)) (p₁ ∷ p₂ ∷ []) (a ∷ b ∷ c ∷ d ∷ []) (cut 0 behind)
parse_fields resolve _ = waits

unfoldable pub parse_request : (List ℕ → Option (List ℕ)) → List ℕ → Request
parse_request resolve input =
    if ltb 128 (length input)
    then too_long
    else if ltb 8 (length input)
    then parse_fields resolve input
    else waits

pub data Effect : Type 0 where
  send_user send_server : List ℕ → Effect
  shutdown_user shutdown_server : Effect
  connect_tunnel : List ℕ → List ℕ → Effect

-- `has_client` is the context "client" of the connection of the user, `input` its input buffer.
pub record Relay : Type 0 where
  pub has_tunnel : Bool
  pub has_client : Bool
  pub is_closed : Bool
  pub user_reading : Bool
  pub server_reading : Bool
  pub input : List ℕ

abbrev pub create_relay : Relay
create_relay = record {
  has_tunnel = false;
  has_client = false;
  is_closed = false;
  user_reading = true;
  server_reading = true;
  input = [];
}

-- "\000\x5bUVWXYZ"
abbrev pub refusal : List ℕ
refusal = 0 ∷ 91 ∷ b'U' ∷ b'V' ∷ b'W' ∷ b'X' ∷ b'Y' ∷ b'Z' ∷ []

unfoldable pub on_request : Relay → List ℕ → Request → Relay × List Effect
on_request r input waits = (record r { input = input }, [])
on_request r input too_long = (record r { input = input }, shutdown_user ∷ [])
on_request r input refused = (record r { input = input }, send_user refusal ∷ shutdown_user ∷ [])
on_request r input (granted port ip rest) = (
  record r { has_tunnel = true; input = rest },
  connect_tunnel port ip ∷ send_user (0 ∷ 90 ∷ (port ++ ip)) ∷ [],
)

-- `Socks4aHandler::onMessage`, with all that is in the buffer.
unfoldable pub on_message : (List ℕ → Option (List ℕ)) → Relay → List ℕ → Relay × List Effect
unfolding on_request
on_message resolve r input =
    if not r.has_tunnel
    then on_request r input (parse_request resolve input)
    else if r.has_client
    then (record r { input = [] }, send_server input ∷ [])
    else (record r { input = input }, [])

-- `Tunnel::onConnection`
unfoldable pub on_connection : Relay → Relay × List Effect
on_connection r = (
  record r { has_client = true; user_reading = true; server_reading = true; input = [] },
  if ltb 0 (length r.input) then send_server r.input ∷ [] else [],
)

-- What comes from the user, from the server and from the two connections.
pub data Event : Type 0 where
  user_sends server_sends : List ℕ → Event
  connects server_closes user_closes : Event
  user_written user_high server_written server_high : Event

-- The connection of the server has its handler from `onConnection` to `onClose`, as the context has it.
unfoldable pub handle_event : (List ℕ → Option (List ℕ)) → Relay → Event → Relay × List Effect
unfolding on_message on_connection
handle_event resolve r (user_sends bytes) = on_message resolve r (r.input ++ bytes)
handle_event resolve r connects =
    if r.has_tunnel && not r.has_client then on_connection r else (r, [])
handle_event resolve r (server_sends bytes) = (r, if r.has_client then send_user bytes ∷ [] else [])
handle_event resolve r server_closes =
    if r.has_client then (record r { has_client = false }, shutdown_user ∷ []) else (r, [])
handle_event resolve r user_closes = (
  record r { has_tunnel = false; is_closed = true },
  if r.has_tunnel then shutdown_server ∷ [] else [],
)
handle_event resolve r user_written =
    (record r { server_reading = r.server_reading || r.has_client }, [])
handle_event resolve r user_high =
    (record r { server_reading = r.server_reading && not r.has_client }, [])
handle_event resolve r server_written =
    (record r { user_reading = r.user_reading || r.has_client }, [])
handle_event resolve r server_high =
    (record r { user_reading = r.user_reading && not r.has_client }, [])

-- No callback comes after that of the close.
unfoldable pub step : (List ℕ → Option (List ℕ)) → Relay → Event → Relay × List Effect
unfolding handle_event
step resolve r e = if r.is_closed then (r, []) else handle_event resolve r e

abbrev pub bytes_of : Event → List ℕ
bytes_of (user_sends bytes) = bytes
bytes_of _ = []

abbrev pub to_server : List Effect → List ℕ
to_server [] = []
to_server (send_server bytes ∷ es) = bytes ++ to_server es
to_server (_ ∷ es) = to_server es

-- A relay after its events, with the bytes that came from the user, until the close, and the bytes that
-- were sent to the server.
pub data Run (resolve : List ℕ → Option (List ℕ)) : Relay → List ℕ → List ℕ → Type 0 where
  starts : Run resolve create_relay [] []
  goes :
      {r : Relay} {received sent : List ℕ} (e : Event)
      → Run resolve r received sent
      → Run resolve
          (step resolve r e).0
          (received ++ (if r.is_closed then [] else bytes_of e))
          (sent ++ to_server (step resolve r e).1)
