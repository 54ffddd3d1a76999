-- ===== src/Leaderboard/Hub.antt =====
-- services/leaderboard-api/hub/websocket_hub.go: the event loop `Run`, one case of its select a
-- step. A client is named by its `id`, which newClient draws anew for each connection. Of a
-- client's channel is kept what is queued and whether it is closed; a client that reads is a step
-- of its own. The visit of the clients in a map's order is in the order of the list.
pub mod Channels
use alpha_exchange.Base.{
  ℕ, ◌+◌, ltb, leb, if◌then◌else◌, Bool, true, false, List, [], ◌∷◌, ◌++◌, length, Option, none,
  some, String, str_eq, has, delete, assign,
}

-- The capacity of `send`.
abbrev pub send_capacity : ℕ
send_capacity = 256

pub record Client : Type 0 where
  pub id : String
  pub send : List String

-- `closed` lists the ids whose channel was closed, once for each call of `close`.
pub record Hub : Type 0 where
  pub clients : List Client
  pub closed : List String
  pub max_clients : ℕ
  pub last : Option String

unfoldable pub new_hub : ℕ → Hub
new_hub max_clients = record { clients = []; closed = []; max_clients = max_clients; last = none }

-- The send in a select with a default.
unfoldable pub try_send : String → Client → Option Client
try_send msg c =
    if ltb (length c.send) send_capacity
    then some (record c { send = c.send ++ (msg ∷ []) })
    else none

-- The first message, where there is one and room for it.
unfoldable pub greet : Option String → Client → Client
unfolding try_send
greet none c = c
greet (some msg) c = elim (try_send msg c) [ some sent ↦ sent | none ↦ c ]

unfoldable pub register : String → Hub → Hub
unfolding greet
register id h =
    if leb h.max_clients (length h.clients)
    then record h { closed = id ∷ h.closed }
    else record h { clients = greet h.last (record { id = id; send = [] }) ∷ h.clients }

unfoldable pub is_member : String → List Client → Bool
is_member id [] = false
is_member id (c ∷ cs) = if str_eq c.id id then true else is_member id cs

unfoldable pub remove : String → List Client → List Client
remove id [] = []
remove id (c ∷ cs) = let rest = remove id cs in if str_eq c.id id then rest else c ∷ rest

unfoldable pub unregister : String → Hub → Hub
unfolding is_member remove
unregister id h =
    if is_member id h.clients
    then record h { clients = remove id h.clients; closed = id ∷ h.closed }
    else h

-- The loop over the clients: those kept, with the message, and the ids of those dropped.
unfoldable pub send_all : String → List Client → List Client × List String
unfolding try_send
send_all msg [] = ([], [])
send_all msg (c ∷ cs) =
    let (kept, dropped) = send_all msg cs in
    elim (try_send msg c) [ some sent ↦ (sent ∷ kept, dropped) | none ↦ (kept, c.id ∷ dropped) ]

unfoldable pub broadcast : String → Hub → Hub
unfolding send_all
broadcast msg h =
    let (kept, dropped) = send_all msg h.clients in
    record h { clients = kept; closed = dropped ++ h.closed; last = some msg }

-- The method `Count`.
unfoldable pub count : Hub → ℕ
count h = length h.clients

-- What the select of `Run` receives.
pub data Event : Type 0 where
  registers unregisters broadcasts : String → Event

unfoldable pub handle : Event → Hub → Hub
unfolding register unregister broadcast
handle (registers id) h = register id h
handle (unregisters id) h = unregister id h
handle (broadcasts msg) h = broadcast msg h
