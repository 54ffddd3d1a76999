-- ===== src/Leaderboard/Hub/Channels.antt =====
-- How many clients the hub serves, and that it closes each channel once.
use alpha_exchange.Base.{
  ℕ, ◌+◌, ◌≤◌, ◌<◌, ◌≡◌, refl, if◌then◌else◌, true, List, [], ◌∷◌, ◌++◌, length, Option, none, some,
  String, str_eq, eq_iff, arith,
}
use alpha_exchange.Leaderboard.Hub.{
  Client, Hub, try_send, greet, register, is_member, remove, unregister, send_all, broadcast, Event,
  registers, unregisters, broadcasts, handle, count,
}

-- How often an id is served or closed.
unfoldable pub served : String → List Client → ℕ
served id [] = 0
served id (c ∷ cs) = if str_eq c.id id then served id cs + 1 else served id cs

unfoldable pub closings : String → List String → ℕ
closings id [] = 0
closings id (x ∷ xs) = if str_eq x id then closings id xs + 1 else closings id xs

closings-append :
    (id : String) (xs ys : List String) → closings id (xs ++ ys) ≡ closings id xs + closings id ys
unfolding closings
closings-append id [] ys = omega arith
closings-append id (x ∷ xs) ys = ground (arith, closings-append id xs ys)

try_send-id : (msg : String) (c d : Client) → try_send msg c ≡ some d → d.id ≡ c.id
unfolding try_send
try_send-id msg c d e = ground (arith, e)

greet-id : (last : Option String) (c : Client) → (greet last c).id ≡ c.id
unfolding greet try_send
greet-id none c = refl
greet-id (some msg) c = ground arith

send_all-served :
    (id msg : String) (cs : List Client)
    → served id (send_all msg cs).0 + closings id (send_all msg cs).1 ≡ served id cs
unfolding send_all served closings try_send
send_all-served id msg [] = refl
send_all-served id msg (c ∷ cs) = ground (arith, send_all-served id msg cs)

send_all-length : (msg : String) (cs : List Client) → length (send_all msg cs).0 ≤ length cs
unfolding send_all try_send
send_all-length msg [] = omega arith
send_all-length msg (c ∷ cs) = ground (arith, send_all-length msg cs)

remove-length : (id : String) (cs : List Client) → length (remove id cs) ≤ length cs
unfolding remove
remove-length id [] = omega arith
remove-length id (c ∷ cs) = ground (arith, remove-length id cs)

remove-served :
    (id other : String) (cs : List Client)
    → served other (remove id cs) ≡ (if str_eq id other then 0 else served other cs)
unfolding remove served
remove-served id other [] = ground arith
remove-served id other (c ∷ cs) =
    ground (arith, remove-served id other cs, eq_iff c.id id, eq_iff c.id other, eq_iff id other)

is_member-served : (id : String) (cs : List Client) → is_member id cs ≡ true → 0 < served id cs
unfolding is_member served
is_member-served id [] e = ground (arith, e)
is_member-served id (c ∷ cs) e = ground (arith, e, is_member-served id cs)

-- After any event, the hub serves at most as many clients as its limit, if it did so before.
pub handle-count :
    (e : Event) (h : Hub) → count h ≤ h.max_clients → count (handle e h) ≤ (handle e h).max_clients
unfolding handle register unregister broadcast count
handle-count (registers id) h le = ground (arith, le)
handle-count (unregisters id) h le = ground (arith, le, remove-length id h.clients)
handle-count (broadcasts msg) h le = omega (arith, le, send_all-length msg h.clients)

-- Each id is served once, or was closed once, or neither.
pub record IsSound (h : Hub) : Type 0 where
  pub once : (id : String) → served id h.clients + closings id h.closed ≤ 1

-- A client that registers has an id of its own.
unfoldable pub IsFresh : Event → Hub → Type 0
IsFresh (registers id) h = served id h.clients + closings id h.closed ≡ 0
IsFresh (unregisters id) h = Unit
IsFresh (broadcasts msg) h = Unit

register-once :
    (id other : String) (h : Hub)
    → served id h.clients + closings id h.closed ≡ 0
    → served other h.clients + closings other h.closed ≤ 1
    → served other (register id h).clients + closings other (register id h).closed ≤ 1
unfolding register served closings
register-once id other h fresh le =
    ground (arith, fresh, le, greet-id h.last (record { id = id; send = [] }), eq_iff id other)

unregister-once :
    (id other : String) (h : Hub)
    → served other h.clients + closings other h.closed ≤ 1
    → served other (unregister id h).clients + closings other (unregister id h).closed ≤ 1
unfolding unregister served closings
unregister-once id other h le =
    ground
      (arith, le, remove-served id other h.clients, is_member-served id h.clients, eq_iff id other)

broadcast-once :
    (msg other : String) (h : Hub)
    → served other h.clients + closings other h.closed ≤ 1
    → served other (broadcast msg h).clients + closings other (broadcast msg h).closed ≤ 1
unfolding broadcast
broadcast-once msg other h le = omega (
  arith,
  le,
  send_all-served other msg h.clients,
  closings-append other (send_all msg h.clients).1 h.closed,
)

-- Any event, with ids that are new where clients register, keeps the hub sound: no channel is
-- closed twice, and none that is served was closed.
pub handle-IsSound : (e : Event) (h : Hub) → IsFresh e h → IsSound h → IsSound (handle e h)
unfolding handle IsFresh
handle-IsSound (registers id) h fresh k = record {
  once = λ other. register-once id other h fresh (k.once other);
}
handle-IsSound (unregisters id) h fresh k = record {
  once = λ other. unregister-once id other h (k.once other);
}
handle-IsSound (broadcasts msg) h fresh k = record {
  once = λ other. broadcast-once msg other h (k.once other);
}
