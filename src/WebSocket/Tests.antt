-- ===== src/WebSocket/Tests.antt =====
-- The connection manager at concrete events.
use fastapi_asyncpg_template.Base.{ℕ, Bool, false, not, List, [], ◌∷◌, ◌≡◌, ◌==◌, refl, keep, arith}
use fastapi_asyncpg_template.WebSocket.Delivery.{on_user_message_lem, Sent}
use fastapi_asyncpg_template.WebSocket.Manager.{
  Manager, connections, Event, joins, leaves, message_to, message_to_all, handle_all,
  on_user_message,
}
use fastapi_asyncpg_template.WebSocket.Overlap.{overlapped, connect_overlapped}
use fastapi_asyncpg_template.WebSocket.Synced.{Synced, handle_all-Synced}

-- A manager when the worker starts.
abbrev fresh : Manager
fresh = record {
  active_connections = [];
  pubsub = false;
  listeners = 0;
  to_broadcast = false;
  to_user = λ u. false;
  received = [];
}

fresh-Synced : Synced fresh
fresh-Synced = record {
  subscribed = λ u. refl;
  occupied = λ u e. (cc e);
  started = λ u e. absurd (cc e);
  listening = λ p. absurd (omega arith);
}

-- The socket 12 is closed.
abbrev sends : ℕ → Bool
sends s = not (s == 12)

abbrev events : List Event
events =
    joins 1 11
    ∷ joins 1 12
    ∷ joins 2 21
    ∷ message_to 1 "a"
    ∷ message_to_all "b"
    ∷ leaves 2 21
    ∷ message_to 2 "c"
    ∷ []

handle_all-Synced_example : Synced (handle_all sends events fresh)
handle_all-Synced_example = handle_all-Synced sends events fresh fresh-Synced

abbrev two : Manager
two = handle_all sends (joins 1 11 ∷ joins 1 12 ∷ joins 2 21 ∷ []) fresh

on_user_message_lem_example :
    (connections (on_user_message sends 1 "a" two) 1 ≡ keep sends (connections two 1))
    × Sent sends 1 "a" (connections two 1) two (on_user_message sends 1 "a" two)
on_user_message_lem_example =
    on_user_message_lem sends 1 "a" two
      (handle_all-Synced sends (joins 1 11 ∷ joins 1 12 ∷ joins 2 21 ∷ []) fresh fresh-Synced)

connect_overlapped_example :
    (connections (overlapped 1 11 12 fresh) 1 ≡ 11 ∷ 12 ∷ [])
    × ((overlapped 1 11 12 fresh).to_user 1 ≡ false)
    × (on_user_message sends 1 "a" (overlapped 1 11 12 fresh) ≡ overlapped 1 11 12 fresh)
connect_overlapped_example = connect_overlapped 1 11 12 fresh refl sends "a" fresh-Synced
