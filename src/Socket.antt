-- ===== src/Socket.antt =====
-- api/src/socket/index.ts: the rooms that clients join and leave, and what a message from Redis is
-- emitted to. Rooms are kept and served as socket.io documents it: a room is a set of sockets, which a socket
-- leaves when it disconnects.
pub mod Rooms
mod Tests
use chronos_job_scheduler.Prelude.{
  ℕ, Bool, true, false, not, ◌&&◌, Option, none, some, List, [], ◌∷◌, ◌++◌, map, ◌==◌,
  if◌then◌else◌, select, exists_where, delete_where,
}

pub data Room : Type 0 where
  queue project : ℕ → Room

abbrev pub same_room : Room → Room → Bool
same_room (queue a) (queue b) = a == b
same_room (project a) (project b) = a == b
same_room _ _ = false

-- The connected sockets, and which socket is in which room.
pub record Sockets : Type 0 where
  pub connected : List ℕ
  pub joined : List (ℕ × Room)

-- The events that the connection handler reacts to. An identifier that is no text or empty is ignored, and so
-- is not an event here.
pub data ClientEvent : Type 0 where
  connection disconnect : ℕ → ClientEvent
  subscribe unsubscribe : ℕ → Room → ClientEvent

abbrev pub is_seat : ℕ → Room → ℕ × Room → Bool
is_seat socket room seat = seat.0 == socket && same_room room seat.1

abbrev pub is_in : ℕ → Room → Sockets → Bool
is_in socket room st = exists_where (is_seat socket room) st.joined

pub on_event : ClientEvent → Sockets → Sockets
on_event (connection socket) st = record st {
  connected = socket ∷ delete_where (λ k. k == socket) st.connected;
}
on_event (disconnect socket) st = record {
  connected = delete_where (λ k. k == socket) st.connected;
  joined = delete_where (λ (seat : ℕ × Room). seat.0 == socket) st.joined;
}
on_event (subscribe socket room) st = record st {
  joined = (socket, room) ∷ delete_where (is_seat socket room) st.joined;
}
on_event (unsubscribe socket room) st = record st {
  joined = delete_where (is_seat socket room) st.joined;
}

pub data Message : Type 0 where
  job_transition : Option ℕ → Option ℕ → Message
  worker_heartbeat : Message

pub data Emission : Type 0 where
  job_update worker_update : Emission

-- `io.to(room).emit(…)`
abbrev pub emit_to : Option Room → Emission → Sockets → List (ℕ × Emission)
emit_to none e st = []
emit_to (some room) e st = map (λ (k : ℕ). (k, e)) (select (λ k. is_in k room st) st.connected)

abbrev pub room_of : (ℕ → Room) → Option ℕ → Option Room
room_of make none = none
room_of make (some id) = some (make id)

-- The message dispatch: what is emitted to which socket.
pub on_message : Message → Sockets → List (ℕ × Emission)
on_message (job_transition queue_id project_id) st =
    emit_to (room_of queue queue_id) job_update st
    ++ emit_to (room_of project project_id) job_update st
on_message worker_heartbeat st = map (λ (k : ℕ). (k, worker_update)) st.connected
