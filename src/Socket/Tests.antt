-- ===== src/Socket/Tests.antt =====
-- api/src/socket/index.ts: tests, and the theorem at two clients.
use chronos_job_scheduler.Prelude.{
  ◌+◌, ◌≡◌, refl, ◌&&◌, some, none, List, [], ◌∷◌, if◌then◌else◌, count_where,
}
use chronos_job_scheduler.Socket.{
  ClientEvent, connection, disconnect, subscribe, queue, project, room_of, job_transition,
  job_update, on_message, on_event,
}
use chronos_job_scheduler.Socket.Rooms.{
  sockets_after, is_online, is_joined, to_socket, on_message-history,
}

-- The latest event comes first.
abbrev history : List ClientEvent
history =
    disconnect 2
    ∷ subscribe 1 (project 3)
    ∷ subscribe 2 (queue 7)
    ∷ subscribe 1 (queue 7)
    ∷ connection 2
    ∷ connection 1
    ∷ []

one_message :
    on_message (job_transition (some 7) none) (sockets_after history) ≡ (1, job_update) ∷ []
unfolding on_message sockets_after on_event
one_message = refl

on_message-history_example :
    count_where
      (to_socket 1)
      (on_message (job_transition (some 7) (some 3)) (sockets_after history))
    ≡ (if is_online 1 history && is_joined 1 (room_of queue (some 7)) history then 1 else 0)
      + (if is_online 1 history && is_joined 1 (room_of project (some 3)) history then 1 else 0)
on_message-history_example = on_message-history 1 (some 7) (some 3) history
