-- ===== src/Socket/Rooms.antt =====
-- api/src/socket/index.ts: who receives a message, by what the clients did before.
use chronos_job_scheduler.Prelude.{
  both, exists-delete_where, exists-delete_others, ℕ, ◌+◌, ◌≡◌, refl, ap, sym, ◌∙◌, Bool, true,
  false, ◌&&◌, Bool-cases, Option, none, some, List, [], ◌∷◌, ◌++◌, map, ◌==◌, ==→eq, ==_self,
  if◌then◌else◌, arith, select, count_where, exists_where, delete_where, inl, inr,
}
use chronos_job_scheduler.Socket.{
  Room, queue, project, same_room, Sockets, ClientEvent, connection, disconnect, subscribe,
  unsubscribe, is_seat, is_in, on_event, job_transition, Emission, job_update, emit_to, room_of,
  on_message,
}

-- The sockets after some events, the latest of which comes first.
unfoldable pub sockets_after : List ClientEvent → Sockets
unfolding on_event
sockets_after [] = record { connected = []; joined = [] }
sockets_after (e ∷ earlier) = on_event e (sockets_after earlier)

-- The latest of a socket's connections and disconnections is a connection.
pub is_online : ℕ → List ClientEvent → Bool
is_online k [] = false
is_online k (e ∷ earlier) =
    let before = is_online k earlier in
    elim e [
      | connection s ↦ if k == s then true else before
      | disconnect s ↦ if k == s then false else before
      | subscribe s room ↦ before
      | unsubscribe s room ↦ before
    ]

-- Since the socket's latest subscription to the room it has neither left it nor disconnected.
pub has_joined : ℕ → Room → List ClientEvent → Bool
has_joined k r [] = false
has_joined k r (e ∷ earlier) =
    let before = has_joined k r earlier in
    elim e [
      | connection s ↦ before
      | disconnect s ↦ if k == s then false else before
      | subscribe s room ↦ if k == s && same_room r room then true else before
      | unsubscribe s room ↦ if k == s && same_room r room then false else before
    ]

same_room-eq : (a b : Room) → same_room a b ≡ true → a ≡ b
same_room-eq (queue a) (queue b) h = ap queue (==→eq a b h)
same_room-eq (project a) (project b) h = ap project (==→eq a b h)
same_room-eq (queue a) (project b) h = cc
same_room-eq (project a) (queue b) h = cc

same_room_self : (r : Room) → same_room r r ≡ true
same_room_self (queue a) = ==_self a
same_room_self (project a) = ==_self a

count-delete :
    (k s : ℕ) (xs : List ℕ)
    → count_where (λ x. x == k) (delete_where (λ x. x == s) xs)
      ≡ (if k == s then 0 else count_where (λ x. x == k) xs)
count-delete k s [] = ground arith
count-delete k s (x ∷ xs) = ground (arith, count-delete k s xs)

seat-disconnect :
    (k s : ℕ) (r : Room) (seats : List (ℕ × Room))
    → exists_where (is_seat k r) (delete_where (λ (seat : ℕ × Room). seat.0 == s) seats)
      ≡ (if k == s then false else exists_where (is_seat k r) seats)
seat-disconnect k s r [] = ground arith
seat-disconnect k s r ((x, room) ∷ seats) =
    ground (arith, seat-disconnect k s r seats, Bool-cases (same_room r room))

-- A seat belongs to one socket and one room.
seat-apart :
    (k s : ℕ) (r room : Room)
    → (k == s && same_room r room) ≡ false
    → (seat : ℕ × Room) → is_seat k r seat ≡ true
    → is_seat s room seat ≡ false
seat-apart k s r room other (x, d) mine = elim (Bool-cases (is_seat s room (x, d))) [
  | inr e ↦ e
  | inl theirs ↦
      let (own, door) = both (x == k) (same_room r d) mine in
      let (own', door') = both (x == s) (same_room room d) theirs in
      let sockets : s ≡ k = sym (==→eq x s own') ∙ ==→eq x k own in
      let rooms : room ≡ r = same_room-eq room d door' ∙ sym (same_room-eq r d door) in
      let met : true ≡ false = rw (sockets, rooms, ==_self k, same_room_self r) at other in cc
]

seat-leave :
    (k s : ℕ) (r room : Room) (seats : List (ℕ × Room))
    → exists_where (is_seat k r) (delete_where (is_seat s room) seats)
      ≡ (if k == s && same_room r room then false else exists_where (is_seat k r) seats)
seat-leave k s r room seats = elim (Bool-cases (k == s && same_room r room)) [
  | inl here ↦
      let (same, door) = both (k == s) (same_room r room) here in
      rw (here, ==→eq k s same, same_room-eq r room door)
        (exists-delete_where (is_seat s room) seats)
  | inr other ↦
      rw other
        (exists-delete_others (is_seat k r) (is_seat s room) seats (seat-apart k s r room other))
]

count-connected :
    (k : ℕ) (history : List ClientEvent)
    → count_where (λ x. x == k) (sockets_after history).connected
      ≡ (if is_online k history then 1 else 0)
unfolding sockets_after is_online on_event
count-connected k [] = refl
count-connected k (connection s ∷ earlier) =
    ground (arith, count-delete k s (sockets_after earlier).connected, count-connected k earlier)
count-connected k (disconnect s ∷ earlier) =
    count-delete k s (sockets_after earlier).connected ∙ ground (arith, count-connected k earlier)
count-connected k (subscribe s room ∷ earlier) = count-connected k earlier
count-connected k (unsubscribe s room ∷ earlier) = count-connected k earlier

is_in-has_joined :
    (k : ℕ) (r : Room) (history : List ClientEvent)
    → is_in k r (sockets_after history) ≡ has_joined k r history
unfolding sockets_after has_joined on_event
is_in-has_joined k r [] = refl
is_in-has_joined k r (connection s ∷ earlier) = is_in-has_joined k r earlier
is_in-has_joined k r (disconnect s ∷ earlier) =
    seat-disconnect k s r (sockets_after earlier).joined
    ∙ ap (λ b. if k == s then false else b) (is_in-has_joined k r earlier)
is_in-has_joined k r (subscribe s room ∷ earlier) = elim (Bool-cases (k == s && same_room r room)) [
  | inl here ↦
      let (same, door) = both (k == s) (same_room r room) here in
      rw (here, ==→eq k s same, ==_self s, door) refl
  | inr other ↦
      let apart : is_seat k r (s, room) ≡ false =
        ground (arith, other, Bool-cases (same_room r room)) in
      rw (apart, other)
        (seat-leave k s r room (sockets_after earlier).joined
          ∙ rw other (is_in-has_joined k r earlier))
]
is_in-has_joined k r (unsubscribe s room ∷ earlier) =
    seat-leave k s r room (sockets_after earlier).joined
    ∙ ap (λ b. if k == s && same_room r room then false else b) (is_in-has_joined k r earlier)

abbrev pub to_socket : ℕ → ℕ × Emission → Bool
to_socket k d = d.0 == k

count-emit :
    (k : ℕ) (r : Room) (e : Emission) (st : Sockets) (xs : List ℕ)
    → count_where (to_socket k) (map (λ (x : ℕ). (x, e)) (select (λ x. is_in x r st) xs))
      ≡ (if is_in k r st then count_where (λ x. x == k) xs else 0)
count-emit k r e st [] = ground (arith, Bool-cases (is_in k r st))
count-emit k r e st (x ∷ xs) =
    let rest = count-emit k r e st xs in
    elim (Bool-cases (x == k)) [
      | inl same ↦ rw (==→eq x k same) (ground (arith, rest, Bool-cases (is_in k r st)))
      | inr other ↦
          ground (arith, rest, other, Bool-cases (is_in k r st), Bool-cases (is_in x r st))
    ]

count-append :
    (k : ℕ) (xs ys : List (ℕ × Emission))
    → count_where (to_socket k) (xs ++ ys)
      ≡ count_where (to_socket k) xs + count_where (to_socket k) ys
count-append k [] ys = omega arith
count-append k (x ∷ xs) ys = omega (arith, count-append k xs ys)

-- The room, if the message names one.
abbrev pub is_joined : ℕ → Option Room → List ClientEvent → Bool
is_joined k none history = false
is_joined k (some r) history = has_joined k r history

emissions_to :
    (k : ℕ) (room : Option Room) (e : Emission) (history : List ClientEvent)
    → count_where (to_socket k) (emit_to room e (sockets_after history))
      ≡ (if is_online k history && is_joined k room history then 1 else 0)
emissions_to k none e history = ground (arith, Bool-cases (is_online k history))
emissions_to k (some r) e history =
    count-emit k r e (sockets_after history) (sockets_after history).connected
    ∙ ground (
      arith,
      is_in-has_joined k r history,
      count-connected k history,
      Bool-cases (is_online k history),
      Bool-cases (has_joined k r history),
    )

-- Whatever the clients did before: a job's message reaches a client once for the room of the job's queue, if
-- the message names the queue, the client is online and it has joined the room; and once more for the room of
-- the project, on the same conditions.
pub on_message-history :
    (k : ℕ) (queue_id project_id : Option ℕ) (history : List ClientEvent)
    → count_where
        (to_socket k)
        (on_message (job_transition queue_id project_id) (sockets_after history))
      ≡ (if is_online k history && is_joined k (room_of queue queue_id) history then 1 else 0)
        + (if is_online k history && is_joined k (room_of project project_id) history then 1 else 0)
unfolding on_message
on_message-history k queue_id project_id history =
    count-append k (emit_to (room_of queue queue_id) job_update (sockets_after history)) _
    ∙ omega (
      arith,
      emissions_to k (room_of queue queue_id) job_update history,
      emissions_to k (room_of project project_id) job_update history,
    )
