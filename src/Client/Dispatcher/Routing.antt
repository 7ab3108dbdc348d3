-- ===== src/Client/Dispatcher/Routing.antt =====
-- What a session receives from the dispatcher.
use adb_client.Base.{
  ℕ, ◌≡◌, inl, inr, ap, ◌∙◌, sym, arith, Bool, true, false, not, Bool-cases, Option-cases, List, [],
  ◌∷◌, ◌++◌, All, append-nil, append_assoc, Option, none, some, ◌==◌, ==_iff, if◌then◌else◌,
}
use adb_client.Base.NatMap.{lookup, lookup-insert, lookup-remove}
use adb_client.Base.Bytes.{trim_end}
use adb_client.Base.Utf8.{from_utf8_lossy}
use adb_client.Client.Kinds.{MessageCommand, open_stream}
use adb_client.Client.Message.{Message}
use adb_client.Client.Dispatcher.{
  Mailbox, Dispatcher, DispatcherCommand, write, register, unregister, route, routes_wanted,
  shutdown, allocate_local_id, open_with, open_channel, run_command, connect_opened, host_end,
  port_of, accept_open, on_open, deliver, dispatch, packet, idle, failed, receive, Turn, commanded,
  received, take_turn, run_loop,
}
use adb_client.Client.Dispatcher.Ids.{
  IsFree, IsWellFormed, allocate_local_id-IsFree, take_turn-IsWellFormed,
}

-- The turn does not end the session: it is not unregistered, and the loop goes on.
unfoldable pub spares : ℕ → Turn → Bool
spares id (commanded (unregister j)) = not (j == id)
spares id (commanded shutdown) = false
spares id (received failed) = false
spares id _ = true

-- The packet of the turn, if it is addressed to the session.
abbrev addressed_packet : ℕ → MessageCommand → Message → List Message
addressed_packet id open_stream m = []
addressed_packet id _ m = if m.header.arg1 == id then m ∷ [] else []

abbrev addressed_by : ℕ → Turn → List Message
addressed_by id (received (packet m)) = addressed_packet id m.header.command m
addressed_by id _ = []

-- The packets of the turns that are addressed to the session, in order.
unfoldable pub addressed : ℕ → List Turn → List Message
addressed id [] = []
addressed id (t ∷ ts) = addressed_by id t ++ addressed id ts

-- The session is registered, its channel holds `box`, and the loop is running.
record Holds (id : ℕ) (box : Mailbox) (d : Dispatcher) : Type 0 where
  pub held : lookup id d.sessions ≡ some box
  pub on : d.running ≡ true

open_with-Holds :
    (id : ℕ) (box : Mailbox) (d : Dispatcher) (x : ℕ × Option ℕ)
    → Holds id box d
    → IsFree d.sessions x.1
    → Holds id box (open_with d x).0
open_with-Holds id box d (next, none) h free = record { held = h.held; on = h.on }
open_with-Holds id box d (next, some new) h (_, _, free) = record {
  held = ground (arith, lookup-insert new id [] d.sessions, h.held, free);
  on = h.on;
}

open_channel-Holds :
    (id : ℕ) (box : Mailbox) (d : Dispatcher)
    → IsWellFormed d
    → Holds id box d
    → Holds id box (open_channel d).0
unfolding open_channel
open_channel-Holds id box d v h =
    open_with-Holds id box d (allocate_local_id d.sessions d.next_local_id) h
      (allocate_local_id-IsFree d.sessions d.next_local_id v.next_positive v.next_small).0

connect_opened-Holds :
    (id : ℕ) (box : Mailbox) (port remote_id : ℕ) (x : Dispatcher × Option ℕ)
    → Holds id box x.0
    → Holds id box (connect_opened port remote_id x)
connect_opened-Holds id box port remote_id (d, none) h = h
connect_opened-Holds id box port remote_id (d, some new) h = record { held = h.held; on = h.on }

accept_open-Holds :
    (id : ℕ) (box : Mailbox) (d : Dispatcher) (port : Option ℕ) (remote_id : ℕ)
    → IsWellFormed d
    → Holds id box d
    → Holds id box (accept_open d port remote_id)
unfolding accept_open
accept_open-Holds id box d none remote_id v h = h
accept_open-Holds id box d (some port) remote_id v h =
    connect_opened-Holds id box port remote_id (open_channel d) (open_channel-Holds id box d v h)

on_open-Holds :
    (id : ℕ) (box : Mailbox) (d : Dispatcher) (m : Message)
    → IsWellFormed d
    → Holds id box d
    → Holds id box (on_open d m)
unfolding on_open
on_open-Holds id box d m v h =
    elim (Option-cases (host_end d.routes (trim_end 0 (from_utf8_lossy m.payload)))) [
      | inl e ↦ rw (e, on_open) (record { held = h.held; on = h.on })
      | inr (local_end, e) ↦
          rw (e, on_open) (accept_open-Holds id box d (port_of local_end) m.header.arg0 v h)
    ]

deliver-Holds :
    (id : ℕ) (box : Mailbox) (d : Dispatcher) (m : Message)
    → Holds id box d
    → Holds id (box ++ (if m.header.arg1 == id then m ∷ [] else [])) (deliver d m)
unfolding deliver
deliver-Holds id box d m h = elim (Bool-cases (m.header.arg1 == id)) [
  | inl hit ↦
      let same : m.header.arg1 ≡ id = (==_iff m.header.arg1 id).0 hit in
      let found : lookup m.header.arg1 d.sessions ≡ some box =
        ap (λ i. lookup i d.sessions) same ∙ h.held in
      rw (hit, found, deliver)
        (record {
          held = ground (arith, lookup-insert m.header.arg1 id (box ++ m ∷ []) d.sessions);
          on = h.on;
        })
  | inr miss ↦ rw miss (elim (Option-cases (lookup m.header.arg1 d.sessions)) [
    | inl e ↦ rw (e, deliver, append-nil box) h
    | inr (other, e) ↦
        rw (e, deliver, append-nil box)
          (record {
            held =
                ground (arith, lookup-insert m.header.arg1 id (other ++ m ∷ []) d.sessions, h.held);
            on = h.on;
          })
  ])
]

dispatch-Holds :
    (id : ℕ) (box : Mailbox) (d : Dispatcher) (c : MessageCommand) (m : Message)
    → IsWellFormed d
    → Holds id box d
    → Holds id (box ++ addressed_packet id c m) (dispatch d c m)
unfolding dispatch
dispatch-Holds id box d open_stream m v h = rw (append-nil box) (on_open-Holds id box d m v h)
dispatch-Holds id box d _ m v h = deliver-Holds id box d m h

run_command-Holds :
    (id : ℕ) (box : Mailbox) (d : Dispatcher) (c : DispatcherCommand)
    → IsWellFormed d
    → spares id (commanded c) ≡ true
    → Holds id box d
    → Holds id box (run_command d c).0
unfolding run_command spares
run_command-Holds id box d (write m ended) v spared h = record { held = h.held; on = h.on }
run_command-Holds id box d register v spared h = open_channel-Holds id box d v h
run_command-Holds id box d (unregister j) v spared h = record {
  held = ground (arith, lookup-remove j id d.sessions, h.held);
  on = h.on;
}
run_command-Holds id box d (route remote (some local_end)) v spared h = record {
  held = h.held;
  on = h.on;
}
run_command-Holds id box d (route remote none) v spared h = record { held = h.held; on = h.on }
run_command-Holds id box d routes_wanted v spared h = h
run_command-Holds id box d shutdown v spared h = absurd (ground arith)

take_turn-Holds :
    (id : ℕ) (box : Mailbox) (d : Dispatcher) (t : Turn)
    → IsWellFormed d
    → spares id t ≡ true
    → Holds id box d
    → Holds id (box ++ addressed_by id t) (take_turn d t)
unfolding take_turn receive spares
take_turn-Holds id box d (commanded c) v spared h =
    rw (append-nil box) (run_command-Holds id box d c v spared h)
take_turn-Holds id box d (received (packet m)) v spared h =
    dispatch-Holds id box d m.header.command m v h
take_turn-Holds id box d (received idle) v spared h = rw (append-nil box) h
take_turn-Holds id box d (received failed) v spared h = absurd (ground arith)

run_loop-Holds :
    (id : ℕ) (box : Mailbox) (d : Dispatcher) (ts : List Turn)
    → IsWellFormed d
    → All (λ t. spares id t ≡ true) ts
    → Holds id box d
    → Holds id (box ++ addressed id ts) (run_loop d ts)
unfolding run_loop addressed
run_loop-Holds id box d [] v spared h = rw (append-nil box) h
run_loop-Holds id box d (t ∷ ts) v (now, later) h =
    rw (h.on, run_loop, sym (append_assoc box (addressed_by id t) (addressed id ts)))
      (run_loop-Holds id (box ++ addressed_by id t) (take_turn d t) ts
        (take_turn-IsWellFormed d t v) later (take_turn-Holds id box d t v now h))

-- From a state with ids in range, while the loop runs and a session stays registered, and the loop is neither shut down nor stopped by an error, the
-- channel of the session receives exactly the packets other than OPEN that name it, in the order in
-- which they were read, whatever else is commanded and received for other sessions.
pub run_loop-addressed :
    (id : ℕ) (box : Mailbox) (d : Dispatcher) (ts : List Turn)
    → IsWellFormed d
    → d.running ≡ true
    → lookup id d.sessions ≡ some box
    → All (λ t. spares id t ≡ true) ts
    → lookup id (run_loop d ts).sessions ≡ some (box ++ addressed id ts)
run_loop-addressed id box d ts v on held spared =
    (run_loop-Holds id box d ts v spared (record { held = held; on = on })).held
