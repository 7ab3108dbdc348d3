-- ===== src/Client/ReverseRelay/Opened.antt =====
-- A reverse relay writes only on streams that it has opened.
use adb_client.Base.{
  ℕ, ◌≡◌, refl, arith, inl, inr, Bool, true, false, ◌&&◌, ◌||◌, not, List, [], ◌∷◌, ◌++◌, All, ◌==◌,
  ==_refl, Bool-cases, Option-cases, if_either, length, ltb, ◌^◌,
}
use adb_client.Base.Outcome.{Result, ok, err, Result-cases}
use adb_client.Base.Bytes.{Bytes, bytes_eq, trim_end}
use adb_client.Base.Utf8.{from_utf8_lossy}
use adb_client.Base.NatMap.{lookup, insert, remove, Every, Every-insert, Every-remove}
use adb_client.Client.Kinds.{
  MessageCommand, cnxn, clse, auth, open_stream, write, okay, stls, RustAdbError,
}
use adb_client.Client.Message.{Message, try_new, try_new_header, header_of}
use adb_client.Client.ReverseRelay.{
  LocalEvent, data_from, closed, ReverseRelay, Outcome, write_message, write_new, on_local_event,
  and_then, flush_local_events, Calls, add_socket, accept_device_open, write_to_local,
  close_device_stream, handle_command, RelayRead, message, idle_poll, failed_read, done_or_on,
  on_read, read_unless_done, relay_round, run_from,
}

abbrev is_okay : MessageCommand → Bool
is_okay okay = true
is_okay _ = false

-- The message is the OKAY that opens the stream.
abbrev opens : ℕ → ℕ → Message → Bool
opens local_id remote_id m =
    is_okay m.header.command && ((m.header.arg0 == local_id) && (m.header.arg1 == remote_id))

-- An OKAY with these ids is among the messages.
unfoldable pub is_opened : ℕ → ℕ → List Message → Bool
is_opened local_id remote_id [] = false
is_opened local_id remote_id (m ∷ ms) =
    opens local_id remote_id m || is_opened local_id remote_id ms

-- If the message is a WRTE, its stream has been opened.
abbrev pub IsOnOpened : List Message → Message → Type 0
IsOnOpened sent m = m.header.command ≡ write → is_opened m.header.arg0 m.header.arg1 sent ≡ true

is_opened-append :
    (local_id remote_id : ℕ) (ms ns : List Message)
    → is_opened local_id remote_id ms ≡ true
    → is_opened local_id remote_id (ms ++ ns) ≡ true
unfolding is_opened
is_opened-append local_id remote_id [] ns h = cc
is_opened-append local_id remote_id (m ∷ ms) ns h =
    ground (arith, is_opened-append local_id remote_id ms ns)

is_opened-last :
    (local_id remote_id : ℕ) (ms : List Message) (m : Message)
    → opens local_id remote_id m ≡ true
    → is_opened local_id remote_id (ms ++ m ∷ []) ≡ true
unfolding is_opened
is_opened-last local_id remote_id [] m h = ground arith
is_opened-last local_id remote_id (x ∷ ms) m h =
    ground (arith, is_opened-last local_id remote_id ms m h)

grown :
    (sent ns : List Message) (ms : List Message)
    → All (IsOnOpened sent) ms
    → All (IsOnOpened (sent ++ ns)) ms
grown sent ns [] all = tt
grown sent ns (m ∷ ms) (h, all) =
    (λ e. is_opened-append m.header.arg0 m.header.arg1 sent ns (h e), grown sent ns ms all)

All-last :
    (P : Message → Type 0) (ms : List Message) (m : Message) → All P ms → P m → All P (ms ++ m ∷ [])
All-last P [] m all p = (p, tt)
All-last P (x ∷ ms) m (q, all) p = (q, All-last P ms m all p)

-- Each socket belongs to a stream that an OKAY has opened, and so does each WRTE that was sent.
pub record IsSound (r : ReverseRelay) : Type 0 where
  pub sockets_opened :
      Every (λ local_id (socket : ℕ × Bytes). is_opened local_id socket.0 r.sent ≡ true) r.sockets
  pub writes_opened : All (IsOnOpened r.sent) r.sent

write_message-IsSound :
    (r : ReverseRelay) (m : Message)
    → IsSound r
    → IsOnOpened r.sent m
    → IsSound (write_message r m).0
write_message-IsSound r m v on = record {
  sockets_opened =
      λ id socket e. is_opened-append id socket.0 r.sent (m ∷ []) (v.sockets_opened id socket e);
  writes_opened =
      All-last (IsOnOpened (r.sent ++ m ∷ [])) r.sent m
        (grown r.sent (m ∷ []) r.sent v.writes_opened)
        (λ e. is_opened-append m.header.arg0 m.header.arg1 r.sent (m ∷ []) (on e));
}

-- What `try_new` makes has the command and the ids that it was given.
write_new-IsSound :
    (r : ReverseRelay) (c : MessageCommand) (arg0 arg1 : ℕ) (payload : Bytes)
    → IsSound r
    → (c ≡ write → is_opened arg0 arg1 r.sent ≡ true)
    → IsSound (write_new r c arg0 arg1 payload).0
unfolding write_new try_new try_new_header
write_new-IsSound r c arg0 arg1 payload v on = elim (Bool-cases (ltb (length payload) (2 ^ 32))) [
  | inl fits ↦ rw fits (
      write_message-IsSound r (record { header = header_of c arg0 arg1 payload; payload = payload })
        v on)
  | inr long ↦ rw long v
]

remove-IsSound :
    (r : ReverseRelay) (id : ℕ) → IsSound r → IsSound (record r { sockets = remove id r.sockets })
remove-IsSound r id v = record {
  sockets_opened =
      Every-remove (λ i (socket : ℕ × Bytes). is_opened i socket.0 r.sent ≡ true) id r.sockets
        v.sockets_opened;
  writes_opened = v.writes_opened;
}

insert-IsSound :
    (r : ReverseRelay) (id : ℕ) (socket : ℕ × Bytes) (accepted : Bool)
    → IsSound r
    → is_opened id socket.0 r.sent ≡ true
    → IsSound (record r { sockets = insert id socket r.sockets; accepted_stream = accepted })
insert-IsSound r id socket accepted v opened = record {
  sockets_opened =
      Every-insert (λ i (x : ℕ × Bytes). is_opened i x.0 r.sent ≡ true) id socket r.sockets opened
        v.sockets_opened;
  writes_opened = v.writes_opened;
}

on_local_event-IsSound :
    (r : ReverseRelay) (e : LocalEvent) → IsSound r → IsSound (on_local_event r e).0
unfolding on_local_event
on_local_event-IsSound r (data_from id payload) v = elim (Option-cases (lookup id r.sockets)) [
  | inl e ↦ rw (e, on_local_event) v
  | inr (socket, e) ↦
      rw (e, on_local_event)
        (write_new-IsSound r write id socket.0 payload v (λ same. v.sockets_opened id socket e))
]
on_local_event-IsSound r (closed id) v = elim (Option-cases (lookup id r.sockets)) [
  | inl e ↦ rw (e, on_local_event) v
  | inr (socket, e) ↦
      rw (e, on_local_event)
        (write_new-IsSound (record r { sockets = remove id r.sockets }) clse id socket.0 []
          (remove-IsSound r id v) (λ same. cc))
]

and_then-IsSound :
    (next : ReverseRelay → Outcome) (x : Outcome)
    → ((r : ReverseRelay) → IsSound r → IsSound (next r).0)
    → IsSound x.0
    → IsSound (and_then next x).0
and_then-IsSound next (r, ok _) sound v = sound r v
and_then-IsSound next (r, err e) sound v = v

flush_local_events-IsSound :
    (es : List LocalEvent) (r : ReverseRelay) → IsSound r → IsSound (flush_local_events es r).0
unfolding flush_local_events
flush_local_events-IsSound [] r v = v
flush_local_events-IsSound (e ∷ es) r v =
    and_then-IsSound (flush_local_events es) (on_local_event r e) (flush_local_events-IsSound es)
      (on_local_event-IsSound r e v)

-- The OKAY is among the messages before the socket is added.
open_socket-IsSound :
    (r : ReverseRelay) (id device_id : ℕ)
    → IsSound r
    → IsSound (and_then (add_socket id device_id) (write_new r okay id device_id [])).0
unfolding write_new try_new try_new_header
open_socket-IsSound r id device_id v =
    let m : Message = record { header = header_of okay id device_id []; payload = [] } in
    let sound : IsSound (write_message r m).0 = write_message-IsSound r m v (λ same. cc) in
    let ids : opens id device_id m ≡ true = rw (==_refl id, ==_refl device_id) refl in
    elim (Result-cases (r.write_ends (length r.sent))) [
      | inl (done, e) ↦ rw e (
          insert-IsSound (write_message r m).0 id (device_id, []) true sound
            (is_opened-last id device_id r.sent m ids))
      | inr (x, e) ↦ rw e sound
    ]

accept_device_open-IsSound :
    (r : ReverseRelay) (m : Message) (calls : Calls)
    → IsSound r
    → IsSound (accept_device_open r m calls).0
unfolding accept_device_open
accept_device_open-IsSound r m calls v =
    let P : Outcome → Type 0 = λ x. IsSound x.0 in
    if_either P (not (bytes_eq (trim_end 0 (from_utf8_lossy m.payload)) r.local_end)) _ _ v (
      if_either P (not calls.is_connected) _ _ v (
        if_either P (not calls.is_prepared) _ _ v
          (open_socket-IsSound r calls.random_id m.header.arg0 v)))

write_to_local-IsSound :
    (r : ReverseRelay) (m : Message) (calls : Calls)
    → IsSound r
    → IsSound (write_to_local r m calls).0
unfolding write_to_local
write_to_local-IsSound r m calls v = elim (Option-cases (lookup m.header.arg1 r.sockets)) [
  | inl e ↦ rw (e, write_to_local) v
  | inr (socket, e) ↦
      let P : Outcome → Type 0 = λ x. IsSound x.0 in
      let opened = v.sockets_opened m.header.arg1 socket e in
      let socket' : ℕ × Bytes = (socket.0, socket.1 ++ m.payload) in
      rw (e, write_to_local)
        (if_either P (not (socket.0 == m.header.arg0)) _ _ v (
          if_either P (not calls.socket_written) _ _ v (
            write_new-IsSound (record r { sockets = insert m.header.arg1 socket' r.sockets }) okay
              m.header.arg1 m.header.arg0 []
              (insert-IsSound r m.header.arg1 socket' r.accepted_stream v opened) (λ same. cc))))
]

handle_command-IsSound :
    (c : MessageCommand) (r : ReverseRelay) (m : Message) (calls : Calls)
    → IsSound r
    → IsSound (handle_command c r m calls).0
unfolding handle_command close_device_stream
handle_command-IsSound open_stream r m calls v = accept_device_open-IsSound r m calls v
handle_command-IsSound write r m calls v = write_to_local-IsSound r m calls v
handle_command-IsSound clse r m calls v =
    write_new-IsSound (record r { sockets = remove m.header.arg1 r.sockets }) clse m.header.arg1
      m.header.arg0 [] (remove-IsSound r m.header.arg1 v) (λ same. cc)
handle_command-IsSound okay r m calls v = v
handle_command-IsSound cnxn r m calls v = v
handle_command-IsSound auth r m calls v = v
handle_command-IsSound stls r m calls v = v

done_or_on-IsSound : (x : Outcome) → IsSound x.0 → IsSound (done_or_on x).0
done_or_on-IsSound (r, ok _) v = v
done_or_on-IsSound (r, err e) v = v

on_read-IsSound : (read : RelayRead) (r : ReverseRelay) → IsSound r → IsSound (on_read read r).0
unfolding on_read
on_read-IsSound (message m calls) r v =
    done_or_on-IsSound (handle_command m.header.command r m calls)
      (handle_command-IsSound m.header.command r m calls v)
on_read-IsSound idle_poll r v = v
on_read-IsSound failed_read r v = v

read_unless_done-IsSound :
    (read : RelayRead) (x : ReverseRelay × Result RustAdbError Bool)
    → IsSound x.0
    → IsSound (read_unless_done read x).0
read_unless_done-IsSound read (r, ok false) v = on_read-IsSound read r v
read_unless_done-IsSound read (r, ok true) v = v
read_unless_done-IsSound read (r, err e) v = v

-- Whatever happens on the sockets and on the transport, and whichever ids the random number generator
-- draws: each WRTE that a relay has sent, and each socket that it keeps, belongs to a pair of ids that
-- one of its OKAY messages has opened, if this held when it started.
pub run_from-IsSound :
    (rounds : List (List LocalEvent × RelayRead)) (x : ReverseRelay × Result RustAdbError Bool)
    → IsSound x.0
    → IsSound (run_from rounds x).0
unfolding run_from relay_round
run_from-IsSound [] x v = v
run_from-IsSound ((events, read) ∷ later) (r, ok false) v =
    run_from-IsSound later (relay_round r events read) (
      read_unless_done-IsSound read (done_or_on (flush_local_events events r))
        (done_or_on-IsSound (flush_local_events events r) (flush_local_events-IsSound events r v)))
run_from-IsSound (_ ∷ later) (r, ok true) v = v
run_from-IsSound (_ ∷ later) (r, err e) v = v
