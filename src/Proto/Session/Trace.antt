-- ===== src/Proto/Session/Trace.antt =====
-- Histories of a session: the methods called on it in any order, with the packets that have been
-- taken out of its queue for sending.
use adb_client.Base.{ℕ, List, [], ◌∷◌, ◌++◌, Option, none, some}
use adb_client.Base.Bytes.{Bytes}
use adb_client.Proto.Message.{Packet}
use adb_client.Proto.Session.{
  Session, start, open_service, write, ack, close, poll_transmit, poll_event,
}
use adb_client.Proto.Session.Receive.{handle_packet}

-- A call of one of the methods; `receives` is a packet that `handle_input` hands on.
pub data Call : Type 0 where
  starts polls polls_event : Call
  opens : Bytes → Call
  writes : ℕ → Bytes → Call
  acks closes : ℕ → Call
  receives : Packet → Call

abbrev pub after : Session → Call → Session
after s starts = start s
after s polls = (poll_transmit s).0
after s polls_event = (poll_event s).0
after s (opens service) = (open_service s service).0
after s (writes local_id more) = (write s local_id more).0
after s (acks local_id) = ack s local_id
after s (closes local_id) = close s local_id
after s (receives p) = (handle_packet s p).0

abbrev pub polled : Option Packet → List Packet
polled none = []
polled (some p) = p ∷ []

-- What the call takes out of the queue.
abbrev pub taken : Session → Call → List Packet
taken s polls = polled (poll_transmit s).1
taken s _ = []

-- A session, and what has been taken out of its queue so far, oldest first.
pub record History : Type 0 where
  pub session : Session
  pub log : List Packet

unfoldable pub step : History → Call → History
step h c = record { session = after h.session c; log = h.log ++ taken h.session c }

unfoldable pub run : History → List Call → History
unfolding step
run h [] = h
run h (c ∷ cs) = run (step h c) cs
