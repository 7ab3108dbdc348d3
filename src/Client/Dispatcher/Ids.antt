-- ===== src/Client/Dispatcher/Ids.antt =====
-- The ids that `allocate_local_id` hands out.
use adb_client.Base.{
  ℕ, zero, suc, ◌^◌, ◌<◌, ◌≡◌, inl, inr, refl, ap, ◌∙◌, arith, false, ◌||◌, Bool-cases,
  Option-cases, List, [], ◌∷◌, ◌++◌, Option, none, some, ◌==◌,
}
use adb_client.Base.NatMap.{NatMap, lookup, lookup-insert, lookup-remove}
use adb_client.Base.Bytes.{trim_end}
use adb_client.Base.Utf8.{from_utf8_lossy}
use adb_client.Client.Kinds.{MessageCommand, open_stream}
use adb_client.Client.Message.{Message}
use adb_client.Client.Dispatcher.{
  Mailbox, Dispatcher, DispatcherCommand, write, register, unregister, route, routes_wanted,
  shutdown, next_id, is_taken, allocate, allocate_local_id, max_rounds, open_with, open_channel,
  run_command, connect_opened, host_end, port_of, accept_open, on_open, deliver, dispatch, packet,
  idle, failed, receive, Turn, commanded, received, take_turn, run_loop,
}

-- What an allocation finds: no id, or one that is free, not zero, and fits 32 bits.
abbrev pub IsFree : NatMap Mailbox → Option ℕ → Type 0
IsFree sessions none = Unit
IsFree sessions (some id) = (0 < id) × (id < 2 ^ 32) × (lookup id sessions ≡ none)

not_taken :
    (id : ℕ) (sessions : NatMap Mailbox) → is_taken id sessions ≡ false → lookup id sessions ≡ none
not_taken id sessions free = elim (Option-cases (lookup id sessions)) [
  | inl e ↦ e
  | inr (m, e) ↦ ground (arith, e)
]

allocate-IsFree :
    (rounds : ℕ) (sessions : NatMap Mailbox) (next : ℕ)
    → 0 < next
    → next < 2 ^ 32
    → IsFree sessions (allocate rounds sessions next).1
      × ((0 < (allocate rounds sessions next).0) × ((allocate rounds sessions next).0 < 2 ^ 32))
unfolding allocate
allocate-IsFree zero sessions next some_id small = (tt, (some_id, small))
allocate-IsFree (suc rounds) sessions next some_id small =
    elim (Bool-cases ((next == 0) || is_taken next sessions)) [
      | inl busy ↦
          rw (busy, allocate)
            (allocate-IsFree rounds sessions (next_id next) (omega arith) (omega arith))
      | inr free ↦
          rw (free, allocate)
            ((some_id, small, not_taken next sessions (ground arith)), (omega arith, omega arith))
    ]

-- From a next id that is not zero and fits 32 bits, `allocate_local_id` finds no id, or one that is
-- free, not zero and of 32 bits; and the next id is again such.
pub allocate_local_id-IsFree :
    (sessions : NatMap Mailbox) (next : ℕ)
    → 0 < next
    → next < 2 ^ 32
    → IsFree sessions (allocate_local_id sessions next).1
      × ((0 < (allocate_local_id sessions next).0) × ((allocate_local_id sessions next).0 < 2 ^ 32))
unfolding allocate_local_id
allocate_local_id-IsFree sessions next some_id small =
    allocate-IsFree max_rounds sessions next some_id small

-- The ids of a dispatcher: none is zero, and the next one to try is neither zero nor out of range.
pub record IsWellFormed (d : Dispatcher) : Type 0 where
  pub no_zero : lookup 0 d.sessions ≡ none
  pub next_positive : 0 < d.next_local_id
  pub next_small : d.next_local_id < 2 ^ 32

open_with-IsWellFormed :
    (d : Dispatcher) (x : ℕ × Option ℕ)
    → IsWellFormed d
    → IsFree d.sessions x.1 × ((0 < x.0) × (x.0 < 2 ^ 32))
    → IsWellFormed (open_with d x).0
open_with-IsWellFormed d (next, none) v (free, (some_id, small)) = record {
  no_zero = v.no_zero;
  next_positive = some_id;
  next_small = small;
}
open_with-IsWellFormed d (next, some id) v ((positive, fits, free), (some_id, small)) = record {
  no_zero = ground (arith, lookup-insert id 0 [] d.sessions, v.no_zero);
  next_positive = some_id;
  next_small = small;
}

pub open_channel-IsWellFormed : (d : Dispatcher) → IsWellFormed d → IsWellFormed (open_channel d).0
unfolding open_channel
open_channel-IsWellFormed d v =
    open_with-IsWellFormed d (allocate_local_id d.sessions d.next_local_id) v
      (allocate_local_id-IsFree d.sessions d.next_local_id v.next_positive v.next_small)

same_ids :
    (d d' : Dispatcher)
    → IsWellFormed d
    → d'.sessions ≡ d.sessions
    → d'.next_local_id ≡ d.next_local_id
    → IsWellFormed d'
same_ids d d' v e f = record {
  no_zero = ap (lookup 0) e ∙ v.no_zero;
  next_positive = rw f v.next_positive;
  next_small = rw f v.next_small;
}

run_command-IsWellFormed :
    (d : Dispatcher) (c : DispatcherCommand) → IsWellFormed d → IsWellFormed (run_command d c).0
unfolding run_command
run_command-IsWellFormed d (write m ended) v = same_ids d _ v refl refl
run_command-IsWellFormed d register v = open_channel-IsWellFormed d v
run_command-IsWellFormed d (unregister id) v = record {
  no_zero = ground (arith, lookup-remove id 0 d.sessions, v.no_zero);
  next_positive = v.next_positive;
  next_small = v.next_small;
}
run_command-IsWellFormed d (route remote (some local_end)) v = same_ids d _ v refl refl
run_command-IsWellFormed d (route remote none) v = same_ids d _ v refl refl
run_command-IsWellFormed d routes_wanted v = v
run_command-IsWellFormed d shutdown v = same_ids d _ v refl refl

connect_opened-IsWellFormed :
    (port remote_id : ℕ) (x : Dispatcher × Option ℕ)
    → IsWellFormed x.0
    → IsWellFormed (connect_opened port remote_id x)
connect_opened-IsWellFormed port remote_id (d, none) v = v
connect_opened-IsWellFormed port remote_id (d, some id) v = same_ids d _ v refl refl

accept_open-IsWellFormed :
    (d : Dispatcher) (port : Option ℕ) (remote_id : ℕ)
    → IsWellFormed d
    → IsWellFormed (accept_open d port remote_id)
unfolding accept_open
accept_open-IsWellFormed d none remote_id v = v
accept_open-IsWellFormed d (some port) remote_id v =
    connect_opened-IsWellFormed port remote_id (open_channel d) (open_channel-IsWellFormed d v)

on_open-IsWellFormed : (d : Dispatcher) (m : Message) → IsWellFormed d → IsWellFormed (on_open d m)
unfolding on_open
on_open-IsWellFormed d m v =
    elim (Option-cases (host_end d.routes (trim_end 0 (from_utf8_lossy m.payload)))) [
      | inl e ↦ rw (e, on_open) (same_ids d _ v refl refl)
      | inr (local_end, e) ↦
          rw (e, on_open) (accept_open-IsWellFormed d (port_of local_end) m.header.arg0 v)
    ]

deliver-IsWellFormed : (d : Dispatcher) (m : Message) → IsWellFormed d → IsWellFormed (deliver d m)
unfolding deliver
deliver-IsWellFormed d m v = elim (Option-cases (lookup m.header.arg1 d.sessions)) [
  | inl e ↦ rw (e, deliver) v
  | inr (mailbox, e) ↦
      rw (e, deliver)
        (record {
          no_zero =
              ground
                (arith, lookup-insert m.header.arg1 0 (mailbox ++ m ∷ []) d.sessions, v.no_zero, e);
          next_positive = v.next_positive;
          next_small = v.next_small;
        })
]

dispatch-IsWellFormed :
    (d : Dispatcher) (c : MessageCommand) (m : Message)
    → IsWellFormed d
    → IsWellFormed (dispatch d c m)
unfolding dispatch
dispatch-IsWellFormed d open_stream m v = on_open-IsWellFormed d m v
dispatch-IsWellFormed d _ m v = deliver-IsWellFormed d m v

pub take_turn-IsWellFormed :
    (d : Dispatcher) (t : Turn) → IsWellFormed d → IsWellFormed (take_turn d t)
unfolding take_turn receive lookup
take_turn-IsWellFormed d (commanded c) v = run_command-IsWellFormed d c v
take_turn-IsWellFormed d (received (packet m)) v = dispatch-IsWellFormed d m.header.command m v
take_turn-IsWellFormed d (received idle) v = v
take_turn-IsWellFormed d (received failed) v = record {
  no_zero = refl;
  next_positive = v.next_positive;
  next_small = v.next_small;
}

-- Whatever commands and packets the loop takes, in any order, from a state in which no session has the
-- id zero and the next id is neither zero nor out of range, it stays in such a state.
pub run_loop-IsWellFormed :
    (d : Dispatcher) (ts : List Turn) → IsWellFormed d → IsWellFormed (run_loop d ts)
unfolding run_loop
run_loop-IsWellFormed d [] v = v
run_loop-IsWellFormed d (t ∷ ts) v = elim (Bool-cases d.running) [
  | inl on ↦
      rw (on, run_loop) (run_loop-IsWellFormed (take_turn d t) ts (take_turn-IsWellFormed d t v))
  | inr off ↦ rw (off, run_loop) v
]
