-- ===== src/Client/Forwards/Connection.antt =====
-- `forward_connection` of adb_client/src/message_devices/dispatched_device.rs, behind the opening of
-- its service: the loop that carries bytes between a socket and the service. The thread that reads the
-- socket is the list of what it puts into its channel.
pub mod Sending
pub mod Ordered
use adb_client.Base.{
  take, ◌+◌, ◌*◌, Bool, true, false, not, ◌||◌, Option, none, some, List, [], ◌∷◌, ◌++◌,
}
use adb_client.Base.Outcome.{Result, ok, err}
use adb_client.Base.Bytes.{Bytes, bytes}
use adb_client.Client.Kinds.{MessageCommand, write, okay, clse, RustAdbError, request_failed}
use adb_client.Client.Message.{Message}
use adb_client.Client.Session.{AdbSession, write_new}
use adb_client.Client.Dispatched.{acknowledge, close_ack}

-- `Some` of a buffer that was read, or `None`.
pub data Event : Type 0 where
  buffer : Bytes → Event
  end_of_input : Event

pub record Forward : Type 0 where
  pub session : AdbSession
  pub pending : Bool
  pub channel : List Event
  pub socket : Bytes

-- What one round of the loop meets: whether the first event is there already, what the session
-- receives in 10 ms, and how a write to the socket ends.
pub record Round : Type 0 where
  pub ready : Bool
  pub received : Result RustAdbError (Option Message)
  pub socket_write : Result RustAdbError (Unit {0})

-- The loop goes on, or returns.
pub data Flow : Type 0 where
  continues : Forward → Flow
  returns : Forward → Result RustAdbError (Unit {0}) → Flow

abbrev pub on_continue : Flow → (Forward → Flow) → Flow
on_continue (continues f) next = next f
on_continue (returns f r) next = returns f r

unfoldable pub sent_buffer : Forward → AdbSession × Result RustAdbError (Unit {0}) → Flow
sent_buffer f (s, ok _) = continues (record f { session = s; pending = true })
sent_buffer f (s, err e) = returns (record f { session = s }) (err e)

unfoldable pub on_event : Forward → List Event → Flow
on_event f [] = continues f
on_event f (end_of_input ∷ events) =
    returns (record f { session = (close_ack f.session).0; channel = events }) (ok tt)
on_event f (buffer payload ∷ events) =
    sent_buffer (record f { channel = events }) (write_new f.session write payload)

unfoldable pub unless_busy : Bool → Forward → Flow
unless_busy true f = continues f
unless_busy false f = on_event f f.channel

-- The channel is left alone while a WRTE waits for its OKAY.
unfoldable pub take_event : Bool → Forward → Flow
take_event ready f = unless_busy (f.pending || not ready) f

unfoldable pub acknowledged : Forward → AdbSession × Result RustAdbError (Unit {0}) → Flow
acknowledged f (s, ok _) = continues (record f { session = s })
acknowledged f (s, err e) = returns (record f { session = s }) (err e)

unfoldable pub on_socket : Bytes → Forward → Result RustAdbError (Unit {0}) → Flow
on_socket payload f (ok _) =
    acknowledged (record f { socket = f.socket ++ payload }) (acknowledge f.session)
on_socket payload f (err e) = returns f (err e)

unfoldable pub on_packet : Result RustAdbError (Unit {0}) → Forward → MessageCommand → Bytes → Flow
on_packet socket_write f write payload = on_socket payload f socket_write
on_packet socket_write f okay payload = continues (record f { pending = false })
on_packet socket_write f clse payload =
    returns (record f { session = (close_ack f.session).0 }) (ok tt)
on_packet socket_write f _ payload =
    returns f (err (request_failed (bytes "unexpected forward packet")))

unfoldable pub on_received : Round → Forward → Result RustAdbError (Option Message) → Flow
on_received round f (ok none) = continues f
on_received round f (ok (some m)) = on_packet round.socket_write f m.header.command m.payload
on_received round f (err e) = returns f (err e)

unfoldable pub forward_round : Round → Forward → Flow
forward_round round f =
    on_continue (take_event round.ready f) (λ f'. on_received round f' round.received)

unfoldable pub forward_rounds : List Round → Forward → Flow
forward_rounds [] f = continues f
forward_rounds (round ∷ rounds) f = on_continue (forward_round round f) (forward_rounds rounds)
