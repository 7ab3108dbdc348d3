-- ===== src/Proto/Kinds.antt =====
-- The enumerations of adb_proto/src: packet commands (message.rs), session states (session.rs) and
-- errors (error.rs).
use Prim.Native.Nat.{ℕ}
use adb_client.Base.Bytes.{Bytes}

-- `Command`; `open_stream` is `Open`.
pub data Command : Type 0 where
  cnxn clse auth open_stream wrte okay stls : Command

-- `State`
pub data State : Type 0 where
  idle handshaking connected : State

-- The text of `ProtoError::Protocol`, as its template with the values that are put into it.
pub data Complaint : Type 0 where
  not_connected : Complaint
  stream_not_open : ℕ → Complaint
  tls_unsupported : Complaint
  unexpected_packet : Command → State → Complaint
  name_too_long : Complaint
  data_too_long : Complaint
  fail_too_long : Complaint
  unexpected_reply : Bytes → Complaint
  transfer_failed : Bytes → Complaint

-- `ProtoError`
pub data ProtoError : Type 0 where
  bad_magic : ProtoError
  payload_too_large : (len max : ℕ) → ProtoError
  bad_checksum : ProtoError
  unknown_command : ℕ → ProtoError
  protocol : Complaint → ProtoError
  key : Bytes → ProtoError
