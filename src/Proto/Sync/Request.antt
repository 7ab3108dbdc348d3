-- ===== src/Proto/Sync/Request.antt =====
-- adb_proto/src/sync.rs: the requests, the frames of a file, and the reply to DONE.
use adb_client.Base.{
  ℕ, zero, suc, ◌+◌, ◌*◌, ◌^◌, List, [], ◌∷◌, ◌++◌, Option, none, some, length, take, drop, slice,
  ltb, if◌then◌else◌,
}
use adb_client.Base.Outcome.{Result, ok, err}
use adb_client.Base.Bytes.{Bytes, bytes, bytes_eq}
use adb_client.Base.Decimal.{to_decimal}
use adb_client.Base.Utf8.{from_utf8_lossy}
use adb_client.Base.Words.{to_le_bytes, from_le_bytes}
use adb_client.Proto.Kinds.{ProtoError, protocol, transfer_failed, unexpected_reply}

abbrev pub max_data_chunk : ℕ
max_data_chunk = 64 * 1024

unfoldable pub frame : Bytes → ℕ → Bytes → Bytes
frame id arg body = id ++ (to_le_bytes arg ++ body)

-- A frame with the length of its body, by `len_u32`. `none` is the panic of `expect` on a body of
-- 2^32 bytes or more.
unfoldable pub sized_frame : Bytes → Bytes → Option Bytes
unfolding frame
sized_frame id body =
    if ltb (length body) (2 ^ 32) then some (frame id (length body) body) else none

unfoldable pub send_request : Bytes → ℕ → Option Bytes
unfolding sized_frame
send_request remote_path mode = sized_frame (bytes "SEND") (remote_path ++ (b',' ∷ to_decimal mode))

unfoldable pub stat_request : Bytes → Option Bytes
unfolding sized_frame
stat_request path = sized_frame (bytes "STAT") path

unfoldable pub list_request : Bytes → Option Bytes
unfolding sized_frame
list_request path = sized_frame (bytes "LIST") path

unfoldable pub recv_request : Bytes → Option Bytes
unfolding sized_frame
recv_request path = sized_frame (bytes "RECV") path

unfoldable pub stat2_request : Bytes → Option Bytes
unfolding sized_frame
stat2_request path = sized_frame (bytes "STA2") path

unfoldable pub list2_request : Bytes → Option Bytes
unfolding sized_frame
list2_request path = sized_frame (bytes "LIS2") path

-- `slice::chunks`, on fuel: each chunk takes a byte at least.
unfoldable pub chunks : ℕ → ℕ → Bytes → List Bytes
chunks fuel size [] = []
chunks zero size (b ∷ bs) = []
chunks (suc fuel) size (b ∷ bs) = take size (b ∷ bs) ∷ chunks fuel size (drop size (b ∷ bs))

-- `data_frames`; a chunk is too short for the panic of `len_u32`.
unfoldable pub frames_of : List Bytes → List Bytes
unfolding frame
frames_of [] = []
frames_of (c ∷ cs) = frame (bytes "DATA") (length c) c ∷ frames_of cs

unfoldable pub data_frames : Bytes → List Bytes
unfolding frames_of chunks
data_frames file = frames_of (chunks (length file) max_data_chunk file)

unfoldable pub done : ℕ → Bytes
unfolding frame
done mtime = frame (bytes "DONE") mtime []

unfoldable pub quit : Bytes
unfolding frame
quit = frame (bytes "QUIT") 0 []

-- `parse_status`
unfoldable pub parse_status : Bytes → Result ProtoError (Option ℕ)
parse_status input =
    let arg = from_le_bytes (slice 4 8 input) in
    let id = take 4 input in
    if ltb (length input) 8
    then ok none
    else if bytes_eq id (bytes "OKAY")
    then ok (some 8)
    else if bytes_eq id (bytes "FAIL")
    then (if ltb (length input) (8 + arg)
        then ok none
        else err (protocol (transfer_failed (from_utf8_lossy (slice 8 (8 + arg) input)))))
    else err (protocol (unexpected_reply (from_utf8_lossy id)))
