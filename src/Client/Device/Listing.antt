-- ===== src/Client/Device/Listing.antt =====
-- adb_client/src/message_devices/commands/list.rs, and the entries of models/list_info.rs.
pub mod Reads
pub mod Entries
use adb_client.Base.{
  ltb, leb, ◌==◌, if◌then◌else◌, length, take, drop, ℕ, zero, suc, ◌+◌, ◌-◌, ◌*◌, ◌/◌, ◌%◌, ◌^◌,
  sym, not, List, [], ◌∷◌, ◌++◌,
}
use adb_client.Base.Outcome.{Result, ok, err}
use adb_client.Base.Bytes.{Bytes, bytes, bytes_eq}
use adb_client.Base.Utf8.{is_utf8}
use adb_client.Base.Words.{to_le_bytes}
use adb_client.Client.Kinds.{
  write, okay, MessageSubcommand, list, subcommand_code, RustAdbError, io_error, try_from_int,
  utf8_error,
}
use adb_client.Client.Message.{Message, read_u32}
use adb_client.Client.Session.{AdbSession, then_with, read_message, write_new, send_and_expect_okay}
use adb_client.Client.Dispatched.{Ended}
use adb_client.Client.Device.{open_session, end_transaction}

-- `ADBListItem`
pub record AdbListItem : Type 0 where
  pub name : Bytes
  pub time : ℕ
  pub permissions : ℕ
  pub size : ℕ

-- `ADBListItemType`
pub data AdbListItemType : Type 0 where
  fifo character_device directory block_device file symlink socket other :
      AdbListItem → AdbListItemType

unfoldable pub from_mode_and_entry : ℕ → AdbListItem → AdbListItemType
from_mode_and_entry mode entry =
    let kind = mode / 2 ^ 13 % 8 in
    if kind == 0
    then fifo entry
    else if kind == 1
    then character_device entry
    else if kind == 2
    then directory entry
    else if kind == 3
    then block_device entry
    else if kind == 4
    then file entry
    else if kind == 5
    then symlink entry
    else if kind == 6
    then socket entry
    else other entry

-- How a call ends; a slice out of range panics.
pub data Outcome (A : Type 0) : Type 0 where
  gave : AdbSession → A → Outcome A
  failed : AdbSession → RustAdbError → Outcome A
  panicked : Outcome A

abbrev pub and_then : {A B : Type 0} → Outcome A → (AdbSession → A → Outcome B) → Outcome B
and_then (gave s a) next = next s a
and_then (failed s e) next = failed s e
and_then panicked next = panicked

abbrev pub lifted : {A : Type 0} → AdbSession × Result RustAdbError A → Outcome A
lifted (s, ok a) = gave s a
lifted (s, err e) = failed s e

-- The part of `read_bytes_from_transport` behind the next message, of which `need` bytes are taken.
unfoldable pub split_payload : ℕ → Bytes → AdbSession → Message → Outcome (Bytes × Bytes)
split_payload need front s m =
    if ltb (length m.payload) need
    then panicked
    else gave s (front ++ take need m.payload, drop need m.payload)

-- `read_bytes_from_transport`, with `payload[current_index..]` for the payload and the index. It
-- gives the bytes, and what is left of the payload then.
unfoldable pub read_bytes_from_transport : ℕ → AdbSession → Bytes → Outcome (Bytes × Bytes)
read_bytes_from_transport n s left =
    if leb n (length left)
    then gave s (take n left, drop n left)
    else and_then (lifted (write_new s okay []))
        (λ s' _. and_then (lifted (read_message s')) (split_payload (n - length left) left))

unfoldable pub item_of : Bytes → Bytes → AdbListItemType
item_of metadata name =
    let mode = read_u32 metadata 0 in
    from_mode_and_entry mode (record {
      name = name;
      time = read_u32 metadata 8;
      permissions = mode % 2 ^ 9;
      size = read_u32 metadata 4;
    })

-- A DENT behind its status: the item, and what is left of the payload.
unfoldable pub read_entry : AdbSession → Bytes → Outcome (AdbListItemType × Bytes)
read_entry s left = and_then (read_bytes_from_transport 16 s left) (λ s' got.
    and_then (read_bytes_from_transport (read_u32 got.0 12) s' got.1) (λ s'' named.
      if is_utf8 named.0 then gave s'' (item_of got.0 named.0, named.1) else failed s'' utf8_error))

-- The loop of `handle_list`, with the items so far. A round takes four bytes, so that the number of
-- bytes that will come is enough fuel.
unfoldable pub list_loop :
    ℕ → List AdbListItemType → AdbSession → Bytes → Outcome (List AdbListItemType)
list_loop zero items s left = failed s io_error
list_loop (suc fuel) items s left = and_then (read_bytes_from_transport 4 s left) (λ s' status.
    let more =
      and_then (read_entry s' status.1)
        (λ s'' entry. list_loop fuel (items ++ entry.0 ∷ []) s'' entry.1) in
    let skipped = list_loop fuel items s' status.1 in
    if not (is_utf8 status.0)
    then failed s' utf8_error
    else if bytes_eq status.0 (bytes "DENT")
    then more
    else if bytes_eq status.0 (bytes "DONE")
    then gave s' items
    else skipped)

-- `handle_list`, on as much fuel as the loop is given.
unfoldable pub handle_list : ℕ → Bytes → AdbSession → Outcome (List AdbListItemType)
handle_list fuel path s =
    if not (ltb (length path) (2 ^ 32))
    then failed s try_from_int
    else and_then
        (lifted (
          send_and_expect_okay s write
            (to_le_bytes (subcommand_code list) ++ (to_le_bytes (length path) ++ path))))
        (λ s' _.
          and_then (lifted (read_message s')) (λ s'' first. list_loop fuel [] s'' first.payload))

-- The end of `list`: an error at the end of the transaction comes before that of the list.
unfoldable pub end_list : Outcome (List AdbListItemType) → Outcome (List AdbListItemType)
end_list (gave s items) = and_then (lifted (end_transaction s)) (λ s' _. gave s' items)
end_list (failed s e) = and_then (lifted (end_transaction s)) (λ s' _. failed s' e)
end_list panicked = panicked

-- `list`, with the id that `open_session` draws.
unfoldable pub list_directory : ℕ → ℕ → Bytes → AdbSession → Outcome (List AdbListItemType)
list_directory local_id fuel path s =
    and_then (lifted (open_session local_id (bytes "sync:") s))
      (λ s' _. end_list (handle_list fuel path s'))
