-- ===== src/Client/Device/Listing/Entries.antt =====
-- The entries of a directory, cut into packets.
use adb_client.Base.{
  ◌==◌, if◌then◌else◌, ◌/◌, lt→ltb, length, All, ℕ, zero, suc, ◌+◌, ◌%◌, ◌^◌, ◌≤◌, ◌<◌, ◌≡◌, refl,
  sym, ap, ◌∙◌, true, List, [], ◌∷◌, ◌++◌, map, append-nil, append_assoc, arith,
}
use adb_client.Base.Outcome.{ok}
use adb_client.Base.Bytes.{Bytes, bytes, bytes_eq}
use adb_client.Base.Utf8.{from_utf8_lossy, is_utf8}
use adb_client.Base.Words.{IsU32, to_le_bytes, from_le_bytes-to_le_bytes}
use adb_client.Client.Kinds.{okay, list, subcommand_code}
use adb_client.Client.Message.{Message, read_u32}
use adb_client.Client.Session.{AdbSession}
use adb_client.Client.Session.Pushed.{session, IsCommand, write_of, send_and_expect_okay-acked}
use adb_client.Client.Dispatched.Source.{received}
use adb_client.Client.Device.Listing.{
  AdbListItem, AdbListItemType, fifo, character_device, directory, block_device, file, symlink,
  socket, other, from_mode_and_entry, gave, item_of, read_entry, list_loop, handle_list,
}
use adb_client.Client.Device.Listing.Reads.{payloads, IsWide, Source, IsGiven, read_sent}

-- A file as the device describes it.
pub record Entry : Type 0 where
  pub mode : ℕ
  pub size : ℕ
  pub time : ℕ
  pub name : Bytes

abbrev pub dent : Entry → Bytes
dent e =
    bytes "DENT"
    ++ (to_le_bytes e.mode
        ++ (to_le_bytes e.size ++ (to_le_bytes e.time ++ (to_le_bytes (length e.name) ++ e.name))))

-- A list of entries, and what ends it.
abbrev pub dents : List Entry → Bytes → Bytes
dents [] tail = bytes "DONE" ++ tail
dents (e ∷ es) tail = dent e ++ dents es tail

-- The words have 32 bits, and the name is a text of at most `k` bytes.
pub record Fits (k : ℕ) (e : Entry) : Type 0 where
  pub mode_fits : IsU32 e.mode
  pub size_fits : IsU32 e.size
  pub time_fits : IsU32 e.time
  pub name_fits : length e.name ≤ k
  pub name_text : is_utf8 e.name ≡ true

-- The types of files, by the three bits of the mode that tell them.
abbrev pub file_type : ℕ → AdbListItem → AdbListItemType
file_type zero entry = fifo entry
file_type (suc zero) entry = character_device entry
file_type (suc (suc zero)) entry = directory entry
file_type (suc (suc (suc zero))) entry = block_device entry
file_type (suc (suc (suc (suc zero)))) entry = file entry
file_type (suc (suc (suc (suc (suc zero))))) entry = symlink entry
file_type (suc (suc (suc (suc (suc (suc zero)))))) entry = socket entry
file_type (suc (suc (suc (suc (suc (suc (suc n))))))) entry = other entry

file_type-tests :
    (kind : ℕ) (entry : AdbListItem)
    → (if kind == 0
        then fifo entry
        else if kind == 1
        then character_device entry
        else if kind == 2
        then directory entry
        else if kind == 3
        then block_device entry
        else if kind == 4
        then file entry
        else if kind == 5
        then symlink entry
        else if kind == 6
        then socket entry
        else other entry)
      ≡ file_type kind entry
file_type-tests zero entry = refl
file_type-tests (suc zero) entry = refl
file_type-tests (suc (suc zero)) entry = refl
file_type-tests (suc (suc (suc zero))) entry = refl
file_type-tests (suc (suc (suc (suc zero)))) entry = refl
file_type-tests (suc (suc (suc (suc (suc zero))))) entry = refl
file_type-tests (suc (suc (suc (suc (suc (suc zero)))))) entry = refl
file_type-tests (suc (suc (suc (suc (suc (suc (suc n))))))) entry = ground arith

from_mode_and_entry-file_type :
    (mode : ℕ) (entry : AdbListItem)
    → from_mode_and_entry mode entry ≡ file_type (mode / 2 ^ 13 % 8) entry
unfolding from_mode_and_entry
from_mode_and_entry-file_type mode entry = file_type-tests (mode / 2 ^ 13 % 8) entry

abbrev pub item : Entry → AdbListItemType
item e =
    file_type (e.mode / 2 ^ 13 % 8)
      (record { name = e.name; time = e.time; permissions = e.mode % 2 ^ 9; size = e.size })

abbrev metadata : Entry → Bytes
metadata e =
    to_le_bytes e.mode
    ++ (to_le_bytes e.size ++ (to_le_bytes e.time ++ to_le_bytes (length e.name)))

item_of-metadata :
    (k : ℕ) (e : Entry)
    → Fits k e
    → k < 2 ^ 32
    → (item_of (metadata e) e.name ≡ item e) × (read_u32 (metadata e) 12 ≡ length e.name)
unfolding item_of read_u32
item_of-metadata k e fits small = (
  rw
      (
        from_le_bytes-to_le_bytes e.mode fits.mode_fits,
        from_le_bytes-to_le_bytes e.size fits.size_fits,
        from_le_bytes-to_le_bytes e.time fits.time_fits,
      )
      (from_mode_and_entry-file_type e.mode _),
  from_le_bytes-to_le_bytes (length e.name) (omega (arith, fits.name_fits)),
)

-- An entry behind its status.
read_entry-dent :
    (k : ℕ) (e : Entry) (s : AdbSession) (left rest : Bytes)
    → 16 ≤ k
    → k < 2 ^ 32
    → Fits k e
    → Source k s left (metadata e ++ (e.name ++ rest))
    → IsGiven k (read_entry s left) (item e) rest
unfolding read_entry
read_entry-dent k e s left rest wide small fits source =
    let (s1, (left1, (got, source1))) =
      read_sent k s left (metadata e) (e.name ++ rest) (omega (arith, wide)) source in
    let (known, sized) = item_of-metadata k e fits small in
    let (s2, (left2, (named, source2))) = read_sent k s1 left1 e.name rest fits.name_fits source1 in
    (s2, (left2, (rw (got, sized, named, fits.name_text, known) refl, source2)))

statuses : (is_utf8 (bytes "DENT") ≡ true) × (is_utf8 (bytes "DONE") ≡ true)
unfolding is_utf8 from_utf8_lossy bytes_eq
statuses = (refl, refl)

-- The loop, with enough rounds for the entries and DONE.
list_loop-dents :
    (k fuel : ℕ) (es : List Entry) (items : List AdbListItemType) (s : AdbSession)
    (left tail : Bytes)
    → 16 ≤ k
    → k < 2 ^ 32
    → All (Fits k) es
    → length es < fuel
    → Source k s left (dents es tail)
    → (s' : AdbSession) × (list_loop fuel items s left ≡ gave s' (items ++ map item es))
unfolding list_loop bytes_eq
list_loop-dents k zero es items s left tail wide small fits enough source = absurd (omega arith)
list_loop-dents k (suc fuel) [] items s left tail wide small fits enough source =
    let (s1, (left1, (got, source1))) =
      read_sent k s left (bytes "DONE") tail (omega (arith, wide)) source in
    (s1, rw (got, statuses.1, append-nil items) refl)
list_loop-dents k (suc fuel) (e ∷ es) items s left tail wide small (fit, fits) enough source =
    let (s1, (left1, (got, source1))) =
      read_sent k s left (bytes "DENT") (metadata e ++ (e.name ++ dents es tail))
        (omega (arith, wide)) source in
    let (s2, (left2, (entry, source2))) =
      read_entry-dent k e s1 left1 (dents es tail) wide small fit source1 in
    let (s', below) =
      list_loop-dents k fuel es (items ++ item e ∷ []) s2 left2 tail wide small fits (omega arith)
        source2 in
    (
      s',
      rw (got, statuses.0, entry)
          (below ∙ ap (gave s') (append_assoc items (item e ∷ []) (map item es))),
    )

-- The device acknowledges the request and sends its entries and DONE, in packets of which each but
-- the first and the last has `k` bytes at least, where 16 bytes and each name are not longer than
-- `k`, which is below 2^32. Each name is a text, the other fields have 32 bits, and the request with
-- its path has less than 2^32 bytes. Then the client gets exactly the entries, in their order, each
-- with the type that its mode says.
pub handle_list-dents :
    (k fuel local_id remote_id : ℕ) (path : Bytes) (a first : Message) (packets : List Message)
    (es : List Entry) (tail : Bytes)
    → length path + 8 < 2 ^ 32
    → 16 ≤ k
    → k < 2 ^ 32
    → All (Fits k) es
    → length es < fuel
    → IsCommand okay a
    → IsWide k packets
    → first.payload ++ payloads packets ≡ dents es tail
    → (s' : AdbSession) × (handle_list fuel path
          (session local_id remote_id (ok a ∷ (ok first ∷ received packets)) [])
        ≡ gave s' (map item es))
unfolding handle_list
handle_list-dents k fuel local_id remote_id path a first packets es tail short wide small fits
      enough okayed wide_packets sent =
    let request = to_le_bytes (subcommand_code list) ++ (to_le_bytes (length path) ++ path) in
    let asked =
      send_and_expect_okay-acked local_id remote_id request a (ok first ∷ received packets) []
        (omega arith) okayed in
    let source : Source k
        (session local_id remote_id (received packets) (write_of local_id remote_id request ∷ []))
        first.payload (dents es tail) =
      record {
        local_id = local_id;
        remote_id = remote_id;
        packets = packets;
        written = write_of local_id remote_id request ∷ [];
        is = refl;
        wide = wide_packets;
        rest = sym sent;
      } in
    let (s', listed) =
      list_loop-dents k fuel es [] _ first.payload tail wide small fits enough source in
    (s', rw (lt→ltb (length path) (2 ^ 32) (omega arith), asked) listed)
