-- ===== src/Client/Device/Examples.antt =====
-- The device without a dispatcher at concrete messages.
use adb_client.Base.{
  ltb, if◌then◌else◌, take, drop, replicate, All, slice, ◌≡◌, refl, true, false, List, [], ◌∷◌, map,
  arith,
}
use adb_client.Base.Outcome.{ok}
use adb_client.Base.Bytes.{Bytes, bytes, bytes_eq}
use adb_client.Base.Utf8.{from_utf8_lossy, is_utf8}
use adb_client.Client.Kinds.{cnxn, write, okay}
use adb_client.Client.Message.{Message, try_new, try_new_header}
use adb_client.Client.Message.Codec.{message_of}
use adb_client.Client.Session.{AdbSession, write_new}
use adb_client.Client.Session.Pushed.{session}
use adb_client.Client.Dispatched.Source.{received}
use adb_client.Client.Device.{connect, host_banner}
use adb_client.Client.Device.Handshake.{offers, later, replies, unfinished, connect-offers}
use adb_client.Client.Device.Listing.{
  directory, file, gave, panicked, from_mode_and_entry, split_payload, read_bytes_from_transport,
  handle_list,
}
use adb_client.Client.Device.Listing.Entries.{Entry, Fits, dents, item, handle_list-dents}

banner_text : is_utf8 (bytes "device::") ≡ true
unfolding is_utf8 from_utf8_lossy bytes_eq
banner_text = refl

-- The device asks twice.
connect-offers_example :
    connect
      (record { sign = λ token. ok (bytes "sig"); android_pubkey = ok (bytes "key") })
      (ok tt)
      (ok tt)
      (session 0 0 (offers (bytes "t1" ∷ bytes "t2" ∷ []) (bytes "device::")) [])
    ≡ (if ltb 2 8
        then (
          session 0 0 [] (
              message_of cnxn 0x01000000 1048576 host_banner
              ∷ replies (λ token. bytes "sig") (bytes "key") false (bytes "t1" ∷ bytes "t2" ∷ [])),
          ok tt,
        )
        else (
          session 0 0 (later (drop 8 (bytes "t1" ∷ bytes "t2" ∷ [])) (bytes "device::")) (
              message_of cnxn 0x01000000 1048576 host_banner
              ∷ replies
                  (λ token. bytes "sig")
                  (bytes "key")
                  false
                  (take 8 (bytes "t1" ∷ bytes "t2" ∷ []))),
          unfinished,
        ))
connect-offers_example =
    connect-offers (λ token. bytes "sig") (bytes "key") (bytes "device::") (λ token. omega arith)
      (omega arith) (bytes "t1" ∷ bytes "t2" ∷ []) (ok tt) banner_text

abbrev entries : List Entry
entries =
    record { mode = 0x41ED; size = 4096; time = 7; name = bytes "bin" }
    ∷ record { mode = 0x81A4; size = 5; time = 8; name = bytes "notes.txt" }
    ∷ []

names_are_text : (is_utf8 (bytes "bin") ≡ true) × (is_utf8 (bytes "notes.txt") ≡ true)
unfolding is_utf8 from_utf8_lossy bytes_eq
names_are_text = (refl, refl)

kinds :
    map item entries
    ≡ directory (record { name = bytes "bin"; time = 7; permissions = 0x1ED; size = 4096 })
      ∷ file (record { name = bytes "notes.txt"; time = 8; permissions = 0x1A4; size = 5 })
      ∷ []
unfolding from_mode_and_entry
kinds = refl

entries-Fits : All (Fits 20) entries
entries-Fits = (
  record {
    mode_fits = omega arith;
    size_fits = omega arith;
    time_fits = omega arith;
    name_fits = omega arith;
    name_text = names_are_text.0;
  },
  (
    record {
      mode_fits = omega arith;
      size_fits = omega arith;
      time_fits = omega arith;
      name_fits = omega arith;
      name_text = names_are_text.1;
    },
    tt,
  ),
)

abbrev stream : Bytes
stream = dents entries (replicate 16 0)

abbrev carrying : Bytes → Message
carrying payload = message_of write 9 3 payload

-- A first packet of 10 bytes, one of 30, and the rest.
handle_list-dents_example :
    (s' : AdbSession) × (handle_list 3 (bytes "/system") (
        session 3 9
          (ok (message_of okay 9 3 [])
            ∷ (ok (carrying (take 10 stream))
                ∷ received (carrying (slice 10 40 stream) ∷ carrying (drop 40 stream) ∷ [])))
          [])
      ≡ gave s' (map item entries))
handle_list-dents_example =
    handle_list-dents 20 3 3 9 (bytes "/system") (message_of okay 9 3 [])
      (carrying (take 10 stream)) (carrying (slice 10 40 stream) ∷ carrying (drop 40 stream) ∷ [])
      entries (replicate 16 0) (omega arith) (omega arith) (omega arith) entries-Fits (omega arith)
      refl (omega arith, tt) refl

-- Four bytes that come in three packets are out of range of the second.
three_packets :
    read_bytes_from_transport 4
      (session 3 9 (received (carrying (bytes "E") ∷ carrying (bytes "NT") ∷ [])) [])
      (bytes "D")
    ≡ panicked
unfolding read_bytes_from_transport split_payload write_new try_new try_new_header
three_packets = refl
