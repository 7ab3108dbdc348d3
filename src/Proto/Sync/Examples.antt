-- ===== src/Proto/Sync/Examples.antt =====
-- The theorems on the sync service at concrete files and replies.
use adb_client.Base.{◌≡◌, List, [], ◌++◌, some, concat}
use adb_client.Base.Outcome.{ok}
use adb_client.Base.Bytes.{bytes}
use adb_client.Proto.Sync.Request.{data_frames}
use adb_client.Proto.Sync.Reader
use adb_client.Proto.Sync.Reader.{SyncReader, recv, data_chunk, SyncEvent, next_event}
use adb_client.Proto.Sync.Transfer.{read_all, ended, file_of, with_done, read_all-data_frames}

read_all-data_frames_example :
    (events : List SyncEvent) × (read_all 6
        (Reader.push (Reader.new recv) (concat (data_frames (bytes "file")) ++ with_done 9 []))
      ≡ (ended [], ok events))
    × (file_of events ≡ some (bytes "file"))
read_all-data_frames_example = read_all-data_frames (bytes "file") [] 9
