-- ===== src/Client/KeyFile/Examples.antt =====
-- Calls that look for the host key, at concrete files.
use adb_client.Base.{◌==◌, if◌then◌else◌, ℕ, ◌≡◌, refl, Option, none, some, [], ◌∷◌}
use adb_client.Base.Bytes.{Bytes}
use adb_client.Base.Outcome.{ok, err}
use adb_client.Client.KeyFile.{
  KeyFormat, KeyError, io_error, Store, put, advance, remove, parsed, read_adb_private_key, reading,
  returned, absent, generate, create_new, write, synced, hard_link, link_exists, finish, yield,
  reread, System, update, pick, Reach, here, next,
}
use adb_client.Client.KeyFile.Effects.{IsWhole}
use adb_client.Client.KeyFile.Shared.{Reach-same_key}
use adb_client.Client.KeyFile.Alone.{Returns, reading-Returns}

-- A key is a byte between two zeros.
from_bytes : Bytes → Option ℕ
from_bytes (a ∷ k ∷ b ∷ []) = some k
from_bytes bs = none

from_bytes-lem : (k : ℕ) → from_bytes (0 ∷ k ∷ 0 ∷ []) ≡ some k
unfolding from_bytes
from_bytes-lem k = refl

abbrev small_keys : KeyFormat
small_keys = record {
  Key = ℕ;
  to_pem = λ k. 0 ∷ k ∷ 0 ∷ [];
  from_pem = from_bytes;
  from_pem-to_pem = from_bytes-lem;
}

abbrev empty : Store
empty = record { shared = none; temporary = λ pid n. none; sequence = λ pid. 0 }

abbrev start : System small_keys
start = record { store = empty; calls = λ i. reading }

-- Call `i` runs in process `i`.
abbrev process : ℕ → ℕ
process i = i

-- Both calls find no key and make one; the second is the first to link its file.
race : (t : System small_keys) × Reach small_keys process start t
unfolding update put advance remove parsed read_adb_private_key from_bytes
race = (
  _,
  next
      (next
        (next
          (next
            (next
              (next
                (next
                  (next
                    (next
                      (next
                        (next
                          (next
                            (next
                              (next (next (next here (pick 0 (absent refl))) (pick 1 (absent refl)))
                                (pick 0 (generate 7)))
                              (pick 1 (generate 9)))
                            (pick 0 (create_new 0 refl refl)))
                          (pick 1 (create_new 0 refl refl)))
                        (pick 1 (write [] (0 ∷ 9 ∷ 0 ∷ []) [] refl refl)))
                      (pick 0 (write [] (0 ∷ []) (7 ∷ 0 ∷ []) refl refl)))
                    (pick 0 (write (0 ∷ []) (7 ∷ 0 ∷ []) [] refl refl)))
                  (pick 0 (synced refl)))
                (pick 1 (synced refl)))
              (pick 1 (hard_link refl)))
            (pick 0 (link_exists (0 ∷ 9 ∷ 0 ∷ []) refl)))
          (pick 1 finish))
        (pick 0 yield))
      (pick 0 (reread 9 refl)),
)

both_returned : (race.0.calls 0 ≡ returned (ok 9)) × (race.0.calls 1 ≡ returned (ok 9))
unfolding race update
both_returned = (refl, refl)

Reach-same_key_example :
    IsWhole small_keys race.0.store.shared
    × (((i j k l : ℕ)
          → race.0.calls i ≡ returned (ok k)
          → race.0.calls j ≡ returned (ok l)
          → (k ≡ l) × (race.0.store.shared ≡ some (0 ∷ k ∷ 0 ∷ [])))
        × ((i : ℕ) (e : KeyError) → race.0.calls i ≡ returned (err e) → e ≡ io_error))
Reach-same_key_example = Reach-same_key small_keys process start race.0 (tt, λ i. refl) race.1

-- A call has been killed behind its first file.
abbrev littered : Store
littered = record empty { temporary = λ pid n. if n == 0 then some (0 ∷ []) else none }

reading-Returns_example : Returns small_keys 4 littered reading
reading-Returns_example = reading-Returns small_keys 4 1 littered 5 tt refl
