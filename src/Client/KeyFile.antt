-- ===== src/Client/KeyFile.antt =====
-- adb_client/src/message_devices/models/adb_rsa_key.rs: the file of the host key. Processes that look
-- for the key at the same time share the file system, of which each call is one atomic step.
pub mod Effects
pub mod Shared
pub mod Alone
mod Examples
use adb_client.Base.{
  ◌==◌, if◌then◌else◌, take, ℕ, suc, ◌+◌, ◌-◌, ◌*◌, min, ◌≡◌, ap, ◌&&◌, Option, none, some, [],
  ◌++◌,
}
use adb_client.Base.Bytes.{Bytes}
use adb_client.Base.Outcome.{Result, ok, err}

-- What the program uses of the library for RSA.
pub record KeyFormat : Type 1 where
  pub Key : Type 0
  pub to_pem : Key → Bytes
  pub from_pem : Bytes → Option Key
  pub from_pem-to_pem : (k : Key) → from_pem (to_pem k) ≡ some k

pub data KeyError : Type 0 where
  io_error invalid_key disappeared : KeyError

-- The shared file, the temporary files by process id and sequence number, and the next sequence
-- number of each process.
pub record Store : Type 0 where
  pub shared : Option Bytes
  pub temporary : ℕ → ℕ → Option Bytes
  pub sequence : ℕ → ℕ

unfoldable pub put : ℕ → ℕ → Option Bytes → (ℕ → ℕ → Option Bytes) → ℕ → ℕ → Option Bytes
put pid n content files q m = if q == pid && m == n then content else files q m

-- `fetch_add(1)`
unfoldable pub advance : ℕ → (ℕ → ℕ) → ℕ → ℕ
advance pid sequence q = if q == pid then suc (sequence q) else sequence q

unfoldable pub remove : ℕ → ℕ → Store → Store
remove pid n store = record store { temporary = put pid n none store.temporary }

module _ (format : KeyFormat) where
  open format use {Key, to_pem, from_pem}

  unfoldable pub parsed : Option Key → Result KeyError (Option Key)
  parsed none = err invalid_key
  parsed (some k) = ok (some k)

  -- `read_adb_private_key`, where the read does not fail.
  unfoldable pub read_adb_private_key : Option Bytes → Result KeyError (Option Key)
  read_adb_private_key none = ok none
  read_adb_private_key (some content) = parsed (from_pem content)

  -- Where a call of `load_or_create_adb_private_key` stands: its next step.
  pub data Progress : Type 0 where
    reading : Progress
    generating : Progress
    naming : Key → Progress
    writing : Key → (pid n : ℕ) → (left : Bytes) → Progress
    linking : Key → (pid n : ℕ) → Progress
    published : Key → (pid n : ℕ) → Progress
    overtaken : (pid n : ℕ) → Progress
    rereading : Progress
    returned : Result KeyError Key → Progress

  abbrev pub IsRunning : Progress → Type 0
  IsRunning (returned r) = ⊥
  IsRunning _ = Unit

  -- One step of the call in process `pid`. A write takes any part of what is left, and every call of
  -- the system may fail.
  pub data Move (pid : ℕ) : Store → Progress → Store → Progress → Type 0 where
    found :
        {s : Store} (k : Key)
        → read_adb_private_key s.shared ≡ ok (some k)
        → Move pid s reading s (returned (ok k))
    absent : {s : Store} → read_adb_private_key s.shared ≡ ok none → Move pid s reading s generating
    unreadable :
        {s : Store} (e : KeyError)
        → read_adb_private_key s.shared ≡ err e
        → Move pid s reading s (returned (err e))
    generate : {s : Store} (k : Key) → Move pid s generating s (naming k)
    create_new :
        {s : Store} {k : Key} (n : ℕ)
        → n ≡ s.sequence pid
        → s.temporary pid n ≡ none
        → Move pid s
            (naming k)
            (record s {
              temporary = put pid n (some []) s.temporary;
              sequence = advance pid s.sequence;
            })
            (writing k pid n (to_pem k))
    already_exists :
        {s : Store} {k : Key} (content : Bytes)
        → s.temporary pid (s.sequence pid) ≡ some content
        → Move pid s (naming k) (record s { sequence = advance pid s.sequence }) (naming k)
    write :
        {s : Store} {k : Key} {n : ℕ} {left : Bytes} (content front back : Bytes)
        → s.temporary pid n ≡ some content
        → left ≡ front ++ back
        → Move pid s
            (writing k pid n left)
            (record s { temporary = put pid n (some (content ++ front)) s.temporary })
            (writing k pid n back)
    synced :
        {s : Store} {k : Key} {n : ℕ} {left : Bytes}
        → left ≡ []
        → Move pid s (writing k pid n left) s (linking k pid n)
    write_failed :
        {s : Store} {k : Key} {n : ℕ} {left : Bytes}
        → Move pid s (writing k pid n left) (remove pid n s) (returned (err io_error))
    hard_link :
        {s : Store} {k : Key} {n : ℕ}
        → s.shared ≡ none
        → Move pid s (linking k pid n) (record s { shared = s.temporary pid n }) (published k pid n)
    link_exists :
        {s : Store} {k : Key} {n : ℕ} (content : Bytes)
        → s.shared ≡ some content
        → Move pid s (linking k pid n) s (overtaken pid n)
    link_failed :
        {s : Store} {k : Key} {n : ℕ}
        → Move pid s (linking k pid n) (remove pid n s) (returned (err io_error))
    finish :
        {s : Store} {k : Key} {n : ℕ}
        → Move pid s (published k pid n) (remove pid n s) (returned (ok k))
    yield : {s : Store} {n : ℕ} → Move pid s (overtaken pid n) (remove pid n s) rereading
    reread :
        {s : Store} (k : Key)
        → read_adb_private_key s.shared ≡ ok (some k)
        → Move pid s rereading s (returned (ok k))
    lost :
        {s : Store}
        → read_adb_private_key s.shared ≡ ok none
        → Move pid s rereading s (returned (err disappeared))
    spoiled :
        {s : Store} (e : KeyError)
        → read_adb_private_key s.shared ≡ err e
        → Move pid s rereading s (returned (err e))
    fail : {s : Store} {p : Progress} → IsRunning p → Move pid s p s (returned (err io_error))

  -- The calls, by a number for each.
  pub record System : Type 0 where
    pub store : Store
    pub calls : ℕ → Progress

  unfoldable pub update : (ℕ → Progress) → ℕ → Progress → ℕ → Progress
  update calls i p j = if j == i then p else calls j

  module _ (pid : ℕ → ℕ) where
    -- The scheduler lets any call go on; one that it never picks again has been killed.
    pub data Step : System → System → Type 0 where
      pick :
          {s : System} (i : ℕ) {store : Store} {p : Progress}
          → Move (pid i) s.store (s.calls i) store p
          → Step s (record { store = store; calls = update s.calls i p })

    pub data Reach (s : System) : System → Type 0 where
      here : Reach s s
      next : {t u : System} → Reach s t → Step t u → Reach s u
