-- ===== src/Cli/Direct/Installed.antt =====
-- What an install comes to, from the arguments of the program to what it gets back.
use adb_client.Base.{concat, ◌≡◌, ◌⊎◌, List, [], ◌∷◌}
use adb_client.Base.Bytes.{Bytes, bytes}
use adb_client.Base.Outcome.{ok}
use adb_client.Base.Utf8.{from_utf8_lossy}
use adb_client.Base.White.{lines, trim}
use adb_client.Cli.Daemon.Handle.{Device, Host, pm_install}

-- One of the lines is `Success`, up to white space around it.
abbrev pub HasSuccess : List Bytes → Type 0
HasSuccess [] = ⊥
HasSuccess (line ∷ rest) = (trim line ≡ bytes "Success") ⊎ HasSuccess rest

module _ {σ : Type 0} (host : Host) (d : Device σ) where
  -- The package is there: its file could be read and pushed, and the package manager ended well and
  -- printed `text`, with `Success` on a line.
  abbrev pub IsInstalled : (source flags user : Bytes) → σ → (text : Bytes) → Type 0
  IsInstalled source flags user s text =
      (content : Bytes) × ((host.open_file source ≡ ok content)
        × (((d.push_content content host.remote s).0 ≡ ok tt)
            × (let s' = (d.push_content content host.remote s).1 in
                let run = d.shell_command (pm_install flags user host.remote) s' in
                (run.1 ≡ ok tt)
                × ((concat run.0 ≡ text) × HasSuccess (lines (from_utf8_lossy text))))))
