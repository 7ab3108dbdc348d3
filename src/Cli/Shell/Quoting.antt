-- ===== src/Cli/Shell/Quoting.antt =====
-- A shell reads the commands as the words that the program means, whatever a path holds.
use adb_client.Base.{
  ◌==◌, ==_iff, Bool-cases, ℕ, ◌≡◌, refl, sym, ap, ◌∙◌, inl, inr, Bool, true, false, Option, none,
  some, List, [], ◌∷◌, ◌++◌, append-nil, append_assoc,
}
use adb_client.Base.Bytes.{Bytes, bytes}
use adb_client.Base.Split.{contains}
use adb_client.Cli.Shell.Reader.{
  Token, word, and_if, between, in_word, in_quotes, is_ordinary, char_kind, step, scan, tokens,
  words, uninstall_words,
}
use adb_client.Cli.Requests.{UninstallRequest}
use adb_client.Cli.Shell.{
  escape_quotes, shell_quote, mkdir_command, link_command, stat_command, readlink_command,
  user_words, pm_uninstall, uninstall_command,
}

step_in_quotes :
    (b : ℕ) (seen : Bytes) (done : List Token) (rest : Bytes)
    → (b == b'\'') ≡ false
    → scan in_quotes seen done (b ∷ rest) ≡ scan in_quotes (seen ++ b ∷ []) done rest
unfolding scan step
step_in_quotes b seen done rest h = rw (h, scan) refl

scan-escape_quotes :
    (value seen : Bytes) (done : List Token) (rest : Bytes)
    → scan in_quotes seen done (escape_quotes value ++ b'\'' ∷ rest)
      ≡ scan in_word (seen ++ value) done rest
unfolding scan escape_quotes char_kind is_ordinary
scan-escape_quotes [] seen done rest = ap (λ w. scan in_word w done rest) (sym (append-nil seen))
scan-escape_quotes (b ∷ value) seen done rest =
    let shift = ap (λ w. scan in_word w done rest) (append_assoc seen (b ∷ []) value) in
    let below = scan-escape_quotes value (seen ++ b ∷ []) done rest ∙ shift in
    elim (Bool-cases (b == b'\'')) [
      | inl same ↦
          let eq : b ≡ b'\'' = (==_iff b b'\'').0 same in
          rw same (
            ap (λ c. scan in_quotes (seen ++ c ∷ []) done (escape_quotes value ++ b'\'' ∷ rest))
              (sym eq)
            ∙ below)
      | inr other ↦
          rw other (step_in_quotes b seen done (escape_quotes value ++ b'\'' ∷ rest) other ∙ below)
    ]

-- A quoted text puts that text into a word.
scan-shell_quote :
    (value seen : Bytes) (done : List Token) (rest : Bytes)
    → (scan between seen done (shell_quote value ++ rest) ≡ scan in_word value done rest)
      × (scan in_word seen done (shell_quote value ++ rest)
          ≡ scan in_word (seen ++ value) done rest)
unfolding scan shell_quote char_kind step is_ordinary
scan-shell_quote value seen done rest =
    let tail : (front : Bytes)
        → scan in_quotes front done (escape_quotes value ++ b'\'' ∷ [] ++ rest)
          ≡ scan in_word (front ++ value) done rest =
      λ front.
        ap (scan in_quotes front done) (append_assoc (escape_quotes value) (b'\'' ∷ []) rest)
        ∙ scan-escape_quotes value front done rest in
    (tail [], tail seen)

read_quoted :
    (value : Bytes) (done : List Token) (rest : Bytes)
    → scan between [] done (shell_quote value ++ rest) ≡ scan in_word value done rest
read_quoted value done rest = (scan-shell_quote value [] done rest).0

last_quoted :
    (value : Bytes) (done : List Token)
    → scan between [] done (shell_quote value) ≡ some (done ++ word value ∷ [])
unfolding scan
last_quoted value done =
    ap (scan between [] done) (sym (append-nil (shell_quote value))) ∙ read_quoted value done []

tokens-link_command :
    (parent remote target : Bytes)
    → tokens (link_command parent remote target)
      ≡ some (
          words (bytes "mkdir" ∷ bytes "-p" ∷ bytes "--" ∷ parent ∷ [])
          ++ (and_if ∷ words (bytes "rm" ∷ bytes "-f" ∷ bytes "--" ∷ remote ∷ []))
          ++ (and_if ∷ words (bytes "ln" ∷ bytes "-s" ∷ bytes "--" ∷ target ∷ remote ∷ [])))
unfolding tokens link_command scan step char_kind is_ordinary contains
tokens-link_command parent remote target =
    rw (read_quoted parent, read_quoted remote, read_quoted target, last_quoted remote) refl

tokens-pm_uninstall :
    (keep_data : Bool) (user : Option Bytes) (package_name : Bytes)
    → tokens (pm_uninstall keep_data user package_name)
      ≡ some (words (uninstall_words keep_data user package_name))
unfolding tokens pm_uninstall user_words scan step char_kind is_ordinary contains
tokens-pm_uninstall true none p = last_quoted p _
tokens-pm_uninstall false none p = last_quoted p _
tokens-pm_uninstall true (some u) p = read_quoted u _ _ ∙ last_quoted p _
tokens-pm_uninstall false (some u) p = read_quoted u _ _ ∙ last_quoted p _

pub tokens-uninstall_command :
    (r : UninstallRequest)
    → tokens (uninstall_command r)
      ≡ some (words (uninstall_words r.keep_data r.user r.package_name))
unfolding uninstall_command
tokens-uninstall_command r = tokens-pm_uninstall r.keep_data r.user r.package_name

-- Whatever bytes the paths, the user and the package of the caller are, the shell reads each
-- command of the program as the words that the program means, with each of the caller's texts as
-- exactly one word: to make a directory, to link a path to a target in a directory that is made,
-- to read the size and the time of a file, to read a link, to uninstall a package.
pub tokens_commands :
    (parent path target : Bytes) (request : UninstallRequest)
    → (tokens (mkdir_command path)
        ≡ some (words (bytes "mkdir" ∷ bytes "-p" ∷ bytes "--" ∷ path ∷ [])))
      × ((tokens (link_command parent path target)
            ≡ some (
                words (bytes "mkdir" ∷ bytes "-p" ∷ bytes "--" ∷ parent ∷ [])
                ++ (and_if ∷ words (bytes "rm" ∷ bytes "-f" ∷ bytes "--" ∷ path ∷ []))
                ++ (and_if ∷ words (bytes "ln" ∷ bytes "-s" ∷ bytes "--" ∷ target ∷ path ∷ []))))
          × ((tokens (stat_command path)
                ≡ some (words (bytes "stat" ∷ bytes "-c" ∷ bytes "%s %Y" ∷ bytes "--" ∷ path ∷ [])))
              × ((tokens (readlink_command path)
                    ≡ some (words (bytes "readlink" ∷ bytes "--" ∷ path ∷ [])))
                  × (tokens (uninstall_command request)
                      ≡ some (
                          words (
                            uninstall_words request.keep_data request.user
                              request.package_name))))))
unfolding tokens mkdir_command stat_command readlink_command scan step char_kind is_ordinary
    contains
tokens_commands parent path target request = (
  last_quoted path _,
  (
    tokens-link_command parent path target,
    (last_quoted path _, (last_quoted path _, tokens-uninstall_command request)),
  ),
)
