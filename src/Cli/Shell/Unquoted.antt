-- ===== src/Cli/Shell/Unquoted.antt =====
-- The command of `uninstall_wireless` has no quotes: it is safe by what the request may hold.
use adb_client.Base.{
  if◌then◌else◌, Bool-cases, All, ◌≡◌, refl, sym, ap, ◌∙◌, ◌≢◌, inl, inr, Bool, true, false, not,
  ◌||◌, Option, none, some, List, [], ◌∷◌, ◌++◌, append-nil, append_assoc, arith,
}
use mathlib.Core.Path.{subst}
use adb_client.Base.Bytes.{Bytes, bytes}
use adb_client.Base.Outcome.{ok, ok-injective}
use adb_client.Base.Split.{contains}
use adb_client.Cli.Requests.{
  all_digits, bad_user, UninstallRequest, is_package_byte, is_package, check_uninstall,
  uninstall_loop, parse_uninstall_request,
}
use adb_client.Cli.Shell.Quoting.{tokens-uninstall_command}
use adb_client.Cli.Shell.{uninstall_command, user_flag, wireless_uninstall_command}
use adb_client.Cli.Shell.Reader.{
  Token, word, CharKind, between, in_word, is_ordinary, char_kind, step, scan, tokens, words,
  user_tokens, uninstall_words,
}

-- What every request that is accepted holds: a user of digits, and a name of package bytes.
abbrev IsAccepted : UninstallRequest → Type 0
IsAccepted r = (bad_user r.user ≡ false) × (is_package r.package_name ≡ true)

check_uninstall-IsAccepted :
    (keep_data : Bool) (user package_name : Option Bytes) (r : UninstallRequest)
    → check_uninstall keep_data user package_name ≡ ok r
    → IsAccepted r
unfolding check_uninstall
check_uninstall-IsAccepted keep_data user none r e = cc
check_uninstall-IsAccepted keep_data user (some name) r e =
    elim (Bool-cases (not (is_package name) || bad_user user)) [
      | inl bad ↦ absurd (ground (arith, e, bad))
      | inr good ↦
          let made : UninstallRequest = record {
            keep_data = keep_data;
            user = user;
            package_name = name;
          } in
          let same : made ≡ r = ok-injective made r (sym (rw (good, check_uninstall) refl) ∙ e) in
          subst IsAccepted same (ground (arith, good), ground (arith, good))
    ]

uninstall_loop-IsAccepted :
    (args : List Bytes) (waits keep_data : Bool) (user package_name : Option Bytes)
    (r : UninstallRequest)
    → uninstall_loop args waits keep_data user package_name ≡ ok r
    → IsAccepted r
unfolding uninstall_loop
uninstall_loop-IsAccepted [] true keep_data user name r e = cc
uninstall_loop-IsAccepted (arg ∷ args) true keep_data user name r e =
    uninstall_loop-IsAccepted args false keep_data (some arg) name r e
uninstall_loop-IsAccepted [] false keep_data user name r e =
    check_uninstall-IsAccepted keep_data user name r e
uninstall_loop-IsAccepted (arg ∷ args) false keep_data user name r e =
    let on_flag = uninstall_loop-IsAccepted args false true user name r in
    let on_user = uninstall_loop-IsAccepted args true keep_data user name r in
    let on_plain = uninstall_loop-IsAccepted args false keep_data user (some arg) r in
    ground (arith, e, on_flag, on_user, on_plain)

parse_uninstall_request-IsAccepted :
    (args : List Bytes) (r : UninstallRequest) → parse_uninstall_request args ≡ ok r → IsAccepted r
unfolding parse_uninstall_request
parse_uninstall_request-IsAccepted [] r e = check_uninstall-IsAccepted false none none r e
parse_uninstall_request-IsAccepted (command ∷ args) r e =
    uninstall_loop-IsAccepted args false false none none r e

-- A text that the shell leaves as it is.
abbrev IsPlain : Bytes → Type 0
IsPlain bs = All (λ b. char_kind b ≡ CharKind.ordinary) bs

all_digits-IsPlain : (bs : Bytes) → all_digits bs ≡ true → IsPlain bs
unfolding all_digits char_kind is_ordinary
all_digits-IsPlain [] h = tt
all_digits-IsPlain (b ∷ bs) h = (ground (arith, h), all_digits-IsPlain bs (ground (arith, h)))

is_package-IsPlain : (bs : Bytes) → is_package bs ≡ true → IsPlain bs
unfolding is_package is_package_byte char_kind is_ordinary contains
is_package-IsPlain [] h = tt
is_package-IsPlain (b ∷ bs) h = (ground (arith, h), is_package-IsPlain bs (ground (arith, h)))

scan-IsPlain :
    (bs seen : Bytes) (done : List Token) (rest : Bytes)
    → IsPlain bs
    → scan in_word seen done (bs ++ rest) ≡ scan in_word (seen ++ bs) done rest
unfolding scan step
scan-IsPlain [] seen done rest h = ap (λ w. scan in_word w done rest) (sym (append-nil seen))
scan-IsPlain (b ∷ bs) seen done rest (p, ps) =
    rw (p, scan)
      (scan-IsPlain bs (seen ++ b ∷ []) done rest ps
        ∙ ap (λ w. scan in_word w done rest) (append_assoc seen (b ∷ []) bs))

read_plain :
    (bs : Bytes) (done : List Token) (rest : Bytes)
    → IsPlain bs
    → bs ≢ []
    → scan between [] done (bs ++ rest) ≡ scan in_word bs done rest
unfolding scan step
read_plain [] done rest h ne = absurd (ne refl)
read_plain (b ∷ bs) done rest (p, ps) ne = rw (p, scan) (scan-IsPlain bs (b ∷ []) done rest ps)

last_plain :
    (bs : Bytes) (done : List Token)
    → IsPlain bs
    → bs ≢ []
    → scan between [] done bs ≡ some (done ++ word bs ∷ [])
unfolding scan
last_plain bs done h ne =
    ap (scan between [] done) (sym (append-nil bs)) ∙ read_plain bs done [] h ne

tokens-user_flag :
    (user : Option Bytes) (name : Bytes) (done : List Token)
    → bad_user user ≡ false
    → user ≢ some []
    → IsPlain name
    → name ≢ []
    → scan between [] done (user_flag user ++ name)
      ≡ some (done ++ words (user_tokens user ++ name ∷ []))
unfolding scan step char_kind is_ordinary contains user_flag bad_user
tokens-user_flag none name done d given h ne = last_plain name done h ne
tokens-user_flag (some user) name done d given h ne =
    let digits = all_digits-IsPlain user (ground (arith, d)) in
    let there : user ≢ [] = λ e. given (ap some e) in
    let all = done ++ word (bytes "--user") ∷ [] in
    let join = append_assoc user (bytes " ") name in
    ap (scan between [] all) join
    ∙ read_plain user all (bytes " " ++ name) digits there
    ∙ last_plain name (all ++ word user ∷ []) h ne
    ∙ ap some (append_assoc all (word user ∷ []) (word name ∷ []) ∙ append_assoc done _ _)

tokens-unquoted :
    (keep_data : Bool) (user : Option Bytes) (name : Bytes)
    → bad_user user ≡ false
    → user ≢ some []
    → IsPlain name
    → name ≢ []
    → tokens (
        bytes "pm uninstall "
        ++ ((if keep_data then bytes "-k " else []) ++ (user_flag user ++ name)))
      ≡ some (words (uninstall_words keep_data user name))
unfolding tokens scan step char_kind is_ordinary contains
tokens-unquoted true user name d given h ne = tokens-user_flag user name _ d given h ne
tokens-unquoted false user name d given h ne = tokens-user_flag user name _ d given h ne

-- For each accepted request whose package and user are not empty, the shell reads the command for
-- a wireless device as the same words as the quoted command for a device behind a server.
pub tokens-wireless_uninstall_command :
    (args : List Bytes) (r : UninstallRequest)
    → parse_uninstall_request args ≡ ok r
    → r.package_name ≢ []
    → r.user ≢ some []
    → (tokens (wireless_uninstall_command r)
        ≡ some (words (uninstall_words r.keep_data r.user r.package_name)))
      × (tokens (wireless_uninstall_command r) ≡ tokens (uninstall_command r))
unfolding wireless_uninstall_command
tokens-wireless_uninstall_command args r e ne given =
    let (digits, name) = parse_uninstall_request-IsAccepted args r e in
    let plain = is_package-IsPlain r.package_name name in
    let read = tokens-unquoted r.keep_data r.user r.package_name digits given plain ne in
    (read, read ∙ sym (tokens-uninstall_command r))
