-- ===== src/Cli/Requests/Installs.antt =====
-- The install requests that are accepted, and how each can be written.
use adb_client.Base.{
  Bool-cases, All, All-append, ℕ, ◌≤◌, ◌≡◌, ◌≢◌, ◌↔◌, ◌⊎◌, refl, sym, ap, ◌∙◌, inl, inr, Bool, true,
  false, ◌||◌, Option, none, some, List, [], ◌∷◌, ◌++◌, append-nil, append_assoc, arith,
}
use mathlib.Core.Path.{subst}
use adb_client.Base.Bytes.{Bytes, bytes, bytes_eq, bytes_eq→eq}
use adb_client.Base.Outcome.{ok, ok-injective}
use adb_client.Base.Split.{contains, contains_any}
use adb_client.Cli.Requests.{
  all_digits, starts_with_dash, bad_user, flag, plain, InstallRequest, install_kind, check_install,
  install_loop, parse_install_request,
}

-- What the program relies on in a request.
pub record IsAccepted (r : InstallRequest) : Type 0 where
  pub flags_known : All (λ arg. install_kind arg ≡ flag) r.flags
  pub user_digits : bad_user r.user ≡ false
  pub source_plain : install_kind r.source ≡ plain
  pub source_clean : contains_any (b'\n' ∷ b'\r' ∷ b'\t' ∷ []) r.source ≡ false

-- The source that has been read so far is no option.
abbrev SourceOk : Option Bytes → Type 0
SourceOk none = Unit
SourceOk (some source) = install_kind source ≡ plain

check_install-IsAccepted :
    (flags : List Bytes) (user source : Option Bytes) (r : InstallRequest)
    → All (λ arg. install_kind arg ≡ flag) flags
    → SourceOk source
    → check_install flags user source ≡ ok r
    → IsAccepted r
unfolding check_install
check_install-IsAccepted flags user none r f s e = cc
check_install-IsAccepted flags user (some source) r f s e =
    elim (Bool-cases (contains_any (b'\n' ∷ b'\r' ∷ b'\t' ∷ []) source || bad_user user)) [
      | inl bad ↦ absurd (ground (arith, e, bad))
      | inr good ↦
          let made : InstallRequest = record { flags = flags; user = user; source = source } in
          let same : made ≡ r = ok-injective made r (sym (rw (good, check_install) refl) ∙ e) in
          subst IsAccepted same (record {
            flags_known = f;
            user_digits = ground (arith, good);
            source_plain = s;
            source_clean = ground (arith, good);
          })
    ]

install_loop-IsAccepted :
    (args : List Bytes) (waits : Bool) (flags : List Bytes) (user source : Option Bytes)
    (r : InstallRequest)
    → All (λ arg. install_kind arg ≡ flag) flags
    → SourceOk source
    → install_loop args waits flags user source ≡ ok r
    → IsAccepted r
unfolding install_loop
install_loop-IsAccepted [] true flags user source r f s e = cc
install_loop-IsAccepted (name ∷ args) true flags user source r f s e =
    install_loop-IsAccepted args false flags (some name) source r f s e
install_loop-IsAccepted [] false flags user source r f s e =
    check_install-IsAccepted flags user source r f s e
install_loop-IsAccepted (arg ∷ args) false flags user source r f s e =
    let known : install_kind arg ≡ flag → All (λ a. install_kind a ≡ flag) (flags ++ arg ∷ []) =
      λ k. All-append (λ a. install_kind a ≡ flag) flags (arg ∷ []) f (k, tt) in
    let on_flag = λ (k : install_kind arg ≡ flag).
      install_loop-IsAccepted args false (flags ++ arg ∷ []) user source r (known k) s in
    let on_user = install_loop-IsAccepted args true flags user source r f s in
    let on_plain = λ (k : install_kind arg ≡ plain).
      install_loop-IsAccepted args false flags user (some arg) r f k in
    ground (arith, e, on_flag, on_user, on_plain)

-- Every request that is accepted names one source that is no option and has no line end or tab,
-- a user of digits only, and no flag but `-r`, `-g` and `-d`.
pub parse_install_request-IsAccepted :
    (args : List Bytes) (r : InstallRequest) → parse_install_request args ≡ ok r → IsAccepted r
unfolding parse_install_request
parse_install_request-IsAccepted [] r e = check_install-IsAccepted [] none none r tt tt e
parse_install_request-IsAccepted (command ∷ args) r e =
    install_loop-IsAccepted args false [] none none r tt tt e

abbrev user_arguments : Option Bytes → List Bytes
user_arguments none = []
user_arguments (some user) = bytes "--user" ∷ user ∷ []

-- The arguments that say a request.
abbrev pub install_arguments : InstallRequest → List Bytes
install_arguments r = bytes "install" ∷ (r.flags ++ (user_arguments r.user ++ r.source ∷ []))

install_loop-flags :
    (flags rest earlier : List Bytes) (user source : Option Bytes)
    → All (λ arg. install_kind arg ≡ flag) flags
    → install_loop (flags ++ rest) false earlier user source
      ≡ install_loop rest false (earlier ++ flags) user source
unfolding install_loop
install_loop-flags [] rest earlier user source h =
    ap (λ flags. install_loop rest false flags user source) (sym (append-nil earlier))
install_loop-flags (f ∷ flags) rest earlier user source (known, h) =
    rw (known, install_loop)
      (install_loop-flags flags rest (earlier ++ f ∷ []) user source h
        ∙ ap (λ all. install_loop rest false all user source) (append_assoc earlier (f ∷ []) flags))

install_loop-source :
    (flags : List Bytes) (user : Option Bytes) (source : Bytes)
    → install_kind source ≡ plain
    → install_loop (source ∷ []) false flags user none ≡ check_install flags user (some source)
unfolding install_loop
install_loop-source flags user source h = rw (h, install_loop) refl

install_loop-user :
    (user : Option Bytes) (rest flags : List Bytes)
    → install_loop (user_arguments user ++ rest) false flags none none
      ≡ install_loop rest false flags user none
unfolding install_loop install_kind bytes_eq
install_loop-user none rest flags = refl
install_loop-user (some user) rest flags = refl

install_arguments-read :
    (r : InstallRequest) → IsAccepted r → parse_install_request (install_arguments r) ≡ ok r
unfolding parse_install_request check_install
install_arguments-read r a =
    install_loop-flags r.flags _ [] none none a.flags_known
    ∙ install_loop-user r.user (r.source ∷ []) r.flags
    ∙ install_loop-source r.flags r.user r.source a.source_plain
    ∙ ground (arith, a.source_clean, a.user_digits)

-- The options of `pm install` that a request may have.
abbrev pub IsFlag : Bytes → Type 0
IsFlag arg = (arg ≡ bytes "-r") ⊎ ((arg ≡ bytes "-g") ⊎ (arg ≡ bytes "-d"))

abbrev pub IsDigit : ℕ → Type 0
IsDigit b = (b'0' ≤ b) × (b ≤ b'9')

abbrev pub HasDigits : Option Bytes → Type 0
HasDigits none = Unit
HasDigits (some user) = All IsDigit user

abbrev pub IsPath : Bytes → Type 0
IsPath [] = Unit
IsPath (b ∷ bs) = b ≢ b'-'

-- The bytes that may stand in a path: a request to the daemon is a line, cut at tabs.
abbrev pub IsInLine : ℕ → Type 0
IsInLine b = (b ≢ b'\n') × ((b ≢ b'\r') × (b ≢ b'\t'))

-- A request for `pm install`: flags, a user that is a number, and a path that is no option.
pub record IsInstall (r : InstallRequest) : Type 0 where
  pub flags : All IsFlag r.flags
  pub user : HasDigits r.user
  pub path : IsPath r.source
  pub in_line : All IsInLine r.source

IsFlag-kind : (arg : Bytes) → IsFlag arg → install_kind arg ≡ flag
unfolding install_kind bytes_eq
IsFlag-kind arg (inl e) = rw e refl
IsFlag-kind arg (inr (inl e)) = rw e refl
IsFlag-kind arg (inr (inr e)) = rw e refl

flag_kind : (arg : Bytes) → install_kind arg ≡ flag → IsFlag arg
unfolding install_kind
flag_kind arg e = ground (
  arith,
  e,
  bytes_eq→eq arg (bytes "-r"),
  bytes_eq→eq arg (bytes "-g"),
  bytes_eq→eq arg (bytes "-d"),
)

flags_known : (args : List Bytes) → All IsFlag args → All (λ arg. install_kind arg ≡ flag) args
flags_known [] tt = tt
flags_known (arg ∷ args) (h, hs) = (IsFlag-kind arg h, flags_known args hs)

known_flags : (args : List Bytes) → All (λ arg. install_kind arg ≡ flag) args → All IsFlag args
known_flags [] tt = tt
known_flags (arg ∷ args) (h, hs) = (flag_kind arg h, known_flags args hs)

all_digits_iff : (bs : Bytes) → (all_digits bs ≡ true) ↔ All IsDigit bs
unfolding all_digits
all_digits_iff [] = (λ _. tt, λ _. refl)
all_digits_iff (b ∷ bs) = ground (arith, all_digits_iff bs)

bad_user_iff : (user : Option Bytes) → (bad_user user ≡ false) ↔ HasDigits user
unfolding bad_user
bad_user_iff none = (λ _. tt, λ _. refl)
bad_user_iff (some user) = ground (arith, all_digits_iff user)

IsInLine-iff :
    (bs : Bytes) → (contains_any (b'\n' ∷ b'\r' ∷ b'\t' ∷ []) bs ≡ false) ↔ All IsInLine bs
unfolding contains_any contains
IsInLine-iff [] = (λ _. tt, λ _. refl)
IsInLine-iff (b ∷ bs) = ground (arith, IsInLine-iff bs)

IsPath-kind : (source : Bytes) → IsPath source → install_kind source ≡ plain
unfolding install_kind starts_with_dash bytes_eq
IsPath-kind [] h = refl
IsPath-kind (b ∷ bs) h = ground (arith, h)

plain-IsPath : (source : Bytes) → install_kind source ≡ plain → IsPath source
unfolding install_kind starts_with_dash
plain-IsPath [] e = tt
plain-IsPath (b ∷ bs) e = ground (arith, e)

-- The requests that some arguments say are exactly those with any of the flags `-r`, `-g` and `-d`,
-- with a user of digits or none, and with a path that does not start with a dash and has no line end
-- or tab; and each of them is read from the arguments that say it in their plain order.
pub parse_install_request-install_arguments :
    (r : InstallRequest)
    → (((args : List Bytes) × (parse_install_request args ≡ ok r)) ↔ IsInstall r)
      × (IsInstall r ↔ (parse_install_request (install_arguments r) ≡ ok r))
parse_install_request-install_arguments r = (
  (λ said. parsed said.0 said.1, λ h. (install_arguments r, read h)),
  (read, parsed (install_arguments r)),
)
  where
    parsed : (args : List Bytes) → parse_install_request args ≡ ok r → IsInstall r
    parsed args e =
        let a = parse_install_request-IsAccepted args r e in
        record {
          flags = known_flags r.flags a.flags_known;
          user = (bad_user_iff r.user).0 a.user_digits;
          path = plain-IsPath r.source a.source_plain;
          in_line = (IsInLine-iff r.source).0 a.source_clean;
        }

    read : IsInstall r → parse_install_request (install_arguments r) ≡ ok r
    read h = install_arguments-read r (record {
      flags_known = flags_known r.flags h.flags;
      user_digits = (bad_user_iff r.user).1 h.user;
      source_plain = IsPath-kind r.source h.path;
      source_clean = (IsInLine-iff r.source).1 h.in_line;
    })
