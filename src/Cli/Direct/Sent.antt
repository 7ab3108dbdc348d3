-- ===== src/Cli/Direct/Sent.antt =====
-- What the daemon reads in the requests that the commands send to it.
use adb_client.Base.{
  Bool-cases, All, All-append, All-weaken, ℕ, ◌≡◌, refl, sym, ap, ◌∙◌, ◌≢◌, ◌⊎◌, inl, inr, true,
  false, Option, none, some, List, [], ◌∷◌, ◌++◌, arith,
}
use mathlib.Core.Path.{subst}
use adb_client.Base.Bytes.{Bytes, bytes, bytes_eq, bytes_eq→eq, split}
use adb_client.Base.Decimal.{to_decimal, IsDigit, to_decimal-IsDigit}
use adb_client.Base.Options.{unwrap_or}
use adb_client.Base.Outcome.{ok, err}
use adb_client.Base.Split.{Lacks, contains, contains_any, split-Lacks, split-append}
use adb_client.Base.White.{split_whitespace, words_behind, white_len, add_word}
use adb_client.Cli.Daemon.Request.{
  install, forward, because, next_field, next_or_empty, reject_extra_fields, all_flags, good_user,
  check_install, parse_install, parse_two, parse_command, parse_fields, parse_request,
}
use adb_client.Cli.Direct.{join, add, forward_text, install_text, tcpip_text}
use adb_client.Cli.Requests.{
  is_one_of, all_digits, bad_user, flag, InstallRequest, install_kind, parse_install_request,
}
use adb_client.Cli.Requests.Installs.{IsAccepted, parse_install_request-IsAccepted}

pub parse_request-fields :
    (command request : Bytes) (fields : List Bytes)
    → split b'\t' request ≡ command ∷ fields
    → parse_request request ≡ parse_command command fields request
unfolding parse_request parse_fields
parse_request-fields command request fields e = rw e refl

-- The daemon reads a port forward with the ends that the caller named, which have no tab.
pub parse_request-forward_text :
    (near far : Bytes)
    → Lacks b'\t' near
    → Lacks b'\t' far
    → parse_request (forward_text (add near far)) ≡ ok (forward near far)
unfolding forward_text parse_command parse_two next_field reject_extra_fields bytes_eq
parse_request-forward_text near far n f =
    let fields =
      split-append b'\t' (bytes "FORWARD") (near ++ b'\t' ∷ far) (omega arith)
      ∙ ap (λ fs. bytes "FORWARD" ∷ fs)
          (split-append b'\t' near far n ∙ ap (λ fs. near ∷ fs) (split-Lacks b'\t' far f)) in
    parse_request-fields (bytes "FORWARD") _ _ fields

IsDigit-no_tab : (bs : Bytes) → All IsDigit bs → Lacks b'\t' bs
IsDigit-no_tab bs h = All-weaken IsDigit (λ b. b ≢ b'\t') (λ b d. omega (arith, d)) bs h

-- The daemon refuses every request for a TCP port: its text has no tab, so the port is taken for a
-- part of the command's name.
pub parse_request-tcpip_text :
    (port : ℕ)
    → parse_request (tcpip_text port)
      ≡ err (because (bytes "unsupported daemon request: " ++ tcpip_text port))
unfolding tcpip_text parse_command bytes_eq
parse_request-tcpip_text port =
    let digits = IsDigit-no_tab (to_decimal port) (to_decimal-IsDigit port) in
    let no_tab =
      All-append (λ b. b ≢ b'\t') (bytes "TCPIP\\t") (to_decimal port) (omega arith) digits in
    parse_request-fields _ _ [] (split-Lacks b'\t' (bytes "TCPIP\\t" ++ to_decimal port) no_tab)

-- The three flags of an install.
abbrev IsFlag : Bytes → Type 0
IsFlag f = (f ≡ bytes "-r") ⊎ ((f ≡ bytes "-g") ⊎ (f ≡ bytes "-d"))

install_kind-IsFlag : (f : Bytes) → install_kind f ≡ flag → IsFlag f
unfolding install_kind
install_kind-IsFlag f h = elim (Bool-cases (bytes_eq f (bytes "-r"))) [
  | inl r ↦ inl (bytes_eq→eq f (bytes "-r") r)
  | inr no_r ↦ elim (Bool-cases (bytes_eq f (bytes "-g"))) [
    | inl g ↦ inr (inl (bytes_eq→eq f (bytes "-g") g))
    | inr no_g ↦ elim (Bool-cases (bytes_eq f (bytes "-d"))) [
      | inl d ↦ inr (inr (bytes_eq→eq f (bytes "-d") d))
      | inr no_d ↦ absurd (ground (arith, h, no_r, no_g, no_d))
    ]
  ]
]

-- The text of a flag is one word, whatever stands behind the space that follows it.
abbrev IsWord : Bytes → Bytes → Type 0
IsWord more f =
    (words_behind 0 [] f ≡ f ∷ [])
    × ((words_behind 0 [] (f ++ b' ' ∷ more) ≡ f ∷ words_behind 0 [] more)
        × (Lacks b'\t' f × (is_one_of f (bytes "-r" ∷ bytes "-g" ∷ bytes "-d" ∷ []) ≡ true)))

flag-IsWord : (f more : Bytes) → IsFlag f → IsWord more f
unfolding words_behind white_len add_word bytes_eq
flag-IsWord f more (inl e) = subst (IsWord more) (sym e) (refl, (refl, (omega arith, refl)))
flag-IsWord f more (inr (inl e)) = subst (IsWord more) (sym e) (refl, (refl, (omega arith, refl)))
flag-IsWord f more (inr (inr e)) = subst (IsWord more) (sym e) (refl, (refl, (omega arith, refl)))

-- What the daemon needs from the flags of a request.
abbrev ReadBack : List Bytes → Type 0
ReadBack flags =
    (split_whitespace (join flags) ≡ flags) × (Lacks b'\t' (join flags) × (all_flags flags ≡ true))

join-ReadBack : (flags : List Bytes) → All (λ arg. install_kind arg ≡ flag) flags → ReadBack flags
unfolding join all_flags split_whitespace words_behind add_word
join-ReadBack [] h = (refl, (tt, refl))
join-ReadBack (f ∷ []) (p, _) =
    let (alone, (_, (lacks, known))) = flag-IsWord f [] (install_kind-IsFlag f p) in
    (alone, (lacks, rw known refl))
join-ReadBack (f ∷ g ∷ flags) (p, ps) =
    let (words, (lacks, known)) = join-ReadBack (g ∷ flags) ps in
    let (_, (first, (lacks_f, known_f))) =
      flag-IsWord f (join (g ∷ flags)) (install_kind-IsFlag f p) in
    (
      first ∙ ap (λ ws. f ∷ ws) words,
      (All-append (λ b. b ≢ b'\t') f _ lacks_f (omega arith, lacks), rw known_f known),
    )

contains_any-Lacks :
    (bs : Bytes) → contains_any (b'\n' ∷ b'\r' ∷ b'\t' ∷ []) bs ≡ false → Lacks b'\t' bs
unfolding contains_any contains
contains_any-Lacks [] h = tt
contains_any-Lacks (b ∷ bs) h = (ground (arith, h), contains_any-Lacks bs (ground (arith, h)))

all_digits-Lacks : (bs : Bytes) → all_digits bs ≡ true → Lacks b'\t' bs
unfolding all_digits
all_digits-Lacks [] h = tt
all_digits-Lacks (b ∷ bs) h = (ground (arith, h), all_digits-Lacks bs (ground (arith, h)))

-- A user that the client accepts is one that the daemon accepts, where none is an empty text.
user_sent :
    (user : Option Bytes)
    → bad_user user ≡ false
    → Lacks b'\t' (unwrap_or [] user) × (good_user (unwrap_or [] user) ≡ true)
unfolding bad_user good_user bytes_eq
user_sent none h = (tt, refl)
user_sent (some user) h =
    let digits : all_digits user ≡ true = ground (arith, h) in
    (all_digits-Lacks user digits, ground (arith, digits))

install_fields :
    (r : InstallRequest)
    → IsAccepted r
    → split b'\t' (install_text r)
      ≡ bytes "INSTALL" ∷ r.source ∷ join r.flags ∷ unwrap_or [] r.user ∷ []
unfolding install_text
install_fields r a =
    let source = contains_any-Lacks r.source a.source_clean in
    let flags = (join-ReadBack r.flags a.flags_known).1.0 in
    let user = (user_sent r.user a.user_digits).0 in
    split-append b'\t' (bytes "INSTALL") _ (omega arith)
    ∙ ap (λ fs. bytes "INSTALL" ∷ fs)
        (split-append b'\t' r.source _ source
          ∙ ap (λ fs. r.source ∷ fs)
              (split-append b'\t' (join r.flags) _ flags
                ∙ ap (λ fs. join r.flags ∷ fs) (split-Lacks b'\t' (unwrap_or [] r.user) user)))

-- The daemon accepts every install request that the client accepts, and reads its source, its
-- flags and its user from the text as the client was given them.
pub parse_request-install_text :
    (args : List Bytes) (r : InstallRequest)
    → parse_install_request args ≡ ok r
    → (parse_request (install_text r) ≡ ok (install r.source (join r.flags) (unwrap_or [] r.user)))
      × (split_whitespace (join r.flags) ≡ r.flags)
unfolding parse_command parse_install check_install next_field next_or_empty reject_extra_fields
    bytes_eq
parse_request-install_text args r e =
    let a = parse_install_request-IsAccepted args r e in
    let (words, (_, known)) = join-ReadBack r.flags a.flags_known in
    let known_words : all_flags (split_whitespace (join r.flags)) ≡ true =
      ap all_flags words ∙ known in
    let user = (user_sent r.user a.user_digits).1 in
    (
      parse_request-fields (bytes "INSTALL") (install_text r) _ (install_fields r a)
          ∙ rw (known_words, user) refl,
      words,
    )
