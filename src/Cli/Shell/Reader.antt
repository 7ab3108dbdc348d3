-- ===== src/Cli/Shell/Reader.antt =====
-- How POSIX `sh` cuts a command into words, for the commands that need nothing more from it. This
-- is the description that the commands of the program are compared with.
use adb_client.Base.{
  leb, ◌==◌, if◌then◌else◌, ℕ, Bool, ◌&&◌, ◌||◌, Option, none, some, List, [], ◌∷◌, ◌++◌,
}
use adb_client.Base.Bytes.{Bytes, bytes}
use adb_client.Base.Split.{contains}

-- What a command is made of, as POSIX `sh` cuts it: words, and `&&` between commands.
pub data Token : Type 0 where
  word : Bytes → Token
  and_if : Token

pub data CharKind : Type 0 where
  blank quote backslash ampersand ordinary special : CharKind

-- The bytes that stand for themselves outside quotes.
unfoldable pub is_ordinary : ℕ → Bool
is_ordinary b =
    (leb b'0' b && leb b b'9')
    || (leb b'A' b && leb b b'Z')
    || (leb b'a' b && leb b b'z')
    || contains b (bytes "-_./:,@%+")
    || leb 128 b

unfoldable pub char_kind : ℕ → CharKind
unfolding is_ordinary
char_kind b =
    if b == b' '
    then blank
    else if b == b'\''
    then quote
    else if b == b'\\'
    then backslash
    else if b == b'&'
    then ampersand
    else if is_ordinary b
    then ordinary
    else special

-- Between words; in a word outside quotes; in quotes; behind a backslash; behind one `&`.
pub data Mode : Type 0 where
  between in_word in_quotes escaped one_and : Mode

-- One byte, where `seen` is the word so far. No result where the shell would do more than to cut
-- words: an expansion, a redirection, another operator, a `&` alone.
unfoldable pub step : Mode → Bytes → List Token → ℕ → Option (Mode × Bytes × List Token)
unfolding char_kind
step in_quotes seen done b =
    if b == b'\'' then some (in_word, seen, done) else some (in_quotes, seen ++ b ∷ [], done)
step escaped seen done b = some (in_word, seen ++ b ∷ [], done)
step one_and seen done b = if b == b'&' then some (between, [], done ++ and_if ∷ []) else none
step between seen done b = elim (char_kind b) [
  | blank ↦ some (between, [], done)
  | quote ↦ some (in_quotes, [], done)
  | backslash ↦ some (escaped, [], done)
  | ampersand ↦ some (one_and, [], done)
  | ordinary ↦ some (in_word, b ∷ [], done)
  | special ↦ none
]
step in_word seen done b = elim (char_kind b) [
  | blank ↦ some (between, [], done ++ word seen ∷ [])
  | quote ↦ some (in_quotes, seen, done)
  | backslash ↦ some (escaped, seen, done)
  | ampersand ↦ some (one_and, [], done ++ word seen ∷ [])
  | ordinary ↦ some (in_word, seen ++ b ∷ [], done)
  | special ↦ none
]

unfoldable pub scan : Mode → Bytes → List Token → Bytes → Option (List Token)
unfolding step
scan between seen done [] = some done
scan in_word seen done [] = some (done ++ word seen ∷ [])
scan in_quotes seen done [] = none
scan escaped seen done [] = none
scan one_and seen done [] = none
scan mode seen done (b ∷ bs) = elim (step mode seen done b) [
  | none ↦ none
  | some (next, seen', done') ↦ scan next seen' done' bs
]

-- The tokens of a command, if the shell finds nothing but words and `&&` in it.
unfoldable pub tokens : Bytes → Option (List Token)
unfolding scan
tokens command = scan between [] [] command

abbrev pub words : List Bytes → List Token
words [] = []
words (w ∷ ws) = word w ∷ words ws

-- The words of the command that uninstalls a package.
abbrev pub user_tokens : Option Bytes → List Bytes
user_tokens none = []
user_tokens (some user) = bytes "--user" ∷ user ∷ []

abbrev pub uninstall_words : Bool → Option Bytes → Bytes → List Bytes
uninstall_words keep_data user package_name =
    bytes "pm" ∷ bytes "uninstall" ∷ (if keep_data then bytes "-k" ∷ [] else [])
    ++ user_tokens user
    ++ package_name ∷ []
