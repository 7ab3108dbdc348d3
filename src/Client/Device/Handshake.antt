-- ===== src/Client/Device/Handshake.antt =====
-- The connection with a device that asks for authentication, again and again.
use adb_client.Base.{
  ltb, if◌then◌else◌, lt→ltb, le→ltb, length, take, drop, length-append, ℕ, zero, suc, ◌+◌, ◌^◌,
  ◌<◌, ◌≡◌, refl, ◌∙◌, Bool, true, false, not, List, [], ◌∷◌, ◌++◌, append-nil, append_assoc, arith,
}
use adb_client.Base.Outcome.{Result, ok, err}
use adb_client.Base.Bytes.{Bytes, bytes}
use adb_client.Base.Utf8.{is_utf8}
use adb_client.Client.Kinds.{MessageCommand, cnxn, auth, RustAdbError, request_failed}
use adb_client.Client.Message.{Message, try_new, try_new_header}
use adb_client.Client.Message.Codec.{message_of}
use adb_client.Client.Session.Pushed.{session}
use adb_client.Client.Device.{
  RsaKey, send_new, auth_reply, banner_read, auth_loop, auth_handshake, on_greeting, host_banner,
  connect,
}

-- The messages of the device: an AUTH for each token, and a CNXN with its banner.
abbrev pub offers : List Bytes → Bytes → List (Result RustAdbError Message)
offers [] banner = ok (message_of cnxn 0x01000000 0x00100000 banner) ∷ []
offers (token ∷ tokens) banner = ok (message_of auth 1 0 token) ∷ offers tokens banner

abbrev first : List Bytes → Bytes → Message
first [] banner = message_of cnxn 0x01000000 0x00100000 banner
first (token ∷ tokens) banner = message_of auth 1 0 token

abbrev pub later : List Bytes → Bytes → List (Result RustAdbError Message)
later [] banner = []
later (token ∷ tokens) banner = offers tokens banner

-- The replies of a client: signatures and the public key in turn.
abbrev pub replies : (Bytes → Bytes) → Bytes → Bool → List Bytes → List Message
replies signature text public_key [] = []
replies signature text true (token ∷ tokens) =
    message_of auth 3 0 (text ++ 0 ∷ []) ∷ replies signature text false tokens
replies signature text false (token ∷ tokens) =
    message_of auth 2 0 (signature token) ∷ replies signature text true tokens

abbrev pub unfinished : Result RustAdbError (Unit {0})
unfinished = err (request_failed (bytes "Android device did not finish RSA authorization"))

module _ (signature : Bytes → Bytes) (text banner : Bytes)
    (short : (token : Bytes) → length (signature token) < 2 ^ 32)
    (short_text : length text + 1 < 2 ^ 32) where
  abbrev key : RsaKey
  key = record { sign = λ token. ok (signature token); android_pubkey = ok text }

  sends :
      (command : MessageCommand) (arg0 arg1 : ℕ) (payload : Bytes)
      (reads : List (Result RustAdbError Message)) (written : List Message)
      → length payload < 2 ^ 32
      → send_new command arg0 arg1 payload (session 0 0 reads written)
        ≡ (session 0 0 reads (written ++ message_of command arg0 arg1 payload ∷ []), ok tt)
  unfolding send_new try_new try_new_header
  sends command arg0 arg1 payload reads written h = rw (lt→ltb (length payload) (2 ^ 32) h) refl

  -- One round that sends the signature or the key.
  auth_round :
      (rounds : ℕ) (public_key : Bool) (token : Bytes) (tokens : List Bytes)
      (written : List Message)
      → auth_loop
          (suc rounds)
          key
          public_key
          (session 0 0 (offers tokens banner) written)
          (message_of auth 1 0 token)
        ≡ auth_loop rounds key
            (not public_key)
            (session 0 0
              (later tokens banner)
              (written ++ replies signature text public_key (token ∷ [])))
            (first tokens banner)
  unfolding auth_loop auth_reply
  auth_round rounds true token [] written =
      rw
        (sends auth 3 0 (text ++ 0 ∷ []) (offers [] banner) written
          (omega (arith, length-append text (0 ∷ []))))
        refl
  auth_round rounds true token (next ∷ tokens) written =
      rw
        (sends auth 3 0 (text ++ 0 ∷ []) (offers (next ∷ tokens) banner) written
          (omega (arith, length-append text (0 ∷ []))))
        refl
  auth_round rounds false token [] written =
      rw (sends auth 2 0 (signature token) (offers [] banner) written (short token)) refl
  auth_round rounds false token (next ∷ tokens) written =
      rw (sends auth 2 0 (signature token) (offers (next ∷ tokens) banner) written (short token))
        refl

  replies-cons :
      (public_key : Bool) (token : Bytes) (tokens : List Bytes) (written : List Message)
      → (written ++ replies signature text public_key (token ∷ []))
          ++ replies signature text (not public_key) tokens
        ≡ written ++ replies signature text public_key (token ∷ tokens)
  replies-cons true token tokens written =
      append_assoc written (replies signature text true (token ∷ []))
        (replies signature text false tokens)
  replies-cons false token tokens written =
      append_assoc written (replies signature text false (token ∷ []))
        (replies signature text true tokens)

  ltb-suc : (a b : ℕ) → ltb (suc a) (suc b) ≡ ltb a b
  ltb-suc a b = ground arith

  -- How the loop ends, from the message that is the next to look at.
  auth_loop-offers :
      (rounds : ℕ) (public_key : Bool) (tokens : List Bytes) (written : List Message)
      → is_utf8 banner ≡ true
      → auth_loop rounds key public_key
          (session 0 0 (later tokens banner) written)
          (first tokens banner)
        ≡ (if ltb (length tokens) rounds
            then (session 0 0 [] (written ++ replies signature text public_key tokens), ok tt)
            else (
              session 0 0
                  (later (drop rounds tokens) banner)
                  (written ++ replies signature text public_key (take rounds tokens)),
              unfinished,
            ))
  unfolding auth_loop banner_read
  auth_loop-offers zero public_key [] written h = rw (append-nil written) refl
  auth_loop-offers zero public_key (token ∷ tokens) written h =
      rw (le→ltb (length (token ∷ tokens)) 0 (omega arith), append-nil written) refl
  auth_loop-offers (suc rounds) public_key [] written h =
      rw (h, lt→ltb 0 (suc rounds) (omega arith), append-nil written) refl
  auth_loop-offers (suc rounds) public_key (token ∷ tokens) written h =
      auth_round rounds public_key token tokens written
      ∙ auth_loop-offers rounds (not public_key) tokens
          (written ++ replies signature text public_key (token ∷ [])) h
      ∙ rw
          (
            ltb-suc (length tokens) rounds,
            replies-cons public_key token tokens written,
            replies-cons public_key token (take rounds tokens) written,
          )
          refl

  -- All writes succeed, and the signatures and the public key have less than 2^32 bytes. A device
  -- asks with any number of tokens before it says CNXN, with a banner that is UTF-8. Behind the CNXN
  -- of the client, each of the first eight tokens is answered, by its signature and by the public key
  -- in turn; a device that has asked at most seven times is connected. One that asks eight times is
  -- not, whatever it says to the eighth answer.
  pub connect-offers :
      (tokens : List Bytes) (upgraded : Result RustAdbError (Unit {0}))
      → is_utf8 banner ≡ true
      → connect key (ok tt) upgraded (session 0 0 (offers tokens banner) []) ≡ (
          if ltb (length tokens) 8
          then (
            session 0 0 [] (
                message_of cnxn 0x01000000 1048576 host_banner
                ∷ replies signature text false tokens),
            ok tt,
          )
          else (
            session 0 0 (later (drop 8 tokens) banner) (
                message_of cnxn 0x01000000 1048576 host_banner
                ∷ replies signature text false (take 8 tokens)),
            unfinished,
          ))
  unfolding connect on_greeting auth_handshake
  connect-offers [] upgraded h =
      rw (sends cnxn 0x01000000 1048576 host_banner (offers [] banner) [] (omega arith)) refl
  connect-offers (token ∷ tokens) upgraded h =
      rw
        (sends cnxn 0x01000000 1048576 host_banner (offers (token ∷ tokens) banner) []
          (omega arith))
        (auth_loop-offers 8 false (token ∷ tokens)
          (message_of cnxn 0x01000000 1048576 host_banner ∷ []) h)
