-- ===== src/Proto/Session/Handled.antt =====
-- Handling a packet carries every stream on that it does not close.
use adb_client.Base.{
  ℕ, ◌≡◌, ◌≢◌, inl, inr, refl, ◌∙◌, arith, [], ◌==◌, Option-cases, Bool-cases, if_either,
}
use adb_client.Base.Outcome.{Result-cases}
use adb_client.Base.Bytes.{Bytes}
use adb_client.Base.NatMap.{lookup}
use adb_client.Proto.Kinds.{Command, cnxn, clse, auth, wrte, okay, State, handshaking, connected}
use adb_client.Proto.Message.{Packet}
use adb_client.Proto.Session.{
  Session, queue_packet, packet, auth_token, auth_signature, auth_rsapublickey,
}
use adb_client.Proto.Session.Receive.{
  on_write, on_connect, offer_key, sign, on_token, Step, dispatch,
}
use adb_client.Proto.Session.Carries.{
  payload_on, queued, Carries, Carries-refl, on_okay-Carries, queue_packet-Carries,
  on_close-Carries,
}

-- Only the packets, the streams and the next id count.
pub like :
    (local_id : ℕ) (s t u : Session)
    → Carries local_id s t
    → u.transmit ≡ t.transmit
    → u.streams ≡ t.streams
    → u.next_local_id ≡ t.next_local_id
    → Carries local_id s u
unfolding queued
like local_id s t u c transmit streams next = record {
  bytes_kept = rw (transmit, streams) c.bytes_kept;
  stays_open = λ h. rw streams (c.stays_open h);
  same_next = next ∙ c.same_next;
}

offer_key-Carries : (s : Session) (local_id : ℕ) → Carries local_id s (offer_key s).0
unfolding offer_key payload_on
offer_key-Carries s local_id = elim (Result-cases (s.key.android_public_key s.config.key_comment)) [
  | inl (key, e) ↦
      rw (offer_key, e)
        (like local_id s (queue_packet s (packet auth auth_rsapublickey 0 key)) _
          (queue_packet-Carries s local_id _ refl) refl refl refl)
  | inr (x, e) ↦ rw (offer_key, e) (Carries-refl local_id s)
]

sign-Carries : (s : Session) (p : Packet) (local_id : ℕ) → Carries local_id s (sign s p).0
unfolding sign payload_on
sign-Carries s p local_id = elim (Result-cases (s.key.sign_token p.payload)) [
  | inl (signature, e) ↦
      rw (sign, e)
        (like local_id s (queue_packet s (packet auth auth_signature 0 signature)) _
          (queue_packet-Carries s local_id _ refl) refl refl refl)
  | inr (x, e) ↦ rw (sign, e) (Carries-refl local_id s)
]

on_token-Carries : (s : Session) (p : Packet) (local_id : ℕ) → Carries local_id s (on_token s p).0
unfolding on_token
on_token-Carries s p local_id =
    if_either (λ (x : Step). Carries local_id s x.0) s.send_public_key_next (offer_key s) (sign s p)
      (offer_key-Carries s local_id) (sign-Carries s p local_id)

on_write-Carries :
    (s : Session) (remote_id j : ℕ) (payload : Bytes) (local_id : ℕ)
    → Carries local_id s (on_write s remote_id j payload)
unfolding on_write payload_on
on_write-Carries s remote_id j payload local_id = elim (Option-cases (lookup j s.streams)) [
  | inl e ↦ rw (on_write, e) (queue_packet-Carries s local_id (packet clse 0 remote_id []) refl)
  | inr (stream, e) ↦
      rw (on_write, e) (like local_id s s _ (Carries-refl local_id s) refl refl refl)
]

on_connect-Carries :
    (s : Session) (p : Packet) (local_id : ℕ) → Carries local_id s (on_connect s p).0
unfolding on_connect
on_connect-Carries s p local_id =
    like local_id s s (on_connect s p).0 (Carries-refl local_id s) (ground arith) (ground arith)
      (ground arith)

pub dispatch-Carries :
    (state : State) (command : Command) (s : Session) (p : Packet) (local_id : ℕ)
    → (command ≡ clse → p.arg1 ≢ local_id)
    → Carries local_id s (dispatch state command s p).0
unfolding dispatch
dispatch-Carries handshaking cnxn s p local_id spared = on_connect-Carries s p local_id
dispatch-Carries handshaking auth s p local_id spared = elim (Bool-cases (p.arg0 == auth_token)) [
  | inl token ↦ rw token (on_token-Carries s p local_id)
  | inr other ↦ rw other (Carries-refl local_id s)
]
dispatch-Carries connected okay s p local_id spared = on_okay-Carries s p.arg0 p.arg1 local_id
dispatch-Carries connected wrte s p local_id spared =
    on_write-Carries s p.arg0 p.arg1 p.payload local_id
dispatch-Carries connected clse s p local_id spared =
    on_close-Carries s p.arg1 local_id (spared refl)
dispatch-Carries state command s p local_id spared = Carries-refl local_id s
