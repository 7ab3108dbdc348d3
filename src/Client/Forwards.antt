-- ===== src/Client/Forwards.antt =====
-- The forward rules of adb_client/src/message_devices/dispatched_device.rs. Each call of
-- `serve_forward` is a thread with a stop flag of its own; the calls share the map of the rules, which
-- a mutex guards, so that what is done under it is one step.
pub mod Rules
pub mod Alive
pub mod Stale
pub mod Connection
mod Examples
use adb_client.Base.{
  ◌==◌, if◌then◌else◌, length, ℕ, zero, ◌*◌, ◌<◌, ◌≡◌, ap, Bool, true, false, not, ◌||◌, Option,
  none, some, List, [], ◌∷◌, map,
}
use adb_client.Base.Bytes.{Bytes, bytes, bytes_eq, strip_prefix}
use adb_client.Base.Decimal.{parse_unsigned}
use adb_client.Base.Outcome.{Result, ok, err}
use adb_client.Client.Kinds.{RustAdbError, request_failed}

-- By the local endpoint: the remote endpoint, and the call whose flag it is.
abbrev pub Routes : Type 0
Routes = List (Bytes × (Bytes × ℕ))

unfoldable pub get : Bytes → Routes → Option (Bytes × ℕ)
get local [] = none
get local ((key, route) ∷ routes) = if bytes_eq local key then some route else get local routes

unfoldable pub remove : Bytes → Routes → Routes
remove local [] = []
remove local ((key, route) ∷ routes) =
    let rest = remove local routes in if bytes_eq local key then rest else (key, route) ∷ rest

unfoldable pub contains_key : Bytes → Routes → Bool
contains_key local routes = elim (get local routes) [ none ↦ false | some route ↦ true ]

unfoldable pub forward_port : Bytes → Option ℕ
forward_port local = elim (strip_prefix (bytes "tcp:") local) [
  | none ↦ none
  | some value ↦ parse_unsigned 16 value
]

-- The checks of `serve_forward`.
unfoldable pub check_local : Bytes → Routes → Result RustAdbError ℕ
check_local local routes = elim (forward_port local) [
  | none ↦ err (request_failed (bytes "forward requires tcp:<port>"))
  | some port ↦
      if port == 0 || contains_key local routes
      then err (request_failed (bytes "forward requires an unused nonzero TCP port"))
      else ok port
]

-- Where a call of `serve_forward` stands: it waits for connections, or has seen its flag.
pub data Serving : Type 0 where
  not_started : Serving
  listening : (local remote : Bytes) → Serving
  stopping : (local : Bytes) → Serving
  ended : Serving

pub record Forwards : Type 0 where
  pub routes : Routes
  pub stop : ℕ → Bool
  pub serving : ℕ → Serving

unfoldable pub set_serving : ℕ → Serving → (ℕ → Serving) → ℕ → Serving
set_serving i phase serving j = if j == i then phase else serving j

unfoldable pub set_stop : ℕ → Bool → (ℕ → Bool) → ℕ → Bool
set_stop i flag stop j = if j == i then flag else stop j

-- `serve_forward` up to its loop, where the port can be bound: a new flag, and the rule.
unfoldable pub start_serving : ℕ → (local remote : Bytes) → Forwards → Forwards
start_serving i local remote f = record f {
  routes = (local, (remote, i)) ∷ f.routes;
  stop = set_stop i false f.stop;
  serving = set_serving i (listening local remote) f.serving;
}

-- The end of `serve_forward`: the rule is removed if it is still that of this call.
unfoldable pub remove_own : ℕ → Bytes → Routes → Routes
remove_own i local routes = elim (get local routes) [
  | none ↦ routes
  | some (remote, j) ↦ if j == i then remove local routes else routes
]

unfoldable pub end_serving : ℕ → Bytes → Forwards → Forwards
end_serving i local f = record f {
  routes = remove_own i local f.routes;
  serving = set_serving i ended f.serving;
}

-- An error of `accept` is returned at once.
unfoldable pub fail_serving : ℕ → Forwards → Forwards
fail_serving i f = record f { serving = set_serving i ended f.serving }

unfoldable pub forward_routes : Forwards → List (Bytes × Bytes)
forward_routes f = map (λ entry. (entry.0, entry.1.0)) f.routes

unfoldable pub remove_forward : Bytes → Forwards → Forwards × Bool
remove_forward local f = elim (get local f.routes) [
  | none ↦ (f, false)
  | some (remote, i) ↦
      (record f { routes = remove local f.routes; stop = set_stop i true f.stop }, true)
]

unfoldable pub stop_all : Routes → (ℕ → Bool) → ℕ → Bool
stop_all [] stop j = stop j
stop_all ((local, (remote, i)) ∷ routes) stop j = if j == i then true else stop_all routes stop j

unfoldable pub remove_all_forwards : Forwards → Forwards × ℕ
remove_all_forwards f = (record f { routes = []; stop = stop_all f.routes f.stop }, length f.routes)

-- What the threads may do next; `i` is a call of `serve_forward`.
pub data Step : Forwards → Forwards → Type 0 where
  serve :
      {f : Forwards} (i port : ℕ) (local remote : Bytes)
      → f.serving i ≡ not_started
      → check_local local f.routes ≡ ok port
      → Step f (start_serving i local remote f)
  remove_one : {f : Forwards} (local : Bytes) → Step f (remove_forward local f).0
  remove_all : {f : Forwards} → Step f (remove_all_forwards f).0
  notice :
      {f : Forwards} (i : ℕ) (local remote : Bytes)
      → f.serving i ≡ listening local remote
      → f.stop i ≡ true
      → Step f (record f { serving = set_serving i (stopping local) f.serving })
  leave :
      {f : Forwards} (i : ℕ) (local : Bytes)
      → f.serving i ≡ stopping local
      → Step f (end_serving i local f)

pub data Reach (f : Forwards) : Forwards → Type 0 where
  here : Reach f f
  next : {g h : Forwards} → Reach f g → Step g h → Reach f h
