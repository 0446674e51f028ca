-- ===== src/Calls.antt =====
-- Calls of clients that go to a backend: chat/message.rs, the method calls of chat/dispatcher.rs, and
-- `CallCodec` of chat/backend.rs. How JSON values are read and texts decoded is serde's.
pub mod Codec
pub mod Encoding
pub mod Exchange
pub mod Identity
pub mod Writing
use swindon.Prelude.{
  ℕ, ◌+◌, String, Bool, true, false, not, ◌&&◌, ◌||◌, List, [], ◌∷◌, ◌++◌, Option, none, some,
  if◌then◌else◌, string_eq, codes_eq, ◌*◌, ◌==◌, is_some, ltb, nat_beq, length,
}
use swindon.World.{World}
use swindon.Std.HashMap
use swindon.Std.HashMap.{HashMap}
use swindon.Intern.{codes, all, is_nil, namespace_char}
use swindon.Lattice.State.{SessionId}
use swindon.Ids.RequestId.{id_char}
use swindon.Listener.{starts_with}
use swindon.Pool.Types.{Cid}
use swindon.Pool.Actions
use swindon.Pool.Actions.{Action}
use swindon.Replication
use swindon.Replication.{RemoteAction, ServerId}

-- How JSON values are read: `as_str`, `as_u64` and `from_slice`.
pub record Values ⦃w : World⦄ : Type 0 where
  pub as_str : w.Json → Option String
  pub as_u64 : w.Json → Option ℕ
  pub from_slice : List ℕ → Option w.Json

module _ ⦃w : World⦄ where
  abbrev pub Meta : Type 0
  Meta = HashMap String w.Json

  -- What goes wrong with a call; the details of errors are left out.
  pub data MessageError : Type 0 where
    invalid_method invalid_request_id json_error pool_overflow pool_error : MessageError
    http_error : ℕ → Option w.Json → MessageError

  -- What the connection of the client is sent.
  pub data Answer : Type 0 where
    result : Meta → w.Json → Answer
    error : Meta → MessageError → Answer

unfoldable pub valid_method : List ℕ → Bool
valid_method method =
    if is_nil method
    then false
    else if starts_with (codes "tangle.") method
    then false
    else if starts_with (codes "swindon.") method
    then false
    else all namespace_char method

-- The characters pass the second test only if each is one byte.
unfoldable pub valid_id_text : List ℕ → Bool
valid_id_text s = if is_nil s || ltb 36 (length s) then false else all id_char s

module _ ⦃w : World⦄ ⦃j : Values⦄ where
  unfoldable pub valid_request_id : Meta → Bool
  unfolding valid_id_text
  valid_request_id meta = elim (HashMap.get meta "request_id") [
    | none ↦ false
    | some id ↦ elim (j.as_str id) [
      | some s ↦ valid_id_text (codes s)
      | none ↦ is_some (j.as_u64 id)
    ]
  ]

  unfoldable pub get_active : Meta → Option ℕ
  get_active meta = elim (HashMap.get meta "active") [ none ↦ none | some v ↦ j.as_u64 v ]

-- `cmp::max(cmp::min(seconds, max), min)`, in milliseconds.
unfoldable pub idle_timeout : ℕ → ℕ → ℕ → ℕ
idle_timeout min max seconds =
    let t = seconds * 1000 in
    let low = if ltb max t then max else t in if ltb low min then min else low

-- What a pool of connections to a backend says to a new request.
pub data Sending : Type 0 where
  ready not_ready failed : Sending

-- Where a method goes: the path of its destination and the name of the upstream.
pub record Target : Type 0 where
  pub path : List ℕ
  pub upstream : String

-- Of a destination, the headers that are configured for it.
pub record Destination : Type 0 where
  pub override_host_header : Option String
  pub request_id_header : Option String

-- The configuration, and the pools by upstream.
pub record Backends : Type 0 where
  pub resolve : List ℕ → Target
  pub destination : String → Option Destination
  pub pool : String → Option Sending
  pub min_timeout : ℕ
  pub max_timeout : ℕ

-- `name.replace(".", "/")`
abbrev pub slashed : List ℕ → List ℕ
slashed [] = []
slashed (c ∷ s) = (if nat_beq c b'.' then b'/' else c) ∷ slashed s

unfoldable pub call_path : Target → List ℕ → List ℕ
call_path dest name =
    if dest.path == (b'/' ∷ []) then b'/' ∷ slashed name else dest.path ++ (b'/' ∷ slashed name)

module _ ⦃w : World⦄ where
  -- What a method call does, in order: answers, tells of activity, starts a request with a path to a
  -- destination.
  pub data Did : Type 0 where
    answered : Answer → Did
    active : Action → RemoteAction → Did
    started : List ℕ → Destination → Meta → Did

module _ ⦃w : World⦄ where
  -- What `Drop` of `CallCodec` sends, in every state but the last one.
  abbrev pub dropped : Meta → Answer
  dropped meta = error meta (http_error 500 none)

  -- The match on `start_send`. A codec that is not taken is dropped: by the pool before it returns an
  -- error, else at the end of the branch.
  abbrev pub sent_call : List ℕ → Destination → Meta → Sending → List Did
  sent_call path settings meta ready = started path settings meta ∷ []
  sent_call path settings meta not_ready =
      answered (error meta pool_overflow) ∷ answered (dropped meta) ∷ []
  sent_call path settings meta failed =
      answered (dropped meta) ∷ answered (error meta pool_error) ∷ []

module _ ⦃w : World⦄ ⦃j : Values⦄ where
  -- The end of `method_call`: the pool of the upstream is given the request.
  unfoldable pub start_call : Backends → List ℕ → Meta → Target → List Did
  start_call b name meta dest = elim (b.destination dest.upstream) [
    | none ↦ answered (error meta pool_error) ∷ []
    | some settings ↦ elim (b.pool dest.upstream) [
      | none ↦ answered (error meta pool_error) ∷ answered (dropped meta) ∷ []
      | some sending ↦ sent_call (call_path dest name) settings meta sending
    ]
  ]

  unfoldable pub update_activity : Backends → SessionId → ℕ → ℕ → Did
  update_activity b session_id now seconds =
      let t = idle_timeout b.min_timeout b.max_timeout seconds in
      active (Actions.update_activity session_id (now + t))
        (Replication.update_activity session_id t)

  unfoldable pub method_call : Backends → SessionId → ℕ → List ℕ → Meta → List Did
  unfolding start_call update_activity
  method_call b session_id now name meta =
      if not (valid_method name)
      then answered (error meta invalid_method) ∷ []
      else if not (valid_request_id meta)
      then answered (error meta invalid_request_id) ∷ []
      else ((elim (get_active meta) [
        | none ↦ []
        | some seconds ↦ update_activity b session_id now seconds ∷ []
      ])
          ++ start_call b name meta (b.resolve name))
