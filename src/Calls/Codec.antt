-- ===== src/Calls/Codec.antt =====
-- `CallCodec` of chat/backend.rs, and `Call` of chat/message.rs: one request to a backend.
use swindon.Prelude.{
  ℕ, length, String, Bool, true, not, List, [], ◌∷◌, ◌++◌, Option, none, some, if◌then◌else◌,
  string_eq, is_some, nat_beq, unwrap_or,
}
use swindon.Outcome.{Outcome, ok, panic, ◌>>=◌, expect}
use swindon.World.{World}
use swindon.Std.HashMap
use swindon.Std.HashMap.{HashMap}
use swindon.Intern.{codes}
use swindon.Pool.Types.{Cid}
use swindon.Ids.PubCid.{Decimals, connection_id}
use swindon.Replication.{ServerId}
use swindon.Listener.{ContentType, valid, absent, invalid}
use swindon.Calls.Encoding.{Encoders}
use swindon.Calls.{
  Destination, Values, Meta, Answer, result, error, json_error, http_error, dropped,
}

pub data CallState : Type 0 where
  -- With the value of the header `Authorization`, and the path.
  init : List ℕ → List ℕ → CallState
  wait void : CallState
  headers : ℕ → CallState

module _ ⦃w : World⦄ where
  pub record CallCodec : Type 0 where
    pub state : CallState
    pub meta : Meta
    pub conn_id : Cid
    pub server_id : ServerId
    pub destination : Destination
    pub json_content : Bool
    pub weak_content_type : Bool

  abbrev pub with_state : CallState → CallCodec → CallCodec
  with_state s c = record {
    state = s;
    meta = c.meta;
    conn_id = c.conn_id;
    server_id = c.server_id;
    destination = c.destination;
    json_content = c.json_content;
    weak_content_type = c.weak_content_type;
  }

  abbrev pub with_json : CallCodec → CallCodec
  with_json c = record {
    state = c.state;
    meta = c.meta;
    conn_id = c.conn_id;
    server_id = c.server_id;
    destination = c.destination;
    json_content = true;
    weak_content_type = c.weak_content_type;
  }

  -- The entries that `meta` adds to `extra`.
  unfoldable pub other_entries : HashMap String w.Json → Meta → HashMap String w.Json
  other_entries extra [] = []
  other_entries extra ((k, v) ∷ meta) =
      let rest = other_entries extra meta in
      if is_some (HashMap.get extra k) then rest else (k, v) ∷ rest

  -- `MetaWithExtra`, where the extra part is an object.
  unfoldable pub meta_with_extra : HashMap String w.Json → Meta → HashMap String w.Json
  meta_with_extra extra meta = extra ++ other_entries extra meta

-- `swindon/` and the version of the package.
abbrev pub user_agent : List ℕ
user_agent = codes "swindon/0.7.8"

module _ ⦃w : World⦄ ⦃j : Values⦄ ⦃d : Decimals⦄ where
  -- The id of a request as the backend sees it.
  unfoldable pub request_id : CallCodec → Outcome (List ℕ)
  request_id c = do
    rid ← expect (HashMap.get c.meta "request_id")
    elim (j.as_str rid) [
      | some s ↦ ok (connection_id c.server_id c.conn_id ++ (b'-' ∷ codes s))
      | none ↦ elim (j.as_u64 rid) [
        | some n ↦ ok (connection_id c.server_id c.conn_id ++ (b'-' ∷ d.show n))
        | none ↦ panic
      ]
    ]

module _ ⦃w : World⦄ ⦃j : Values⦄ ⦃d : Decimals⦄ ⦃x : Encoders⦄ where
  unfoldable pub add_request_id : CallCodec → x.Encoder → Outcome x.Encoder
  unfolding request_id
  add_request_id c e = elim c.destination.request_id_header [
    | none ↦ ok e
    | some header ↦ do rid ← request_id c; expect (x.add_header header rid e)
  ]

  unfoldable pub add_host : CallCodec → x.Encoder → Outcome x.Encoder
  add_host c e = elim c.destination.override_host_header [
    | none ↦ ok e
    | some header ↦ expect (x.add_header "Host" (codes header) e)
  ]

  -- `message` stands for the call: it is its meta object.
  unfoldable pub write_json_request : x.Encoder → HashMap String w.Json → Outcome x.Encoder
  write_json_request e message = do
    typed ← expect (x.add_header "Content-Type" (codes "application/json") e)
    body ← expect (x.to_string message)
    sized ← expect (x.add_length (length body) typed)
    started ← expect (x.done_headers sized)
    written ← expect (x.write_body body started)
    expect (x.done written)

  -- `text` makes a JSON value of a text.
  unfoldable pub start_write :
      (List ℕ → w.Json) → CallCodec → x.Encoder → Outcome (x.Encoder × CallCodec)
  unfolding add_request_id add_host meta_with_extra write_json_request
  start_write text c e = elim c.state [
    | init auth path ↦ do
      line ← expect (x.request_line path e)
      host ← add_host c line
      authorized ← expect (x.add_header "Authorization" auth host)
      named ← add_request_id c authorized
      agent ← expect (x.add_header "User-Agent" user_agent named)
      done ← write_json_request agent (
          meta_with_extra (("connection_id", text (connection_id c.server_id c.conn_id)) ∷ [])
            c.meta)
      ok (done, with_state wait c)
    | wait ↦ panic
    | void ↦ panic
    | headers status ↦ panic
  ]

module _ ⦃w : World⦄ where
  -- The match on the content type, and whether the response is read on.
  unfoldable pub with_content_type : Option ℕ → ContentType → CallCodec → Bool × CallCodec
  with_content_type status valid c = (true, with_json c)
  with_content_type status absent c =
      if c.weak_content_type
      then (true, with_json c)
      else (not (nat_beq (unwrap_or status 0) 200), c)
  with_content_type status invalid c =
      if c.weak_content_type
      then (true, with_json c)
      else (not (nat_beq (unwrap_or status 0) 200), c)

  unfoldable pub headers_received : Option ℕ → ContentType → CallCodec → Outcome (Bool × CallCodec)
  unfolding with_content_type
  headers_received status content c = elim c.state [
    | wait ↦ ok (with_content_type status content (with_state (headers (unwrap_or status 500)) c))
    | init auth path ↦ panic
    | void ↦ panic
    | headers s ↦ panic
  ]

  -- `Drop`: a request that was not answered is answered with an error.
  unfoldable pub drop : CallCodec → List Answer
  drop c = elim c.state [
    | void ↦ []
    | init auth path ↦ dropped c.meta ∷ []
    | wait ↦ dropped c.meta ∷ []
    | headers status ↦ dropped c.meta ∷ []
  ]

module _ ⦃w : World⦄ ⦃j : Values⦄ where
  -- The answer to the client, of a status and a body.
  unfoldable pub answer : ℕ → List ℕ → CallCodec → Answer
  answer status body c =
      if nat_beq status 200
      then elim (j.from_slice body) [ some x ↦ result c.meta x | none ↦ error c.meta json_error ]
      else if c.json_content
      then error c.meta (http_error status (j.from_slice body))
      else error c.meta (http_error status none)

  unfoldable pub data_received : List ℕ → Bool → CallCodec → Outcome (Answer × CallCodec)
  unfolding answer
  data_received body end c = if not end then panic else elim c.state [
    | headers status ↦ ok (answer status body c, with_state void c)
    | init auth path ↦ panic
    | wait ↦ panic
    | void ↦ panic
  ]
