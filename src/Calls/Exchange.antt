-- ===== src/Calls/Exchange.antt =====
-- A call from the message of the client to the answer that it gets.
use swindon.Prelude.{
  ℕ, suc, ◌≡◌, arith, Bool, true, false, not, ◌&&◌, ◌||◌, List, [], ◌∷◌, Option, none, some,
  if◌then◌else◌, string_eq, is_some, nat_beq, unwrap_or,
}
use swindon.Outcome.{Outcome, ok, ◌>>=◌}
use swindon.World.{World}
use swindon.Intern.{all}
use swindon.Ids.RequestId.{id_char}
use swindon.Calls.Encoding.{Encoders, at_start}
use swindon.Calls.Writing.{IsValue}
use swindon.Lattice.State.{SessionId}
use swindon.Pool.Types.{Cid}
use swindon.Ids.PubCid.{Decimals}
use swindon.Replication.{ServerId}
use swindon.Listener.{ContentType, valid, absent, invalid}
use swindon.Calls.{
  Destination, Values, Meta, Answer, dropped, Did, answered, active, started, Backends,
  valid_method, valid_request_id, start_call, Sending, ready, not_ready, failed, update_activity,
  method_call,
}
use swindon.Calls.Codec.{
  CallCodec, init, start_write, headers_received, data_received, answer, drop,
}

module _ ⦃w : World⦄ where
  -- The codec that `method_call` makes.
  abbrev pub new_codec : ServerId → Cid → Bool → List ℕ → List ℕ → Destination → Meta → CallCodec
  new_codec server_id cid weak_type auth path dest meta = record {
    state = init auth path;
    meta = meta;
    conn_id = cid;
    server_id = server_id;
    destination = dest;
    json_content = false;
    weak_content_type = weak_type;
  }

  abbrev pub is_json : ContentType → Bool
  is_json valid = true
  is_json absent = false
  is_json invalid = false

module _ ⦃w : World⦄ ⦃j : Values⦄ ⦃d : Decimals⦄ where
  -- What comes after the request was written: a response with a status, a content type and a body.
  abbrev pub respond : Option ℕ → ContentType → List ℕ → CallCodec → Outcome (List Answer)
  respond status content body c = do
    (accepted, c₂) ← headers_received status content c
    elim accepted [
      | false ↦ ok (drop c₂)
      | true ↦ do (a, c₃) ← data_received body true c₂; ok (a ∷ drop c₃)
    ]

  -- The one answer that there should be; a good status without JSON is an error.
  abbrev pub answers : Option ℕ → ContentType → List ℕ → CallCodec → List Answer
  answers status content body c =
      let json = c.weak_content_type || is_json content in
      if nat_beq (unwrap_or status 500) 200 && not json
      then dropped c.meta ∷ []
      else answer (unwrap_or status 500) body (record {
        state = c.state;
        meta = c.meta;
        conn_id = c.conn_id;
        server_id = c.server_id;
        destination = c.destination;
        json_content = json;
        weak_content_type = c.weak_content_type;
      })
        ∷ []

-- One response, and the connection that calls: its server and id, whether a content type may be
-- missing, the value of its header `Authorization`, and a new encoder.
module _ ⦃w : World⦄ ⦃j : Values⦄ ⦃d : Decimals⦄ ⦃x : Encoders⦄ (text : List ℕ → w.Json)
    (status : Option ℕ) (content : ContentType) (body : List ℕ) (server_id : ServerId) (cid : Cid)
    (weak_type : Bool) (auth : List ℕ) (e : x.Encoder) where
  -- The answers to one request.
  abbrev pub exchange : CallCodec → Outcome (List Answer)
  exchange c = do (sent, c₁) ← start_write text c e; respond status content body c₁

  -- What a call must come to: a request that was started is written without a panic, and gets its
  -- answers.
  abbrev pub Served : Did → Type 0
  Served (answered a) = Unit
  Served (active a r) = Unit
  Served (started path dest meta) =
      exchange (new_codec server_id cid weak_type auth path dest meta)
      ≡ ok (answers status content body (new_codec server_id cid weak_type auth path dest meta))

  -- What is needed to write a request: the server's own texts have no line breaks.
  abbrev pub CanWrite : Type 0
  CanWrite = (x.stage e ≡ at_start) × (all id_char server_id ≡ true) × IsValue auth

module _ ⦃w : World⦄ ⦃j : Values⦄ where
  -- The answers that a call gets before any response.
  abbrev pub count : List Did → ℕ
  count [] = 0
  count (answered a ∷ s) = suc (count s)
  count (active a r ∷ s) = count s
  count (started path dest meta ∷ s) = count s

  abbrev pub refusals : Option Sending → ℕ
  refusals none = 2
  refusals (some ready) = 0
  refusals (some not_ready) = 2
  refusals (some failed) = 2

  -- A valid call to a known destination that its pool does not take is answered twice; an invalid
  -- one and one to an unknown destination once, and one that was started not yet.
  pub count-method_call :
      (b : Backends) (session_id : SessionId) (now : ℕ) (name : List ℕ) (meta : Meta)
      → count (method_call b session_id now name meta) ≡ (
          if valid_method name
            && valid_request_id meta
            && is_some (b.destination (b.resolve name).upstream)
          then refusals (b.pool (b.resolve name).upstream)
          else 1)
  unfolding method_call start_call update_activity
  count-method_call b session_id now name meta = ground arith
