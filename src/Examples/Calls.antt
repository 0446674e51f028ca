-- ===== src/Examples/Calls.antt =====
-- A call of a client, and the answer of a backend.
use swindon.Prelude.{
  ℕ, zero, ◌-◌, ◌≡◌, refl, sym, subst, arith, String, Bool, not, ◌||◌, ◌&&◌, ◌==◌, List, [], ◌∷◌,
  Option, none, some, true, string_eq, if◌then◌else◌, leb, length,
}
use swindon.Outcome.{Returns, expect}
use swindon.Intern.{codes, all, namespace_char}
use swindon.Std.HashMap
use swindon.Listener.{starts_with}
use swindon.Calls.{
  Values, Meta, Destination, Backends, ready, not_ready, valid_request_id, valid_id_text,
  method_call, error, answered, invalid_method, valid_method,
}
use swindon.Calls.Codec.{meta_with_extra}
use swindon.Calls.Encoding.{
  Encoders, Stage, at_start, at_headers, at_length, at_body, at_end, header_char,
}
use swindon.Calls.Exchange.{count, count-method_call}
use swindon.Calls.Identity.{get-meta_with_extra}
use swindon.Examples.Setting.{paper}
use swindon.Examples.Decimal.{decimal}

-- Every value is a text.
instance abbrev texts : Values
texts = record { as_str = λ s. some s; as_u64 = λ s. none; from_slice = λ b. some "[]" }

-- An encoder that only keeps how far it is.
abbrev takes_header : String → List ℕ → Stage → Option Stage
takes_header name value at_headers =
    if not (name == "Content-Length" || name == "Transfer-Encoding") && all header_char value
    then some at_headers
    else none
takes_header name value _ = none

abbrev takes_line : Stage → Option Stage
takes_line at_start = some at_headers
takes_line _ = none

abbrev takes_length : ℕ → Stage → Option Stage
takes_length n at_headers = some (at_length n)
takes_length n _ = none

abbrev ends_headers : Stage → Option Stage
ends_headers (at_length n) = some (at_body n)
ends_headers _ = none

abbrev takes_body : List ℕ → Stage → Option Stage
takes_body body (at_body n) = if leb (length body) n then some (at_body (n - length body)) else none
takes_body body _ = none

abbrev ends : Stage → Option Stage
ends (at_body zero) = some at_end
ends _ = none

abbrev is_taken : String → Bool
is_taken name = not (name == "Content-Length" || name == "Transfer-Encoding")

takes_header-Returns :
    (name : String) (value : List ℕ) (s : Stage)
    → is_taken name ≡ true
    → all header_char value ≡ true
    → s ≡ at_headers
    → Returns (λ t. t ≡ at_headers) (expect (takes_header name value s))
takes_header-Returns name value s a b e =
    subst (λ s. Returns (λ t. t ≡ at_headers) (expect (takes_header name value s))) (sym e)
      (rw (a, b) refl)

takes_body-Returns :
    (body : List ℕ) (s : Stage)
    → s ≡ at_body (length body)
    → Returns (λ t. t ≡ at_body 0) (expect (takes_body body s))
takes_body-Returns body s e =
    let same : leb (length body) (length body) ≡ true = ground arith in
    subst (λ s. Returns (λ t. t ≡ at_body 0) (expect (takes_body body s))) (sym e)
      (rw same (ground arith))

instance abbrev stages : Encoders
stages = record {
  Encoder = Stage;
  stage = λ s. s;
  allowed = is_taken;
  request_line = λ path. takes_line;
  add_header = takes_header;
  add_length = takes_length;
  done_headers = ends_headers;
  write_body = takes_body;
  done = ends;
  to_string = λ message. some (codes "[{}]");
  own_allowed = (refl, refl, refl, refl);
  request_line-takes =
      λ path e h. subst (λ s. Returns (λ t. t ≡ at_headers) (expect (takes_line s))) (sym h) refl;
  add_header-takes = takes_header-Returns;
  add_length-takes =
      λ n e h. subst (λ s. Returns (λ t. t ≡ at_length n) (expect (takes_length n s))) (sym h) refl;
  done_headers-takes =
      λ n e h. subst (λ s. Returns (λ t. t ≡ at_body n) (expect (ends_headers s))) (sym h) refl;
  write_body-takes = takes_body-Returns;
  done-takes = λ e h. subst (λ s. Returns (λ t. t ≡ at_end) (expect (ends s))) (sym h) refl;
  to_string-takes = λ message. tt;
}

abbrev app : Destination
app = record {
  override_host_header = some "app.example.org";
  request_id_header = some "X-Request-Id";
}

abbrev backends : Backends
backends = record {
  resolve = λ name. record { path = codes "/tangle"; upstream = "app" };
  destination = λ upstream. some app;
  pool = λ upstream. some ready;
  min_timeout = 1000;
  max_timeout = 60000;
}

abbrev meta : Meta
meta = ("request_id", "17") ∷ ("connection_id", "another") ∷ []

-- The methods of the server itself cannot be called.
own_method :
    method_call backends "bob" 0 (codes "swindon.x") meta
    ≡ answered (error meta invalid_method) ∷ []
unfolding method_call valid_method starts_with
own_method = refl

get-meta_with_extra_example :
    HashMap.IsDistinct (meta_with_extra (("connection_id", "mine") ∷ []) meta)
    × (HashMap.get (meta_with_extra (("connection_id", "mine") ∷ []) meta) "connection_id"
        ≡ some "mine")
unfolding HashMap.get
get-meta_with_extra_example =
    get-meta_with_extra (("connection_id", "mine") ∷ []) meta "connection_id" (refl, tt)
      (refl, (refl, tt))

count-method_call_example :
    count (
      method_call (record backends { pool = λ u. some not_ready }) "bob" 0 (codes "chat.send") meta)
    ≡ 2
unfolding valid_method valid_request_id starts_with HashMap.get valid_id_text namespace_char
count-method_call_example =
    count-method_call (record backends { pool = λ u. some not_ready }) "bob" 0 (codes "chat.send")
      meta
