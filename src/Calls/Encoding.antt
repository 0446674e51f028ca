-- ===== src/Calls/Encoding.antt =====
-- The encoder of requests, which is tk_http's, and what is written with it. An operation that the
-- program unwraps gives `none` where it fails.
use swindon.Prelude.{ℕ, ◌≡◌, Bool, true, not, ◌||◌, String, List, Option, length, nat_beq}
use swindon.Outcome.{Returns, expect}
use swindon.World.{World}
use swindon.Std.HashMap.{HashMap}
use swindon.Intern.{all}

-- A byte that a header may have: a line break would end it.
abbrev pub header_char : ℕ → Bool
header_char c = not (nat_beq c b'\r' || nat_beq c b'\n')

-- How far a request is written; the length is that of its body.
pub data Stage : Type 0 where
  at_start at_headers at_end : Stage
  at_length at_body : ℕ → Stage

-- `Encoder` of tk_http: the request line, then headers, among them the length of the body, and then
-- the body. The names of headers that the encoder writes itself are not allowed. `to_string` is
-- serde's: the message of a call, of its meta object.
pub record Encoders ⦃w : World⦄ : Type 1 where
  pub Encoder : Type 0
  pub stage : Encoder → Stage
  pub allowed : String → Bool
  pub request_line : List ℕ → Encoder → Option Encoder
  pub add_header : String → List ℕ → Encoder → Option Encoder
  pub add_length : ℕ → Encoder → Option Encoder
  pub done_headers : Encoder → Option Encoder
  pub write_body : List ℕ → Encoder → Option Encoder
  pub done : Encoder → Option Encoder
  pub to_string : HashMap String w.Json → Option (List ℕ)
  pub own_allowed :
      (allowed "Host" ≡ true)
      × (allowed "Authorization" ≡ true)
      × (allowed "User-Agent" ≡ true)
      × (allowed "Content-Type" ≡ true)
  pub request_line-takes :
      (path : List ℕ) (e : Encoder)
      → stage e ≡ at_start
      → Returns (λ e'. stage e' ≡ at_headers) (expect (request_line path e))
  pub add_header-takes :
      (name : String) (value : List ℕ) (e : Encoder)
      → allowed name ≡ true
      → all header_char value ≡ true
      → stage e ≡ at_headers
      → Returns (λ e'. stage e' ≡ at_headers) (expect (add_header name value e))
  pub add_length-takes :
      (n : ℕ) (e : Encoder)
      → stage e ≡ at_headers
      → Returns (λ e'. stage e' ≡ at_length n) (expect (add_length n e))
  pub done_headers-takes :
      (n : ℕ) (e : Encoder)
      → stage e ≡ at_length n
      → Returns (λ e'. stage e' ≡ at_body n) (expect (done_headers e))
  pub write_body-takes :
      (body : List ℕ) (e : Encoder)
      → stage e ≡ at_body (length body)
      → Returns (λ e'. stage e' ≡ at_body 0) (expect (write_body body e))
  pub done-takes :
      (e : Encoder) → stage e ≡ at_body 0 → Returns (λ e'. stage e' ≡ at_end) (expect (done e))
  pub to_string-takes :
      (message : HashMap String w.Json) → Returns (λ text. Unit) (expect (to_string message))
