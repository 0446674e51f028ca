-- ===== src/Calls/Writing.antt =====
-- `start_write` of chat/backend.rs: none of its writes fails.
use swindon.Prelude.{
  ℕ, ◌≡◌, refl, arith, String, true, List, [], ◌∷◌, ◌++◌, some, length, Option-cases, inl, inr,
  string_eq,
}
use swindon.Outcome.{Returns, Returns->>=, expect}
use swindon.World.{World}
use swindon.Std.HashMap
use swindon.Std.HashMap.{HashMap}
use swindon.Intern.{codes, all}
use swindon.Ids.RequestId.{id_char}
use swindon.Ids.PubCid.{Decimals, connection_id, is_digit}
use swindon.Ids.Decoding.{all-append}
use swindon.Calls.{Values, Destination, valid_id_text, valid_request_id}
use swindon.Calls.Encoding.{
  Encoders, Stage, at_start, at_headers, at_length, at_body, at_end, header_char,
}
use swindon.Calls.Codec.{
  CallCodec, init, wait, with_state, request_id, add_request_id, add_host, write_json_request,
  start_write, meta_with_extra, user_agent,
}

-- The text can be the value of a header.
abbrev pub IsValue : List ℕ → Type 0
IsValue s = all header_char s ≡ true

id_char-IsValue : (s : List ℕ) → all id_char s ≡ true → IsValue s
id_char-IsValue [] a = refl
id_char-IsValue (c ∷ s) a = ground (arith, a, id_char-IsValue s (ground (arith, a)))

is_digit-IsValue : (s : List ℕ) → all is_digit s ≡ true → IsValue s
is_digit-IsValue [] a = refl
is_digit-IsValue (c ∷ s) a = ground (arith, a, is_digit-IsValue s (ground (arith, a)))

valid_id_text-IsValue : (s : List ℕ) → valid_id_text s ≡ true → IsValue s
unfolding valid_id_text
valid_id_text-IsValue s v = id_char-IsValue s (ground (arith, v))

module _ ⦃w : World⦄ ⦃j : Values⦄ ⦃d : Decimals⦄ where
  connection_id-IsValue :
      (server_id : List ℕ) (cid : ℕ) (s : List ℕ)
      → all id_char server_id ≡ true
      → IsValue s
      → IsValue (connection_id server_id cid ++ (b'-' ∷ s))
  unfolding connection_id
  connection_id-IsValue server_id cid s a v =
      all-append header_char (server_id ++ (b'-' ∷ d.show cid)) (b'-' ∷ s)
        (all-append header_char server_id (b'-' ∷ d.show cid) (id_char-IsValue server_id a)
          (ground (arith, is_digit-IsValue (d.show cid) (d.all-show cid))))
        (ground (arith, v))

  request_id-IsValue :
      (c : CallCodec)
      → valid_request_id c.meta ≡ true
      → all id_char c.server_id ≡ true
      → Returns IsValue (request_id c)
  unfolding request_id valid_request_id
  request_id-IsValue c v a = elim (Option-cases (HashMap.get c.meta "request_id")) [
    | inl g ↦ absurd (ground (arith, v, g))
    | inr (id, g) ↦ elim (Option-cases (j.as_str id)) [
      | inr (s, t) ↦
          rw (g, request_id, t)
            (connection_id-IsValue c.server_id c.conn_id (codes s) a
              (valid_id_text-IsValue (codes s) (ground (arith, v, g, t))))
      | inl t ↦ elim (Option-cases (j.as_u64 id)) [
        | inl n ↦ absurd (ground (arith, v, g, t, n))
        | inr (n, q) ↦
            rw (g, request_id, t, q)
              (connection_id-IsValue c.server_id c.conn_id (d.show n) a
                (is_digit-IsValue (d.show n) (d.all-show n)))
      ]
    ]
  ]

module _ ⦃w : World⦄ ⦃j : Values⦄ ⦃d : Decimals⦄ ⦃x : Encoders⦄ where
  -- The headers that the configuration has for a destination can be written.
  pub record IsWritable (dest : Destination) : Type 0 where
    pub host : (s : String) → dest.override_host_header ≡ some s → IsValue (codes s)
    pub name : (s : String) → dest.request_id_header ≡ some s → x.allowed s ≡ true

  abbrev At : Stage → x.Encoder → Type 0
  At s e = x.stage e ≡ s

  add_host-takes :
      (c : CallCodec) (e : x.Encoder)
      → IsWritable c.destination
      → At at_headers e
      → Returns (At at_headers) (add_host c e)
  unfolding add_host
  add_host-takes c e i a = elim (Option-cases c.destination.override_host_header) [
    | inl f ↦ rw (f, add_host) a
    | inr (s, f) ↦
        rw (f, add_host) (x.add_header-takes "Host" (codes s) e x.own_allowed.0 (i.host s f) a)
  ]

  add_request_id-takes :
      (c : CallCodec) (e : x.Encoder)
      → valid_request_id c.meta ≡ true
      → all id_char c.server_id ≡ true
      → IsWritable c.destination
      → At at_headers e
      → Returns (At at_headers) (add_request_id c e)
  unfolding add_request_id
  add_request_id-takes c e v a i h = elim (Option-cases c.destination.request_id_header) [
    | inl f ↦ rw (f, add_request_id) h
    | inr (s, f) ↦
        rw (f, add_request_id)
          (Returns->>= IsValue (At at_headers) (request_id c) (λ rid. expect (x.add_header s rid e))
            (request_id-IsValue c v a) (λ rid q. x.add_header-takes s rid e (i.name s f) q h))
  ]

  write_json_request-takes :
      (e : x.Encoder) (message : HashMap String w.Json)
      → At at_headers e
      → Returns (At at_end) (write_json_request e message)
  unfolding write_json_request
  write_json_request-takes e message h =
      Returns->>= (At at_headers) (At at_end)
        (expect (x.add_header "Content-Type" (codes "application/json") e)) _
        (x.add_header-takes "Content-Type" (codes "application/json") e x.own_allowed.3 refl h)
        (λ typed h₁.
          Returns->>= (λ body. Unit) (At at_end) (expect (x.to_string message)) _
            (x.to_string-takes message)
            (λ body u.
              Returns->>= (At (at_length (length body))) (At at_end)
                (expect (x.add_length (length body) typed)) _
                (x.add_length-takes (length body) typed h₁)
                (λ sized h₂.
                  Returns->>= (At (at_body (length body))) (At at_end)
                    (expect (x.done_headers sized)) _ (x.done_headers-takes (length body) sized h₂)
                    (λ started h₃.
                      Returns->>= (At (at_body 0)) (At at_end) (expect (x.write_body body started))
                        _ (x.write_body-takes body started h₃)
                        (λ written h₄. x.done-takes written h₄)))))

  -- A request that is valid is written to its end, and the codec waits for the response.
  pub start_write-takes :
      (text : List ℕ → w.Json) (c : CallCodec) (auth path : List ℕ) (e : x.Encoder)
      → c.state ≡ init auth path
      → valid_request_id c.meta ≡ true
      → all id_char c.server_id ≡ true
      → IsValue auth
      → IsWritable c.destination
      → x.stage e ≡ at_start
      → Returns (λ r. (x.stage r.0 ≡ at_end) × (r.1 ≡ with_state wait c)) (start_write text c e)
  unfolding start_write
  start_write-takes text c auth path e s v a p i h =
      rw (s, start_write)
        (Returns->>= (At at_headers) Written (expect (x.request_line path e)) _
          (x.request_line-takes path e h)
          (λ line h₁.
            Returns->>= (At at_headers) Written (add_host c line) _ (add_host-takes c line i h₁)
              (λ host h₂.
                Returns->>= (At at_headers) Written
                  (expect (x.add_header "Authorization" auth host)) _
                  (x.add_header-takes "Authorization" auth host x.own_allowed.1 p h₂)
                  (λ authorized h₃.
                    Returns->>= (At at_headers) Written (add_request_id c authorized) _
                      (add_request_id-takes c authorized v a i h₃)
                      (λ named h₄.
                        Returns->>= (At at_headers) Written
                          (expect (x.add_header "User-Agent" user_agent named)) _
                          (x.add_header-takes "User-Agent" user_agent named x.own_allowed.2 refl h₄)
                          (λ agent h₅.
                            Returns->>= (At at_end) Written (write_json_request agent message) _
                              (write_json_request-takes agent message h₅)
                              (λ done h₆. (h₆, refl))))))))
    where
      Written : x.Encoder × CallCodec → Type 0
      Written r = (x.stage r.0 ≡ at_end) × (r.1 ≡ with_state wait c)

      message : HashMap String w.Json
      message =
          meta_with_extra (("connection_id", text (connection_id c.server_id c.conn_id)) ∷ [])
            c.meta
