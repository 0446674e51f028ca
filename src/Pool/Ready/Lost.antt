-- ===== src/Pool/Ready/Lost.antt =====
-- The early return of `associate` in pool.rs, on a namespace that the pool has no lattice for.
use swindon.Prelude.{
  ℕ, ◌≡◌, refl, true, false, List, [], ◌∷◌, none, some, arith, nat_eq, string_eq, Option-cases, inl,
  inr, ◌++◌,
}
use swindon.World.{World}
use swindon.Timers.{Timers}
use swindon.Outcome.{panic, Returns}
use swindon.Std.HashMap.{HashMap, get, remove, get-remove, get-insert}
use swindon.Std.HashSet.{contains}
use swindon.Lattice.State.{SessionId}
use swindon.Pool.Types.{
  Cid, Topic, Namespace, Subscription, pending, session, Session, NewConnection, Connection, Pool,
  Effect, emit, incr, pubsub_input,
}
use swindon.Pool.Topics.{deliver, publish_loop, publish}
use swindon.Pool.Connections.{associate, send_lattices, associated}
use swindon.Pool.Output.{lattice_from}
use swindon.Pool.Frames.{flush_buffer-Emits}
use swindon.Pool.Sync.Tables.{InSync, subscription}

module _ ⦃w : World⦄ ⦃h : Timers Session⦄ where
  -- A subscription of a connection that is in neither table ends the loop in a panic.
  publish_loop-panic :
      (topic : Topic) (value : w.Json) (cid : Cid) (sub : Subscription)
      (cids : HashMap Cid Subscription) (p : Pool)
      → get cids cid ≡ some sub
      → get p.pending_connections cid ≡ none
      → get p.connections cid ≡ none
      → publish_loop topic value cids p ≡ panic
  unfolding publish_loop deliver get
  publish_loop-panic topic value cid sub [] p e a b = ground (arith, e)
  publish_loop-panic topic value cid sub ((c, pending) ∷ cids) p e a b =
      elim (Option-cases (get p.pending_connections c)) [
        | inl n ↦ rw n refl
        | inr (conn, n) ↦ rw n (
            publish_loop-panic topic value cid sub cids _
              (ground (arith, e, a, n, nat_eq.beq_iff c cid))
              (ground (
                arith,
                a,
                n,
                nat_eq.beq_iff c cid,
                get-insert p.pending_connections c cid
                    (record conn { message_buffer = conn.message_buffer ++ (topic, value) ∷ [] }),
              ))
              b)
      ]
  publish_loop-panic topic value cid sub ((c, session) ∷ cids) p e a b =
      elim (Option-cases (get p.connections c)) [
        | inl n ↦ rw n refl
        | inr (conn, n) ↦ rw n (
            publish_loop-panic topic value cid sub cids _
              (ground (arith, e, b, n, nat_eq.beq_iff c cid)) a b)
      ]

  publish-panic :
      (topic : Topic) (value : w.Json) (cid : Cid) (sub : Subscription) (p : Pool)
      → subscription p topic cid ≡ some sub
      → get p.pending_connections cid ≡ none
      → get p.connections cid ≡ none
      → publish topic value p ≡ panic
  unfolding publish get
  publish-panic topic value cid sub p e a b = elim (Option-cases (get p.topics topic)) [
    | inl n ↦ ground (arith, e, n)
    | inr (cids, n) ↦
        rw (n, publish)
          (publish_loop-panic topic value cid sub cids (emit (incr pubsub_input) p)
            (ground (arith, e, n)) a b)
  ]

  send_lattices-missing :
      (conn : Connection) (sid : SessionId) (ns : Namespace) (iter : List Namespace) (p : Pool)
      → contains iter ns ≡ true
      → get p.lattices ns ≡ none
      → (out : List Effect) × (send_lattices conn sid iter p ≡ (false, record p { out = out }))
  unfolding send_lattices contains lattice_from
  send_lattices-missing conn sid ns [] p c e = absurd (ground (arith, c))
  send_lattices-missing conn sid ns (n ∷ iter) p c e = elim (Option-cases (get p.lattices n)) [
    | inl g ↦ rw (g, send_lattices) (p.out, refl)
    | inr (lat, g) ↦
        rw (g, send_lattices)
          (send_lattices-missing conn sid ns iter (lattice_from conn.channel n sid lat p)
            (ground (arith, c, e, g, string_eq.beq_iff n ns)) e)
  ]

  -- A pending connection that is attached to a namespace without a lattice is dropped when it is
  -- associated, but stays in the table of topics: the next publication on any of its topics
  -- panics.
  pub associate-lost :
      (cid : Cid) (sid : SessionId) (ts now : ℕ) (metadata value : w.Json) (p : Pool)
      (conn : NewConnection) (ns : Namespace) (topic : Topic)
      → InSync p
      → get p.pending_connections cid ≡ some conn
      → contains conn.lattices ns ≡ true
      → get p.lattices ns ≡ none
      → contains conn.topics topic ≡ true
      → Returns (λ q. publish topic value q ≡ panic) (associate cid sid ts metadata now p)
  unfolding associate associated
  associate-lost cid sid ts now metadata value p conn ns topic s e l m t =
      let p₀ : Pool = record p { pending_connections = remove p.pending_connections cid } in
      let (o₁, f) = flush_buffer-Emits conn.channel conn.message_buffer p₀ in
      let (o₂, g) =
        send_lattices-missing (associated conn sid) sid ns conn.lattices (record p₀ { out = o₁ }) l
          m in
      rw (e, associate, f, g)
        (publish-panic topic value cid pending (record p₀ { out = o₂ })
          (ground (arith, s.exact topic cid, e, t))
          (ground (arith, get-remove p.pending_connections cid cid, nat_eq.beq_iff cid cid))
          (ground (arith, s.apart cid, e)))
