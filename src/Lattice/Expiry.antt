-- ===== src/Lattice/Expiry.antt =====
-- `expires` in chat/processor/lattice.rs, in what is stored and in a delta.
use swindon.Prelude.{ℕ, ◌≡◌, refl, Eq, List, [], ◌∷◌, arith, All, string_eq, unwrap_or}
use swindon.World.{World}
use swindon.Std.HashMap.{HashMap, get, insert, remove}
use swindon.Lattice.State.{
  Values, Rooms, Lattice, Delta, Key, SessionId, with_session, new_values, room_update, rooms_loop,
  rooms_update, private_loop, update, drop_subscription, drop_subscriptions,
}

module _ {K V : Type 0} (P : V → Type 0) where
  abbrev pub AllValues : HashMap K V → Type 0
  AllValues m = All (λ e. P e.1) m

module _ {K V : Type 0} ⦃e : Eq K⦄ (P : V → Type 0) where
  pub insert-AllValues :
      (m : HashMap K V) (k : K) (v : V) → AllValues P m → P v → AllValues P (insert m k v)
  unfolding insert
  insert-AllValues [] k v h p = (p, tt)
  insert-AllValues ((j, u) ∷ m) k v h p = ground (arith, insert-AllValues m k v h.1 p)

  pub remove-AllValues : (m : HashMap K V) (k : K) → AllValues P m → AllValues P (remove m k)
  unfolding remove
  remove-AllValues [] k h = tt
  remove-AllValues ((j, u) ∷ m) k h = ground (arith, remove-AllValues m k h.1)

  pub get-AllValues :
      (m : HashMap K V) (k : K) (d : V) → AllValues P m → P d → P (unwrap_or (get m k) d)
  unfolding get
  get-AllValues [] k d h p = p
  get-AllValues ((j, u) ∷ m) k d h p = ground (arith, get-AllValues m k d h.1 p)

module _ ⦃w : World⦄ where
  abbrev pub IsBound : Values → Type 0
  IsBound v = v.expires ≡ with_session

  abbrev pub IsBoundRooms : Rooms → Type 0
  IsBoundRooms rooms = AllValues IsBound rooms

  -- No stored value has an expiry time of its own.
  pub record IsSessionBound (lat : Lattice) : Type 0 where
    pub shared : IsBoundRooms lat.shared
    pub private : AllValues IsBoundRooms lat.private

  room_update-IsBound :
      (now : ℕ) (mine v : Values) → IsBound mine → IsBound (room_update now mine v).0
  unfolding room_update
  room_update-IsBound now mine v h = h

  rooms_loop-IsBoundRooms :
      (now : ℕ) (mine es : Rooms) → IsBoundRooms mine → IsBoundRooms (rooms_loop now mine es).0
  unfolding rooms_loop
  rooms_loop-IsBoundRooms now mine [] h = h
  rooms_loop-IsBoundRooms now mine ((room, v) ∷ es) h =
      let old = unwrap_or (get mine room) new_values in
      let kept =
        room_update-IsBound now old v (get-AllValues IsBound mine room new_values h refl) in
      rooms_loop-IsBoundRooms now (insert mine room (room_update now old v).0) es
        (insert-AllValues IsBound mine room _ h kept)

  rooms_update-IsBoundRooms :
      (now : ℕ) (mine es : Rooms) → IsBoundRooms mine → IsBoundRooms (rooms_update now mine es).0
  unfolding rooms_update
  rooms_update-IsBoundRooms now mine es h = rooms_loop-IsBoundRooms now mine es h

  private_loop-IsBound :
      (now : ℕ) (mine es : HashMap SessionId Rooms)
      → AllValues IsBoundRooms mine
      → AllValues IsBoundRooms (private_loop now mine es).0
  unfolding private_loop
  private_loop-IsBound now mine [] h = h
  private_loop-IsBound now mine ((sid, rooms) ∷ es) h =
      let old = unwrap_or (get mine sid) [] in
      let kept =
        rooms_update-IsBoundRooms now old rooms (get-AllValues IsBoundRooms mine sid [] h tt) in
      private_loop-IsBound now (insert mine sid (rooms_update now old rooms).0) es
        (insert-AllValues IsBoundRooms mine sid _ h kept)

  -- Whatever expiry a delta carries, `update` stores none: if every stored value is to go with its
  -- session, so is every stored value afterwards.
  pub update-IsSessionBound :
      (now : ℕ) (lat : Lattice) (delta : Delta)
      → IsSessionBound lat
      → IsSessionBound (update now lat delta).0
  unfolding update
  update-IsSessionBound now lat delta h = record {
    shared = rooms_update-IsBoundRooms now lat.shared delta.shared h.shared;
    private = private_loop-IsBound now lat.private delta.private h.private;
  }

  drop_subscription-IsSessionBound :
      (sid : SessionId) (lat : Lattice) (key : Key)
      → IsSessionBound lat
      → IsSessionBound (drop_subscription sid lat key)
  unfolding drop_subscription
  drop_subscription-IsSessionBound sid lat key h =
      ground (arith, remove-AllValues IsBound lat.shared key h.shared)

  drop_subscriptions-IsSessionBound :
      (sid : SessionId) (lat : Lattice) (ks : List Key)
      → IsSessionBound lat
      → IsSessionBound (drop_subscriptions sid lat ks)
  unfolding drop_subscriptions
  drop_subscriptions-IsSessionBound sid lat [] h = h
  drop_subscriptions-IsSessionBound sid lat (k ∷ ks) h =
      drop_subscriptions-IsSessionBound sid (drop_subscription sid lat k) ks
        (drop_subscription-IsSessionBound sid lat k h)
