-- ===== src/Pool/Keys.antt =====
-- The session ids that a pool may have to announce, which have to be lattice keys.
pub mod Entering
pub mod Exiting
use swindon.Prelude.{
  ℕ, ◌≡◌, refl, Eq, ◌==◌, Bool, true, false, String, List, [], ◌∷◌, Option, none, some, arith, All,
  if◌then◌else◌, string_eq, nat_eq, is_some, option_map, Option-cases, inl, inr, ap,
}
use swindon.World.{World}
use swindon.Timers.{Timers}
use swindon.Std.HashMap.{HashMap, get, insert, remove, get-insert, get-remove}
use swindon.Std.HashSet
use swindon.Std.HashSet.{HashSet}
use swindon.Lattice.State.{SessionId}
use swindon.Pool.Types.{Cid, Session, NewConnection, Connection, Pool}
use swindon.Pool.Frames.{IsKey}

-- `extend` and `remove` on a set of which every member satisfies `P`.
module _ {A : Type 0} ⦃e : Eq A⦄ (P : A → Type 0) where
  pub extend-All : (s : HashSet A) (l : List A) → All P s → All P l → All P (HashSet.extend s l)
  unfolding HashSet.extend HashSet.insert
  extend-All s [] hs hl = hs
  extend-All s (x ∷ l) hs hl = extend-All (HashSet.insert s x) l (ground (arith, hs, hl)) hl.1

module _ ⦃w : World⦄ where
  abbrev pub PeersAreKeys : Session → Type 0
  PeersAreKeys s = All IsKey s.users_lattice.peers

module _ ⦃w : World⦄ ⦃h : Timers Session⦄ where
  pub record HasKeys (p : Pool) : Type 0 where
    pub active :
        (sid : SessionId) (s : Session) → h.get p.active sid ≡ some s → IsKey sid × PeersAreKeys s
    pub inactive :
        (sid : SessionId) (s : Session) → get p.inactive sid ≡ some s → IsKey sid × PeersAreKeys s
    pub pending :
        (c : Cid) (conn : NewConnection)
        → get p.pending_connections c ≡ some conn
        → All IsKey conn.users_lattice
    pub joined :
        (c : Cid) (conn : Connection) → get p.connections c ≡ some conn → IsKey conn.session_id
