-- ===== src/Examples/Ids.antt =====
-- Runs of base64, request ids and connection ids.
use swindon.Prelude.{ℕ, ◌≡◌, refl, arith, List, some}
use swindon.Outcome.{ok, ◌>>=◌, Returns}
use swindon.Intern.{codes}
use swindon.Ids.Base64.{base64, decoded, base64-decoded}
use swindon.Ids.RequestId.{RequestIdGenerator, with_generator, new, from_str}
use swindon.Ids.Decoding.{Readable, new-Readable}
use swindon.Ids.PubCid
use swindon.Ids.PubCid.{Decimals, connection_id, from_str-connection_id}
use swindon.Examples.Decimal.{decimal}

-- "Man" and "Ma" as in the definition of the code.
man : base64 (codes "Man") ≡ ok (codes "TWFu")
unfolding base64
man = refl

ma : base64 (codes "Ma") ≡ ok (codes "TWE=")
unfolding base64
ma = refl

base64-decoded_example : Returns (λ s. decoded s ≡ some (codes "Mana")) (base64 (codes "Mana"))
base64-decoded_example =
    base64-decoded (codes "Mana") (omega arith, (omega arith, (omega arith, (omega arith, tt))))

abbrev thread : RequestIdGenerator
thread = record { thread_id = codes "AAECAwQFBgcICQoL"; counter = 41 }

generated : with_generator (0, 1, 2) (3, 4, 5) (6, 7, 8) (9, 10, 11) 41 ≡ ok thread
unfolding with_generator
generated = refl

new-Readable_example : Returns (Readable 0 52000000 41) (new (some (0, 52000000)) thread)
new-Readable_example = new-Readable 0 52000000 thread (record { size = refl; chars = refl })

-- Of two ids, the one that is made a millisecond later has the lower text: "z" is before "0" among
-- the digits, and after it among the characters.
early :
    new (some (0, 51000000)) thread >>= (λ r. ok r.0)
    ≡ ok (codes "AAAAAAAzAAECAwQFBgcICQoLAAAAAAAp")
unfolding new
early = refl

late :
    new (some (0, 52000000)) thread >>= (λ r. ok r.0)
    ≡ ok (codes "AAAAAAA0AAECAwQFBgcICQoLAAAAAAAp")
unfolding new
late = refl

abbrev server : List ℕ
server = codes "AAECAwQFBgcICQoL-_ECAwQFBgcICQoL"

from_str-connection_id_example : PubCid.from_str (connection_id server 17) ≡ some (17, server)
unfolding from_str
from_str-connection_id_example = from_str-connection_id server 17 refl (omega arith)

shown : connection_id server 17 ≡ codes "AAECAwQFBgcICQoL-_ECAwQFBgcICQoL-17"
unfolding connection_id
shown = refl
