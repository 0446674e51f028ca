-- ===== src/Intern.antt =====
-- intern.rs: the validators of interned names. A name is its text; `chars()` are its code points.
pub mod Validators
use Prim.Native.Char.{Char, code}
use Prim.Native.String.{String}
use swindon.Prelude.{
  ℕ, ◌≡◌, ◌≢◌, refl, Bool, true, false, ◌&&◌, ◌||◌, List, [], ◌∷◌, arith, leb, nat_beq, ltb,
  if◌then◌else◌, ◌↔◌,
}
use swindon.Outcome.{Outcome, ok, panic}

abbrev pub codes : String → List ℕ
codes String.[] = []
codes (String.◌∷◌ c s) = code c ∷ codes s

-- `char::is_alphabetic` and `is_alphanumeric`, which stand behind `is_ascii` in every test.
abbrev is_alphabetic : ℕ → Bool
is_alphabetic c = (leb b'a' c && leb c b'z') || (leb b'A' c && leb c b'Z')

abbrev pub is_alphanumeric : ℕ → Bool
is_alphanumeric c = is_alphabetic c || (leb b'0' c && leb c b'9')

abbrev is_ascii : ℕ → Bool
is_ascii c = ltb c 128

abbrev pub all : (ℕ → Bool) → List ℕ → Bool
all p [] = true
all p (c ∷ cs) = p c && all p cs

abbrev pub is_nil : List ℕ → Bool
is_nil [] = true
is_nil (c ∷ cs) = false

unfoldable pub ident_char : ℕ → Bool
ident_char c = is_ascii c && (is_alphanumeric c || nat_beq c b'-' || nat_beq c b'_')

unfoldable pub valid_ident : List ℕ → Bool
valid_ident val = all ident_char val

unfoldable pub var_char : ℕ → Bool
var_char c = is_ascii c && (is_alphanumeric c || nat_beq c b'_')

unfoldable pub valid_var : List ℕ → Bool
valid_var [] = false
valid_var (first ∷ rest) =
    ((is_ascii first && is_alphabetic first) || nat_beq first b'_') && all var_char (first ∷ rest)

unfoldable pub namespace_char : ℕ → Bool
namespace_char c =
    is_ascii c && (is_alphanumeric c || nat_beq c b'-' || nat_beq c b'_' || nat_beq c b'.')

unfoldable pub valid_namespace : List ℕ → Bool
valid_namespace val = if is_nil val then false else all namespace_char val

unfoldable pub topic_char : ℕ → Bool
topic_char c =
    is_ascii c
    && (is_alphanumeric c || nat_beq c b'-' || nat_beq c b'_' || nat_beq c b'.' || nat_beq c b':')

unfoldable pub valid_topic : List ℕ → Bool
valid_topic val = if is_nil val then false else all topic_char val

unfoldable pub valid_sid : List ℕ → Bool
valid_sid val = all topic_char val

-- `session_id.parse::<LatticeKey>().unwrap()`
unfoldable pub parse_key : String → Outcome String
parse_key sid = if valid_topic (codes sid) then ok sid else panic

-- A session id is a topic, and so a lattice key, exactly when it is not the empty string; and every
-- topic is a session id.
pub valid_topic_iff :
    (val : List ℕ) → (valid_topic val ≡ true) ↔ ((valid_sid val ≡ true) × (val ≢ []))
unfolding valid_sid valid_topic
valid_topic_iff [] = (λ h. cc, λ h. absurd (h.1 refl))
valid_topic_iff (c ∷ cs) = (λ h. (h, λ e. cc), λ h. h.0)

all-imp :
    (p q : ℕ → Bool)
    → ((c : ℕ) → p c ≡ true → q c ≡ true)
    → (val : List ℕ) → all p val ≡ true
    → all q val ≡ true
all-imp p q f [] h = refl
all-imp p q f (c ∷ cs) h = ground (arith, f c, all-imp p q f cs)

-- The classes of names lie in one another: a lattice variable is an identifier, and every
-- identifier and every namespace is a session id.
pub valid_chain :
    (val : List ℕ)
    → (valid_var val ≡ true → valid_ident val ≡ true)
      × (valid_ident val ≡ true → valid_sid val ≡ true)
      × (valid_namespace val ≡ true → valid_sid val ≡ true)
unfolding valid_var valid_ident valid_sid valid_namespace ident_char var_char topic_char
    namespace_char
valid_chain [] = (λ h. cc, λ h. refl, λ h. refl)
valid_chain (c ∷ cs) = (
  λ h. all-imp var_char ident_char var-ident (c ∷ cs) (ground (arith, h)),
  λ h. all-imp ident_char topic_char ident-topic (c ∷ cs) h,
  λ h. all-imp namespace_char topic_char namespace-topic (c ∷ cs) h,
)
  where
    ident-topic : (d : ℕ) → ident_char d ≡ true → topic_char d ≡ true
    ident-topic d h = ground arith

    namespace-topic : (d : ℕ) → namespace_char d ≡ true → topic_char d ≡ true
    namespace-topic d h = ground arith

    var-ident : (d : ℕ) → var_char d ≡ true → ident_char d ≡ true
    var-ident d h = ground arith
