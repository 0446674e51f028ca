-- ===== src/Intern/Validators.antt =====
-- intern.rs: what each kind of symbol accepts.
use swindon.Prelude.{ℕ, ◌≡◌, ◌≢◌, refl, Bool, true, false, List, [], if◌then◌else◌, not}
use swindon.Intern.{
  valid_ident, valid_var, valid_namespace, valid_topic, valid_sid, valid_topic_iff, valid_chain,
}

pub data Kind : Type 0 where
  upstream log_format authorizer network ldap handler disk_pool session_pool : Kind
  topic lattice_key lattice_namespace lattice_var session_id : Kind

pub data Verdict : Type 0 where
  ok invalid_char : Verdict

abbrev verdict : Bool → Verdict
verdict valid = if not valid then invalid_char else ok

-- `validate_symbol` of the thirteen validators.
unfoldable pub validate_symbol : Kind → List ℕ → Verdict
validate_symbol upstream val = verdict (valid_ident val)
validate_symbol log_format val = verdict (valid_ident val)
validate_symbol authorizer val = verdict (valid_ident val)
validate_symbol network val = verdict (valid_ident val)
validate_symbol ldap val = verdict (valid_ident val)
validate_symbol handler val = verdict (valid_ident val)
validate_symbol disk_pool val = verdict (valid_ident val)
validate_symbol session_pool val = verdict (valid_ident val)
validate_symbol topic val = verdict (valid_topic val)
validate_symbol lattice_key val = verdict (valid_topic val)
validate_symbol lattice_namespace val = verdict (valid_namespace val)
validate_symbol lattice_var val = verdict (valid_var val)
validate_symbol session_id val = verdict (valid_sid val)

verdict-valid : (valid : Bool) → verdict valid ≡ ok → valid ≡ true
verdict-valid true e = refl
verdict-valid false e = cc

-- A name of any kind may be a session id, and one that is not empty may be a lattice key.
pub validate_symbol-sid :
    (kind : Kind) (val : List ℕ)
    → validate_symbol kind val ≡ ok
    → (validate_symbol session_id val ≡ ok) × (val ≢ [] → validate_symbol lattice_key val ≡ ok)
unfolding validate_symbol
validate_symbol-sid kind val e =
    let sid = sid_of kind e in (rw sid refl, λ n. rw ((valid_topic_iff val).1 (sid, n)) refl)
  where
    sid_of : (kind : Kind) → validate_symbol kind val ≡ ok → valid_sid val ≡ true
    sid_of upstream e = (valid_chain val).1 (verdict-valid (valid_ident val) e)
    sid_of log_format e = (valid_chain val).1 (verdict-valid (valid_ident val) e)
    sid_of authorizer e = (valid_chain val).1 (verdict-valid (valid_ident val) e)
    sid_of network e = (valid_chain val).1 (verdict-valid (valid_ident val) e)
    sid_of ldap e = (valid_chain val).1 (verdict-valid (valid_ident val) e)
    sid_of handler e = (valid_chain val).1 (verdict-valid (valid_ident val) e)
    sid_of disk_pool e = (valid_chain val).1 (verdict-valid (valid_ident val) e)
    sid_of session_pool e = (valid_chain val).1 (verdict-valid (valid_ident val) e)
    sid_of topic e = ((valid_topic_iff val).0 (verdict-valid (valid_topic val) e)).0
    sid_of lattice_key e = ((valid_topic_iff val).0 (verdict-valid (valid_topic val) e)).0
    sid_of lattice_namespace e = (valid_chain val).2 (verdict-valid (valid_namespace val) e)
    sid_of lattice_var e =
        (valid_chain val).1 ((valid_chain val).0 (verdict-valid (valid_var val) e))
    sid_of session_id e = verdict-valid (valid_sid val) e
