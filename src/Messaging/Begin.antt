-- ===== src/Messaging/Begin.antt =====
-- What NewBegin of src/bolt/messaging/messages.go leaves in the metadata.
use mathlib.Core.Path.{subst}
use gopher_cypher.Common.{
  ℕ, List, ◌≡◌, refl, ◌∙◌, sym, arith, false, Bool-cases, Option, Option-cases, none, some, inl,
  inr, str_eq, str_eq_refl, str_eq→eq,
}
use gopher_cypher.Packstream.Value.{Value, Fields, string, no_fields, field, set_field, get_field}
use gopher_cypher.Messaging.Message.{
  add_mode, begin, new_begin, default_mode, default_database, default_db, delete_field, get_string,
  is_memgraph, is_one_letter, mode_key, db_key, adapter_key, write_mode, neo4j,
}

get_field-set_field_same :
    (k : List ℕ) (v : Value) (m : Fields) → get_field k (set_field k v m) ≡ some v
unfolding get_field set_field
get_field-set_field_same k v no_fields = rw (str_eq_refl k) refl
get_field-set_field_same k v (field j w m) = elim (Bool-cases (str_eq j k)) [
  | inl t ↦ rw t (rw t refl)
  | inr f ↦ rw f (rw f (get_field-set_field_same k v m))
]

get_field-set_field_other :
    (k j : List ℕ) (v : Value) (m : Fields)
    → str_eq j k ≡ false
    → get_field k (set_field j v m) ≡ get_field k m
unfolding get_field set_field
get_field-set_field_other k j v no_fields n = rw n refl
get_field-set_field_other k j v (field i w m) n = elim (Bool-cases (str_eq i j)) [
  | inl t ↦ rw t (rw (subst (λ x. str_eq x k ≡ false) (sym (str_eq→eq i j t)) n) refl)
  | inr f ↦ rw f (rw (get_field-set_field_other k j v m n) refl)
]

get_field-delete_field_other :
    (k j : List ℕ) (m : Fields)
    → str_eq j k ≡ false
    → get_field k (delete_field j m) ≡ get_field k m
unfolding get_field delete_field
get_field-delete_field_other k j no_fields n = refl
get_field-delete_field_other k j (field i w m) n = elim (Bool-cases (str_eq i j)) [
  | inl t ↦ rw t (rw (subst (λ x. str_eq x k ≡ false) (sym (str_eq→eq i j t)) n) refl)
  | inr f ↦ rw f (rw (get_field-delete_field_other k j m n) refl)
]

-- The given mode, or "write".
abbrev pub mode_or_write : Option Value → Value
mode_or_write none = string write_mode
mode_or_write (some v) = v

default_mode-mode :
    (m : Fields) → get_field mode_key (default_mode m) ≡ some (mode_or_write (get_field mode_key m))
unfolding default_mode add_mode
default_mode-mode m = elim (Option-cases (get_field mode_key m)) [
  | inl e ↦ rw e (get_field-set_field_same mode_key (string write_mode) m)
  | inr (v, e) ↦ rw e e
]

default_mode-other :
    (k : List ℕ) (m : Fields)
    → str_eq mode_key k ≡ false
    → get_field k (default_mode m) ≡ get_field k m
unfolding default_mode add_mode
default_mode-other k m n = elim (Option-cases (get_field mode_key m)) [
  | inl e ↦ rw e (get_field-set_field_other k mode_key (string write_mode) m n)
  | inr (v, e) ↦ rw e refl
]

default_db-other :
    (k : List ℕ) (o : Option Value) (m : Fields)
    → str_eq db_key k ≡ false
    → get_field k (default_db o m) ≡ get_field k m
unfolding default_db
default_db-other k none m n = get_field-set_field_other k db_key (string neo4j) m n
default_db-other k (some v) m n = refl

default_database-other :
    (k : List ℕ) (m : Fields)
    → str_eq db_key k ≡ false
    → get_field k (default_database m) ≡ get_field k m
unfolding default_database
default_database-other k m n = elim (Bool-cases (is_memgraph (get_string adapter_key m))) [
  | inl t ↦ rw t (get_field-delete_field_other k db_key m n)
  | inr f ↦ elim (Bool-cases (is_one_letter (get_string mode_key m))) [
    | inl t ↦ rw f (rw t (default_db-other k (get_field db_key m) m n))
    | inr f' ↦ rw f (rw f' refl)
  ]
]

mode-ne-db : str_eq db_key mode_key ≡ false
mode-ne-db = elim (Bool-cases (str_eq db_key mode_key)) [
  | inl t ↦ absurd (ground (arith, str_eq→eq db_key mode_key t))
  | inr f ↦ f
]

-- The BEGIN that NewBegin makes has the mode that the metadata gave, or else the mode write, and
-- every other key than mode and db as the metadata had it.
pub new_begin-metadata :
    (m : Fields)
    → (m' : Fields) × (new_begin m ≡ begin m')
      × (get_field mode_key m' ≡ some (mode_or_write (get_field mode_key m)))
      × ((k : List ℕ)
          → str_eq mode_key k ≡ false
          → str_eq db_key k ≡ false
          → get_field k m' ≡ get_field k m)
unfolding new_begin
new_begin-metadata m = (
  default_database (default_mode m),
  refl,
  default_database-other mode_key (default_mode m) mode-ne-db ∙ default_mode-mode m,
  λ k p q. default_database-other k (default_mode m) q ∙ default_mode-other k m p,
)
