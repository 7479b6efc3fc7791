-- ===== src/Cypher/Parameters.antt =====
-- RegisterParameter of src/cypher/query.go and registerParameter of src/cypher/compiler.go, which
-- are the same code on the same two fields.
-- Values of type interface{} are of an abstract type, with what Go computes on them in `Host`.
use gopher_cypher.Cache.Table.{put}
use gopher_cypher.Common.{
  ℕ, zero, suc, ◌+◌, ◌/◌, ◌%◌, Bool, true, false, Option, none, some, List, [], ◌∷◌, ltb,
  if◌then◌else◌, str_eq,
}

-- What Go computes on values of type interface{}.
pub record Host {ℓ} (V : Type ℓ) : Type ℓ where
  -- `v == val`, or none where the comparison panics: on two slices or two maps.
  pub equal : V → V → Option Bool
  -- fmt.Sprint
  pub sprint : V → List ℕ
  -- The order in which `range` visits the entries of a map, which Go leaves open: one order for each
  -- list of entries. That it changes between two ranges over the same entries is not modelled.
  pub visit : List (List ℕ × V) → List (List ℕ × V)
  -- strings.ToUpper
  pub to_upper : List ℕ → List ℕ

-- The two fields that a Compiler and a Query have in common.
pub record Parameters {ℓ} (V : Type ℓ) : Type ℓ where
  pub entries : List (List ℕ × V)
  pub counter : ℕ

abbrev pub no_parameters {ℓ} : {V : Type ℓ} → Parameters V
no_parameters = record { entries = []; counter = 0 }

-- The digits of n before those of `rest`: `fuel` bounds their number.
unfoldable pub digits_before : ℕ → ℕ → List ℕ → List ℕ
digits_before zero n rest = rest
digits_before (suc fuel) n rest =
    let longer = digits_before fuel (n / 10) ((48 + n % 10) ∷ rest) in
    if ltb n 10 then (48 + n) ∷ rest else longer

-- The verb %d
unfoldable pub decimal : ℕ → List ℕ
unfolding digits_before
decimal n = digits_before (suc n) n []

-- fmt.Sprintf("p%d", c.paramCounter)
unfoldable pub param_key : ℕ → List ℕ
unfolding decimal
param_key n = b'p' ∷ decimal n

-- One turn of the loop over the map: none where `==` panics, some (some k) where it returns k.
unfoldable pub compared : Option Bool → List ℕ → Option (Option (List ℕ)) → Option (Option (List ℕ))
compared none k rest = none
compared (some true) k rest = some (some k)
compared (some false) k rest = rest

module _ {ℓ} {V : Type ℓ} (host : Host V) where
  unfoldable pub find_key : V → List (List ℕ × V) → Option (Option (List ℕ))
  unfolding compared
  find_key val [] = some none
  find_key val ((k, v) ∷ m) = compared (host.equal v val) k (find_key val m)

  unfoldable pub registered :
      V → Parameters V → Option (Option (List ℕ)) → Option (List ℕ × Parameters V)
  unfolding param_key
  registered val p none = none
  registered val p (some (some k)) = some (k, p)
  registered val p (some none) =
      let key = param_key (suc p.counter) in
      some (key, record { entries = put str_eq key val p.entries; counter = suc p.counter })

  -- The key of a value, or none where Go panics.
  unfoldable pub register : V → Parameters V → Option (List ℕ × Parameters V)
  unfolding find_key registered
  register val p = registered val p (find_key val (host.visit p.entries))
