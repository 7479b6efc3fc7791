-- ===== src/Cypher/Compile.antt =====
-- src/cypher/compiler.go: the visitors write the text of a query and register its parameters.
-- BuildCypher of src/cypher/expression.go is here too, since a Compiler calls it.
use gopher_cypher.Cypher.Tree.{
  no_elements, raw, math, alias_value, element, alias, other_removal, Elements, function_call,
  printed, literal, text_removal, property_access, nested, label_removal, property_removal, quoted,
  comparison, Element, Removal, Expression,
}
use gopher_cypher.Common.Text.{codes}
use gopher_cypher.Cypher.Parameters.{register, Parameters, no_parameters, Host}
use gopher_cypher.Common.{
  ℕ, Bool, true, false, not, Option, none, some, List, [], ◌∷◌, ◌++◌, ◌==◌, if◌then◌else◌, str_eq,
}

pub record Compiler {ℓ} (V : Type ℓ) : Type ℓ where
  pub output : List ℕ
  pub parameters : Parameters V
  pub first_clause : Bool

abbrev pub new_compiler {ℓ} : {V : Type ℓ} → Compiler V
new_compiler = record { output = []; parameters = no_parameters; first_clause = true }

-- What a method of the Compiler does to it; none where Go panics.
abbrev pub Step {ℓ} : Type ℓ → Type ℓ
Step V = Compiler V → Option (Compiler V)

abbrev pub continue {ℓ} : {V : Type ℓ} → Option (Compiler V) → Step V → Option (Compiler V)
continue none next = none
continue (some c) next = next c

infixr 20 ◌>>◌
unfoldable pub ◌>>◌ {ℓ} : {V : Type ℓ} → Step V → Step V → Step V
◌>>◌ first next c = continue (first c) next

unfoldable pub skip {ℓ} : {V : Type ℓ} → Step V
skip c = some c

abbrev pub append {ℓ} : {V : Type ℓ} → List ℕ → Compiler V → Compiler V
append s c = record c { output = c.output ++ s }

-- c.output.WriteString(s)
unfoldable pub write {ℓ} : {V : Type ℓ} → List ℕ → Step V
write s c = some (append s c)

unfoldable pub write_if {ℓ} : {V : Type ℓ} → Bool → List ℕ → Step V
write_if true s c = some (append s c)
write_if false s c = some c

unfoldable pub set_first {ℓ} : {V : Type ℓ} → Bool → Step V
set_first b c = some (record c { first_clause = b })

-- A text that BuildCypher returned, with the parameters after it.
abbrev pub Built {ℓ} : Type ℓ → Type ℓ
Built V = Option (List ℕ × Parameters V)

-- The text of a part, put into the text around it.
abbrev pub placed {ℓ} : {V : Type ℓ} → (List ℕ → List ℕ) → Built V → Built V
placed f none = none
placed f (some (s, p)) = some (f s, p)

abbrev pub and_then {ℓ} : {V : Type ℓ} → Built V → (List ℕ → Parameters V → Built V) → Built V
and_then none k = none
and_then (some (s, p)) k = k s p

-- strings.ReplaceAll of one byte
unfoldable pub replace_all : ℕ → List ℕ → List ℕ → List ℕ
replace_all c with_text [] = []
replace_all c with_text (d ∷ s) =
    let rest = replace_all c with_text s in if d == c then with_text ++ rest else d ∷ rest

unfoldable pub escape : List ℕ → List ℕ
unfolding replace_all
escape s = replace_all b'"' (codes "\\\"") (replace_all b'\\' (codes "\\\\") s)

-- The direction of an ORDER BY item that is printed: not "" and not "ASC".
abbrev pub direction_text : List ℕ → List ℕ
direction_text [] = []
direction_text (d ∷ dir) = if str_eq (d ∷ dir) (codes "ASC") then [] else b' ' ∷ d ∷ dir

unfoldable pub write_yields {ℓ} : {V : Type ℓ} → Bool → List (List ℕ) → Step V
write_yields first [] = skip
write_yields first (y ∷ ys) = write_if (not first) (codes ", ") >> write y >> write_yields false ys

unfoldable pub write_yield {ℓ} : {V : Type ℓ} → List (List ℕ) → Step V
unfolding write_yields
write_yield [] = skip
write_yield (y ∷ ys) = write (codes " YIELD ") >> write_yields true (y ∷ ys)

-- A call of BuildCypher on the map and the counter of the Compiler, and its text written.
abbrev pub write_built {ℓ} : {V : Type ℓ} → Built V → Step V
write_built none c = none
write_built (some (s, p)) c = some (append s (record c { parameters = p }))

module _ {ℓ} {V : Type ℓ} (host : Host V) where
  -- "$" + RegisterParameter(v)
  unfoldable pub placeholder : V → Parameters V → Built V
  placeholder v p = placed (λ k. b'$' ∷ k) (register host v p)

  -- The loop of FunctionCallExpr: the arguments and ")".
  unfoldable pub build_arguments : Bool → List V → Parameters V → Built V
  unfolding placeholder
  build_arguments first [] p = some (codes ")", p)
  build_arguments first (v ∷ vs) p = and_then (placeholder v p) λ s q.
      placed (λ rest. (if first then [] else codes ", ") ++ (s ++ rest))
        (build_arguments false vs q)

  unfoldable pub build_expression : Expression V → Parameters V → Built V
  unfolding placeholder build_arguments
  build_expression (comparison lhs op rhs) p =
      and_then (build_expression lhs p)
        λ l q. placed (λ r. l ++ (codes " " ++ (op ++ (codes " " ++ r)))) (build_expression rhs q)
  build_expression (property_access variable name) p =
      placed (λ s. s ++ (codes "." ++ name)) (build_expression variable p)
  build_expression (literal v) p = placeholder v p
  build_expression (function_call name arguments) p =
      placed (λ s. name ++ (codes "(" ++ s)) (build_arguments true arguments p)
  build_expression (alias e name) p =
      placed (λ s. s ++ (codes " AS " ++ name)) (build_expression e p)
  build_expression (alias_value v name) p =
      placed (λ s. s ++ (codes " AS " ++ name)) (placeholder v p)
  build_expression (math left op right) p =
      and_then (placeholder left p)
        λ l q. placed (λ r. l ++ (codes " " ++ (op ++ (codes " " ++ r)))) (placeholder right q)
  build_expression (raw s) p = some (s, p)

  unfoldable pub visit_literal : V → Step V
  unfolding placeholder
  visit_literal v c = write_built (placeholder v c.parameters) c

  unfoldable pub render_built : Expression V → Step V
  unfolding build_expression
  render_built e c = write_built (build_expression e c.parameters) c

  -- formatArrayLiteral. `first` says that no ", " stands before the next element.
  unfoldable mutual
    unfolding escape

    pub format_element : Element V → List ℕ
    format_element (quoted s) = codes "\"" ++ (escape s ++ codes "\"")
    format_element (nested xs) = codes "[" ++ format_elements true xs
    format_element (printed v) = host.sprint v

    pub format_elements : Bool → Elements V → List ℕ
    format_elements first no_elements = codes "]"
    format_elements first (element x xs) =
        (if first then [] else codes ", ") ++ (format_element x ++ format_elements false xs)

  unfoldable pub format_array : Elements V → List ℕ
  unfolding format_elements
  format_array xs = codes "[" ++ format_elements true xs

  unfoldable pub removal_text : Removal V → List ℕ
  removal_text (property_removal p) = p
  removal_text (label_removal v l) = v ++ (codes ":" ++ l)
  removal_text (text_removal s) = s
  removal_text (other_removal v) = host.sprint v

  unfoldable pub write_removals : Bool → List (Removal V) → Step V
  unfolding removal_text
  write_removals first [] = skip
  write_removals first (r ∷ rs) =
      write_if (not first) (codes ", ") >> write (removal_text r) >> write_removals false rs

  unfoldable pub render_conditions : Bool → List (Expression V) → Step V
  unfolding render_built
  render_conditions first [] = skip
  render_conditions first (e ∷ es) =
      write_if (not first) (codes " AND ") >> render_built e >> render_conditions false es

  unfoldable pub visit_where : List (Expression V) → Step V
  unfolding render_conditions
  visit_where [] = skip
  visit_where (e ∷ es) = write (codes "WHERE ") >> render_conditions true (e ∷ es)

  unfoldable pub visit_remove : List (Removal V) → Step V
  unfolding write_removals
  visit_remove rs = write (codes "REMOVE ") >> write_removals true rs
