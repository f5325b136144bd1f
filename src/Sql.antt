-- ===== src/Sql.antt =====
-- crates/jaiba-server/src/sql_builder.rs: from a neutral query to a statement of one of three SQL
-- dialects and the values that it binds.
mod Spec
pub mod Safety
pub mod Statement
pub mod Accepting
pub mod Binding
mod Examples
pub use Spec.*
use jaiva.Prelude.{
  ℕ, zero, suc, ◌+◌, String, Bool, true, false, ◌&&◌, ◌||◌, not, Option, none, some, List, [], ◌∷◌,
  ◌++◌, ◌==◌, if◌then◌else◌, is_empty, length, any, all,
}
use Prim.Native.String.{◌++◌ as append}
use jaiva.Json as Json
use jaiva.Texts.{
  Text, codes, text_eq, is_ascii_alphabetic, is_ascii_digit, trim, split_dots, join, to_string,
}
use jaiva.Json.{Value, to_list}

pub data Dialect : Type 0 where
  postgres my_sql sql_server : Dialect

unfoldable pub is_identifier_rest : ℕ → Bool
unfolding is_ascii_alphabetic is_ascii_digit
is_identifier_rest c = is_ascii_alphabetic c || is_ascii_digit c || c == b'_' || c == b'$'

unfoldable pub is_valid_identifier : Text → Bool
unfolding is_identifier_rest
is_valid_identifier [] = false
is_valid_identifier (c ∷ s) = (is_ascii_alphabetic c || c == b'_') && all is_identifier_rest s

unfoldable pub quoted : Dialect → Text → Text
quoted postgres segment = codes "\"" ++ segment ++ codes "\""
quoted my_sql segment = codes "`" ++ segment ++ codes "`"
quoted sql_server segment = codes "[" ++ segment ++ codes "]"

abbrev pub is_star : Text → Bool
is_star segment = text_eq segment (codes "*")

-- The parts that the loop of `quote` pushes. `identifier` is named in the error.
unfoldable pub quote_parts : Dialect → Text → List Text → Fallible (List Text)
unfolding text_eq is_valid_identifier
quote_parts d identifier [] = done []
quote_parts d identifier (s ∷ segments) =
    let rest = quote_parts d identifier segments in
    let segment = trim s in
    if is_star segment
    then (do parts ← rest; done (codes "*" ∷ parts))
    else if is_valid_identifier segment
    then (do parts ← rest; done (quoted d segment ∷ parts))
    else failed (configuration (codes "identificador SQL no válido: '" ++ identifier ++ codes "'"))

unfoldable pub join_parts : List Text → Fallible Text
unfolding join
join_parts [] = failed (configuration (codes "identificador vacío"))
join_parts (p ∷ parts) = done (join (codes ".") (p ∷ parts))

unfoldable pub quote : Dialect → Text → Fallible Text
unfolding quote_parts join_parts split_dots
quote d identifier = do parts ← quote_parts d identifier (split_dots identifier); join_parts parts

unfoldable pub like_keyword : Dialect → Text
like_keyword postgres = codes "ILIKE"
like_keyword my_sql = codes "LIKE"
like_keyword sql_server = codes "LIKE"

unfoldable pub placeholder : Dialect → ℕ → Text
unfolding to_string
placeholder postgres index = codes "$" ++ to_string index
placeholder my_sql index = codes "?"
placeholder sql_server index = codes "@P" ++ to_string index

unfoldable pub in_schema : Dialect → Option Text → Text → Fallible Text
unfolding quote trim
in_schema d none table = quote d table
in_schema d (some schema) table =
    if is_empty (trim schema)
    then quote d table
    else (do owner ← quote d schema; name ← quote d table; done (owner ++ codes "." ++ name))

unfoldable pub quote_source : Dialect → QuerySource → Fallible Text
unfolding in_schema
quote_source d source = in_schema d source.schema source.table

-- `iter().map(f).collect::<Result<Vec<_>, _>>()`
abbrev pub collect {ℓ} : {A : Type ℓ} → (A → Fallible Text) → List A → Fallible (List Text)
collect f [] = done []
collect f (x ∷ xs) = do y ← f x; ys ← collect f xs; done (y ∷ ys)

-- A clause that is written so far, and the parameters so far.
abbrev pub Written : Type 0
Written = Text × List Value

unfoldable pub bind : Dialect → Value → List Value → Written
unfolding placeholder
bind d value parameters =
    (placeholder d (length (parameters ++ value ∷ [])), parameters ++ value ∷ [])

unfoldable pub scalar_string : Value → String
scalar_string (Json.string text) = text
scalar_string (Json.number number) = number
scalar_string (Json.bool flag) = if flag then "true" else "false"
scalar_string _ = ""

abbrev pub with_bound : Dialect → Text → String → Value → List Value → Fallible Written
with_bound d field operator value parameters =
    let (text, after) = bind d value parameters in done (field ++ codes operator ++ text, after)

abbrev pub with_pattern : Dialect → Text → String → List Value → Fallible Written
with_pattern d field pattern parameters =
    let (text, after) = bind d (Json.string pattern) parameters in
    done (field ++ codes " " ++ like_keyword d ++ codes " " ++ text, after)

-- The placeholders of a list.
unfoldable pub bind_all : Dialect → List Value → List Value → List Text × List Value
unfolding bind
bind_all d [] parameters = ([], parameters)
bind_all d (item ∷ items) parameters =
    let (text, after) = bind d item parameters in
    let (texts, last) = bind_all d items after in (text ∷ texts, last)

unfoldable pub as_array : Value → Option (List Value)
as_array (Json.array items) = some (to_list items)
as_array _ = none

unfoldable pub in_list : Dialect → Text → List Value → Option (List Value) → Fallible Written
unfolding bind_all
in_list d field parameters none = failed (configuration (codes "el operador IN requiere una lista"))
in_list d field parameters (some items) =
    if is_empty items
    then failed (configuration (codes "la lista del operador IN no puede estar vacía"))
    else if any Json.is_null items
    then failed (configuration (codes "la lista del operador IN no puede contener valores null"))
    else let (texts, after) = bind_all d items parameters in
      done (field ++ codes " IN (" ++ join (codes ", ") texts ++ codes ")", after)

unfoldable pub admits_null : FilterOperator → Bool
admits_null eq = true
admits_null not_eq = true
admits_null is_null = true
admits_null is_not_null = true
admits_null _ = false

-- The `match` of `compile_filter`, behind its test of null values.
unfoldable pub clause : Dialect → Text → List Value → Value → FilterOperator → Fallible Written
unfolding in_list as_array scalar_string
clause d field parameters value eq =
    if Json.is_null value
    then done (field ++ codes " IS NULL", parameters)
    else with_bound d field " = " value parameters
clause d field parameters value not_eq =
    if Json.is_null value
    then done (field ++ codes " IS NOT NULL", parameters)
    else with_bound d field " <> " value parameters
clause d field parameters value greater_than = with_bound d field " > " value parameters
clause d field parameters value greater_or_equal = with_bound d field " >= " value parameters
clause d field parameters value less_than = with_bound d field " < " value parameters
clause d field parameters value less_or_equal = with_bound d field " <= " value parameters
clause d field parameters value contains =
    with_pattern d field (append "%" (append (scalar_string value) "%")) parameters
clause d field parameters value starts_with =
    with_pattern d field (append (scalar_string value) "%") parameters
clause d field parameters value in_ = in_list d field parameters (as_array value)
clause d field parameters value is_null = done (field ++ codes " IS NULL", parameters)
clause d field parameters value is_not_null = done (field ++ codes " IS NOT NULL", parameters)

unfoldable pub compile_filter : Dialect → QueryFilter → List Value → Fallible Written
unfolding clause admits_null quote
compile_filter d filter parameters = do
  field ← quote d filter.field
  if Json.is_null filter.value && not (admits_null filter.operator)
      then failed (
          configuration (
            codes
              "un valor null sólo admite los operadores igual, distinto, IS NULL o IS NOT NULL"))
      else clause d field parameters filter.value filter.operator

-- `top`, which SQL Server has in place of `LIMIT`.
unfoldable pub top : Dialect → Option ℕ → Text
unfolding to_string
top sql_server (some limit) = codes "TOP (" ++ to_string limit ++ codes ") "
top _ _ = []

unfoldable pub uses_top : Dialect → Bool
uses_top postgres = false
uses_top my_sql = false
uses_top sql_server = true

abbrev pub join_keyword : JoinKind → Text
join_keyword inner = codes "INNER JOIN"
join_keyword left = codes "LEFT JOIN"
join_keyword right = codes "RIGHT JOIN"
join_keyword full = codes "FULL JOIN"

unfoldable pub push_joins : Dialect → Text → List QueryJoin → Fallible Text
unfolding quote_source quote
push_joins d statement [] = done statement
push_joins d statement (j ∷ joins) = do
  target ← quote_source d j.source
  left_side ← quote d j.left_column
  right_side ← quote d j.right_column
  push_joins d
      (statement
        ++ codes " "
        ++ join_keyword j.kind
        ++ codes " "
        ++ target
        ++ codes " ON "
        ++ left_side
        ++ codes " = "
        ++ right_side)
      joins

unfoldable pub clauses : Dialect → List QueryFilter → List Value → Fallible (List Text × List Value)
unfolding compile_filter
clauses d [] parameters = done ([], parameters)
clauses d (f ∷ filters) parameters = do
  (text, after) ← compile_filter d f parameters
  (texts, last) ← clauses d filters after
  done (text ∷ texts, last)

unfoldable pub push_filters : Dialect → Text → List QueryFilter → Fallible Written
unfolding clauses
push_filters d statement filters = if is_empty filters then done (statement, []) else (do
  (texts, parameters) ← clauses d filters []
  done (statement ++ codes " WHERE " ++ join (codes " AND ") texts, parameters))

-- A list of `GROUP BY` or `ORDER BY`, when it is not empty.
abbrev pub push_list {ℓ} :
    {A : Type ℓ} → String → (A → Fallible Text) → Text → List A → Fallible Text
push_list keyword write statement items = if is_empty items then done statement else (do
  texts ← collect write items
  done (statement ++ codes keyword ++ join (codes ", ") texts))

abbrev pub direction_keyword : SortDirection → Text
direction_keyword asc = codes "ASC"
direction_keyword desc = codes "DESC"

unfoldable pub write_order : Dialect → QueryOrder → Fallible Text
unfolding quote
write_order d order = do
  field ← quote d order.field
  done (field ++ codes " " ++ direction_keyword order.direction)

unfoldable pub push_limit : Dialect → Text → Option ℕ → Text
unfolding uses_top to_string
push_limit d statement none = statement
push_limit d statement (some limit) =
    if uses_top d then statement else statement ++ codes " LIMIT " ++ to_string limit

unfoldable pub compile : QuerySpec → Dialect → Fallible CompiledQuery
unfolding quote quote_source top push_joins push_filters write_order push_limit
compile spec d =
    if is_empty spec.columns
    then failed (configuration (codes "selecciona al menos una columna"))
    else (do
      columns ← collect (quote d) spec.columns
      source ← quote_source d spec.source
      joined ←
          push_joins d
            (codes "SELECT "
              ++ top d spec.limit
              ++ join (codes ", ") columns
              ++ codes " FROM "
              ++ source)
            spec.joins
      (filtered, parameters) ← push_filters d joined spec.filters
      grouped ← push_list " GROUP BY " (quote d) filtered spec.group_by
      ordered ← push_list " ORDER BY " (write_order d) grouped spec.order_by
      done (record { statement = push_limit d ordered spec.limit; parameters = parameters }))
