-- ===== src/Sql/Accepting.antt =====
-- crates/jaiba-server/src/sql_builder.rs: which queries compile.
pub mod Queries
use jaiva.Prelude.{
  ℕ, ◌≡◌, refl, sym, ap, ◌∙◌, inl, inr, String, Bool, true, false, ◌&&◌, ◌||◌, not, Option, none,
  some, List, [], ◌∷◌, ◌++◌, arith, if◌then◌else◌, is_empty, length, any, all, Bool-cases,
  List-cases, ◌==◌,
}
use Prim.Native.String.{◌++◌ as append}
use jaiva.Json as Json
use jaiva.Json.{Value}
use jaiva.Sql.{
  PluginError, configuration, Fallible, done, failed, ◌>>=◌, QuerySource, FilterOperator, eq,
  not_eq, greater_than, greater_or_equal, less_than, less_or_equal, contains, starts_with, in_,
  is_null, is_not_null, QueryFilter, QueryOrder, QueryJoin, QuerySpec, CompiledQuery, Dialect,
  is_valid_identifier, quoted, is_star, quote_parts, join_parts, quote, in_schema, quote_source,
  collect, Written, bind_all, in_list, as_array, admits_null, clause, compile_filter, top,
  push_joins, join_keyword, clauses, push_filters, push_list, direction_keyword, write_order,
  push_limit, compile,
}
use jaiva.Texts.{Text, codes, trim, split_dots, join}

-- A query that may be compiled, part by part.
abbrev is_name_part : Text → Bool
is_name_part s = is_star (trim s) || is_valid_identifier (trim s)

abbrev pub is_name : Text → Bool
is_name identifier = all is_name_part (split_dots identifier)

abbrev names_table : Option Text → Text → Bool
names_table none table = is_name table
names_table (some schema) table = (is_empty (trim schema) || is_name schema) && is_name table

abbrev pub is_source : QuerySource → Bool
is_source source = names_table source.schema source.table

abbrev pub is_join : QueryJoin → Bool
is_join j = is_source j.source && is_name j.left_column && is_name j.right_column

abbrev pub is_list_of_values : Option (List Value) → Bool
is_list_of_values none = false
is_list_of_values (some items) = not (is_empty items) && not (any Json.is_null items)

abbrev pub takes_value : FilterOperator → Value → Bool
takes_value eq value = true
takes_value not_eq value = true
takes_value is_null value = true
takes_value is_not_null value = true
takes_value in_ value = is_list_of_values (as_array value)
takes_value _ value = not (Json.is_null value)

abbrev pub is_filter : QueryFilter → Bool
is_filter f = is_name f.field && takes_value f.operator f.value

unfoldable pub is_query : QuerySpec → Bool
is_query spec =
    not (is_empty spec.columns)
    && all is_name spec.columns
    && is_source spec.source
    && all is_join spec.joins
    && all is_filter spec.filters
    && all is_name spec.group_by
    && all (λ o. is_name o.field) spec.order_by

abbrev pub is_done {ℓ} : {A : Type ℓ} → Fallible A → Bool
is_done (done a) = true
is_done (failed e) = false

pub is_done-then {ℓ} :
    {A B : Type ℓ} (m : Fallible A) (f : A → Fallible B) (b : Bool)
    → ((a : A) → is_done (f a) ≡ b)
    → is_done (m >>= f) ≡ (is_done m && b)
is_done-then (done a) f b h = h a
is_done-then (failed e) f b h = refl

is_done-cons :
    (m : Fallible (List Text)) (p : Text)
    → is_done ((m >>= λ parts. done (p ∷ parts)) >>= join_parts) ≡ is_done m
unfolding join_parts
is_done-cons (done parts) p = refl
is_done-cons (failed e) p = refl

is_done-quote_parts :
    (d : Dialect) (identifier : Text) (segments : List Text)
    → is_done (quote_parts d identifier segments) ≡ all is_name_part segments
unfolding quote_parts
is_done-quote_parts d identifier [] = refl
is_done-quote_parts d identifier (s ∷ segments) =
    let rest = quote_parts d identifier segments in
    let ih = is_done-quote_parts d identifier segments in
    elim (Bool-cases (is_star (trim s))) [
      | inl star ↦ rw star (
          ground
            (arith, ih, is_done-then rest (λ parts. done (codes "*" ∷ parts)) true (λ parts. refl)))
      | inr other ↦ rw other (elim (Bool-cases (is_valid_identifier (trim s))) [
        | inl valid ↦ rw valid (
            ground (
              arith,
              ih,
              is_done-then rest (λ parts. done (quoted d (trim s) ∷ parts)) true (λ parts. refl),
            ))
        | inr invalid ↦ rw invalid refl
      ])
    ]

is_done-quote_first :
    (d : Dialect) (identifier s : Text) (segments : List Text)
    → is_done (quote_parts d identifier (s ∷ segments) >>= join_parts)
      ≡ is_done (quote_parts d identifier (s ∷ segments))
unfolding quote_parts
is_done-quote_first d identifier s segments =
    let rest = quote_parts d identifier segments in
    elim (Bool-cases (is_star (trim s))) [
      | inl star ↦ rw star (
          ground (
            arith,
            is_done-cons rest (codes "*"),
            is_done-then rest (λ parts. done (codes "*" ∷ parts)) true (λ parts. refl),
          ))
      | inr other ↦ rw other (elim (Bool-cases (is_valid_identifier (trim s))) [
        | inl valid ↦ rw valid (
            ground (
              arith,
              is_done-cons rest (quoted d (trim s)),
              is_done-then rest (λ parts. done (quoted d (trim s) ∷ parts)) true (λ parts. refl),
            ))
        | inr invalid ↦ rw invalid refl
      ])
    ]

split_dots-cons : (t : Text) → (s : Text) × (parts : List Text) × (split_dots t ≡ s ∷ parts)
unfolding split_dots
split_dots-cons [] = ([], [], refl)
split_dots-cons (c ∷ t) =
    let (s, parts, split) = split_dots-cons t in
    elim (Bool-cases (c == b'.')) [
      | inl dot ↦ ([], split_dots t, rw dot refl)
      | inr other ↦ (c ∷ s, parts, rw other (rw split refl))
    ]

pub is_done-quote :
    (d : Dialect) (identifier : Text) → is_done (quote d identifier) ≡ is_name identifier
unfolding quote
is_done-quote d identifier =
    let (s, parts, split) = split_dots-cons identifier in
    rw split
      (is_done-quote_first d identifier s parts ∙ is_done-quote_parts d identifier (s ∷ parts))

is_done-in_schema :
    (d : Dialect) (schema : Option Text) (table : Text)
    → is_done (in_schema d schema table) ≡ names_table schema table
unfolding in_schema
is_done-in_schema d none table = is_done-quote d table
is_done-in_schema d (some schema) table = elim (Bool-cases (is_empty (trim schema))) [
  | inl blank ↦ rw blank (is_done-quote d table)
  | inr given_ ↦ rw given_ (
      rw
        (
          is_done-then (quote d schema)
              (λ owner. quote d table >>= λ t. done (owner ++ codes "." ++ t))
              (is_done (quote d table) && true)
              (λ owner.
                is_done-then (quote d table) (λ t. done (owner ++ codes "." ++ t)) true
                  (λ t. refl)),
          is_done-quote d schema,
          is_done-quote d table,
        )
        (ground arith))
]

pub is_done-quote_source :
    (d : Dialect) (source : QuerySource) → is_done (quote_source d source) ≡ is_source source
unfolding quote_source
is_done-quote_source d source = is_done-in_schema d source.schema source.table

pub is_done-collect {ℓ} :
    {A : Type ℓ} (f : A → Fallible Text) (p : A → Bool) (xs : List A)
    → ((x : A) → is_done (f x) ≡ p x)
    → is_done (collect f xs) ≡ all p xs
is_done-collect f p [] h = refl
is_done-collect f p (x ∷ xs) h =
    rw
      (
        is_done-then (f x) (λ y. collect f xs >>= λ ys. done (y ∷ ys))
            (is_done (collect f xs) && true)
            (λ y. is_done-then (collect f xs) (λ ys. done (y ∷ ys)) true (λ ys. refl)),
        h x,
        is_done-collect f p xs h,
      )
      (ground arith)

pub is_done-push_list {ℓ} :
    {A : Type ℓ} (keyword : String) (f : A → Fallible Text) (p : A → Bool) (statement : Text)
    (xs : List A)
    → ((x : A) → is_done (f x) ≡ p x)
    → is_done (push_list keyword f statement xs) ≡ all p xs
is_done-push_list keyword f p statement [] h = refl
is_done-push_list keyword f p statement (x ∷ xs) h =
    rw
      (
        is_done-then (collect f (x ∷ xs))
            (λ texts. done (statement ++ codes keyword ++ join (codes ", ") texts)) true
            (λ texts. refl),
        is_done-collect f p (x ∷ xs) h,
      )
      (ground arith)

pub is_done-push_joins :
    (d : Dialect) (statement : Text) (joins : List QueryJoin)
    → is_done (push_joins d statement joins) ≡ all is_join joins
unfolding push_joins
is_done-push_joins d statement [] = refl
is_done-push_joins d statement (j ∷ joins) =
    let pushed : Text → Text → Text → Text = λ target left_side right_side.
      statement
      ++ codes " "
      ++ join_keyword j.kind
      ++ codes " "
      ++ target
      ++ codes " ON "
      ++ left_side
      ++ codes " = "
      ++ right_side in
    let after = all is_join joins in
    rw
      (
        is_done-then (quote_source d j.source)
            (λ t. quote d j.left_column >>= λ l.
              quote d j.right_column >>= λ r. push_joins d (pushed t l r) joins)
            (is_done (quote d j.left_column) && (is_done (quote d j.right_column) && after))
            (λ t.
              is_done-then (quote d j.left_column)
                (λ l. quote d j.right_column >>= λ r. push_joins d (pushed t l r) joins)
                (is_done (quote d j.right_column) && after)
                (λ l.
                  is_done-then (quote d j.right_column) (λ r. push_joins d (pushed t l r) joins)
                    after (λ r. is_done-push_joins d (pushed t l r) joins))),
        is_done-quote_source d j.source,
        is_done-quote d j.left_column,
        is_done-quote d j.right_column,
      )
      (ground arith)
