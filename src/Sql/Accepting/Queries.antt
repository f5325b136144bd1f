-- ===== src/Sql/Accepting/Queries.antt =====
-- crates/jaiba-server/src/sql_builder.rs: which filters and queries compile.
use jaiva.Prelude.{
  ◌≡◌, refl, ap, ◌∙◌, inl, inr, Bool, true, false, ◌&&◌, not, Option, none, some, List, [], ◌∷◌,
  ◌++◌, arith, if◌then◌else◌, is_empty, any, all, Bool-cases,
}
use jaiva.Json as Json
use jaiva.Json.{Value}
use jaiva.Sql.{
  configuration, Fallible, done, failed, ◌>>=◌, FilterOperator, eq, not_eq, greater_than,
  greater_or_equal, less_than, less_or_equal, contains, starts_with, in_, is_null, is_not_null,
  QueryFilter, QueryOrder, QuerySpec, CompiledQuery, Dialect, quote, quote_source, collect, Written,
  in_list, as_array, admits_null, clause, compile_filter, top, push_joins, clauses, push_filters,
  push_list, direction_keyword, write_order, push_limit, compile,
}
use jaiva.Texts.{Text, codes, join}
use jaiva.Sql.Accepting.{
  is_name, is_source, is_join, is_list_of_values, takes_value, is_filter, is_query, is_done,
  is_done-then, is_done-quote, is_done-quote_source, is_done-collect, is_done-push_list,
  is_done-push_joins,
}

is_done-in_list :
    (d : Dialect) (field : Text) (parameters : List Value) (o : Option (List Value))
    → is_done (in_list d field parameters o) ≡ is_list_of_values o
unfolding in_list
is_done-in_list d field parameters none = refl
is_done-in_list d field parameters (some items) = elim (Bool-cases (is_empty items)) [
  | inl nothing ↦ rw nothing refl
  | inr given_ ↦ rw given_ (elim (Bool-cases (any Json.is_null items)) [
    | inl nulls ↦ rw nulls refl
    | inr values ↦ rw values refl
  ])
]

as_array-null : (value : Value) → Json.is_null value ≡ true → as_array value ≡ none
unfolding as_array Json.is_null
as_array-null Json.null h = refl
as_array-null (Json.bool b) h = refl
as_array-null (Json.number n) h = refl
as_array-null (Json.string t) h = refl
as_array-null (Json.array items) h = absurd (cc)
as_array-null (Json.object fields) h = refl

-- The test of null values and the `match` behind it.
abbrev judged : Dialect → Text → List Value → Value → FilterOperator → Fallible Written
judged d field parameters value operator =
    if Json.is_null value && not (admits_null operator)
    then failed (
        configuration
          (codes "un valor null sólo admite los operadores igual, distinto, IS NULL o IS NOT NULL"))
    else clause d field parameters value operator

is_done-judged :
    (d : Dialect) (field : Text) (parameters : List Value) (value : Value)
    (operator : FilterOperator)
    → is_done (judged d field parameters value operator) ≡ takes_value operator value
unfolding clause admits_null
is_done-judged d field parameters value operator = elim (Bool-cases (Json.is_null value)) [
  | inl nothing ↦ on_null operator nothing
  | inr given_ ↦ on_value operator given_
]
  where
    on_null :
        (operator : FilterOperator)
        → Json.is_null value ≡ true
        → is_done (judged d field parameters value operator) ≡ takes_value operator value
    on_null eq nothing = rw nothing refl
    on_null not_eq nothing = rw nothing refl
    on_null greater_than nothing = rw nothing refl
    on_null greater_or_equal nothing = rw nothing refl
    on_null less_than nothing = rw nothing refl
    on_null less_or_equal nothing = rw nothing refl
    on_null contains nothing = rw nothing refl
    on_null starts_with nothing = rw nothing refl
    on_null in_ nothing = rw (nothing, as_array-null value nothing) refl
    on_null is_null nothing = rw nothing refl
    on_null is_not_null nothing = rw nothing refl

    on_value :
        (operator : FilterOperator)
        → Json.is_null value ≡ false
        → is_done (judged d field parameters value operator) ≡ takes_value operator value
    on_value eq given_ = rw given_ refl
    on_value not_eq given_ = rw given_ refl
    on_value greater_than given_ = rw given_ refl
    on_value greater_or_equal given_ = rw given_ refl
    on_value less_than given_ = rw given_ refl
    on_value less_or_equal given_ = rw given_ refl
    on_value contains given_ = rw given_ refl
    on_value starts_with given_ = rw given_ refl
    on_value in_ given_ = rw given_ (is_done-in_list d field parameters (as_array value))
    on_value is_null given_ = rw given_ refl
    on_value is_not_null given_ = rw given_ refl

is_done-compile_filter :
    (d : Dialect) (f : QueryFilter) (parameters : List Value)
    → is_done (compile_filter d f parameters) ≡ is_filter f
unfolding compile_filter
is_done-compile_filter d f parameters =
    is_done-then (quote d f.field) (λ field. judged d field parameters f.value f.operator)
      (takes_value f.operator f.value)
      (λ field. is_done-judged d field parameters f.value f.operator)
    ∙ ap (λ b. b && takes_value f.operator f.value) (is_done-quote d f.field)

is_done-clauses :
    (d : Dialect) (filters : List QueryFilter) (parameters : List Value)
    → is_done (clauses d filters parameters) ≡ all is_filter filters
unfolding clauses
is_done-clauses d [] parameters = refl
is_done-clauses d (f ∷ filters) parameters =
    is_done-then (compile_filter d f parameters)
      (λ w. clauses d filters w.1 >>= λ r. done (w.0 ∷ r.0, r.1)) (all is_filter filters)
      (λ w.
        is_done-then (clauses d filters w.1) (λ r. done (w.0 ∷ r.0, r.1)) true (λ r. refl)
        ∙ ground (arith, is_done-clauses d filters w.1))
    ∙ ap (λ b. b && all is_filter filters) (is_done-compile_filter d f parameters)

is_done-push_filters :
    (d : Dialect) (statement : Text) (filters : List QueryFilter)
    → is_done (push_filters d statement filters) ≡ all is_filter filters
unfolding push_filters
is_done-push_filters d statement [] = refl
is_done-push_filters d statement (f ∷ filters) =
    is_done-then (clauses d (f ∷ filters) [])
      (λ r. done (statement ++ codes " WHERE " ++ join (codes " AND ") r.0, r.1)) true (λ r. refl)
    ∙ ground (arith, is_done-clauses d (f ∷ filters) [])

is_done-write_order : (d : Dialect) (o : QueryOrder) → is_done (write_order d o) ≡ is_name o.field
unfolding write_order
is_done-write_order d o =
    is_done-then (quote d o.field)
      (λ field. done (field ++ codes " " ++ direction_keyword o.direction)) true (λ field. refl)
    ∙ ground (arith, is_done-quote d o.field)

module _ (spec : QuerySpec) (d : Dialect) where
  abbrev ends : Bool
  ends = all is_name spec.group_by && all (λ o. is_name o.field) spec.order_by

  abbrev ending : Text → List Value → Fallible CompiledQuery
  ending filtered parameters =
      push_list " GROUP BY " (quote d) filtered spec.group_by >>= λ grouped.
      push_list " ORDER BY " (write_order d) grouped spec.order_by >>= λ ordered.
      done (record { statement = push_limit d ordered spec.limit; parameters = parameters })

  is_done-ending :
      (filtered : Text) (parameters : List Value) → is_done (ending filtered parameters) ≡ ends
  is_done-ending filtered parameters =
      is_done-then (push_list " GROUP BY " (quote d) filtered spec.group_by)
        (λ grouped. push_list " ORDER BY " (write_order d) grouped spec.order_by >>= λ ordered.
          done (record { statement = push_limit d ordered spec.limit; parameters = parameters }))
        (all (λ o. is_name o.field) spec.order_by)
        (λ grouped.
          is_done-then (push_list " ORDER BY " (write_order d) grouped spec.order_by)
            (λ ordered.
              done
                (record { statement = push_limit d ordered spec.limit; parameters = parameters }))
            true (λ ordered. refl)
          ∙ ground (
            arith,
            is_done-push_list " ORDER BY " (write_order d) (λ o. is_name o.field) grouped
                spec.order_by (is_done-write_order d),
          ))
      ∙ ap (λ b. b && all (λ o. is_name o.field) spec.order_by)
          (is_done-push_list " GROUP BY " (quote d) is_name filtered spec.group_by
            (is_done-quote d))

  abbrev middle : Text → Fallible CompiledQuery
  middle statement = push_joins d statement spec.joins >>= λ joined.
      push_filters d joined spec.filters >>= λ w. ending w.0 w.1

  is_done-middle :
      (statement : Text)
      → is_done (middle statement)
        ≡ (all is_join spec.joins && (all is_filter spec.filters && ends))
  is_done-middle statement =
      is_done-then (push_joins d statement spec.joins)
        (λ joined. push_filters d joined spec.filters >>= λ w. ending w.0 w.1)
        (all is_filter spec.filters && ends)
        (λ joined.
          is_done-then (push_filters d joined spec.filters) (λ w. ending w.0 w.1) ends
            (λ w. is_done-ending w.0 w.1)
          ∙ ap (λ b. b && ends) (is_done-push_filters d joined spec.filters))
      ∙ ap (λ b. b && (all is_filter spec.filters && ends))
          (is_done-push_joins d statement spec.joins)

  abbrev rest_ok : Bool
  rest_ok = all is_join spec.joins && (all is_filter spec.filters && ends)

  abbrev begun : List Text → Text → Fallible CompiledQuery
  begun columns source =
      middle (
        codes "SELECT "
        ++ top d spec.limit
        ++ join (codes ", ") columns
        ++ codes " FROM "
        ++ source)

  is_done-begun :
      (columns : List Text)
      → is_done (quote_source d spec.source >>= begun columns) ≡ (is_source spec.source && rest_ok)
  is_done-begun columns =
      is_done-then (quote_source d spec.source) (begun columns) rest_ok (λ source. is_done-middle (
        codes "SELECT "
        ++ top d spec.limit
        ++ join (codes ", ") columns
        ++ codes " FROM "
        ++ source))
      ∙ ap (λ b. b && rest_ok) (is_done-quote_source d spec.source)

  -- A query compiles, in every dialect alike, exactly when it has a column, each name consists of
  -- valid identifiers or `*` between its dots, and each filter has a value that its operator takes:
  -- null only for equality and the tests of null, and for `IN` a list that is neither empty nor
  -- contains null.
  pub compile_accepts : is_done (compile spec d) ≡ is_query spec
  unfolding compile is_query
  compile_accepts = elim (Bool-cases (is_empty spec.columns)) [
    | inl nothing ↦ rw nothing refl
    | inr given_ ↦ rw given_ (
        is_done-then (collect (quote d) spec.columns)
          (λ columns. quote_source d spec.source >>= begun columns)
          (is_source spec.source && rest_ok) is_done-begun
        ∙ ap (λ b. b && (is_source spec.source && rest_ok))
            (is_done-collect (quote d) is_name spec.columns (is_done-quote d))
        ∙ ground arith)
  ]
