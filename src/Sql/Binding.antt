-- ===== src/Sql/Binding.antt =====
-- crates/jaiba-server/src/sql_builder.rs: the values that a statement binds.
use jaiva.Prelude.{
  ◌≡◌, refl, sym, ap, subst, ◌∙◌, inl, inr, ◌&&◌, not, Option, none, some, List, [], ◌∷◌, ◌++◌,
  if◌then◌else◌, is_empty, any, Bool-cases,
}
use mathlib.Core.List.{append_assoc, append-nil}
use Prim.Native.String.{◌++◌ as append}
use jaiva.Json as Json
use jaiva.Json.{Value}
use jaiva.Sql.{
  configuration, Fallible, done, failed, ◌>>=◌, FilterOperator, eq, not_eq, greater_than,
  greater_or_equal, less_than, less_or_equal, contains, starts_with, in_, is_null, is_not_null,
  QueryFilter, QuerySpec, CompiledQuery, Dialect, quote, quote_source, collect, Written, bind_all,
  bind, in_list, as_array, scalar_string, admits_null, clause, compile_filter, top, push_joins,
  clauses, push_filters, push_list, write_order, push_limit, compile,
}
use jaiva.Texts.{Text, codes, join}
use jaiva.Sql.Safety.{Holds, Holds-then}

-- The values of a filter, and those of all.
abbrev items_of : Option (List Value) → List Value
items_of none = []
items_of (some items) = items

unfoldable values_of : FilterOperator → Value → List Value
values_of eq value = if Json.is_null value then [] else value ∷ []
values_of not_eq value = if Json.is_null value then [] else value ∷ []
values_of contains value = Json.string (append "%" (append (scalar_string value) "%")) ∷ []
values_of starts_with value = Json.string (append (scalar_string value) "%") ∷ []
values_of in_ value = items_of (as_array value)
values_of is_null value = []
values_of is_not_null value = []
values_of _ value = value ∷ []

unfoldable pub bound_values : List QueryFilter → List Value
unfolding values_of
bound_values [] = []
bound_values (f ∷ filters) = values_of f.operator f.value ++ bound_values filters

bind_all-values :
    (d : Dialect) (items parameters : List Value)
    → (bind_all d items parameters).1 ≡ parameters ++ items
unfolding bind_all bind
bind_all-values d [] parameters = sym (append-nil parameters)
bind_all-values d (item ∷ items) parameters =
    bind_all-values d items (parameters ++ item ∷ []) ∙ append_assoc parameters (item ∷ []) items

-- What a clause adds.
abbrev Adds : List Value → List Value → Written → Type 0
Adds parameters values w = w.1 ≡ parameters ++ values

in_list-Adds :
    (d : Dialect) (field : Text) (parameters : List Value) (o : Option (List Value))
    → Holds (Adds parameters (items_of o)) (in_list d field parameters o)
unfolding in_list
in_list-Adds d field parameters none = tt
in_list-Adds d field parameters (some items) = elim (Bool-cases (is_empty items)) [
  | inl nothing ↦ rw nothing tt
  | inr given_ ↦ rw given_ (elim (Bool-cases (any Json.is_null items)) [
    | inl nulls ↦ rw nulls tt
    | inr values ↦ rw values (bind_all-values d items parameters)
  ])
]

clause-Adds :
    (d : Dialect) (field : Text) (parameters : List Value) (value : Value)
    (operator : FilterOperator)
    → Holds (Adds parameters (values_of operator value)) (clause d field parameters value operator)
unfolding clause values_of bind
clause-Adds d field parameters value eq = elim (Bool-cases (Json.is_null value)) [
  | inl nothing ↦ rw nothing (sym (append-nil parameters))
  | inr given_ ↦ rw given_ refl
]
clause-Adds d field parameters value not_eq = elim (Bool-cases (Json.is_null value)) [
  | inl nothing ↦ rw nothing (sym (append-nil parameters))
  | inr given_ ↦ rw given_ refl
]
clause-Adds d field parameters value greater_than = refl
clause-Adds d field parameters value greater_or_equal = refl
clause-Adds d field parameters value less_than = refl
clause-Adds d field parameters value less_or_equal = refl
clause-Adds d field parameters value contains = refl
clause-Adds d field parameters value starts_with = refl
clause-Adds d field parameters value in_ = in_list-Adds d field parameters (as_array value)
clause-Adds d field parameters value is_null = sym (append-nil parameters)
clause-Adds d field parameters value is_not_null = sym (append-nil parameters)

-- What holds whatever the earlier result is.
Holds-always {ℓ} :
    {A B : Type ℓ} (Q : B → Type ℓ) (m : Fallible A) (f : A → Fallible B)
    → ((a : A) → Holds Q (f a))
    → Holds Q (m >>= f)
Holds-always Q (done a) f h = h a
Holds-always Q (failed e) f h = tt

compile_filter-Adds :
    (d : Dialect) (f : QueryFilter) (parameters : List Value)
    → Holds (Adds parameters (values_of f.operator f.value)) (compile_filter d f parameters)
unfolding compile_filter
compile_filter-Adds d f parameters =
    Holds-always (Adds parameters (values_of f.operator f.value)) (quote d f.field)
      (λ field.
        if Json.is_null f.value && not (admits_null f.operator)
        then failed (
            configuration (
              codes
                "un valor null sólo admite los operadores igual, distinto, IS NULL o IS NOT NULL"))
        else clause d field parameters f.value f.operator)
      (λ field. elim (Bool-cases (Json.is_null f.value && not (admits_null f.operator))) [
        | inl refused_ ↦ rw refused_ tt
        | inr admitted ↦ rw admitted (clause-Adds d field parameters f.value f.operator)
      ])

clauses-bound_values :
    (d : Dialect) (filters : List QueryFilter) (parameters : List Value)
    → Holds (λ r. r.1 ≡ parameters ++ bound_values filters) (clauses d filters parameters)
unfolding clauses bound_values
clauses-bound_values d [] parameters = sym (append-nil parameters)
clauses-bound_values d (f ∷ filters) parameters =
    let values = values_of f.operator f.value in
    Holds-then (Adds parameters values) (λ r. r.1 ≡ parameters ++ (values ++ bound_values filters))
      (compile_filter d f parameters) (λ w. clauses d filters w.1 >>= λ r. done (w.0 ∷ r.0, r.1))
      (compile_filter-Adds d f parameters)
      (λ w adds.
        Holds-then (λ r. r.1 ≡ w.1 ++ bound_values filters)
          (λ r. r.1 ≡ parameters ++ (values ++ bound_values filters)) (clauses d filters w.1)
          (λ r. done (w.0 ∷ r.0, r.1)) (clauses-bound_values d filters w.1)
          (λ r bound.
            bound
            ∙ ap (λ ps. ps ++ bound_values filters) adds
            ∙ append_assoc parameters values (bound_values filters)))

push_filters-bound_values :
    (d : Dialect) (statement : Text) (filters : List QueryFilter)
    → Holds (λ w. w.1 ≡ bound_values filters) (push_filters d statement filters)
unfolding push_filters bound_values
push_filters-bound_values d statement [] = refl
push_filters-bound_values d statement (f ∷ filters) =
    Holds-then (λ r. r.1 ≡ bound_values (f ∷ filters)) (λ w. w.1 ≡ bound_values (f ∷ filters))
      (clauses d (f ∷ filters) [])
      (λ r. done (statement ++ codes " WHERE " ++ join (codes " AND ") r.0, r.1))
      (clauses-bound_values d (f ∷ filters) []) (λ r bound. bound)

compile-Holds :
    (spec : QuerySpec) (d : Dialect)
    → Holds (λ q. q.parameters ≡ bound_values spec.filters) (compile spec d)
unfolding compile
compile-Holds spec d =
    let Bound : CompiledQuery → Type 0 = λ q. q.parameters ≡ bound_values spec.filters in
    let ordering : Text → List Value → Fallible CompiledQuery = λ grouped parameters.
      push_list " ORDER BY " (write_order d) grouped spec.order_by >>= λ ordered.
      done (record { statement = push_limit d ordered spec.limit; parameters = parameters }) in
    let grouping : Written → Fallible CompiledQuery =
      λ w. push_list " GROUP BY " (quote d) w.0 spec.group_by >>= λ grouped. ordering grouped w.1 in
    let joining : Text → Fallible CompiledQuery = λ statement.
      push_joins d statement spec.joins >>= λ joined.
      push_filters d joined spec.filters >>= grouping in
    let start : List Text → Text → Text = λ columns source.
      codes "SELECT "
      ++ top d spec.limit
      ++ join (codes ", ") columns
      ++ codes " FROM "
      ++ source in
    elim (Bool-cases (is_empty spec.columns)) [
      | inl nothing ↦ rw nothing tt
      | inr given_ ↦ rw given_ (
          Holds-always Bound (collect (quote d) spec.columns)
            (λ columns. quote_source d spec.source >>= λ source. joining (start columns source))
            (λ columns.
              Holds-always Bound (quote_source d spec.source)
                (λ source. joining (start columns source))
                (λ source.
                  Holds-always Bound (push_joins d (start columns source) spec.joins)
                    (λ joined. push_filters d joined spec.filters >>= grouping)
                    (λ joined.
                      Holds-then (λ w. w.1 ≡ bound_values spec.filters) Bound
                        (push_filters d joined spec.filters) grouping
                        (push_filters-bound_values d joined spec.filters)
                        (λ w bound.
                          Holds-always Bound (push_list " GROUP BY " (quote d) w.0 spec.group_by)
                            (λ grouped. ordering grouped w.1)
                            (λ grouped.
                              Holds-always Bound
                                (push_list " ORDER BY " (write_order d) grouped spec.order_by)
                                (λ t. done (record {
                                  statement = push_limit d t spec.limit;
                                  parameters = w.1;
                                }))
                                (λ t. bound)))))))
    ]

-- The values that a compiled query binds are those of its filters in their order: none for a test of
-- null, the pattern for a text search, each item for `IN`, and the filter's value otherwise.
pub compile_binds :
    (spec : QuerySpec) (d : Dialect) (q : CompiledQuery)
    → compile spec d ≡ done q
    → q.parameters ≡ bound_values spec.filters
compile_binds spec d q compiled =
    subst (Holds (λ c. c.parameters ≡ bound_values spec.filters)) compiled (compile-Holds spec d)
