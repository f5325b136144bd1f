-- ===== src/Sql/Safety/Filters.antt =====
-- crates/jaiba-server/src/sql_builder.rs: the clauses of the filters and their placeholders.
use jaiva.Prelude.{
  ℕ, suc, ◌≡◌, refl, inl, inr, String, true, ◌&&◌, not, Option, none, some, List, [], ◌∷◌, ◌++◌,
  arith, if◌then◌else◌, is_empty, length, length-append, any, Bool-cases,
}
use Prim.Native.String.{◌++◌ as append}
use jaiva.Json as Json
use jaiva.Json.{Value}
use jaiva.Sql.{
  configuration, done, failed, ◌>>=◌, FilterOperator, eq, not_eq, greater_than, greater_or_equal,
  less_than, less_or_equal, contains, starts_with, in_, is_null, is_not_null, QueryFilter, Dialect,
  postgres, my_sql, sql_server, quote, like_keyword, Written, bind, bind_all, in_list, as_array,
  scalar_string, admits_null, clause, compile_filter, clauses,
}
use jaiva.Texts.{Text, codes}
use jaiva.Sql.Safety.{
  is_fixed, Safe, word, parameter, both, Chain, no_more, more, join-Safe, Holds, Holds-then, Named,
  quote-Named,
}

-- A clause written by one of the operators, from the parameters before it to those behind.
abbrev pub Goes : Dialect → ℕ → Written → Type 0
Goes d i (t, parameters) = Safe d i t (length parameters)

bind-Goes :
    (d : Dialect) (value : Value) (parameters : List Value)
    → Goes d (length parameters) (bind d value parameters)
unfolding bind
bind-Goes d value parameters =
    let one_more : length (parameters ++ value ∷ []) ≡ suc (length parameters) =
      omega (arith, length-append parameters (value ∷ [])) in
    rw one_more (parameter (length parameters))

bind_all-Chain :
    (d : Dialect) (items parameters : List Value)
    → Chain d
        (length parameters)
        (bind_all d items parameters).0
        (length (bind_all d items parameters).1)
unfolding bind_all
bind_all-Chain d [] parameters = no_more (length parameters)
bind_all-Chain d (item ∷ items) parameters =
    more (bind-Goes d item parameters) (bind_all-Chain d items (bind d item parameters).1)

with_bound-Goes :
    (d : Dialect) (field : Text) (operator : String) (value : Value) (parameters : List Value)
    → is_fixed operator ≡ true
    → Named d field
    → Goes d
        (length parameters)
        (field ++ codes operator ++ (bind d value parameters).0, (bind d value parameters).1)
with_bound-Goes d field operator value parameters fixed named =
    let i = length parameters in
    both (both (named i) (word operator i fixed)) (bind-Goes d value parameters)

like_keyword-Named : (d : Dialect) → Named d (like_keyword d)
unfolding like_keyword
like_keyword-Named postgres i = word "ILIKE" i refl
like_keyword-Named my_sql i = word "LIKE" i refl
like_keyword-Named sql_server i = word "LIKE" i refl

with_pattern-Goes :
    (d : Dialect) (field : Text) (value : Value) (parameters : List Value)
    → Named d field
    → Goes d (length parameters) (
      field ++ codes " " ++ like_keyword d ++ codes " " ++ (bind d value parameters).0,
      (bind d value parameters).1,
    )
with_pattern-Goes d field value parameters named =
    let i = length parameters in
    both (both (both (both (named i) (word " " i refl)) (like_keyword-Named d i)) (word " " i refl))
      (bind-Goes d value parameters)

in_list-Goes :
    (d : Dialect) (field : Text) (parameters : List Value) (o : Option (List Value))
    → Named d field
    → Holds (Goes d (length parameters)) (in_list d field parameters o)
unfolding in_list
in_list-Goes d field parameters none named = tt
in_list-Goes d field parameters (some items) named =
    let i = length parameters in
    let j = length (bind_all d items parameters).1 in
    elim (Bool-cases (is_empty items)) [
      | inl empty ↦ rw empty tt
      | inr full_ ↦ rw full_ (elim (Bool-cases (any Json.is_null items)) [
        | inl nulls ↦ rw nulls tt
        | inr values ↦ rw values (
            both
              (both (both (named i) (word " IN (" i refl)) (
                join-Safe d ", " i j (bind_all d items parameters).0 refl
                  (bind_all-Chain d items parameters)))
              (word ")" j refl))
      ])
    ]

clause-Goes :
    (d : Dialect) (field : Text) (parameters : List Value) (value : Value)
    (operator : FilterOperator)
    → Named d field
    → Holds (Goes d (length parameters)) (clause d field parameters value operator)
unfolding clause
clause-Goes d field parameters value eq named = elim (Bool-cases (Json.is_null value)) [
  | inl nothing ↦
      rw nothing (both (named (length parameters)) (word " IS NULL" (length parameters) refl))
  | inr given_ ↦ rw given_ (with_bound-Goes d field " = " value parameters refl named)
]
clause-Goes d field parameters value not_eq named = elim (Bool-cases (Json.is_null value)) [
  | inl nothing ↦
      rw nothing (both (named (length parameters)) (word " IS NOT NULL" (length parameters) refl))
  | inr given_ ↦ rw given_ (with_bound-Goes d field " <> " value parameters refl named)
]
clause-Goes d field parameters value greater_than named =
    with_bound-Goes d field " > " value parameters refl named
clause-Goes d field parameters value greater_or_equal named =
    with_bound-Goes d field " >= " value parameters refl named
clause-Goes d field parameters value less_than named =
    with_bound-Goes d field " < " value parameters refl named
clause-Goes d field parameters value less_or_equal named =
    with_bound-Goes d field " <= " value parameters refl named
clause-Goes d field parameters value contains named =
    with_pattern-Goes d field (Json.string (append "%" (append (scalar_string value) "%")))
      parameters named
clause-Goes d field parameters value starts_with named =
    with_pattern-Goes d field (Json.string (append (scalar_string value) "%")) parameters named
clause-Goes d field parameters value in_ named =
    in_list-Goes d field parameters (as_array value) named
clause-Goes d field parameters value is_null named =
    both (named (length parameters)) (word " IS NULL" (length parameters) refl)
clause-Goes d field parameters value is_not_null named =
    both (named (length parameters)) (word " IS NOT NULL" (length parameters) refl)

compile_filter-Goes :
    (d : Dialect) (filter : QueryFilter) (parameters : List Value)
    → Holds (Goes d (length parameters)) (compile_filter d filter parameters)
unfolding compile_filter
compile_filter-Goes d filter parameters =
    Holds-then (Named d) (Goes d (length parameters)) (quote d filter.field)
      (λ field.
        if Json.is_null filter.value && not (admits_null filter.operator)
        then failed (
            configuration (
              codes
                "un valor null sólo admite los operadores igual, distinto, IS NULL o IS NOT NULL"))
        else clause d field parameters filter.value filter.operator)
      (quote-Named d filter.field)
      (λ field named.
        elim (Bool-cases (Json.is_null filter.value && not (admits_null filter.operator))) [
          | inl refused_ ↦ rw refused_ tt
          | inr admitted ↦
              rw admitted (clause-Goes d field parameters filter.value filter.operator named)
        ])

abbrev pub Follows : Dialect → ℕ → List Text × List Value → Type 0
Follows d i (ts, parameters) = Chain d i ts (length parameters)

pub clauses-Follows :
    (d : Dialect) (filters : List QueryFilter) (parameters : List Value)
    → Holds (Follows d (length parameters)) (clauses d filters parameters)
unfolding clauses
clauses-Follows d [] parameters = no_more (length parameters)
clauses-Follows d (f ∷ filters) parameters =
    Holds-then (Goes d (length parameters)) (Follows d (length parameters))
      (compile_filter d f parameters) (λ w. clauses d filters w.1 >>= λ r. done (w.0 ∷ r.0, r.1))
      (compile_filter-Goes d f parameters)
      (λ w goes.
        Holds-then (Follows d (length w.1)) (Follows d (length parameters)) (clauses d filters w.1)
          (λ r. done (w.0 ∷ r.0, r.1)) (clauses-Follows d filters w.1)
          (λ r follows. more goes follows))
