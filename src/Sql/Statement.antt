-- ===== src/Sql/Statement.antt =====
-- crates/jaiba-server/src/sql_builder.rs: the statement as a whole.
use jaiva.Prelude.{
  ℕ, ◌≡◌, refl, subst, inl, inr, String, true, Option, none, some, List, [], ◌∷◌, ◌++◌, is_empty,
  length, Bool-cases,
}
use jaiva.Json.{Value}
use jaiva.Sql.{
  Fallible, done, ◌>>=◌, QueryFilter, SortDirection, asc, desc, QueryOrder, JoinKind, inner, left,
  right, full, QueryJoin, QuerySpec, CompiledQuery, Dialect, postgres, my_sql, sql_server, quote,
  quote_source, collect, Written, top, uses_top, push_joins, join_keyword, clauses, push_filters,
  push_list, direction_keyword, write_order, push_limit, compile,
}
use jaiva.Texts.{Text, codes, join}
use jaiva.Sql.Safety.{
  is_fixed, Safe, word, number, both, no_more, more, join-Safe, Holds, Holds-then, Named, AllNamed,
  quote-Named, quote_source-Named,
}
use jaiva.Sql.Safety.Filters.{Goes, Follows, clauses-Follows}

collect-AllNamed {ℓ} :
    {A : Type ℓ} (d : Dialect) (f : A → Fallible Text) (xs : List A)
    → ((x : A) → Holds (Named d) (f x))
    → Holds (AllNamed d) (collect f xs)
collect-AllNamed d f [] each = no_more
collect-AllNamed d f (x ∷ xs) each =
    Holds-then (Named d) (AllNamed d) (f x) (λ y. collect f xs >>= λ ys. done (y ∷ ys)) (each x)
      (λ y named.
        Holds-then (AllNamed d) (AllNamed d) (collect f xs) (λ ys. done (y ∷ ys))
          (collect-AllNamed d f xs each) (λ ys rest i. more (named i) (rest i)))

join_keyword-Named : (d : Dialect) (kind : JoinKind) → Named d (join_keyword kind)
join_keyword-Named d inner i = word "INNER JOIN" i refl
join_keyword-Named d left i = word "LEFT JOIN" i refl
join_keyword-Named d right i = word "RIGHT JOIN" i refl
join_keyword-Named d full i = word "FULL JOIN" i refl

direction_keyword-Named :
    (d : Dialect) (direction : SortDirection) → Named d (direction_keyword direction)
direction_keyword-Named d asc i = word "ASC" i refl
direction_keyword-Named d desc i = word "DESC" i refl

top-Named : (d : Dialect) (limit : Option ℕ) → Named d (top d limit)
unfolding top
top-Named postgres none i = word "" i refl
top-Named postgres (some n) i = word "" i refl
top-Named my_sql none i = word "" i refl
top-Named my_sql (some n) i = word "" i refl
top-Named sql_server none i = word "" i refl
top-Named sql_server (some n) i = both (both (word "TOP (" i refl) (number n i)) (word ") " i refl)

push_joins-Named :
    (d : Dialect) (statement : Text) (joins : List QueryJoin)
    → Named d statement
    → Holds (Named d) (push_joins d statement joins)
unfolding push_joins
push_joins-Named d statement [] named = named
push_joins-Named d statement (j ∷ joins) named =
    let pushed : Text → Text → Text → Text = λ target left_side right_side.
      statement
      ++ codes " "
      ++ join_keyword j.kind
      ++ codes " "
      ++ target
      ++ codes " ON "
      ++ left_side
      ++ codes " = "
      ++ right_side in
    Holds-then (Named d) (Named d) (quote_source d j.source)
      (λ t. quote d j.left_column >>= λ l.
        quote d j.right_column >>= λ r. push_joins d (pushed t l r) joins)
      (quote_source-Named d j.source)
      (λ t named_t.
        Holds-then (Named d) (Named d) (quote d j.left_column)
          (λ l. quote d j.right_column >>= λ r. push_joins d (pushed t l r) joins)
          (quote-Named d j.left_column)
          (λ l named_l.
            Holds-then (Named d) (Named d) (quote d j.right_column)
              (λ r. push_joins d (pushed t l r) joins) (quote-Named d j.right_column)
              (λ r named_r. push_joins-Named d (pushed t l r) joins (λ i.
                let start =
                  both (both (named i) (word " " i refl)) (join_keyword-Named d j.kind i) in
                let target = both (both start (word " " i refl)) (named_t i) in
                let side = both (both target (word " ON " i refl)) (named_l i) in
                both (both side (word " = " i refl)) (named_r i)))))

push_filters-Goes :
    (d : Dialect) (statement : Text) (filters : List QueryFilter)
    → Named d statement
    → Holds (Goes d 0) (push_filters d statement filters)
unfolding push_filters
push_filters-Goes d statement filters named = elim (Bool-cases (is_empty filters)) [
  | inl nothing ↦ rw nothing (named 0)
  | inr given_ ↦ rw given_ (
      Holds-then (Follows d 0) (Goes d 0) (clauses d filters [])
        (λ r. done (statement ++ codes " WHERE " ++ join (codes " AND ") r.0, r.1))
        (clauses-Follows d filters [])
        (λ r follows.
          both (both (named 0) (word " WHERE " 0 refl))
            (join-Safe d " AND " 0 (length r.1) r.0 refl follows)))
]

-- A list behind the parameters.
push_list-Safe {ℓ} :
    {A : Type ℓ} (d : Dialect) (keyword : String) (write : A → Fallible Text) (statement : Text)
    (items : List A) (n : ℕ)
    → is_fixed keyword ≡ true
    → ((x : A) → Holds (Named d) (write x))
    → Safe d 0 statement n
    → Holds (λ t. Safe d 0 t n) (push_list keyword write statement items)
push_list-Safe d keyword write statement items n fixed each safe =
    elim (Bool-cases (is_empty items)) [
      | inl nothing ↦ rw nothing safe
      | inr given_ ↦ rw given_ (
          Holds-then (AllNamed d) (λ t. Safe d 0 t n) (collect write items)
            (λ texts. done (statement ++ codes keyword ++ join (codes ", ") texts))
            (collect-AllNamed d write items each)
            (λ texts named.
              both (both safe (word keyword n fixed)) (join-Safe d ", " n n texts refl (named n))))
    ]

write_order-Named : (d : Dialect) (order : QueryOrder) → Holds (Named d) (write_order d order)
unfolding write_order
write_order-Named d order =
    Holds-then (Named d) (Named d) (quote d order.field)
      (λ field. done (field ++ codes " " ++ direction_keyword order.direction))
      (quote-Named d order.field)
      (λ field named i.
        both (both (named i) (word " " i refl)) (direction_keyword-Named d order.direction i))

push_limit-Safe :
    (d : Dialect) (statement : Text) (limit : Option ℕ) (n : ℕ)
    → Safe d 0 statement n
    → Safe d 0 (push_limit d statement limit) n
unfolding push_limit
push_limit-Safe d statement none n safe = safe
push_limit-Safe d statement (some limit) n safe = elim (Bool-cases (uses_top d)) [
  | inl early ↦ rw early safe
  | inr late ↦ rw late (both (both safe (word " LIMIT " n refl)) (number limit n))
]

abbrev SafeQuery : Dialect → CompiledQuery → Type 0
SafeQuery d q = Safe d 0 q.statement (length q.parameters)

module _ (spec : QuerySpec) (d : Dialect) where
  abbrev ordering : Text → List Value → Fallible CompiledQuery
  ordering grouped parameters =
      push_list " ORDER BY " (write_order d) grouped spec.order_by >>= λ ordered.
      done (record { statement = push_limit d ordered spec.limit; parameters = parameters })

  abbrev grouping : Text → List Value → Fallible CompiledQuery
  grouping filtered parameters =
      push_list " GROUP BY " (quote d) filtered spec.group_by >>= λ grouped.
      ordering grouped parameters

  abbrev start : List Text → Text → Text
  start columns source =
      codes "SELECT " ++ top d spec.limit ++ join (codes ", ") columns ++ codes " FROM " ++ source

  abbrev joining : List Text → Text → Fallible CompiledQuery
  joining columns source = push_joins d (start columns source) spec.joins >>= λ joined.
      push_filters d joined spec.filters >>= λ w. grouping w.0 w.1

  ordering-Safe :
      (grouped : Text) (parameters : List Value)
      → Safe d 0 grouped (length parameters)
      → Holds (SafeQuery d) (ordering grouped parameters)
  ordering-Safe grouped parameters safe =
      Holds-then (λ t. Safe d 0 t (length parameters)) (SafeQuery d)
        (push_list " ORDER BY " (write_order d) grouped spec.order_by)
        (λ t. done (record { statement = push_limit d t spec.limit; parameters = parameters }))
        (push_list-Safe d " ORDER BY " (write_order d) grouped spec.order_by (length parameters)
          refl (write_order-Named d) safe)
        (λ t ordered. push_limit-Safe d t spec.limit (length parameters) ordered)

  grouping-Safe : (w : Written) → Goes d 0 w → Holds (SafeQuery d) (grouping w.0 w.1)
  grouping-Safe w safe =
      Holds-then (λ t. Safe d 0 t (length w.1)) (SafeQuery d)
        (push_list " GROUP BY " (quote d) w.0 spec.group_by) (λ t. ordering t w.1)
        (push_list-Safe d " GROUP BY " (quote d) w.0 spec.group_by (length w.1) refl (quote-Named d)
          safe)
        (λ t grouped. ordering-Safe t w.1 grouped)

  joining-Safe :
      (columns : List Text) (source : Text)
      → AllNamed d columns
      → Named d source
      → Holds (SafeQuery d) (joining columns source)
  joining-Safe columns source named_columns named_source =
      Holds-then (Named d) (SafeQuery d) (push_joins d (start columns source) spec.joins)
        (λ joined. push_filters d joined spec.filters >>= λ w. grouping w.0 w.1)
        (push_joins-Named d (start columns source) spec.joins (λ i.
          let listed = join-Safe d ", " i i columns refl (named_columns i) in
          both
            (both (both (both (word "SELECT " i refl) (top-Named d spec.limit i)) listed)
              (word " FROM " i refl))
            (named_source i)))
        (λ joined named.
          Holds-then (Goes d 0) (SafeQuery d) (push_filters d joined spec.filters)
            (λ w. grouping w.0 w.1) (push_filters-Goes d joined spec.filters named) grouping-Safe)

  compile-Holds : Holds (SafeQuery d) (compile spec d)
  unfolding compile
  compile-Holds = elim (Bool-cases (is_empty spec.columns)) [
    | inl nothing ↦ rw nothing tt
    | inr given_ ↦ rw given_ (
        Holds-then (AllNamed d) (SafeQuery d) (collect (quote d) spec.columns)
          (λ columns. quote_source d spec.source >>= λ source. joining columns source)
          (collect-AllNamed d (quote d) spec.columns (quote-Named d))
          (λ columns named_columns.
            Holds-then (Named d) (SafeQuery d) (quote_source d spec.source) (joining columns)
              (quote_source-Named d spec.source)
              (λ source named_source. joining-Safe columns source named_columns named_source)))
  ]

-- A statement that the builder compiles consists of its fixed words, quoted identifiers that are valid,
-- numbers, and placeholders, which count the bound values from the first to the last, each once and in
-- order.
pub compile-Safe :
    (spec : QuerySpec) (d : Dialect) (q : CompiledQuery)
    → compile spec d ≡ done q
    → Safe d 0 q.statement (length q.parameters)
compile-Safe spec d q compiled = subst (Holds (SafeQuery d)) compiled (compile-Holds spec d)
