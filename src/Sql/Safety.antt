-- ===== src/Sql/Safety.antt =====
-- crates/jaiba-server/src/sql_builder.rs: what a statement consists of.
pub mod Filters
use jaiva.Prelude.{
  ℕ, suc, ◌≡◌, refl, inl, inr, String, Bool, true, ◌&&◌, not, Option, none, some, List, [], ◌∷◌,
  ◌++◌, arith, str_eq, if◌then◌else◌, is_empty, length, length-append, any, Bool-cases,
}
use Prim.Native.String.{◌++◌ as append}
use jaiva.Json as Json
use jaiva.Json.{Value}
use jaiva.Sql.{
  configuration, Fallible, done, failed, ◌>>=◌, QuerySource, FilterOperator, eq, not_eq,
  greater_than, greater_or_equal, less_than, less_or_equal, contains, starts_with, in_, is_null,
  is_not_null, QueryFilter, Dialect, postgres, my_sql, sql_server, is_valid_identifier, quoted,
  is_star, quote_parts, join_parts, quote, like_keyword, placeholder, in_schema, quote_source,
  Written, bind, bind_all, in_list, as_array, scalar_string, admits_null, clause, compile_filter,
  clauses,
}
use jaiva.Texts.{Text, codes, trim, split_dots, join, to_string}

-- The texts that the builder writes itself.
abbrev fixed_words : List String
fixed_words =
    "" ∷ " " ∷ ", " ∷ "." ∷ "*" ∷ ")" ∷ "SELECT " ∷ "TOP (" ∷ ") " ∷ " FROM " ∷ "INNER JOIN"
    ∷ "LEFT JOIN" ∷ "RIGHT JOIN" ∷ "FULL JOIN" ∷ " ON " ∷ " WHERE " ∷ " AND " ∷ " GROUP BY "
    ∷ " ORDER BY " ∷ " LIMIT " ∷ "ASC" ∷ "DESC" ∷ "ILIKE" ∷ "LIKE" ∷ " IN (" ∷ " IS NULL"
    ∷ " IS NOT NULL" ∷ " = " ∷ " <> " ∷ " > " ∷ " >= " ∷ " < " ∷ " <= " ∷ []

abbrev pub is_fixed : String → Bool
is_fixed w = any (λ x. str_eq x w) fixed_words

-- A text of fixed words, quoted valid identifiers, numbers, and the placeholders from one place up to
-- another, each once and in order.
pub data Safe (d : Dialect) : ℕ → Text → ℕ → Type 0 where
  word : (w : String) (i : ℕ) → is_fixed w ≡ true → Safe d i (codes w) i
  name :
      (segment : Text) (i : ℕ) → is_valid_identifier segment ≡ true → Safe d i (quoted d segment) i
  number : (n i : ℕ) → Safe d i (to_string n) i
  parameter : (i : ℕ) → Safe d i (placeholder d (suc i)) (suc i)
  both : {i j k : ℕ} {s t : Text} → Safe d i s j → Safe d j t k → Safe d i (s ++ t) k

-- Texts of which each goes on where the one before it ends.
pub data Chain (d : Dialect) : ℕ → List Text → ℕ → Type 0 where
  no_more : (i : ℕ) → Chain d i [] i
  more :
      {i j k : ℕ} {t : Text} {ts : List Text} → Safe d i t j → Chain d j ts k → Chain d i (t ∷ ts) k

pub join-Safe :
    (d : Dialect) (separator : String) (i j : ℕ) (ts : List Text)
    → is_fixed separator ≡ true
    → Chain d i ts j
    → Safe d i (join (codes separator) ts) j
unfolding join
join-Safe d separator i j [] fixed (no_more k) = word "" k refl
join-Safe d separator i j (t ∷ []) fixed (more first (no_more k)) = first
join-Safe d separator i j (s ∷ t ∷ ts) fixed (more {j = k} first rest) =
    both (both first (word separator k fixed)) (join-Safe d separator k j (t ∷ ts) fixed rest)

-- What holds of a result, if there is one.
abbrev pub Holds {ℓ κ} : {A : Type ℓ} → (A → Type κ) → Fallible A → Type κ
Holds P (done a) = P a
Holds P (failed e) = Unit

pub Holds-then {ℓ κ} :
    {A B : Type ℓ} (P : A → Type κ) (Q : B → Type κ) (m : Fallible A) (f : A → Fallible B)
    → Holds P m
    → ((a : A) → P a → Holds Q (f a))
    → Holds Q (m >>= f)
Holds-then P Q (done a) f h next = next a h
Holds-then P Q (failed e) f h next = tt

-- A text without placeholders.
abbrev pub Named : Dialect → Text → Type 0
Named d t = (i : ℕ) → Safe d i t i

abbrev pub AllNamed : Dialect → List Text → Type 0
AllNamed d ts = (i : ℕ) → Chain d i ts i

quote_parts-AllNamed :
    (d : Dialect) (identifier : Text) (segments : List Text)
    → Holds (AllNamed d) (quote_parts d identifier segments)
unfolding quote_parts
quote_parts-AllNamed d identifier [] = no_more
quote_parts-AllNamed d identifier (s ∷ segments) =
    let rest = quote_parts d identifier segments in
    let ih = quote_parts-AllNamed d identifier segments in
    elim (Bool-cases (is_star (trim s))) [
      | inl star ↦ rw star (
          Holds-then (AllNamed d) (AllNamed d) rest (λ parts. done (codes "*" ∷ parts)) ih
            (λ parts named i. more (word "*" i refl) (named i)))
      | inr other ↦ rw other (elim (Bool-cases (is_valid_identifier (trim s))) [
        | inl valid ↦ rw valid (
            Holds-then (AllNamed d) (AllNamed d) rest (λ parts. done (quoted d (trim s) ∷ parts)) ih
              (λ parts named i. more (name (trim s) i valid) (named i)))
        | inr invalid ↦ rw invalid tt
      ])
    ]

join_parts-Named :
    (d : Dialect) (parts : List Text) → AllNamed d parts → Holds (Named d) (join_parts parts)
unfolding join_parts
join_parts-Named d [] named = tt
join_parts-Named d (p ∷ parts) named = λ i. join-Safe d "." i i (p ∷ parts) refl (named i)

pub quote-Named : (d : Dialect) (identifier : Text) → Holds (Named d) (quote d identifier)
unfolding quote
quote-Named d identifier =
    Holds-then (AllNamed d) (Named d) (quote_parts d identifier (split_dots identifier)) join_parts
      (quote_parts-AllNamed d identifier (split_dots identifier)) (join_parts-Named d)

in_schema-Named :
    (d : Dialect) (schema : Option Text) (table : Text) → Holds (Named d) (in_schema d schema table)
unfolding in_schema
in_schema-Named d none table = quote-Named d table
in_schema-Named d (some schema) table = elim (Bool-cases (is_empty (trim schema))) [
  | inl blank ↦ rw blank (quote-Named d table)
  | inr given_ ↦ rw given_ (
      Holds-then (Named d) (Named d) (quote d schema)
        (λ owner. quote d table >>= λ t. done (owner ++ codes "." ++ t)) (quote-Named d schema)
        (λ owner named.
          Holds-then (Named d) (Named d) (quote d table) (λ t. done (owner ++ codes "." ++ t))
            (quote-Named d table)
            (λ t named_table i. both (both (named i) (word "." i refl)) (named_table i))))
]

pub quote_source-Named :
    (d : Dialect) (source : QuerySource) → Holds (Named d) (quote_source d source)
unfolding quote_source
quote_source-Named d source = in_schema-Named d source.schema source.table
