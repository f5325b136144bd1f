-- ===== src/Sql/Spec.antt =====
-- crates/jaiba-plugin-sdk/src/lib.rs: a neutral query and what it compiles to. A text that becomes
-- part of a statement is a list of code points.
use jaiva.Prelude.{ℕ, Option, List}
use jaiva.Json.{Value}
use jaiva.Texts.{Text}

-- `PluginError`, each with its message.
pub data PluginError : Type 0 where
  configuration connection diagnostic exploration processing unsupported : Text → PluginError

-- `Result<A, PluginError>`
pub data Fallible {ℓ} (A : Type ℓ) : Type ℓ where
  done : A → Fallible A
  failed : PluginError → Fallible A

infixl 5 ◌>>=◌
abbrev pub ◌>>=◌ {ℓ κ} : {A : Type ℓ} {B : Type κ} → Fallible A → (A → Fallible B) → Fallible B
done a >>= f = f a
failed e >>= f = failed e

pub record QuerySource : Type 0 where
  pub schema : Option Text
  pub table : Text

pub data FilterOperator : Type 0 where
  eq not_eq greater_than greater_or_equal less_than less_or_equal contains starts_with in_ is_null
        is_not_null :
      FilterOperator

pub record QueryFilter : Type 0 where
  pub field : Text
  pub operator : FilterOperator
  pub value : Value

pub data SortDirection : Type 0 where
  asc desc : SortDirection

pub record QueryOrder : Type 0 where
  pub field : Text
  pub direction : SortDirection

pub data JoinKind : Type 0 where
  inner left right full : JoinKind

pub record QueryJoin : Type 0 where
  pub kind : JoinKind
  pub source : QuerySource
  pub left_column : Text
  pub right_column : Text

pub record QuerySpec : Type 0 where
  pub source : QuerySource
  pub columns : List Text
  pub joins : List QueryJoin
  pub filters : List QueryFilter
  pub group_by : List Text
  pub order_by : List QueryOrder
  pub limit : Option ℕ

-- The builder leaves the two optional fields empty.
pub record CompiledQuery : Type 0 where
  pub statement : Text
  pub parameters : List Value
