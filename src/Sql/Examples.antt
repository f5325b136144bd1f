-- ===== src/Sql/Examples.antt =====
-- crates/jaiba-server/src/sql_builder.rs: a query that the tests there compile.
use jaiva.Prelude.{◌≡◌, refl, some, [], ◌∷◌}
use jaiva.Json.{is_null, to_list, string, array, nil, cons}
use jaiva.Sql.{
  done, failed, configuration, eq, in_, desc, QuerySpec, CompiledQuery, postgres, quoted, quote,
  compile,
}
use jaiva.Texts.{Text, codes, trim}
use jaiva.Sql.Safety.{Safe}
use jaiva.Sql.Statement.{compile-Safe}
use jaiva.Sql.Accepting.{is_query, is_done}
use jaiva.Sql.Accepting.Queries.{compile_accepts}
use jaiva.Sql.Binding.{bound_values, compile_binds}

abbrev spec : QuerySpec
spec = record {
  source = record { schema = some (codes "public"); table = codes "orders" };
  columns = codes "id" ∷ codes "o.*" ∷ [];
  joins = [];
  filters =
      record { field = codes "status"; operator = eq; value = string "open" }
      ∷ record {
        field = codes "region";
        operator = in_;
        value = array (cons (string "n") (cons (string "s") nil));
      }
      ∷ [];
  group_by = [];
  order_by = record { field = codes "id"; direction = desc } ∷ [];
  limit = some 50;
}

abbrev statement : Text
statement =
    codes
      "SELECT \"id\", \"o\".* FROM \"public\".\"orders\" WHERE \"status\" = $1 AND \"region\" IN ($2, $3) ORDER BY \"id\" DESC LIMIT 50"

abbrev query : CompiledQuery
query = record { statement = statement; parameters = string "open" ∷ string "n" ∷ string "s" ∷ [] }

spec-query : compile spec postgres ≡ done query
unfolding compile is_null to_list quoted
spec-query = refl

compile-Safe_example : Safe postgres 0 statement 3
compile-Safe_example = compile-Safe spec postgres query spec-query

compile_accepts_example : is_done (compile spec postgres) ≡ is_query spec
compile_accepts_example = compile_accepts spec postgres

compile_binds_example : query.parameters ≡ bound_values spec.filters
compile_binds_example = compile_binds spec postgres query spec-query

-- An identifier that tries to leave its quotes.
injection_refused :
    quote postgres (codes "id\"; DROP TABLE orders; --")
    ≡ failed (configuration (codes "identificador SQL no válido: 'id\"; DROP TABLE orders; --'"))
unfolding quote trim
injection_refused = refl

-- The wildcard stands anywhere in a name.
star_anywhere : quote postgres (codes "*.id") ≡ done (codes "*.\"id\"")
unfolding quote trim quoted
star_anywhere = refl
