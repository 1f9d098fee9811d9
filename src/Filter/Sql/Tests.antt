-- ===== src/Filter/Sql/Tests.antt =====
-- Runs of the parser of filter expressions.
use pipe_ann.Base.{length, ◌≤◌, ◌≡◌, refl, ◌≢◌, inl, inr, none, some, [], ◌∷◌, ◌++◌, arith}
use pipe_ann.Filter.Text.{Text}
use pipe_ann.Filter.Sql.{codes, unterminated_string, trailing_token, ok, failed, out_of_fuel}
use pipe_ann.Filter.Sql.Json.{json_escape}
use pipe_ann.Filter.Sql.Grammar.{sql_to_mongo_json}
use pipe_ann.Filter.Sql.Stops.{sql_to_mongo_json_ends}
use pipe_ann.Filter.Sql.ShortCode.{hex_number, json_escape_short_code}
use pipe_ann.Filter.Sql.Quote.{IsShort, read_string, read_string-json_escape}

conjunction_run :
    sql_to_mongo_json (codes "a = 1 AND NOT (b in [2, 3] or c like 'x%')")
    ≡ ok (
        codes
          "{\"$and\":[{\"a\":1},{\"$not\":{\"$or\":[{\"$or\":[{\"b\":2},{\"b\":3}]},{\"c\":{\"$prefix\":\"x\"}}]}}]}")
unfolding sql_to_mongo_json
conjunction_run = refl

call_run :
    sql_to_mongo_json (codes "array_contains_all(tags, $$t) or p not between 3 and 5")
    ≡ ok
        (codes "{\"$or\":[{\"tags\":{\"$all\":\"$$t\"}},{\"$not\":{\"p\":{\"$ge\":3,\"$le\":5}}}]}")
unfolding sql_to_mongo_json
call_run = refl

unterminated_run : sql_to_mongo_json (codes "a = 'b") ≡ failed unterminated_string
unfolding sql_to_mongo_json
unterminated_run = refl

trailing_run : sql_to_mongo_json (codes "a = 1 b") ≡ failed trailing_token
unfolding sql_to_mongo_json
trailing_run = refl

sql_to_mongo_json_ends_example : sql_to_mongo_json (codes "a = 1 and (") ≢ out_of_fuel
sql_to_mongo_json_ends_example = sql_to_mongo_json_ends (codes "a = 1 and (")

-- A quote, a line end and a letter.
abbrev awkward : Text
awkward = 34 ∷ 10 ∷ b'x' ∷ []

read_string-json_escape_example :
    read_string 9 (json_escape awkward ++ (34 ∷ b'}' ∷ [])) ≡ some (awkward, b'}' ∷ [])
read_string-json_escape_example =
    read_string-json_escape 9 awkward (b'}' ∷ [])
      (inl (omega arith), (inr (inr (inr (inl refl))), (inl (omega arith), tt))) (omega arith)

one_is_not-IsShort : ¬ IsShort 1
one_is_not-IsShort h = ground arith

json_escape_short_code_example :
    (ds : Text) × (json_escape (1 ∷ b'a' ∷ []) ≡ 92 ∷ b'u' ∷ (ds ++ json_escape (b'a' ∷ [])))
    × (hex_number 0 ds ≡ some 1)
    × (length ds ≤ 2)
    × (read_string 9 (json_escape (1 ∷ []) ++ (34 ∷ b'}' ∷ [])) ≡ none)
json_escape_short_code_example =
    json_escape_short_code 9 1 (b'a' ∷ []) (b'}' ∷ []) (omega arith) one_is_not-IsShort
