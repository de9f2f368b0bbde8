-- ===== src/Download/Tests.antt =====
-- Headers of range_test.go, and the theorems at concrete headers.
use safe_file_hub.Base.{
  ◌≡◌, refl, none, some, [], codes, Bytes, arith, has_prefix, drop_prefix, contains_byte, split,
}
use safe_file_hub.Base.Int.{pos}
use safe_file_hub.Download.{parse_range, parse_int, digits}
use safe_file_hub.Download.Bounds.{Inside, parse_range-Inside}
use safe_file_hub.Download.Forms.{IsNumber, header_of, parse_range-forms}

first_bytes : parse_range (codes "bytes=0-3") (pos 10) ≡ some (record { start = 0; length = 4 })
unfolding parse_range parse_int has_prefix drop_prefix contains_byte split
first_bytes = refl

refuses_many : parse_range (codes "bytes=0-1,3-4") (pos 10) ≡ none
unfolding parse_range parse_int has_prefix drop_prefix contains_byte split
refuses_many = refl

refuses_past_end : parse_range (codes "bytes=10-") (pos 10) ≡ none
unfolding parse_range parse_int has_prefix drop_prefix contains_byte split
refuses_past_end = refl

abbrev three : Bytes
three = codes "3"

abbrev twelve : Bytes
twelve = codes "12"

three-IsNumber : IsNumber three 3
unfolding digits
three-IsNumber = record { nonempty = ground arith; value = refl; small = omega arith }

twelve-IsNumber : IsNumber twelve 12
unfolding digits
twelve-IsNumber = record { nonempty = ground arith; value = refl; small = omega arith }

parse_range-Inside_example : Inside 10 (record { start = 3; length = 7 })
unfolding parse_range parse_int has_prefix drop_prefix contains_byte split
parse_range-Inside_example = parse_range-Inside (codes "bytes=3-12") 10 refl

abbrev plus_three : Bytes
plus_three = codes "+3"

abbrev plus_twelve : Bytes
plus_twelve = codes "+12"

parse_range-forms_example :
    (parse_range (header_of three twelve) (pos 10) ≡ some (record { start = 3; length = 7 }))
    × (parse_range (header_of three []) (pos 10) ≡ some (record { start = 3; length = 7 }))
    × (parse_range (header_of [] twelve) (pos 10) ≡ some (record { start = 0; length = 10 }))
    × (parse_range (header_of plus_three plus_twelve) (pos 10)
        ≡ parse_range (header_of three twelve) (pos 10))
parse_range-forms_example = parse_range-forms three twelve 3 12 10 three-IsNumber twelve-IsNumber
