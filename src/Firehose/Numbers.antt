-- ===== src/Firehose/Numbers.antt =====
-- modules/firehose/driver_plan.go: the number at the end of the name of a consumer group; and `%d`.
use Prim.Native.Char.{Char, code}
use Prim.Native.Nat.{◌/◌, ◌%◌}
use Prim.Native.String.{[], ◌∷◌}
use entropy.Base.{
  ℕ, zero, suc, ◌+◌, ◌-◌, ◌*◌, String, Bool, true, false, ◌&&◌, ◌||◌, Option, none, some, ◌==◌, ltb,
  leb, eqb, if◌then◌else◌,
}
use entropy.Base.Text.{◌<>◌}
use entropy.Errors.{errorf}
use entropy.Io.{Result, ok, err}
use entropy.Firehose.{ℤ, pos, negsuc}

unfoldable pub digit_text : ℕ → String
digit_text n =
    if eqb n 0
    then "0"
    else if eqb n 1
    then "1"
    else if eqb n 2
    then "2"
    else if eqb n 3
    then "3"
    else if eqb n 4
    then "4"
    else if eqb n 5
    then "5"
    else if eqb n 6
    then "6"
    else if eqb n 7
    then "7"
    else if eqb n 8
    then "8"
    else "9"

-- the digits of a number in front of a text; the fuel bounds their count
unfoldable pub print_digits : ℕ → ℕ → String → String
print_digits zero n rest = rest
print_digits (suc fuel) n rest =
    let front = print_digits fuel (n / 10) (digit_text (n % 10) <> rest) in
    if ltb n 10 then digit_text n <> rest else front

-- a number has no more digits than its successor counts
abbrev pub print_nat : ℕ → String
print_nat n = print_digits (suc n) n ""

-- fmt.Sprint
abbrev pub print_int : ℤ → String
print_int (pos n) = print_nat n
print_int (negsuc n) = "-" <> print_nat (suc n)

abbrev pub is_digit : Char → Bool
is_digit c = leb 48 (code c) && leb (code c) 57

abbrev pub is_group_char : Char → Bool
is_group_char c =
    is_digit c
    || (leb 65 (code c) && leb (code c) 90)
    || (leb 97 (code c) && leb (code c) 122)
    || eqb (code c) 45

unfoldable pub all_digits : String → Bool
all_digits [] = true
all_digits (c ∷ s) = is_digit c && all_digits s

unfoldable pub all_group_chars : String → Bool
all_group_chars [] = true
all_group_chars (c ∷ s) = is_group_char c && all_group_chars s

abbrev pub behind : Char → Option (String × String) → String → Option (String × String)
behind c (some (front, back)) s = some (c ∷ front, back)
behind c none s = if eqb (code c) 45 then some ("", s) else none

-- the parts of a text at its last hyphen
unfoldable pub split_last : String → Option (String × String)
split_last [] = none
split_last (c ∷ s) = behind c (split_last s) s

-- `suffixRegex`: as digits are no hyphens, the hyphen between the groups is the last one
unfoldable pub is_sequenced : String → String → Bool
is_sequenced front back =
    if front == ""
    then false
    else if back == ""
    then false
    else all_group_chars front && all_digits back

unfoldable pub digits_value : String → ℕ → ℕ
digits_value [] acc = acc
digits_value (c ∷ s) acc = digits_value s (acc * 10 + (code c - 48))

-- the next number in an int of 64 bits, which wraps around at its end
abbrev pub next_seq : ℕ → ℤ
next_seq seq = if eqb seq 9223372036854775807 then negsuc 9223372036854775807 else pos (seq + 1)

abbrev pub next_group : String → String → Result String
next_group front back =
    if ltb 9223372036854775807 (digits_value back 0)
    then err (
        errorf (
          "error converting group sequence " <> back <> " to int: strconv.Atoi: parsing \"" <> back
          <> "\": value out of range"))
    else ok (front <> "-" <> print_int (next_seq (digits_value back 0)))

abbrev pub group_of : String → Option (String × String) → Result String
group_of cur none = ok (cur <> "-1")
group_of cur (some (front, back)) =
    if is_sequenced front back then next_group front back else ok (cur <> "-1")

-- `getNewConsumerGroupID`
unfoldable pub get_new_consumer_group_id : String → Result String
get_new_consumer_group_id cur = group_of cur (split_last cur)
