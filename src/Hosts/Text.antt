-- ===== src/Hosts/Text.antt =====
-- The text functions of include/parser.hpp, and the formatted input that it takes from a stream. A
-- text is its bytes.
use broadcast_service.Base.{
  ℕ, ◌+◌, ◌-◌, ◌*◌, ◌^◌, Bool, true, false, not, ◌&&◌, ◌||◌, Option, none, some, List, [], ◌∷◌,
  nat_eq, ◌==◌, if◌then◌else◌, ltb, leb, ◌>>=◌,
}

abbrev pub Text : Type 0
Text = List ℕ

-- `strcmp(s, t) == 0`
unfoldable pub equal : Text → Text → Bool
equal [] [] = true
equal [] (y ∷ t) = false
equal (x ∷ s) [] = false
equal (x ∷ s) (y ∷ t) = x == y && equal s t

-- `isdigit` and `isspace` in the C locale
unfoldable pub is_digit : ℕ → Bool
is_digit c = leb b'0' c && leb c b'9'

unfoldable pub is_space : ℕ → Bool
is_space c = c == b' ' || (leb 9 c && leb c 13)

unfoldable pub all_digits : Text → Bool
all_digits [] = true
all_digits (c ∷ s) = is_digit c && all_digits s

unfoldable pub is_positive_number : Text → Bool
is_positive_number [] = false
is_positive_number (c ∷ s) = all_digits (c ∷ s)

unfoldable pub ltrim : Text → Text
ltrim [] = []
ltrim (c ∷ s) = let rest = ltrim s in if is_space c then rest else c ∷ s

-- A byte before a trimmed text: a space goes if it is the last.
unfoldable pub before : ℕ → Text → Text
before c [] = if is_space c then [] else c ∷ []
before c (d ∷ t) = c ∷ d ∷ t

unfoldable pub rtrim : Text → Text
rtrim [] = []
rtrim (c ∷ s) = before c (rtrim s)

unfoldable pub trim : Text → Text
trim s = rtrim (ltrim s)

-- The digits at the front, as a number that goes on from `n`, and the rest.
unfoldable pub read_digits : ℕ → Text → ℕ × Text
read_digits n [] = (n, [])
read_digits n (c ∷ s) =
    let rest = read_digits (n * 10 + (c - b'0')) s in if is_digit c then rest else (n, c ∷ s)

-- `std::stoul`: `none` is out of range. Only digits come here.
unfoldable pub stoul : Text → Option ℕ
stoul s = let n = (read_digits 0 s).0 in if ltb n (2 ^ 64) then some n else none

-- `stream >> number` for an unsigned type of `width` bits: at least one digit, and a value in range. A
-- minus sign negates in the type.
unfoldable pub read_unsigned : ℕ → Bool → Text → Option (ℕ × Text)
read_unsigned width negative [] = none
read_unsigned width negative (c ∷ s) =
    let r = read_digits 0 (c ∷ s) in
    if is_digit c && ltb r.0 (2 ^ width)
    then some (if negative && not (r.0 == 0) then 2 ^ width - r.0 else r.0, r.1)
    else none

unfoldable pub read_signed : ℕ → Text → Option (ℕ × Text)
read_signed width [] = none
read_signed width (c ∷ s) =
    if c == b'-'
    then read_unsigned width true s
    else if c == b'+'
    then read_unsigned width false s
    else read_unsigned width false (c ∷ s)

unfoldable pub extract_number : ℕ → Text → Option (ℕ × Text)
extract_number width s = read_signed width (ltrim s)

unfoldable pub word : Text → Text × Text
word [] = ([], [])
word (c ∷ s) = let rest = word s in if is_space c then ([], c ∷ s) else (c ∷ rest.0, rest.1)

unfoldable pub nonempty : Text × Text → Option (Text × Text)
nonempty ([], rest) = none
nonempty (c ∷ w, rest) = some (c ∷ w, rest)

-- `stream >> text`
unfoldable pub extract_word : Text → Option (Text × Text)
extract_word s = nonempty (word (ltrim s))

-- `stream >> id >> ip >> port`, an `unsigned long`, a text and an `unsigned short`
unfoldable pub extract_fields : Text → Option (ℕ × (Text × ℕ))
extract_fields line = do
  (id, rest) ← extract_number 64 line
  (ip, rest) ← extract_word rest
  (port, rest) ← extract_number 16 rest
  some (id, (ip, port))
