-- ===== src/Tools.antt =====
-- The command lines of software/user/litepcie_util.c and software/user/litepcie_test.c: a word of the
-- command line is the list of its bytes, without the 0 at its end.
pub mod Digits
pub mod Options
pub mod Main
pub mod Spelled
use Prim.Native.Char.{code}
use Prim.Native.String.{String}
use litepcie_ptm_test.Base.{
  ℕ, zero, suc, Bool, true, false, ◌+◌, ◌-◌, ◌*◌, ◌/◌, ◌%◌, ◌^◌, List, [], ◌∷◌, ◌++◌, ◌==◌, ◌&&◌,
  ◌||◌, ltb, leb, if◌then◌else◌,
}
use litepcie_ptm_test.Base.Word.{u32, u64}

abbrev pub Word : Type 0
Word = List ℕ

-- The bytes of a text in ASCII.
abbrev pub codes : String → Word
codes String.[] = []
codes (String.◌∷◌ c s) = code c ∷ codes s

-- `!strcmp(a, b)`
abbrev pub same_word : Word → Word → Bool
same_word [] [] = true
same_word (x ∷ xs) (y ∷ ys) = (x == y) && same_word xs ys
same_word _ _ = false

-- The value of a byte as a digit, as the C library reads it; 36 is no digit of any base.
abbrev pub digit_of : ℕ → ℕ
digit_of c =
    if leb b'0' c && leb c b'9'
    then c - b'0'
    else if leb b'a' c && leb c b'z'
    then c - b'a' + 10
    else if leb b'A' c && leb c b'Z'
    then c - b'A' + 10
    else 36

-- The number that the digits at the front of a word make, after `acc`.
abbrev pub digits : (radix acc : ℕ) → Word → ℕ
digits radix acc [] = acc
digits radix acc (c ∷ cs) =
    let rest = digits radix (acc * radix + digit_of c) cs in
    if ltb (digit_of c) radix then rest else acc

-- `isspace`
abbrev pub is_space : ℕ → Bool
is_space c = (c == b' ') || (leb 9 c && leb c 13)

abbrev pub skip_space : Word → Word
skip_space [] = []
skip_space (c ∷ cs) = let rest = skip_space cs in if is_space c then rest else c ∷ cs

-- Whether a minus stands in front, and what follows the sign.
abbrev pub sign : Word → Bool × Word
sign [] = (false, [])
sign (c ∷ cs) = if c == b'-' then (true, cs) else if c == b'+' then (false, cs) else (false, c ∷ cs)

-- `strtol` of base 10, cut to an int; numbers out of range become the limits of a long.
abbrev pub strtol_int : Bool × Word → ℕ
strtol_int (minus, cs) =
    let n = digits 10 0 cs in
    if minus
    then (if ltb (2 ^ 63) n then 0 else u32 (2 ^ 64 - n))
    else if ltb n (2 ^ 63)
    then u32 n
    else u32 (2 ^ 63 - 1)

-- `atoi`, as the C library has it: `strtol` cut to an int.
unfoldable pub atoi : Word → ℕ
atoi w = strtol_int (sign (skip_space w))

-- The base that the prefix stands for, where 0 is given, and the digits.
abbrev pub magnitude : Word → ℕ
magnitude [] = 0
magnitude (c ∷ []) = digits 10 0 (c ∷ [])
magnitude (c ∷ x ∷ cs) =
    if c == b'0'
    then (if (x == b'x') || (x == b'X') then digits 16 0 cs else digits 8 0 (x ∷ cs))
    else digits 10 0 (c ∷ x ∷ cs)

abbrev pub unsigned_of : Bool × Word → ℕ
unsigned_of (minus, cs) =
    let n = magnitude cs in
    if ltb n (2 ^ 64) then u32 (if minus then u64 (2 ^ 64 - n) else n) else u32 (2 ^ 64 - 1)

-- `strtoul(w, NULL, 0)` stored in a uint32_t
unfoldable pub strtoul : Word → ℕ
strtoul w = unsigned_of (sign (skip_space w))

-- The digits of a number below `radix ^ fuel`, without leading zeros, in front of `after`.
abbrev pub digit_byte : ℕ → ℕ
digit_byte d = if ltb d 10 then b'0' + d else b'a' + (d - 10)

unfoldable pub print_digits : (radix fuel n : ℕ) → Word → Word
print_digits radix zero n after = after
print_digits radix (suc fuel) n after =
    let rest = print_digits radix fuel (n / radix) (digit_byte (n % radix) ∷ after) in
    if ltb n radix then digit_byte n ∷ after else rest

-- `%d` of an int
unfoldable pub decimal : ℕ → Word
decimal n =
    if ltb n (2 ^ 31) then print_digits 10 10 n [] else b'-' ∷ print_digits 10 10 (2 ^ 32 - n) []

-- `"/dev/litepcie%d"`, whose 24 bytes at most `snprintf` does not cut.
unfoldable pub litepcie_device : ℕ → Word
litepcie_device device_num = codes "/dev/litepcie" ++ decimal device_num
