-- ===== src/Printf.antt =====
-- lib/printf.c: the conversions and `vsnprintf`. A format is the list of its bytes without the null
-- byte that ends it. `mem` is the memory that a string argument points to, from each address on, and
-- the variadic arguments are words of 64 bits; `va_arg` past the last one has no defined result,
-- which is a panic here.
pub mod Digits
mod Fuel
pub mod Bounds
mod Tests
use cute.Base.{
  ℕ, zero, suc, ◌+◌, ◌-◌, ◌*◌, ◌/◌, ◌%◌, ◌^◌, min, Bool, not, ◌&&◌, ◌||◌, List, [], ◌∷◌, ◌++◌,
  length, ltb, leb, ◌==◌, if◌then◌else◌, Outcome, ok, panic, ◌>>=◌, ◌>>◌, assert,
}
use cute.Strings.{strlen, strncpy}

-- `digit[d]`, of "0123456789abcdef"
abbrev pub digit_char : ℕ → ℕ
digit_char d = if ltb d 10 then 48 + d else 87 + d

abbrev pub valid_radix : ℕ → Bool
valid_radix radix = ltb 2 radix && leb radix 16

-- `for (c = num; c != 0; c /= radix)`, on fuel: a word of 64 bits has at most 64 digits.
pub count_digits : ℕ → ℕ → ℕ → ℕ
count_digits zero c radix = 0
count_digits (suc fuel) c radix =
    let rest = count_digits fuel (c / radix) radix in if c == 0 then 0 else suc rest

-- The bytes that the loop writes to `buf[0]` to `buf[digits - 1]`, from the last one down.
pub write_digits : ℕ → ℕ → ℕ → List ℕ
write_digits zero num radix = []
write_digits (suc digits) num radix =
    write_digits digits (num / radix) radix ++ digit_char (num % radix) ∷ []

pub ultoa : ℕ → ℕ → ℕ → Outcome (List ℕ)
ultoa num size radix = do
  assert (valid_radix radix)
  let digits = (if num == 0 then 1 else 0) + count_digits 64 num radix
  assert (ltb 0 digits)
  assert (leb digits size)
  ok (write_digits digits num radix)

-- A signed number is its word in two's complement; `num *= -1` wraps around.
pub ltoa : ℕ → ℕ → ℕ → Outcome (List ℕ)
ltoa num size radix = do
  assert (valid_radix radix)
  if leb (2 ^ 63) num
      then (do
        assert (leb 2 size)
        digits ← ultoa ((2 ^ 64 - num) % 2 ^ 64) (size - 1) radix
        ok (45 ∷ digits))
      else ultoa num size radix

pub data ArgLen : Type 0 where
  arg_int arg_long : ArgLen

pub data ArgType : Type 0 where
  arg_none arg_signed arg_unsigned arg_string arg_char arg_percent : ArgType

-- `struct printf_argdesc`
pub record ArgDesc : Type 0 where
  pub radix : ℕ
  pub len : ArgLen
  pub type : ArgType

abbrev desc : ArgLen → ℕ → ArgType → ArgDesc
desc len radix type = record { radix = radix; len = len; type = type }

-- The `switch` of `parse_arg` on a byte other than `l`.
abbrev pub arg_desc : ArgLen → ℕ → ArgDesc
arg_desc len c =
    if c == 100
    then desc len 10 arg_signed
    else if c == 117
    then desc len 10 arg_unsigned
    else if c == 120
    then desc len 16 arg_unsigned
    else if c == 115
    then desc len 10 arg_string
    else if c == 99
    then desc len 10 arg_char
    else if c == 37
    then desc len 10 arg_percent
    else desc len 10 arg_none

-- `parse_arg` behind the `%`: the descriptor, and the format behind the expression.
pub parse_arg : ArgLen → List ℕ → Outcome (ArgDesc × List ℕ)
parse_arg len [] = panic
parse_arg len (c ∷ fmt) =
    let rest = parse_arg arg_long fmt in if c == 108 then rest else ok (arg_desc len c, fmt)

-- `va_arg(args, int)` and `va_arg(args, unsigned int)` of a word, as words.
abbrev pub signed_arg : ArgLen → ℕ → ℕ
signed_arg arg_long word = word
signed_arg arg_int word =
    let n = word % 2 ^ 32 in if leb (2 ^ 31) n then n + (2 ^ 64 - 2 ^ 32) else n

abbrev pub unsigned_arg : ArgLen → ℕ → ℕ
unsigned_arg arg_long word = word
unsigned_arg arg_int word = word % 2 ^ 32

abbrev null_text : List ℕ
null_text = 60 ∷ 42 ∷ 78 ∷ 85 ∷ 76 ∷ 76 ∷ 42 ∷ 62 ∷ 0 ∷ []

-- A string argument: at most `size` bytes of it.
pub print_string : List ℕ → ℕ → Outcome (List ℕ)
print_string str size = do n ← strlen str; strncpy str (min size n)

-- The bytes that an argument prints.
pub print_word : (ℕ → List ℕ) → ℕ → ArgType → ArgLen → ℕ → ℕ → Outcome (List ℕ)
print_word mem size arg_signed len radix word = ltoa (signed_arg len word) size radix
print_word mem size arg_unsigned len radix word = ultoa (unsigned_arg len word) size radix
print_word mem size arg_string len radix word =
    print_string (if word == 0 then null_text else mem word) size
print_word mem size arg_char len radix word = ok (word % 256 ∷ [])
print_word mem size arg_percent len radix word = ok (37 ∷ [])
print_word mem size arg_none len radix word = ok []

abbrev with_args : Outcome (List ℕ) → List ℕ → Outcome (List ℕ × List ℕ)
with_args bytes args = bytes >>= λ written. ok (written, args)

abbrev next_word : List ℕ → Outcome (ℕ × List ℕ)
next_word [] = panic
next_word (word ∷ args) = ok (word, args)

-- Whether the expression takes an argument.
abbrev takes_arg : ArgType → List ℕ → Outcome (ℕ × List ℕ)
takes_arg arg_percent args = ok (0, args)
takes_arg arg_none args = ok (0, args)
takes_arg arg_signed args = next_word args
takes_arg arg_unsigned args = next_word args
takes_arg arg_string args = next_word args
takes_arg arg_char args = next_word args

-- `print_arg`: the bytes, and the arguments left.
pub print_arg : (ℕ → List ℕ) → ℕ → ArgDesc → List ℕ → Outcome (List ℕ × List ℕ)
print_arg mem size d args = do
  assert (ltb 0 size)
  (word, rest) ← takes_arg d.type args
  with_args (print_word mem size d.type d.len d.radix word) rest

-- The inner loop: the bytes copied, and the format left.
pub copy_plain : List ℕ → ℕ → List ℕ × List ℕ
copy_plain [] size = ([], [])
copy_plain (c ∷ fmt) zero = ([], c ∷ fmt)
copy_plain (c ∷ fmt) (suc size) =
    let (copied, left) = copy_plain fmt size in
    if c == 37 then ([], c ∷ fmt) else (c ∷ copied, left)

-- One argument at a `%`, and the loop `next` behind it.
pub print_expr :
    (ℕ → List ℕ) → (ℕ → List ℕ → List ℕ → Outcome (List ℕ)) → ℕ → List ℕ → List ℕ → Outcome (List ℕ)
print_expr mem next size fmt args = do
  (d, rest) ← parse_arg arg_int fmt
  (written, args') ← print_arg mem size d args
  more ← next (size - length written) rest args'
  ok (written ++ more)

-- What follows the inner loop: no room is left, the format ends, or an argument is printed.
pub behind_plain :
    (ℕ → List ℕ) → (ℕ → List ℕ → List ℕ → Outcome (List ℕ)) → ℕ → List ℕ → List ℕ → Outcome (List ℕ)
behind_plain mem next size [] args = ok []
behind_plain mem next zero (c ∷ fmt) args = ok []
behind_plain mem next (suc size) (c ∷ fmt) args = print_expr mem next (suc size) fmt args

abbrev pub append_to : List ℕ → Outcome (List ℕ) → Outcome (List ℕ)
append_to copied more = more >>= λ bytes. ok (copied ++ bytes)

-- The outer loop, on fuel: each turn takes one byte of the format at least.
pub format_loop : (ℕ → List ℕ) → ℕ → ℕ → List ℕ → List ℕ → Outcome (List ℕ)
format_loop mem zero size fmt args = panic
format_loop mem (suc fuel) size fmt args =
    let (copied, left) = copy_plain fmt size in
    append_to copied (behind_plain mem (format_loop mem fuel) (size - length copied) left args)

-- The bytes that are written to the buffer, whose number is the result.
pub vsnprintf : (ℕ → List ℕ) → ℕ → List ℕ → List ℕ → Outcome (List ℕ)
vsnprintf mem size fmt args =
    if ltb size 1 then ok [] else format_loop mem (suc (length fmt)) size fmt args
