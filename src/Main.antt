-- ===== src/Main.antt =====
-- src/main.cpp: the command line, as `main` takes it apart.
pub mod Numbers
pub mod Waits
pub mod Args
pub mod Modes
use lock_free_spmc_queue_dis.Common.{
  ℕ, zero, suc, ◌+◌, ◌-◌, ◌*◌, ◌^◌, Bool, true, false, ◌&&◌, ◌||◌, Option, none, some, List, [],
  ◌∷◌, ltb, leb, ◌==◌, if◌then◌else◌, ℤ, pos, negsuc,
}

-- A string as its bytes.
abbrev pub Bytes : Type 0
Bytes = List ℕ

-- `==` on strings
unfoldable pub eq_bytes : Bytes → Bytes → Bool
eq_bytes [] [] = true
eq_bytes [] (d ∷ t) = false
eq_bytes (c ∷ s) [] = false
eq_bytes (c ∷ s) (d ∷ t) = (c == d) && eq_bytes s t

abbrev pub flag_auto : Bytes
flag_auto = b'-' ∷ b'-' ∷ b'a' ∷ b'u' ∷ b't' ∷ b'o' ∷ []

abbrev pub is_space : ℕ → Bool
is_space c = (c == 32) || leb 9 c && leb c 13

abbrev pub is_digit : ℕ → Bool
is_digit c = leb b'0' c && leb c b'9'

-- What `std::stoi` passes over first.
unfoldable pub skip_spaces : Bytes → Bytes
skip_spaces [] = []
skip_spaces (c ∷ s) = let rest = skip_spaces s in if is_space c then rest else (c ∷ s)

-- Whether there is a minus sign, and what comes after the sign.
unfoldable pub take_sign : Bytes → Bool × Bytes
take_sign [] = (false, [])
take_sign (c ∷ s) =
    if c == b'-' then (true, s) else if c == b'+' then (false, s) else (false, c ∷ s)

-- The number that the leading digits continue.
unfoldable pub read_digits : Bytes → ℕ → ℕ
read_digits [] n = n
read_digits (c ∷ s) n =
    let longer = read_digits s (n * 10 + (c - b'0')) in if is_digit c then longer else n

-- Without a digit `std::stoi` throws `invalid_argument`.
unfoldable pub magnitude : Bytes → Option ℕ
magnitude [] = none
magnitude (c ∷ s) = if is_digit c then some (read_digits (c ∷ s) 0) else none

abbrev pub negate : ℕ → ℤ
negate zero = pos 0
negate (suc n) = negsuc n

-- A number outside `int` makes it throw `out_of_range`.
unfoldable pub to_int : Bool → Option ℕ → Option ℤ
to_int negative none = none
to_int true (some n) = if leb n (2 ^ 31) then some (negate n) else none
to_int false (some n) = if ltb n (2 ^ 31) then some (pos n) else none

-- `std::stoi`, with none for either exception.
unfoldable pub stoi : Bytes → Option ℤ
stoi s = let (negative, rest) = take_sign (skip_spaces s) in to_int negative (magnitude rest)

-- The locals of the producer's options.
pub record AutoStart : Type 0 where
  pub auto_start : Bool
  pub wait_seconds : ℤ

abbrev pub interactive : AutoStart
interactive = record { auto_start = false; wait_seconds = pos 3 }

-- The loop over `argv[2]`, `argv[3]`, ...
unfoldable pub parse_auto : List Bytes → AutoStart → AutoStart
parse_auto [] o = o
parse_auto (arg ∷ []) o = elim (eq_bytes arg flag_auto) [
  | true ↦ record o { auto_start = true }
  | false ↦ o
]
parse_auto (arg ∷ next ∷ rest) o = elim (eq_bytes arg flag_auto) [
  | true ↦ elim (stoi next) [
    | some n ↦ parse_auto rest (record { auto_start = true; wait_seconds = n })
    | none ↦ parse_auto (next ∷ rest) (record o { auto_start = true })
  ]
  | false ↦ parse_auto (next ∷ rest) o
]

-- What `main` is asked to do.
pub data Command : Type 0 where
  produce : AutoStart → Command
  consume : (strategy : Bytes) → Command
  cleanup : Command
  usage : Command

abbrev pub spin_name : Bytes
spin_name = b's' ∷ b'p' ∷ b'i' ∷ b'n' ∷ []

-- `(argc >= 3) ? argv[2] : "spin"`
abbrev pub strategy_arg : List Bytes → Bytes
strategy_arg [] = spin_name
strategy_arg (arg ∷ rest) = arg

-- The choice that `main` makes by `argv[1]`; the list begins there.
unfoldable pub command : List Bytes → Command
command [] = usage
command (mode ∷ rest) =
    if eq_bytes mode (b'p' ∷ [])
    then produce (parse_auto rest interactive)
    else if eq_bytes mode (b'c' ∷ [])
    then consume (strategy_arg rest)
    else if eq_bytes mode (b'x' ∷ [])
    then cleanup
    else usage
