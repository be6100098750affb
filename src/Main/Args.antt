-- ===== src/Main/Args.antt =====
-- The arguments of src/main.cpp: what the loop over the producer's options finds, and commands
-- written as arguments.
use lock_free_spmc_queue_dis.Common.{
  ℕ, zero, suc, ◌≡◌, ◌⊎◌, inl, inr, refl, ap, Bool, true, false, ◌||◌, Option, none, some, List, [],
  ◌∷◌, arith, ==_self, ℤ, pos, if◌then◌else◌,
}
use lock_free_spmc_queue_dis.Main.{
  Bytes, eq_bytes, flag_auto, stoi, AutoStart, interactive, parse_auto, Command, produce, consume,
  cleanup, usage, command,
}
use lock_free_spmc_queue_dis.Main.Waits.{
  Asked, Waits, Waits-later, Waits-now, no_flag, no_number, number_silent,
}
use lock_free_spmc_queue_dis.Main.Numbers.{print_int, IsInt, stoi-print_int}

abbrev pub contains : Bytes → List Bytes → Bool
contains s [] = false
contains s (arg ∷ args) = eq_bytes arg s || contains s args

-- What the loop makes of the options `o` that it begins with.
pub record Parsed (args : List Bytes) (o o' : AutoStart) : Type 0 where
  pub auto : o'.auto_start ≡ (o.auto_start || contains flag_auto args)
  pub waits : Waits args o.wait_seconds o'.wait_seconds

-- For any arguments the loop over the producer's options sets `auto_start` exactly if it was set or
-- one of them is `--auto`. In `wait_seconds` it leaves the number after the last `--auto` that is
-- directly followed by an argument which `std::stoi` accepts, or, if there is no such `--auto`,
-- what was there.
pub parse_auto-Parsed : (args : List Bytes) (o : AutoStart) → Parsed args o (parse_auto args o)
unfolding parse_auto
parse_auto-Parsed [] o = record {
  auto = ground arith;
  waits = inl (refl, λ at seconds a. cc a.flag_at);
}
parse_auto-Parsed (arg ∷ []) o = by_test (eq_bytes arg flag_auto) refl
  where
    alone : (at : ℕ) (seconds : ℤ) → Asked (arg ∷ []) at seconds → ⊥
    alone zero seconds a = cc a.number_at
    alone (suc at) seconds a = cc a.flag_at

    by_test :
        (b : Bool)
        → eq_bytes arg flag_auto ≡ b
        → Parsed (arg ∷ []) o (elim b [ true ↦ record o { auto_start = true } | false ↦ o ])
    by_test true e = record { auto = ground (arith, e); waits = inl (refl, alone) }
    by_test false e = record { auto = ground (arith, e); waits = inl (refl, alone) }
parse_auto-Parsed (arg ∷ next ∷ rest) o =
    by_test (λ x. parse_auto-Parsed rest x) (λ x. parse_auto-Parsed (next ∷ rest) x)
      (eq_bytes arg flag_auto) refl
  where
    here : Bool
    here = eq_bytes arg flag_auto

    by_number :
        ((x : AutoStart) → Parsed rest x (parse_auto rest x))
        → ((x : AutoStart) → Parsed (next ∷ rest) x (parse_auto (next ∷ rest) x))
        → here ≡ true
        → (n : Option ℤ) → stoi next ≡ n
        → Parsed (arg ∷ next ∷ rest) o (elim n [
          | some v ↦ parse_auto rest (record { auto_start = true; wait_seconds = v })
          | none ↦ parse_auto (next ∷ rest) (record o { auto_start = true })
        ])
    by_number past on flag none e =
        let p = on (record o { auto_start = true }) in
        record {
          auto = ground (arith, p.auto, flag);
          waits =
              Waits-later arg (next ∷ rest) o.wait_seconds _ (no_number arg next rest e) p.waits;
        }
    by_number past on flag (some v) e =
        let p = past (record { auto_start = true; wait_seconds = v }) in
        record {
          auto = ground (arith, p.auto, flag);
          waits =
              Waits-now arg (next ∷ rest) o.wait_seconds v _
                (record {
                  flag = arg;
                  number = next;
                  flag_at = refl;
                  number_at = refl;
                  is_flag = flag;
                  value = e;
                })
                (Waits-later next rest v _ (number_silent next rest v e) p.waits);
        }

    by_test :
        ((x : AutoStart) → Parsed rest x (parse_auto rest x))
        → ((x : AutoStart) → Parsed (next ∷ rest) x (parse_auto (next ∷ rest) x))
        → (b : Bool) → here ≡ b
        → Parsed (arg ∷ next ∷ rest) o (elim b [
          | true ↦ elim (stoi next) [
            | some v ↦ parse_auto rest (record { auto_start = true; wait_seconds = v })
            | none ↦ parse_auto (next ∷ rest) (record o { auto_start = true })
          ]
          | false ↦ parse_auto (next ∷ rest) o
        ])
    by_test past on true e = by_number past on e (stoi next) refl
    by_test past on false e =
        let p = on o in
        record {
          auto = ground (arith, p.auto, e);
          waits =
              Waits-later arg (next ∷ rest) o.wait_seconds _ (no_flag arg (next ∷ rest) e) p.waits;
        }

eq_bytes_self : (s : Bytes) → eq_bytes s s ≡ true
unfolding eq_bytes
eq_bytes_self [] = refl
eq_bytes_self (c ∷ s) = ground (arith, ==_self c, eq_bytes_self s)

-- A command as `main` would be called for it.
abbrev pub options : AutoStart → List Bytes
options o = if o.auto_start then flag_auto ∷ print_int o.wait_seconds ∷ [] else []

abbrev pub arguments : Command → List Bytes
arguments (produce o) = (b'p' ∷ []) ∷ options o
arguments (consume strategy) = (b'c' ∷ []) ∷ strategy ∷ []
arguments cleanup = (b'x' ∷ []) ∷ []
arguments usage = []

-- The commands that there are: without `--auto` the producer's wait is the default.
abbrev pub IsCommand : Command → Type 0
IsCommand (produce o) =
    ((o.auto_start ≡ true) × IsInt o.wait_seconds)
    ⊎ ((o.auto_start ≡ false) × (o.wait_seconds ≡ pos 3))
IsCommand (consume strategy) = Unit
IsCommand cleanup = Unit
IsCommand usage = Unit

parse_auto-options :
    (o : AutoStart) → IsCommand (produce o) → parse_auto (options o) interactive ≡ o
unfolding parse_auto
parse_auto-options o (inl (auto, int)) =
    let value = stoi-print_int o.wait_seconds int in
    ground (arith, auto, value, eq_bytes_self flag_auto)
parse_auto-options o (inr (auto, three)) = ground (arith, auto, three)

-- Every command, with a wait in the range of `int` and the default wait if `--auto` is not given,
-- written out as arguments, is read back by `main` as that command.
pub command-arguments : (c : Command) → IsCommand c → command (arguments c) ≡ c
unfolding command eq_bytes
command-arguments (produce o) h = ap produce (parse_auto-options o h)
command-arguments (consume strategy) h = refl
command-arguments cleanup h = refl
command-arguments usage h = refl
