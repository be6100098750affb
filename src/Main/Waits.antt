-- ===== src/Main/Waits.antt =====
-- Which wait the options of the producer in src/main.cpp ask for.
use lock_free_spmc_queue_dis.Common.{
  ℕ, zero, suc, ◌<◌, subst, ◌≡◌, ◌⊎◌, inl, inr, refl, ap, ◌∙◌, sym, true, false, none, some, List,
  [], ◌∷◌, arith, get_elem?, ℤ,
}
use lock_free_spmc_queue_dis.Main.{
  Bytes, eq_bytes, flag_auto, stoi, skip_spaces, take_sign, magnitude, read_digits, to_int,
}

-- Argument number `at` is `--auto`, and the one after it is a number, `seconds`.
pub record Asked (args : List Bytes) (at : ℕ) (seconds : ℤ) : Type 0 where
  pub flag : Bytes
  pub number : Bytes
  pub flag_at : get_elem? args at ≡ some flag
  pub number_at : get_elem? args (suc at) ≡ some number
  pub is_flag : eq_bytes flag flag_auto ≡ true
  pub value : stoi number ≡ some seconds

-- No argument asks for a wait, and it is `was`; or it is what the last one asks that does.
abbrev pub Waits : List Bytes → ℤ → ℤ → Type 0
Waits args was now =
    ((now ≡ was) × ((at : ℕ) (seconds : ℤ) → Asked args at seconds → ⊥))
    ⊎ ((last : ℕ) × Asked args last now
        × ((at : ℕ) (seconds : ℤ) → last < at → Asked args at seconds → ⊥))

Asked-later :
    (arg : Bytes) (args : List Bytes) (at : ℕ) (seconds : ℤ)
    → Asked args at seconds
    → Asked (arg ∷ args) (suc at) seconds
Asked-later arg args at seconds a = record {
  flag = a.flag;
  number = a.number;
  flag_at = a.flag_at;
  number_at = a.number_at;
  is_flag = a.is_flag;
  value = a.value;
}

Asked-earlier :
    (arg : Bytes) (args : List Bytes) (at : ℕ) (seconds : ℤ)
    → Asked (arg ∷ args) (suc at) seconds
    → Asked args at seconds
Asked-earlier arg args at seconds a = record {
  flag = a.flag;
  number = a.number;
  flag_at = a.flag_at;
  number_at = a.number_at;
  is_flag = a.is_flag;
  value = a.value;
}

-- The first argument asks for nothing.
pub Waits-later :
    (arg : Bytes) (args : List Bytes) (was now : ℤ)
    → ((seconds : ℤ) → Asked (arg ∷ args) 0 seconds → ⊥)
    → Waits args was now
    → Waits (arg ∷ args) was now
Waits-later arg args was now silent (inl (same, nothing)) = inl (same, by_place)
  where
    by_place : (at : ℕ) (seconds : ℤ) → Asked (arg ∷ args) at seconds → ⊥
    by_place zero seconds a = silent seconds a
    by_place (suc at) seconds a = nothing at seconds (Asked-earlier arg args at seconds a)
Waits-later arg args was now silent (inr (last, asked, nothing)) =
    inr (suc last, Asked-later arg args last now asked, by_place)
  where
    by_place : (at : ℕ) (seconds : ℤ) → suc last < at → Asked (arg ∷ args) at seconds → ⊥
    by_place zero seconds h a = omega arith
    by_place (suc at) seconds h a =
        nothing at seconds (omega arith) (Asked-earlier arg args at seconds a)

-- The first argument asks for `was`, which holds unless a later one asks.
pub Waits-now :
    (arg : Bytes) (args : List Bytes) (before was now : ℤ)
    → Asked (arg ∷ args) 0 was
    → Waits args was now
    → Waits (arg ∷ args) before now
Waits-now arg args before was now asked (inl (same, nothing)) =
    inr (0, subst (Asked (arg ∷ args) 0) (sym same) asked, by_place)
  where
    by_place : (at : ℕ) (seconds : ℤ) → 0 < at → Asked (arg ∷ args) at seconds → ⊥
    by_place zero seconds h a = omega arith
    by_place (suc at) seconds h a = nothing at seconds (Asked-earlier arg args at seconds a)
Waits-now arg args before was now asked (inr (last, later, nothing)) =
    inr (suc last, Asked-later arg args last now later, by_place)
  where
    by_place : (at : ℕ) (seconds : ℤ) → suc last < at → Asked (arg ∷ args) at seconds → ⊥
    by_place zero seconds h a = omega arith
    by_place (suc at) seconds h a =
        nothing at seconds (omega arith) (Asked-earlier arg args at seconds a)

eq_bytes→≡ : (s t : Bytes) → eq_bytes s t ≡ true → s ≡ t
unfolding eq_bytes
eq_bytes→≡ [] [] e = refl
eq_bytes→≡ [] (d ∷ t) e = cc
eq_bytes→≡ (c ∷ s) [] e = cc
eq_bytes→≡ (c ∷ s) (d ∷ t) e =
    let head : c ≡ d = ground (arith, e) in
    let tail : s ≡ t = eq_bytes→≡ s t (ground (arith, e)) in cc

-- `--auto` is no number.
stoi-flag_auto : stoi flag_auto ≡ none
unfolding stoi skip_spaces take_sign magnitude read_digits to_int
stoi-flag_auto = refl

pub no_flag :
    (arg : Bytes) (args : List Bytes)
    → eq_bytes arg flag_auto ≡ false
    → (seconds : ℤ) → Asked (arg ∷ args) 0 seconds
    → ⊥
no_flag arg args e seconds a =
    let same : arg ≡ a.flag = let found = a.flag_at in cc in
    let clash : false ≡ true = sym e ∙ ap (λ s. eq_bytes s flag_auto) same ∙ a.is_flag in cc

pub no_number :
    (arg next : Bytes) (rest : List Bytes)
    → stoi next ≡ none
    → (seconds : ℤ) → Asked (arg ∷ next ∷ rest) 0 seconds
    → ⊥
no_number arg next rest e seconds a =
    let same : next ≡ a.number = let found = a.number_at in cc in
    let clash : none ≡ some seconds = sym e ∙ ap stoi same ∙ a.value in cc

-- A number that has been taken is not `--auto`.
pub number_silent :
    (next : Bytes) (rest : List Bytes) (v : ℤ)
    → stoi next ≡ some v
    → (seconds : ℤ) → Asked (next ∷ rest) 0 seconds
    → ⊥
number_silent next rest v e seconds a =
    let same : next ≡ a.flag = let found = a.flag_at in cc in
    let flag : next ≡ flag_auto = same ∙ eq_bytes→≡ a.flag flag_auto a.is_flag in
    let clash : some v ≡ none = sym e ∙ ap stoi flag ∙ stoi-flag_auto in cc
