-- ===== src/Prelude/Checked.antt =====
-- Fallible computation as the programs write it: Rust's checked integer operations, which return
-- `Option`, and an instruction's `Result`, whose errors are the program's own or the framework's.
use Prim.Native.Nat.{ℕ, ◌+◌, ◌-◌, ◌*◌, ◌/◌, ◌^◌}
use mathlib.Core.Bool.{Bool, true, false}
use mathlib.Core.Path.{◌≡◌, refl}
use mathlib.Core.Option.{Option, none, some}
use mathlib.Core.Logic.{◌⊎◌, inl, inr}
use rise_protocol.Prelude.Tests.{ltb, leb, ◌==◌, if◌then◌else◌}

-- The number of values of each unsigned integer type. They are shut, so that a proof reads them
-- as unknowns.
unfoldable pub u16 : ℕ
u16 = 2 ^ 16

unfoldable pub u32 : ℕ
u32 = 2 ^ 32

unfoldable pub u64 : ℕ
u64 = 2 ^ 64

unfoldable pub u128 : ℕ
u128 = 2 ^ 128

-- `a.checked_add(b)` at the type that has `w` values; so for the others.
abbrev pub checked_add : ℕ → ℕ → ℕ → Option ℕ
checked_add w a b = if ltb (a + b) w then some (a + b) else none

abbrev pub checked_sub : ℕ → ℕ → Option ℕ
checked_sub a b = if leb b a then some (a - b) else none

abbrev pub checked_mul : ℕ → ℕ → ℕ → Option ℕ
checked_mul w a b = if ltb (a * b) w then some (a * b) else none

abbrev pub checked_div : ℕ → ℕ → Option ℕ
checked_div a b = if b == 0 then none else some (a / b)

-- `T::try_from(a)` at the type that has `w` values.
abbrev pub try_from : ℕ → ℕ → Option ℕ
try_from w a = if ltb a w then some a else none

-- Why an instruction fails: an error of the program's enum, an account constraint with no error
-- of its own, an account that does not exist, a failed call of another program, or a panic (the
-- release profile keeps `overflow-checks`).
pub data Fault (E : Type 0) : Type 0 where
  custom : E → Fault E
  constraint uninitialized cpi panic : Fault E

pub data Result (E A : Type 0) : Type 0 where
  ok : A → Result E A
  err : Fault E → Result E A

infixl 5 ◌>>=◌ ◌>>◌
abbrev pub ◌>>=◌ : {E A B : Type 0} → Result E A → (A → Result E B) → Result E B
ok a >>= f = f a
err e >>= f = err e

abbrev pub ◌>>◌ : {E B : Type 0} → Result E (Unit {0}) → Result E B → Result E B
m >> k = m >>= λ _. k

-- `require!(c, e)`, and a constraint that names its error.
abbrev pub require : {E : Type 0} → Bool → E → Result E (Unit {0})
require true e = ok tt
require false e = err (custom e)

-- `o.ok_or(e)?`
abbrev pub ok_or : {E A : Type 0} → Option A → E → Result E A
ok_or (some a) e = ok a
ok_or none e = err (custom e)

abbrev pub or_fault : {E A : Type 0} → Option A → Fault E → Result E A
or_fault (some a) e = ok a
or_fault none e = err e

-- `constraint = c` and `address = a` with no error of their own.
abbrev pub constrain : {E : Type 0} → Bool → Result E (Unit {0})
constrain true = ok tt
constrain false = err constraint

-- A chain of `?` inside a function that returns `Option`.
abbrev pub and_then : {A B : Type 0} → Option A → (A → Option B) → Option B
and_then none f = none
and_then (some a) f = f a

-- `a + b` in an integer type with `w` values, which panics when it overflows.
abbrev pub add_or_panic : {E : Type 0} → ℕ → ℕ → ℕ → Result E ℕ
add_or_panic w a b = or_fault (checked_add w a b) panic

-- Inversion of a chain that succeeds.
pub bind-eq_ok :
    {E A B : Type 0} (m : Result E A) (f : A → Result E B) {b : B}
    → (m >>= f) ≡ ok b
    → (a : A) × (m ≡ ok a) × (f a ≡ ok b)
bind-eq_ok (ok a) f h = (a, refl, h)
bind-eq_ok (err e) f h = cc

pub Result-cases :
    {E A : Type 0} (m : Result E A) → ((a : A) × (m ≡ ok a)) ⊎ ((e : Fault E) × (m ≡ err e))
Result-cases (ok a) = inl (a, refl)
Result-cases (err e) = inr (e, refl)

-- The value of a result that is known, with what goes with it.
pub ok-fst :
    {E A C : Type 0} (m : Result E A) {a a' : A} {c c' : C}
    → m ≡ ok a
    → (r : Result E (A × C)) → r ≡ ok (a, c)
    → r ≡ ok (a', c')
    → m ≡ ok a'
ok-fst m e r h h' = cc

pub ok-values :
    {E A C : Type 0} {a a' : A} {c c' : C}
    → ◌≡◌ {A = Result E (A × C)} (ok (a, c)) (ok (a', c'))
    → a ≡ a'
ok-values e = cc

pub ok-seconds :
    {E A C : Type 0} {a a' : A} {c c' : C} {m : Result E C}
    → m ≡ ok c
    → ◌≡◌ {A = Result E (A × C)} (ok (a, c)) (ok (a', c'))
    → m ≡ ok c'
ok-seconds h e = cc

pub ok-same : {E A : Type 0} {m : Result E A} {a a' : A} → m ≡ ok a → m ≡ ok a' → a ≡ a'
ok-same h h' = cc

pub ok-pairs :
    {E A C : Type 0} {m : Result E (A × C)} {a a' : A} {c c' : C}
    → m ≡ ok (a, c)
    → m ≡ ok (a', c')
    → (a ≡ a') × (c ≡ c')
ok-pairs h h' = (cc, cc)

pub ok-last :
    {E A C : Type 0} {a a' : A} {c c' : C}
    → ◌≡◌ {A = Result E (A × C)} (ok (a, c)) (ok (a', c'))
    → c ≡ c'
ok-last e = cc

pub ok-middle :
    {E A C D : Type 0} {a a' : A} {c c' : C} {d d' : D}
    → ◌≡◌ {A = Result E (A × C × D)} (ok (a, c, d)) (ok (a', c', d'))
    → c ≡ c'
ok-middle e = cc

pub ok-head :
    {E A C D : Type 0} {a a' : A} {c c' : C} {d d' : D}
    → ◌≡◌ {A = Result E (A × C × D)} (ok (a, c, d)) (ok (a', c', d'))
    → a ≡ a'
ok-head e = cc

-- A test whose result succeeds: one of its branches does.
pub test_cases :
    {E A : Type 0} (b : Bool) {m m' : Result E A} {a : A}
    → (if b then m else m') ≡ ok a
    → (m ≡ ok a) ⊎ (m' ≡ ok a)
test_cases true h = inl h
test_cases false h = inr h
