-- ===== src/Prelude/Outcome.antt =====
-- What a call does to the state that it works on: it returns, throws, waits for ever (on a mutex that
-- its own thread holds, or for a thread that does not end), leaves the language's defined behaviour, or
-- the process ends in `std::terminate`.
use mathlib.Core.Path.{◌≡◌, refl}

pub data Exception : Type 0 where
  runtime_error invalid_argument out_of_range library_error : Exception
  bad_any_cast unordered_sources unknown_flow_object : Exception

pub data Outcome (S A : Type 0) : Type 0 where
  done : A → S → Outcome S A
  thrown : Exception → S → Outcome S A
  blocked : Outcome S A
  undefined : Outcome S A
  out_of_fuel : Outcome S A
  terminated : Outcome S A

abbrev pub Cmd : Type 0 → Type 0 → Type 0
Cmd S A = S → Outcome S A

module _ {S : Type 0} where
  abbrev pub pure : {A : Type 0} → A → Cmd S A
  pure a s = done a s

  abbrev pub throw : {A : Type 0} → Exception → Cmd S A
  throw e s = thrown e s

  abbrev pub and_then : {A B : Type 0} → Outcome S A → (A → Cmd S B) → Outcome S B
  and_then (done a s) k = k a s
  and_then (thrown e s) k = thrown e s
  and_then blocked k = blocked
  and_then undefined k = undefined
  and_then out_of_fuel k = out_of_fuel
  and_then terminated k = terminated

  infixl 5 ◌>>=◌ ◌>>◌
  abbrev pub ◌>>=◌ : {A B : Type 0} → Cmd S A → (A → Cmd S B) → Cmd S B
  m >>= k = λ s. and_then (m s) k

  abbrev pub ◌>>◌ : {A B : Type 0} → Cmd S A → Cmd S B → Cmd S B
  m >> k = m >>= λ _. k

  abbrev pub modify : (S → S) → Cmd S (Unit {0})
  modify f s = done tt (f s)

  -- The destructors that run when a scope is left, by return or by exception.
  abbrev pub finally : {A : Type 0} → Outcome S A → (S → S) → Outcome S A
  finally (done a s) f = done a (f s)
  finally (thrown e s) f = thrown e (f s)
  finally blocked f = blocked
  finally undefined f = undefined
  finally out_of_fuel f = out_of_fuel
  finally terminated f = terminated

-- The outcome is a return, and what it returns satisfies `P`.
abbrev pub Returns : {S A : Type 0} → (A → S → Type 0) → Outcome S A → Type 0
Returns P (done a s) = P a s
Returns P (thrown e s) = ⊥
Returns P blocked = ⊥
Returns P undefined = ⊥
Returns P out_of_fuel = ⊥
Returns P terminated = ⊥

pub Returns-mono :
    {S A : Type 0} {P Q : A → S → Type 0} (o : Outcome S A)
    → ((a : A) (s : S) → P a s → Q a s)
    → Returns P o
    → Returns Q o
Returns-mono (done a s) h r = h a s r
Returns-mono (thrown e s) h r = r
Returns-mono blocked h r = r
Returns-mono undefined h r = r
Returns-mono out_of_fuel h r = r
Returns-mono terminated h r = r

pub Returns-bind :
    {S A B : Type 0} {P : A → S → Type 0} (Q : B → S → Type 0) (o : Outcome S A) (k : A → Cmd S B)
    → Returns P o
    → ((a : A) (s : S) → P a s → Returns Q (k a s))
    → Returns Q (and_then o k)
Returns-bind Q (done a s) k r h = h a s r
Returns-bind Q (thrown e s) k r h = absurd r
Returns-bind Q blocked k r h = absurd r
Returns-bind Q undefined k r h = absurd r
Returns-bind Q out_of_fuel k r h = absurd r
Returns-bind Q terminated k r h = absurd r

pub Returns-done :
    {S A : Type 0} {P : A → S → Type 0} (o : Outcome S A)
    → Returns P o
    → (a : A) × (s : S) × (o ≡ done a s) × P a s
Returns-done (done a s) r = (a, s, refl, r)
Returns-done (thrown e s) r = absurd r
Returns-done blocked r = absurd r
Returns-done undefined r = absurd r
Returns-done out_of_fuel r = absurd r
Returns-done terminated r = absurd r

-- The outcome is a return or an exception, with what holds of each.
abbrev pub Ends :
    {S A : Type 0} → (A → S → Type 0) → (Exception → S → Type 0) → Outcome S A → Type 0
Ends P Q (done a s) = P a s
Ends P Q (thrown e s) = Q e s
Ends P Q blocked = ⊥
Ends P Q undefined = ⊥
Ends P Q out_of_fuel = ⊥
Ends P Q terminated = ⊥

-- `catch` of every `std::exception`.
abbrev pub catch : {S A : Type 0} → Outcome S A → (Exception → Cmd S A) → Outcome S A
catch (done a s) k = done a s
catch (thrown e s) k = k e s
catch blocked k = blocked
catch undefined k = undefined
catch out_of_fuel k = out_of_fuel
catch terminated k = terminated
