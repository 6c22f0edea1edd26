-- ===== src/Effects.antt =====
-- Proof rules for actions: what every statement of an action keeps, the action keeps, whichever of its
-- calls fail; and what a transaction that returns an error leaves behind.
pub mod Streams
pub mod Values
pub mod Steps
use fleetforge.Base.{
  ◌⊎◌, ◌+◌, ◌≡◌, refl, Bool, true, false, List, [], ◌∷◌, arith, if◌then◌else◌, inl, inr,
}
use fleetforge.Schema.{Db}
use fleetforge.World.{
  World, Redis, Result, ok, err, Error, Action, pure, throw, attempt, statement, command,
  begin_func, finish, for_each, and_then, ◌>>=◌,
}

-- From `P` of the database before, `Q` after, whatever the action returns.
pub record Leads {A : Type 0} (P Q : Db → Type 0) (m : Action A) : Type 0 where
  pub holds : (w : World) → P w.db → Q (m w).1.db

-- Only an action that returned no error has to establish `Q`.
pub record LeadsOk {A : Type 0} (P Q : Db → Type 0) (m : Action A) : Type 0 where
  pub holds : (w : World) (a : A) → P w.db → (m w).0 ≡ ok a → Q (m w).1.db

abbrev pub Keeps : {A : Type 0} → (Db → Type 0) → Action A → Type 0
Keeps I m = Leads I I m

Leads-and_then :
    (Q : Db → Type 0) {A B : Type 0} (r : Result A) (f : A → Action B) (w : World)
    (Mid : A → Type 0)
    → ((e : Error) → r ≡ err e → Q w.db)
    → ((a : A) → r ≡ ok a → Mid a)
    → ((a : A) → Mid a → Q (f a w).1.db)
    → Q (and_then r f w).1.db
unfolding and_then
Leads-and_then Q (ok a) f w Mid failed holds k = k a (holds a refl)
Leads-and_then Q (err e) f w Mid failed holds k = failed e refl

module _ {P Q : Db → Type 0} {A B : Type 0} {m : Action A} {f : A → Action B} where
  -- The first action's value is known to satisfy `Mid` in the database that it leaves.
  pub Leads-bind :
      (Mid : A → Db → Type 0)
      → Leads P Q m
      → ((w : World) (a : A) → P w.db → (m w).0 ≡ ok a → Mid a (m w).1.db)
      → ((a : A) → Leads (Mid a) Q (f a))
      → Leads P Q (m >>= f)
  unfolding ◌>>=◌
  Leads-bind Mid lm value k = record {
    holds = λ w h.
        Leads-and_then Q (m w).0 f (m w).1 (λ a. Mid a (m w).1.db) (λ e _. lm.holds w h)
          (λ a e. value w a h e) (λ a mid. (k a).holds (m w).1 mid);
  }

Keeps-finish :
    (I : Db → Type 0) {A : Type 0} (before : Db) (r : Result A) (w : World)
    → I before
    → ((a : A) → r ≡ ok a → I w.db)
    → I (finish before (r, w)).1.db
unfolding finish
Keeps-finish I before (ok a) w hb h = ground (arith, h a refl)
Keeps-finish I before (err e) w hb h = hb

pub Leads-if :
    {P Q : Db → Type 0} {A : Type 0} (b : Bool) {m n : Action A}
    → (b ≡ true → Leads P Q m)
    → (b ≡ false → Leads P Q n)
    → Leads P Q (if b then m else n)
Leads-if true lm ln = lm refl
Leads-if false lm ln = ln refl

pub Leads-pure :
    {P Q : Db → Type 0} {A : Type 0} → ((db : Db) → P db → Q db) → (a : A) → Leads P Q (pure a)
unfolding pure
Leads-pure weaken a = record { holds = λ w h. weaken w.db h }

pub Leads-weaken :
    {P R Q : Db → Type 0} {A : Type 0} {m : Action A}
    → Leads P R m
    → ((db : Db) → R db → Q db)
    → Leads P Q m
Leads-weaken {m} lm weaken = record { holds = λ w h. weaken (m w).1.db (lm.holds w h) }

-- `R` holds between the two, and suffices where the first fails.
pub Leads-seq :
    {P R Q : Db → Type 0} {A B : Type 0} {m : Action A} {f : A → Action B}
    → Leads P R m
    → ((db : Db) → R db → Q db)
    → ((a : A) → Leads R Q (f a))
    → Leads P Q (m >>= f)
Leads-seq {R} lm weaken k = Leads-bind (λ a. R) (Leads-weaken lm weaken) (λ w a h _. lm.holds w h) k

module _ {I : Db → Type 0} where
  pub Keeps-bind :
      {A B : Type 0} {m : Action A} {f : A → Action B}
      → Keeps I m
      → ((a : A) → Keeps I (f a))
      → Keeps I (m >>= f)
  Keeps-bind km kf = Leads-bind (λ a. I) km (λ w a h _. km.holds w h) kf

  pub Keeps-pure : {A : Type 0} (a : A) → Keeps I (pure a)
  unfolding pure
  Keeps-pure a = record { holds = λ w h. h }

  pub Keeps-throw : {A : Type 0} (e : Error) → Keeps I (throw {A = A} e)
  unfolding throw
  Keeps-throw e = record { holds = λ w h. h }

  pub Keeps-attempt : {A : Type 0} {m : Action A} → Keeps I m → Keeps I (attempt m)
  unfolding attempt
  Keeps-attempt km = record { holds = λ w h. km.holds w h }

  pub Keeps-command : {A : Type 0} (f : Redis → A × Redis) → Keeps I (command f)
  unfolding command
  Keeps-command f = record { holds = λ w h. ground arith }

  pub Keeps-if :
      {A : Type 0} (b : Bool) {m n : Action A}
      → (b ≡ true → Keeps I m)
      → (b ≡ false → Keeps I n)
      → Keeps I (if b then m else n)
  Keeps-if b km kn = Leads-if b km kn

  pub Keeps-for_each :
      {A : Type 0} (xs : List A) {body : A → Action (Unit {0})}
      → ((x : A) → Keeps I (body x))
      → Keeps I (for_each xs body)
  unfolding for_each
  Keeps-for_each [] k = Keeps-pure tt
  Keeps-for_each (x ∷ xs) k = Keeps-bind (k x) (λ _. Keeps-for_each xs k)

  -- Only a body that returned no error is committed.
  pub Keeps-transaction : {A : Type 0} {m : Action A} → LeadsOk I I m → Keeps I (begin_func m)
  unfolding begin_func
  Keeps-transaction {m} km = record {
    holds = λ w h.
        let begun = record w { calls = w.calls + 1 } in
        ground (arith, Keeps-finish I w.db (m begun).0 (m begun).1 h (λ a e. km.holds begun a h e));
  }

  pub Keeps-begin_func : {A : Type 0} {m : Action A} → Keeps I m → Keeps I (begin_func m)
  Keeps-begin_func km = Keeps-transaction (record { holds = λ w a h e. km.holds w h })

pub Leads-statement :
    {P Q : Db → Type 0} {A : Type 0} (f : Db → Result A × Db)
    → ((db : Db) → P db → Q db)
    → ((db : Db) → P db → Q (f db).1)
    → Leads P Q (statement f)
unfolding statement
Leads-statement f weaken step = record { holds = λ w h. ground (arith, weaken w.db h, step w.db h) }

pub Keeps-statement :
    {I : Db → Type 0} {A : Type 0} (f : Db → Result A × Db)
    → ((db : Db) → I db → I (f db).1)
    → Keeps I (statement f)
Keeps-statement f keep = Leads-statement f (λ db h. h) keep

-- Inversion: what an action that returned a value did.
pub statement-eq-ok :
    {A : Type 0} (f : Db → Result A × Db) (w : World) {a : A}
    → (statement f w).0 ≡ ok a
    → ((f w.db).0 ≡ ok a) × ((statement f w).1.db ≡ (f w.db).1)
unfolding statement
statement-eq-ok f w h = ground arith

pub and_then-eq-ok :
    {A B : Type 0} (r : Result A) (f : A → Action B) (w : World) {b : B}
    → (and_then r f w).0 ≡ ok b
    → (a : A) × (r ≡ ok a) × (and_then r f w ≡ f a w)
unfolding and_then
and_then-eq-ok (ok a) f w h = (a, refl, refl)
and_then-eq-ok (err e) f w h = absurd (cc)

pub >>=-eq-ok :
    {A B : Type 0} (m : Action A) (f : A → Action B) (w : World) {b : B}
    → ((m >>= f) w).0 ≡ ok b
    → (a : A) × ((m w).0 ≡ ok a) × ((m >>= f) w ≡ f a (m w).1)
unfolding ◌>>=◌
>>=-eq-ok m f w h = and_then-eq-ok (m w).0 f (m w).1 h

finish-eq-ok :
    {A : Type 0} (before : Db) (r : Result A) (w : World) {a : A}
    → (finish before (r, w)).0 ≡ ok a
    → (r ≡ ok a) × ((finish before (r, w)).1.db ≡ w.db)
unfolding finish
finish-eq-ok before (ok a) w h = ground arith
finish-eq-ok before (err e) w h = absurd (cc)

finish-eq-err :
    {A : Type 0} (before : Db) (r : Result A) (w : World) {e : Error}
    → (finish before (r, w)).0 ≡ err e
    → (finish before (r, w)).1.db ≡ before
unfolding finish
finish-eq-err before (ok a) w h = ground arith
finish-eq-err before (err e) w h = refl

-- The world in which a transaction's body starts: the BEGIN has been sent.
abbrev pub begun : World → World
begun w = record w { calls = w.calls + 1 }

pub begin_func-eq-ok :
    {A : Type 0} (m : Action A) (w : World) {a : A}
    → (begin_func m w).0 ≡ ok a
    → ((m (begun w)).0 ≡ ok a) × ((begin_func m w).1.db ≡ (m (begun w)).1.db)
unfolding begin_func
begin_func-eq-ok m w h = ground (arith, finish-eq-ok w.db (m (begun w)).0 (m (begun w)).1)

-- A transaction that returns an error leaves the database as it was.
pub begin_func-eq-err :
    {A : Type 0} (m : Action A) (w : World) {e : Error}
    → (begin_func m w).0 ≡ err e
    → (begin_func m w).1.db ≡ w.db
unfolding begin_func
begin_func-eq-err m w h = ground (arith, finish-eq-err w.db (m (begun w)).0 (m (begun w)).1)

pub Result-cases :
    {A : Type 0} (r : Result A) → ((a : A) × (r ≡ ok a)) ⊎ ((e : Error) × (r ≡ err e))
Result-cases (ok a) = inl (a, refl)
Result-cases (err e) = inr (e, refl)
