-- ===== src/Effects/Values.antt =====
-- What an action returns, whatever it does to the world.
use fleetforge.Base.{◌≡◌, refl, sym, subst}
use fleetforge.World.{World, Result, ok, err, Action, pure, attempt, and_then, ◌>>=◌}
use fleetforge.Scheduler.Loop.{ignore}

-- An action that returned its value in two steps.
and_then_ok :
    {A B : Type 0} (r : Result A) (f : A → Action B) (v : World) (b : B)
    → (and_then r f v).0 ≡ ok b
    → (a : A) × (r ≡ ok a) × ((f a v).0 ≡ ok b)
unfolding and_then
and_then_ok (ok a) f v b h = (a, refl, h)
and_then_ok (err e) f v b h = absurd (cc)

pub bind_ok :
    {A B : Type 0} (m : Action A) (f : A → Action B) (w : World) (b : B)
    → ((m >>= f) w).0 ≡ ok b
    → (a : A) × ((m w).0 ≡ ok a) × ((f a (m w).1).0 ≡ ok b)
unfolding ◌>>=◌
bind_ok m f w b h = and_then_ok (m w).0 f (m w).1 b h

pub ok_eq : {A : Type 0} (a b : A) → ok a ≡ ok b → a ≡ b
ok_eq a b h = cc

pub attempted :
    {A : Type 0} (m : Action A) (w : World) (r : Result A) → (attempt m w).0 ≡ ok r → (m w).0 ≡ r
unfolding attempt
attempted m w r h = ok_eq _ _ h

pub attempted_world : {A : Type 0} (m : Action A) (w : World) → (attempt m w).1 ≡ (m w).1
unfolding attempt
attempted_world m w = refl

-- The action returns a value with `P`.
pub record Returns {A : Type 0} (P : A → Type 0) (m : Action A) (w : World) : Type 0 where
  pub value : A
  pub is_value : (m w).0 ≡ ok value
  pub satisfies : P value

abbrev pub Anything : {A : Type 0} → A → Type 0
Anything a = Unit {0}

module _ {A B : Type 0} {Q : A → Type 0} {P : B → Type 0} {m : Action A} {f : A → Action B}
    {w : World} where
  pub Returns-bind :
      (first : Returns Q m w) → ((a : A) → Q a → Returns P (f a) (m w).1) → Returns P (m >>= f) w
  unfolding ◌>>=◌ and_then
  Returns-bind first next =
      let second = next first.value first.satisfies in
      record {
        value = second.value;
        is_value =
            subst (λ r. (and_then r f (m w).1).0 ≡ ok second.value) (sym first.is_value)
              second.is_value;
        satisfies = second.satisfies;
      }

-- The first action is known whole.
pub Returns-run :
    {A B : Type 0} (P : B → Type 0) (m : Action A) (f : A → Action B) (w : World) (a : A)
    (w' : World)
    → m w ≡ (ok a, w')
    → Returns P (f a) w'
    → Returns P (m >>= f) w
unfolding ◌>>=◌ and_then
Returns-run P m f w a w' is_run next = record {
  value = next.value;
  is_value =
      subst (λ (x : Result _ × World). (and_then x.0 f x.1).0 ≡ ok next.value) (sym is_run)
        next.is_value;
  satisfies = next.satisfies;
}

pub Returns-pure : {A : Type 0} (P : A → Type 0) (a : A) (w : World) → P a → Returns P (pure a) w
unfolding pure
Returns-pure P a w h = record { value = a; is_value = refl; satisfies = h }

-- An error that is logged stops nothing.
pub Returns-attempt :
    {A : Type 0} (m : Action A) (w : World) → Returns (λ r. r ≡ (m w).0) (attempt m) w
unfolding attempt
Returns-attempt m w = record { value = (m w).0; is_value = refl; satisfies = refl }

pub Returns-ignore : (m : Action (Unit {0})) (w : World) → Returns Anything (ignore m) w
Returns-ignore m w = Returns-bind (Returns-attempt m w) (λ r h. Returns-pure Anything tt _ tt)
