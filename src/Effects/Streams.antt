-- ===== src/Effects/Streams.antt =====
-- Actions that leave the job queue's streams alone.
use fleetforge.Base.{◌+◌, ◌≡◌, refl, ◌∙◌, Bool, true, false, List, [], ◌∷◌, arith, if◌then◌else◌}
use fleetforge.Schema.{Db}
use fleetforge.World.{
  World, Result, ok, err, Error, Action, pure, throw, attempt, statement, begin_func, finish,
  for_each, and_then, ◌>>=◌,
}

-- An action that leaves every stream alone.
pub record KeepsStreams {A : Type 0} (m : Action A) : Type 0 where
  pub same : (w : World) → (m w).1.redis.streams ≡ w.redis.streams

module _ {A : Type 0} where
  pub KeepsStreams-statement : (f : Db → Result A × Db) → KeepsStreams (statement f)
  unfolding statement
  KeepsStreams-statement f = record { same = λ w. ground arith }

  pub KeepsStreams-pure : (a : A) → KeepsStreams (pure a)
  unfolding pure
  KeepsStreams-pure a = record { same = λ w. refl }

  pub KeepsStreams-throw : (e : Error) → KeepsStreams (throw {A = A} e)
  unfolding throw
  KeepsStreams-throw e = record { same = λ w. refl }

  pub KeepsStreams-if :
      (b : Bool) {m n : Action A}
      → KeepsStreams m
      → KeepsStreams n
      → KeepsStreams (if b then m else n)
  KeepsStreams-if true km kn = km
  KeepsStreams-if false km kn = kn

  pub KeepsStreams-attempt : {m : Action A} → KeepsStreams m → KeepsStreams (attempt m)
  unfolding attempt
  KeepsStreams-attempt km = record { same = λ w. km.same w }

  finish_keeps :
      (db : Db) (r : Result A) (v : World) → (finish db (r, v)).1.redis.streams ≡ v.redis.streams
  unfolding finish
  finish_keeps db (ok a) v = ground arith
  finish_keeps db (err e) v = refl

  pub KeepsStreams-begin_func : {m : Action A} → KeepsStreams m → KeepsStreams (begin_func m)
  unfolding begin_func
  KeepsStreams-begin_func {m} km = record {
    same = λ w.
        let begun = record w { calls = w.calls + 1 } in
        ground (arith, km.same begun, finish_keeps w.db (m begun).0 (m begun).1);
  }

module _ {A B : Type 0} where
  and_then_keeps :
      (r : Result A) (f : A → Action B) (v : World)
      → ((a : A) → KeepsStreams (f a))
      → (and_then r f v).1.redis.streams ≡ v.redis.streams
  unfolding and_then
  and_then_keeps (ok a) f v kf = (kf a).same v
  and_then_keeps (err e) f v kf = refl

  pub KeepsStreams-bind :
      {m : Action A} {f : A → Action B}
      → KeepsStreams m
      → ((a : A) → KeepsStreams (f a))
      → KeepsStreams (m >>= f)
  unfolding ◌>>=◌
  KeepsStreams-bind {m} {f} km kf = record {
    same = λ w. and_then_keeps (m w).0 f (m w).1 kf ∙ km.same w;
  }

pub KeepsStreams-for_each :
    {A : Type 0} (xs : List A) {body : A → Action (Unit {0})}
    → ((x : A) → KeepsStreams (body x))
    → KeepsStreams (for_each xs body)
unfolding for_each
KeepsStreams-for_each [] kb = KeepsStreams-pure tt
KeepsStreams-for_each (x ∷ xs) kb = KeepsStreams-bind (kb x) (λ _. KeepsStreams-for_each xs kb)
