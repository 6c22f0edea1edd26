-- ===== src/Effects/Steps.antt =====
-- What an action that returned a value did, one step at a time, and the database that it left.
use fleetforge.Base.{◌≡◌, refl, sym, ap, ◌∙◌}
use fleetforge.Schema.{Db}
use fleetforge.World.{World, Result, ok, Action, statement, begin_func, ◌>>=◌}
use fleetforge.Effects.{begun, statement-eq-ok, >>=-eq-ok, begin_func-eq-ok}

pub bind_ran :
    {A B : Type 0} (m : Action A) (f : A → Action B) (w : World) (b : B)
    → ((m >>= f) w).0 ≡ ok b
    → (a : A) × ((m w).0 ≡ ok a) × ((f a (m w).1).0 ≡ ok b) × (((m >>= f) w).1 ≡ (f a (m w).1).1)
bind_ran {B} m f w b h =
    let (a, first, whole) = >>=-eq-ok m f w h in
    (
      a,
      first,
      ap (λ (x : Result B × World). x.0) (sym whole) ∙ h,
      ap (λ (x : Result B × World). x.1) whole,
    )

-- A statement of a body that went through, and the rest of the body after it.
pub next_ran :
    {A B : Type 0} (f : Db → Result A × Db) (k : A → Action B) (w : World) (b : B)
    → ((statement f >>= k) w).0 ≡ ok b
    → (a : A) × (v : World) × ((f w.db).0 ≡ ok a)
      × (v.db ≡ (f w.db).1)
      × ((k a v).0 ≡ ok b)
      × (((statement f >>= k) w).1.db ≡ (k a v).1.db)
next_ran f k w b h =
    let (a, first, rest, world) = bind_ran (statement f) k w b h in
    let (value, db) = statement-eq-ok f w first in
    (a, (statement f w).1, value, db, rest, ap (λ (v : World). v.db) world)

pub begin_func_ran :
    {A : Type 0} (m : Action A) (w : World) (a : A)
    → (begin_func m w).0 ≡ ok a
    → (v : World) × (v.db ≡ w.db) × ((m v).0 ≡ ok a) × ((begin_func m w).1.db ≡ (m v).1.db)
begin_func_ran m w a h =
    let (body, committed) = begin_func-eq-ok m w h in (begun w, refl, body, committed)
