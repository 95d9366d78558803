-- ===== src/Auth/Inversion.antt =====
-- What a call that succeeded has gone through.
use structure.Prelude.{◌≡◌, refl, Bool, true, false, Option, none, some, Result, ok, err, ap}
use structure.Auth.Model.{AuthError}
use structure.Auth.Ports.{World, M, ◌>>=◌, fail, fail_when, present}

pub >>=-ok :
    {A B : Type 0} (m : M A) (f : A → M B) (w : World) {b : B} {v : World}
    → (m >>= f) w ≡ (ok b, v)
    → (a : A) × (u : World) × (m w ≡ (ok a, u)) × (f a u ≡ (ok b, v))
>>=-ok {A} {B} m f w {b} {v} h = through (m w) refl h
  where
    through :
        (r : Result AuthError A × World)
        → m w ≡ r
        → (elim r.0 as (λ x. Result AuthError B × World) [ ok a ↦ f a r.1 | err e ↦ fail e r.1 ])
          ≡ (ok b, v)
        → (a : A) × (u : World) × (m w ≡ (ok a, u)) × (f a u ≡ (ok b, v))
    through (ok a, u) e g = (a, u, e, g)
    through (err e, u) p g = absurd (cc)

pub present-ok :
    {A : Type 0} (o : Option A) (e : AuthError) (w : World) {a : A} {v : World}
    → present o e w ≡ (ok a, v)
    → (o ≡ some a) × (v ≡ w)
present-ok none e w h = absurd (cc)
present-ok (some x) e w h = (cc, cc)

pub fail_when-ok :
    (b : Bool) (e : AuthError) (w : World) {a : Unit {0}} {v : World}
    → fail_when b e w ≡ (ok a, v)
    → (b ≡ false) × (v ≡ w)
fail_when-ok true e w h = absurd (cc)
fail_when-ok false e w h = (refl, cc)

-- A step that succeeds is passed.
pub >>=-step :
    {A B : Type 0} (m : M A) (f : A → M B) (w : World) {a : A} {u : World}
    → m w ≡ (ok a, u)
    → (m >>= f) w ≡ f a u
>>=-step {A} {B} m f w e =
    ap (λ r. elim r.0 as (λ x. Result AuthError B × World) [ ok a ↦ f a r.1 | err e ↦ fail e r.1 ])
      e
