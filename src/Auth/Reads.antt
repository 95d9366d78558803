-- ===== src/Auth/Reads.antt =====
-- Calls that, where they succeed, leave the world as it is: what they have read of it.
use structure.Prelude.{
  ℕ, Bool, Option, Result, ok, err, some, none, true, false, ◌≡◌, refl, sym, subst, ap, ◌∙◌, ltb,
  text_equality,
}
use structure.Auth.Model.{AuthError}
use structure.Auth.Store.{AuthState}
use structure.Auth.Ports.{World, M, pure, lift, asks, takes, present, clock, fail_when, ◌>>=◌, ◌>>◌}
use structure.Auth.Inversion.{>>=-ok}
use structure.Auth.TwoFactor.{fail_locked, lockout_error}

-- From the world u, a call that succeeds ends in the world w.
pub record Reads (w u : World) {A : Type 0} (m : M A) (Q : A → Type 0) : Type 0 where
  pub reads : (a : A) (v : World) → m u ≡ (ok a, v) → (v ≡ w) × Q a

module _ (w : World) where
  module _ {A B : Type 0} {R : B → Type 0} where
    pub Reads-bind :
        {Q : A → Type 0} (m : M A) (f : A → M B)
        → Reads w w m Q
        → ((a : A) → Q a → Reads w w (f a) R)
        → Reads w w (m >>= f) R
    Reads-bind m f first rest = record {
      reads = λ b v e.
          let (a, u, begun, ended) = >>=-ok m f w e in
          let (same, q) = first.reads a u begun in
          (rest a q).reads b v (ap (f a) (sym same) ∙ ended);
    }

    pub Reads-lift :
        {u : World} (r : Result AuthError A) (f : A → M B)
        → ((a : A) → r ≡ ok a → Reads w u (f a) R)
        → Reads w u (lift r >>= f) R
    Reads-lift (ok x) f rest = record { reads = λ b v e. (rest x refl).reads b v e }
    Reads-lift (err x) f rest = record { reads = λ b v e. absurd (cc) }

    pub Reads-present :
        {u : World} (o : Option A) (x : AuthError) (f : A → M B)
        → ((a : A) → o ≡ some a → Reads w u (f a) R)
        → Reads w u (present o x >>= f) R
    Reads-present (some y) x f rest = record { reads = λ b v e. (rest y refl).reads b v e }
    Reads-present none x f rest = record { reads = λ b v e. absurd (cc) }

    pub Reads-asks :
        {u : World} (g : AuthState → A) (f : A → M B)
        → ((a : A) → g u.auth ≡ a → Reads w u (f a) R)
        → Reads w u (asks g >>= f) R
    Reads-asks {u} g f rest = record { reads = λ b v e. (rest (g u.auth) refl).reads b v e }

    pub Reads-takes :
        {u : World} (g : AuthState → A × AuthState) (f : A → M B)
        → ((a : A) (s : AuthState) → g u.auth ≡ (a, s) → Reads w (record u { auth = s }) (f a) R)
        → Reads w u (takes g >>= f) R
    Reads-takes {u} g f rest = record {
      reads = λ b v e. (rest (g u.auth).0 (g u.auth).1 refl).reads b v e;
    }

  module _ {B : Type 0} {R : B → Type 0} where
    pub Reads-clock :
        {u : World} (f : ℕ → M B)
        → ((now : ℕ) → u.now ≡ now → Reads w u (f now) R)
        → Reads w u (clock >>= f) R
    Reads-clock {u} f rest = record { reads = λ b v e. (rest u.now refl).reads b v e }

    pub Reads-pure : (b : B) → R b → Reads w w (pure b) R
    Reads-pure b h = record {
      reads = λ c v e.
          subst
            (λ (x : Result AuthError B × World).
              (x.1 ≡ w) × (elim x.0 as (λ _. Type 0) [ ok y ↦ R y | err _ ↦ Unit {0} ]))
            e (refl, h);
    }

    passes :
        {u : World} (locked : Bool) (x : AuthError) (k : M B)
        → Reads w u k R
        → Reads w u (fail_when locked x >> k) R
    passes true x k rest = record { reads = λ b v e. absurd (cc) }
    passes false x k rest = record { reads = λ b v e. rest.reads b v e }

    pub Reads-fail_locked :
        {u : World} (o : Option ℕ) (k : M B) → Reads w u k R → Reads w u (fail_locked o >> k) R
    Reads-fail_locked none k rest = record { reads = λ b v e. rest.reads b v e }
    Reads-fail_locked {u} (some until) k rest = record {
      reads = λ b v e. (passes (ltb u.now until) (lockout_error until u.now) k rest).reads b v e;
    }
