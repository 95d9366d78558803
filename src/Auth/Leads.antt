-- ===== src/Auth/Leads.antt =====
-- What holds of the store after a call that succeeds.
use structure.Prelude.{
  Bool, Option, Result, ok, err, some, none, true, false, if◌then◌else◌, ◌≡◌, refl, sym, subst, ap,
}
use structure.Auth.Model.{AuthError}
use structure.Auth.Store.{AuthState, Reply}
use structure.Auth.Ports.{
  World, M, pure, fail, lift, asks, takes, tries, writes, present, fail_when, ◌>>=◌, ◌>>◌,
}
use structure.Auth.Keeps.{Keeps}
use structure.Auth.Inversion.{>>=-ok}

pub record Leads (P : AuthState → Type 0) {A : Type 0} (m : M A) (Q : A → AuthState → Type 0)
    : Type 0 where
  pub leads : (w : World) (a : A) (v : World) → P w.auth → m w ≡ (ok a, v) → Q a v.auth

module _ {A B : Type 0} {P : AuthState → Type 0} {R : B → AuthState → Type 0} where
  pub Leads-skip :
      (m : M A) (f : A → M B) → Keeps P m → ((a : A) → Leads P (f a) R) → Leads P (m >>= f) R
  Leads-skip m f kept rest = record {
    leads = λ w b v h e.
        let (a, u, first, then_) = >>=-ok m f w e in
        (rest a).leads u b v
          (subst (λ (x : Result AuthError A × World). P x.1.auth) first (kept.keep w h)) then_;
  }

  pub Leads-bind :
      {Q : A → AuthState → Type 0} (m : M A) (f : A → M B)
      → Leads P m Q
      → ((a : A) → Leads (Q a) (f a) R)
      → Leads P (m >>= f) R
  Leads-bind m f first rest = record {
    leads = λ w b v h e.
        let (a, u, begun, ended) = >>=-ok m f w e in
        (rest a).leads u b v (first.leads w a u h begun) ended;
  }

  pub Leads-lift :
      (r : Result AuthError A) (f : A → M B)
      → ((a : A) → r ≡ ok a → Leads P (f a) R)
      → Leads P (lift r >>= f) R
  Leads-lift (ok x) f rest = record { leads = λ w b v h e. (rest x refl).leads w b v h e }
  Leads-lift (err x) f rest = record { leads = λ w b v h e. absurd (cc) }

  pub Leads-present :
      (o : Option A) (x : AuthError) (f : A → M B)
      → ((a : A) → o ≡ some a → Leads P (f a) R)
      → Leads P (present o x >>= f) R
  Leads-present (some y) x f rest = record { leads = λ w b v h e. (rest y refl).leads w b v h e }
  Leads-present none x f rest = record { leads = λ w b v h e. absurd (cc) }

  pub Leads-asks :
      (g : AuthState → A) (f : A → M B)
      → ((a : A) → Leads (λ s. P s × (g s ≡ a)) (f a) R)
      → Leads P (asks g >>= f) R
  Leads-asks g f rest = record { leads = λ w b v h e. (rest (g w.auth)).leads w b v (h, refl) e }

  pub Leads-takes :
      (g : AuthState → A × AuthState) (f : A → M B)
      → ((a : A) → Leads (λ s. (before : AuthState) × P before × (g before ≡ (a, s))) (f a) R)
      → Leads P (takes g >>= f) R
  Leads-takes g f rest = record {
    leads = λ w b v h e.
        (rest (g w.auth).0).leads (record w { auth = (g w.auth).1 }) b v (w.auth, h, refl) e;
  }

  tries_leads :
      (g : AuthState → Reply A) (f : A → M B) (w : World) (r : Result AuthError A)
      → ((a : A) → Leads (λ s. (before : AuthState) × P before × (g before ≡ (ok a, s))) (f a) R)
      → (b : B) (v : World) → P w.auth
      → (g w.auth).0 ≡ r
      → (elim r as (λ x. Result AuthError B × World) [
        | ok a ↦ f a (record w { auth = (g w.auth).1 })
        | err e ↦ fail e (record w { auth = (g w.auth).1 })
      ])
        ≡ (ok b, v)
      → R b v.auth
  tries_leads g f w (ok a) rest b v h e k =
      (rest a).leads (record w { auth = (g w.auth).1 }) b v
        (w.auth, h, ap (λ x. (x, (g w.auth).1)) e) k
  tries_leads g f w (err x) rest b v h e k = absurd (cc)

  pub Leads-tries :
      (g : AuthState → Reply A) (f : A → M B)
      → ((a : A) → Leads (λ s. (before : AuthState) × P before × (g before ≡ (ok a, s))) (f a) R)
      → Leads P (tries g >>= f) R
  Leads-tries g f rest = record {
    leads = λ w b v h e. tries_leads g f w (g w.auth).0 rest b v h refl e;
  }

module _ {B : Type 0} {P : AuthState → Type 0} {R : B → AuthState → Type 0} where
  pub Leads-then : (m : M (Unit {0})) (k : M B) → Keeps P m → Leads P k R → Leads P (m >> k) R
  Leads-then m k kept rest = Leads-skip m (λ _. k) kept (λ _. rest)

  pub Leads-check :
      (r : Result AuthError (Unit {0})) (k : M B)
      → (r ≡ ok tt → Leads P k R)
      → Leads P (lift r >> k) R
  Leads-check (ok x) k rest = record { leads = λ w b v h e. (rest refl).leads w b v h e }
  Leads-check (err x) k rest = record { leads = λ w b v h e. absurd (cc) }

  pub Leads-writes :
      (g : AuthState → AuthState) (k : M B)
      → Leads (λ s. (before : AuthState) × P before × (g before ≡ s)) k R
      → Leads P (writes g >> k) R
  Leads-writes g k rest = record {
    leads = λ w b v h e. rest.leads (record w { auth = g w.auth }) b v (w.auth, h, refl) e;
  }

  pub Leads-fail_when :
      (c : Bool) (x : AuthError) (k : M B)
      → (c ≡ false → Leads P k R)
      → Leads P (fail_when c x >> k) R
  Leads-fail_when true x k rest = record { leads = λ w b v h e. absurd (cc) }
  Leads-fail_when false x k rest = record { leads = λ w b v h e. (rest refl).leads w b v h e }

  pub Leads-if :
      (c : Bool) (m n : M B)
      → (c ≡ true → Leads P m R)
      → (c ≡ false → Leads P n R)
      → Leads P (if c then m else n) R
  Leads-if true m n h k = h refl
  Leads-if false m n h k = k refl

  pub Leads-pure : (b : B) → ((s : AuthState) → P s → R b s) → Leads P (pure b) R
  Leads-pure b h = record {
    leads = λ w c v p e.
        subst
          (λ (x : Result AuthError B × World). elim x.0 as (λ _. Type 0) [
            | ok y ↦ R y x.1.auth
            | err _ ↦ Unit {0}
          ])
          e (h w.auth p);
  }

  pub Leads-fail : (x : AuthError) → Leads P (fail x) R
  Leads-fail x = record { leads = λ w c v p e. absurd (cc) }

pub Leads-present_last :
    {A : Type 0} {P : AuthState → Type 0} {R : A → AuthState → Type 0} (o : Option A)
    (x : AuthError)
    → ((a : A) → o ≡ some a → (s : AuthState) → P s → R a s)
    → Leads P (present o x) R
Leads-present_last {A} {P} {R} (some y) x h = Leads-pure y (h y refl)
Leads-present_last none x h = Leads-fail x

-- A read of a store that is known.
pub Leads-asks_at :
    {A B : Type 0} {R : B → AuthState → Type 0} (start : AuthState) (g : AuthState → A)
    (f : A → M B)
    → ((a : A) → g start ≡ a → Leads (λ s. s ≡ start) (f a) R)
    → Leads (λ s. s ≡ start) (asks g >>= f) R
Leads-asks_at start g f rest = record {
  leads = λ w b v h e. (rest (g w.auth) (ap g (sym h))).leads w b v h e;
}

pub Leads-weaken :
    {A : Type 0} {P Q : AuthState → Type 0} {R : A → AuthState → Type 0} (m : M A)
    → ((s : AuthState) → P s → Q s)
    → Leads Q m R
    → Leads P m R
Leads-weaken m weaker rest = record { leads = λ w a v h e. rest.leads w a v (weaker w.auth h) e }
