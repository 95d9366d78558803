-- ===== src/Auth/Keeps.antt =====
-- Calls that keep a property of the store, whatever they answer.
use structure.Prelude.{
  String, ℕ, Bool, Option, [], ◌∷◌, Result, ok, err, some, none, true, false, if◌then◌else◌, ◌++◌,
  ◌≡◌, subst, refl, sym,
}
use structure.Auth.Model.{AuthError}
use structure.Auth.Store.{AuthState, Reply}
use structure.Auth.Ports.{
  Ports, Limiter, inspect, World, M, pure, fail, lift, asks, takes, tries, writes, present, clock,
  fail_when, ◌>>=◌, record_audit, AuthAuditEvent, AuthEmail, RateLimitRequest, hash_token,
  random_token, charge, deliver,
}

pub record Keeps (P : AuthState → Type 0) {A : Type 0} (m : M A) : Type 0 where
  pub keep : (w : World) → P w.auth → P (m w).1.auth

module _ (P : AuthState → Type 0) where
  pub pure-Keeps : {A : Type 0} (a : A) → Keeps P (pure a)
  pure-Keeps a = record { keep = λ w h. h }

  pub fail-Keeps : {A : Type 0} (e : AuthError) → Keeps P (fail {A = A} e)
  fail-Keeps e = record { keep = λ w h. h }

  pub lift-Keeps : {A : Type 0} (r : Result AuthError A) → Keeps P (lift r)
  lift-Keeps r = record { keep = λ w h. h }

  pub asks-Keeps : {A : Type 0} (f : AuthState → A) → Keeps P (asks f)
  asks-Keeps f = record { keep = λ w h. h }

  pub clock-Keeps : Keeps P clock
  clock-Keeps = record { keep = λ w h. h }

  pub present-Keeps : {A : Type 0} (o : Option A) (e : AuthError) → Keeps P (present o e)
  present-Keeps none e = record { keep = λ w h. h }
  present-Keeps (some a) e = record { keep = λ w h. h }

  pub fail_when-Keeps : (b : Bool) (e : AuthError) → Keeps P (fail_when b e)
  fail_when-Keeps true e = record { keep = λ w h. h }
  fail_when-Keeps false e = record { keep = λ w h. h }

  pub record_audit-Keeps : (event : AuthAuditEvent) → Keeps P (record_audit event)
  record_audit-Keeps event = record { keep = λ w h. h }

  pub takes-Keeps :
      {A : Type 0} (f : AuthState → A × AuthState)
      → ((s : AuthState) → P s → P (f s).1)
      → Keeps P (takes f)
  takes-Keeps f h = record { keep = λ w p. h w.auth p }

  pub tries-Keeps :
      {A : Type 0} (f : AuthState → Reply A)
      → ((s : AuthState) → P s → P (f s).1)
      → Keeps P (tries f)
  tries-Keeps f h = record { keep = λ w p. h w.auth p }

  pub writes-Keeps :
      (f : AuthState → AuthState) → ((s : AuthState) → P s → P (f s)) → Keeps P (writes f)
  writes-Keeps f h = record { keep = λ w p. h w.auth p }

  pub if-Keeps :
      {A : Type 0} (b : Bool) (m n : M A) → Keeps P m → Keeps P n → Keeps P (if b then m else n)
  if-Keeps true m n h k = h
  if-Keeps false m n h k = k

  keep_after :
      {A B : Type 0} (r : Result AuthError A) (f : A → M B) (w : World)
      → ((a : A) → Keeps P (f a))
      → P w.auth
      → P (elim r as (λ _. Result AuthError B × World) [ ok a ↦ f a w | err e ↦ fail e w ]).1.auth
  keep_after (ok a) f w h p = (h a).keep w p
  keep_after (err e) f w h p = p

  pub >>=-Keeps :
      {A B : Type 0} (m : M A) (f : A → M B)
      → Keeps P m
      → ((a : A) → Keeps P (f a))
      → Keeps P (m >>= f)
  >>=-Keeps m f h k = record { keep = λ w p. keep_after (m w).0 f (m w).1 k (h.keep w p) }

  inspect_keep :
      (o : Option AuthError) (w : World)
      → P w.auth
      → P
          (elim o as (λ _. Result AuthError (Unit {0}) × World) [
            | none ↦ (ok tt, w)
            | some e ↦ (err e, w)
          ]).1.auth
  inspect_keep none w h = h
  inspect_keep (some e) w h = h

  pub inspect-Keeps :
      (limiter : Limiter) (request : RateLimitRequest) → Keeps P (inspect limiter request)
  inspect-Keeps limiter request = record {
    keep = λ w h. inspect_keep (limiter w.charged request) w h;
  }

  module _ (p : Ports) where
    pub hash_token-Keeps : (token : String) → Keeps P (hash_token p token)
    hash_token-Keeps token = record { keep = λ w h. h }

    pub random_token-Keeps : (n : ℕ) → Keeps P (random_token p n)
    random_token-Keeps n = record { keep = λ w h. h }

    charge_keep :
        (o : Option AuthError) (w v : World)
        → v.auth ≡ w.auth
        → P w.auth
        → P
            (elim o as (λ _. Result AuthError (Unit {0}) × World) [
              | none ↦ (ok tt, v)
              | some e ↦ (err e, v)
            ]).1.auth
    charge_keep none w v e h = subst P (sym e) h
    charge_keep (some x) w v e h = subst P (sym e) h

    pub charge-Keeps : (request : RateLimitRequest) → Keeps P (charge p request)
    charge-Keeps request = record {
      keep = λ w h.
          charge_keep (p.check w.charged request) w
            (record w { charged = w.charged ++ request ∷ [] }) refl h;
    }

    deliver_keep :
        (o : Option AuthError) (w v : World)
        → v.auth ≡ w.auth
        → P w.auth
        → P
            (elim o as (λ _. Result AuthError (Unit {0}) × World) [
              | none ↦ (ok tt, v)
              | some e ↦ (err e, w)
            ]).1.auth
    deliver_keep none w v e h = subst P (sym e) h
    deliver_keep (some x) w v e h = h

    pub deliver-Keeps : (email : AuthEmail) → Keeps P (deliver p email)
    deliver-Keeps email = record {
      keep =
          λ w h. deliver_keep (p.send email) w (record w { mails = w.mails ++ email ∷ [] }) refl h;
    }

pub ruleset keeps = (
  pure-Keeps, fail-Keeps, lift-Keeps, asks-Keeps, clock-Keeps, present-Keeps, fail_when-Keeps,
  record_audit-Keeps, takes-Keeps, tries-Keeps, writes-Keeps, if-Keeps, >>=-Keeps, hash_token-Keeps,
  random_token-Keeps, charge-Keeps, deliver-Keeps, inspect-Keeps,
)
