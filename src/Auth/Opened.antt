-- ===== src/Auth/Opened.antt =====
-- What openSession leaves: the store before it, with one session more.
use structure.Prelude.{
  String, ℕ, Bool, Option, Result, ok, some, none, ◌≡◌, refl, lookup, lookup-insert_self, insert,
  ap, ◌∙◌, ◌<◌, text_equality, arith, ◌+◌, if◌then◌else◌, subst, false,
}
use structure.Auth.Model.{AuthError, AuthUser, AuthSession, SessionRecord}
use structure.Auth.Store.{AuthState, scoped, create_session, find_session, find_user_by_id}
use structure.Auth.Ports.{Ports, TenantAuthConfig, World}
use structure.Auth.Keeps.{Keeps, keeps, clock-Keeps, random_token-Keeps}
use structure.Auth.Leads.{Leads, Leads-bind, Leads-skip, Leads-lift, Leads-tries, Leads-pure}
use structure.Auth.Sessions.{
  resolve_session, audit_user, config_for, limit, open_session, pending_second_factor,
  session_record, session_ttl,
}

module _ (P : AuthState → Type 0) (p : Ports) where
  pub config_for-Keeps : (tenant_id : String) → Keeps P (config_for p tenant_id)
  unfolding config_for
  config_for-Keeps tenant_id = search keeps

  pub limit-Keeps : (tenant_id action key : String) → Keeps P (limit p tenant_id action key)
  unfolding limit
  limit-Keeps tenant_id action key = search keeps

pub audit_user-Keeps :
    (P : AuthState → Type 0) (tenant_id action : String) (user_id : Option String)
    → Keeps P (audit_user tenant_id action user_id)
audit_user-Keeps P tenant_id action user_id = search keeps

-- What the second-factor hook said.
abbrev Asked :
    (AuthState → Type 0)
    → Option (AuthState → String → String → Result AuthError Bool)
    → String
    → String
    → Bool
    → AuthState
    → Type 0
Asked P hook tenant_id user_id pending s =
    P s
    × ((is_enrolled : AuthState → String → String → Result AuthError Bool)
        → hook ≡ some is_enrolled
        → is_enrolled s tenant_id user_id ≡ ok pending)

some_same {ℓ} : {A : Type ℓ} {a b : A} → some a ≡ some b → a ≡ b
some_same q = cc

pending-Asked :
    (P : AuthState → Type 0) (hook : Option (AuthState → String → String → Result AuthError Bool))
    (tenant_id user_id : String)
    → Leads P (pending_second_factor hook tenant_id user_id) (Asked P hook tenant_id user_id)
unfolding pending_second_factor
pending-Asked P none tenant_id user_id = Leads-pure false λ s h. (h, λ f e. absurd (cc))
pending-Asked P (some is_enrolled) tenant_id user_id = record {
  leads = λ w b v h e.
      let same : w ≡ v = cc in
      let said : is_enrolled w.auth tenant_id user_id ≡ ok b = cc in
      subst (λ (x : World). Asked P (some is_enrolled) tenant_id user_id b x.auth) same
        (h, λ f q. subst (λ g. g w.auth tenant_id user_id ≡ ok b) (some_same q) said);
}

-- The session that a call answered with stands in the store, under the hash of its token, and is all
-- that was added to a store with P.
pub record Opened (p : Ports) (tenant_id : String) (user : AuthUser) (config : TenantAuthConfig)
    (P : AuthState → Type 0) (session : AuthSession) (s : AuthState) : Type 0 where
  pub hash : String
  pub id : String
  pub now : ℕ
  pub pending : Bool
  pub before : AuthState
  pub hashed : p.hash_token session.token ≡ ok hash
  pub holder : session.user ≡ user
  pub lasts : session.expires_at ≡ now + session_ttl config
  pub earlier : P before
  pub fresh : lookup (scoped tenant_id hash) before.sessions ≡ none
  pub factor :
      (is_enrolled : AuthState → String → String → Result AuthError Bool)
      → p.second_factor ≡ some is_enrolled
      → is_enrolled before tenant_id user.id ≡ ok pending
  pub after : s ≡ record before {
    sessions =
        insert
          (scoped tenant_id hash)
          (session_record tenant_id user id hash now (session_ttl config) pending)
          before.sessions;
  }

create_session-ok :
    (session : SessionRecord) (before after : AuthState)
    → create_session session before ≡ (ok tt, after)
    → (lookup (scoped session.tenant_id session.token_hash) before.sessions ≡ none)
      × (after ≡ record before {
        sessions = insert (scoped session.tenant_id session.token_hash) session before.sessions;
      })
unfolding create_session
create_session-ok session before after h = ground arith

module _ (p : Ports) (tenant_id : String) (user : AuthUser) (config : TenantAuthConfig)
    {P : AuthState → Type 0} where
  pub open_session-Opened :
      Leads P (open_session p tenant_id user config) (Opened p tenant_id user config P)
  unfolding open_session
  open_session-Opened = Leads-skip _ _ (random_token-Keeps P p 32) λ raw.
      Leads-lift (p.hash_token raw) _ λ hash hashed. Leads-skip _ _ (clock-Keeps P) λ now.
        Leads-bind _ _ (pending-Asked P p.second_factor tenant_id user.id) λ pending.
          Leads-skip _ _
            (random_token-Keeps (Asked P p.second_factor tenant_id user.id pending) p 18)
            λ id. Leads-tries _ _ λ done. Leads-pure _ λ s h.
              let (before, (earlier, factor), created) = h in
              let made =
                create_session-ok
                  (session_record tenant_id user id hash now (session_ttl config) pending) before s
                  created in
              record {
                hash = hash;
                id = id;
                now = now;
                pending = pending;
                before = before;
                hashed = hashed;
                holder = refl;
                lasts = refl;
                earlier = earlier;
                factor = factor;
                fresh = made.0;
                after = made.1;
              }

find_session-live :
    (tenant_id hash : String) (now : ℕ) (s : AuthState) (session : SessionRecord)
    → lookup (scoped tenant_id hash) s.sessions ≡ some session
    → now < session.expires_at
    → find_session tenant_id hash now s ≡ (some session, s)
unfolding find_session
find_session-live tenant_id hash now s session found soon = ground arith

module _ (p : Ports) (tenant_id : String) (user : AuthUser) (config : TenantAuthConfig)
    (P : AuthState → Type 0) (session : AuthSession) (w : World)
    (opened : Opened p tenant_id user config P session w.auth)
    (known : find_user_by_id tenant_id user.id w.auth ≡ some user)
    (soon : w.now < session.expires_at) where
  opened-found :
      lookup (scoped tenant_id opened.hash) w.auth.sessions
      ≡ some (
          session_record tenant_id user opened.id opened.hash opened.now
            (session_ttl config)
            opened.pending)
  opened-found =
      ap (λ s. lookup (scoped tenant_id opened.hash) s.sessions) opened.after
      ∙ lookup-insert_self (scoped tenant_id opened.hash) _ opened.before.sessions

  -- The session that openSession answered with is resolved by its token until it expires, elevated at
  -- its birth unless the second factor was pending.
  pub resolve_session-opened : resolve_session p tenant_id session.token w ≡ (
    ok (record {
      session = session;
      elevated_at = if opened.pending then none else some opened.now;
    }),
    w,
  )
  unfolding resolve_session
  resolve_session-opened =
      let alive =
        find_session-live tenant_id opened.hash w.now w.auth _ opened-found
          (subst (λ x. w.now < x) opened.lasts soon) in
      let holder = opened.holder in
      let lasts = opened.lasts in rw (opened.hashed, alive, known) (ground arith)
