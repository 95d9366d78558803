-- ===== src/Auth/Used.antt =====
-- The last step that was used, and what calls of packages/auth/src/twofactor.ts leave of it.
use structure.Prelude.{
  String, ℕ, some, none, ◌≡◌, lookup, lookup-insert_self, inl, inr, Option-cases, text_equality,
}
use structure.Auth.Model.{TotpRecord}
use structure.Auth.Store.{AuthState, scoped, elevate_session}
use structure.Auth.Factors.{replace_totp_secret, reset_totp_failures}
use structure.Auth.Ports.{Ports}
use structure.Auth.Keeps.{Keeps, keeps}
use structure.Auth.TwoFactor.{TotpPorts, accept, seal_legacy_secret, elevate}

-- The user's enrollment has this step as the last that was used.
pub record IsUsed (tenant_id user_id : String) (step : ℕ) (s : AuthState) : Type 0 where
  pub enrollment : TotpRecord
  pub found : lookup (scoped tenant_id user_id) s.totp ≡ some enrollment
  pub used : enrollment.last_used_step ≡ some step

module _ (tenant_id user_id : String) (step : ℕ) where
  replace_totp_secret-IsUsed :
      (secret : String) (s : AuthState)
      → IsUsed tenant_id user_id step s
      → IsUsed tenant_id user_id step (replace_totp_secret tenant_id user_id secret s)
  unfolding replace_totp_secret
  replace_totp_secret-IsUsed secret s h =
      let changed : TotpRecord = record h.enrollment { secret_base32 = secret } in
      rw (h.found, replace_totp_secret)
        (record {
          enrollment = changed;
          found = lookup-insert_self (scoped tenant_id user_id) changed s.totp;
          used = h.used;
        })

  reset_totp_failures-IsUsed :
      (s : AuthState)
      → IsUsed tenant_id user_id step s
      → IsUsed tenant_id user_id step (reset_totp_failures tenant_id user_id s)
  unfolding reset_totp_failures
  reset_totp_failures-IsUsed s h =
      let changed : TotpRecord = record h.enrollment { failed_attempts = 0; locked_until = none } in
      rw (h.found, reset_totp_failures)
        (record {
          enrollment = changed;
          found = lookup-insert_self (scoped tenant_id user_id) changed s.totp;
          used = h.used;
        })

  elevate_session-IsUsed :
      (hash : String) (now : ℕ) (s : AuthState)
      → IsUsed tenant_id user_id step s
      → IsUsed tenant_id user_id step (elevate_session tenant_id hash now s)
  unfolding elevate_session
  elevate_session-IsUsed hash now s h =
      elim (Option-cases (lookup (scoped tenant_id hash) s.sessions)) [
        | inl missing ↦ rw (missing, elevate_session) h
        | inr (session, found) ↦
            rw (found, elevate_session)
              (record { enrollment = h.enrollment; found = h.found; used = h.used })
      ]

  module _ (p : Ports) (t : TotpPorts) where
    seal_legacy_secret-IsUsed :
        (held : String)
        → Keeps (IsUsed tenant_id user_id step) (seal_legacy_secret p t tenant_id user_id held)
    unfolding seal_legacy_secret
    seal_legacy_secret-IsUsed held = search (keeps, replace_totp_secret-IsUsed)

    elevate-IsUsed :
        (token : String)
        → Keeps (IsUsed tenant_id user_id step) (elevate p t tenant_id token user_id)
    unfolding elevate
    elevate-IsUsed token = search (keeps, elevate_session-IsUsed) depth 20

    pub accept-IsUsed :
        (token : String) (enrollment : TotpRecord)
        → Keeps (IsUsed tenant_id user_id step) (accept p t tenant_id token enrollment user_id)
    unfolding accept
    accept-IsUsed token enrollment =
        search (keeps, seal_legacy_secret-IsUsed, reset_totp_failures-IsUsed, elevate-IsUsed) depth
          20
