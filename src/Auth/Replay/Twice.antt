-- ===== src/Auth/Replay/Twice.antt =====
-- Two codes of the second factor that are accepted one after the other.
use structure.Prelude.{
  sym, ◌<◌, ◌==◌, ◌⊎◌, String, ℕ, Option, ok, some, false, ◌≡◌, ap, ◌∙◌, lookup, arith, Bool-cases,
  inl, inr, text_equality, ◌≢◌,
}
use structure.Auth.Model.{TotpRecord}
use structure.Auth.Store.{AuthState, scoped}
use structure.Auth.Factors.{find_totp, is_replay}
use structure.Auth.Ports.{Ports, World}
use structure.Auth.TwoFactor.{TotpPorts, confirmed_enrollment, verify}
use structure.Auth.Replay.{IsAccepted, verify-IsAccepted}

last_used :
    (tenant_id user_id : String) (s : AuthState) (used found : TotpRecord)
    → lookup (scoped tenant_id user_id) s.totp ≡ some used
    → confirmed_enrollment tenant_id user_id s ≡ some found
    → found.last_used_step ≡ used.last_used_step
unfolding confirmed_enrollment find_totp
last_used tenant_id user_id s used found there confirmed = ground arith

later_step :
    (last : Option ℕ) (step later : ℕ)
    → last ≡ some step
    → is_replay last later ≡ false
    → step < later
later_step last step later e fresh = ground arith

-- Of two codes, neither a recovery code, that verify accepts one after the other, the second with the
-- second factors as the first left them, at any instant and for any session: the second is of another
-- user, or it is the code of a later step than the first.
pub verify_once :
    (p : Ports) (t : TotpPorts) (tenant_id token code later_token later_code : String)
    (w v x y : World) (a b : Unit {0})
    → t.is_recovery_code code ≡ false
    → t.is_recovery_code later_code ≡ false
    → verify p t tenant_id token code w ≡ (ok a, v)
    → x.auth.totp ≡ v.auth.totp
    → verify p t tenant_id later_token later_code x ≡ (ok b, y)
    → (first : IsAccepted p t tenant_id token code w v.auth) × ((second : IsAccepted p t tenant_id
          later_token later_code x y.auth)
        × ((first.user.id ≢ second.user.id) ⊎ (first.step < second.step)))
verify_once p t tenant_id token code later_token later_code w v x y a b plain later_plain e same
      later_e =
    let first = verify-IsAccepted p t tenant_id token code w v a plain e in
    let second = verify-IsAccepted p t tenant_id later_token later_code x y b later_plain later_e in
    (
      first,
      (
        second,
        elim (Bool-cases (first.user.id == second.user.id)) [
          | inr apart ↦ inl (λ alike.
              absurd (ground (arith, text_equality.same_iff first.user.id second.user.id)))
          | inl alike ↦
              let one_user = (text_equality.same_iff first.user.id second.user.id).0 alike in
              inr (
                later_step second.enrollment.last_used_step first.step second.step
                  (last_used tenant_id second.user.id x.auth first.after.enrollment
                      second.enrollment
                      (ap (lookup (scoped tenant_id second.user.id)) same
                        ∙ ap (λ id. lookup (scoped tenant_id id) v.auth.totp) (sym one_user)
                        ∙ first.after.found)
                      second.enrolled
                    ∙ first.after.used)
                  second.fresh)
        ],
      ),
    )
