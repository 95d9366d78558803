-- ===== src/Auth/Profile.antt =====
-- validateOAuthProfile of packages/auth/src/service.ts.
use structure.Prelude.{
  String, Bool, Option, Result, ok, err, some, none, false, if◌then◌else◌, ◌==◌, ◌&&◌, ◌||◌, not,
  trim, utf16_length, some_char, is_some, text_equality, ltb, nat_same, option_equality,
}
use structure.Auth.Model.{AuthError, dependency_error}
use structure.Auth.Config.{normalize_email}

pub record OauthProfile : Type 0 where
  pub subject : String
  pub email : Option String
  pub email_verified : Bool
  pub display_name : Option String

abbrev bad_profile : String → AuthError
bad_profile operation = dependency_error "oauth-provider" operation

abbrev has_nul : String → Bool
has_nul text = some_char (λ c. nat_same c 0) text

unfoldable pub profile_email : (String → String) → Option String → Result AuthError (Option String)
profile_email lower_case none = ok none
profile_email lower_case (some email) = elim (normalize_email lower_case email) [
  | ok normal ↦ ok (some normal)
  | err e ↦ err (bad_profile "validate-profile-email")
]

abbrev bad_display_name : Option String → Bool
bad_display_name none = false
bad_display_name (some name) = ltb 512 (utf16_length name) || has_nul name

-- Rejects a profile, or answers it with its address normalised.
unfoldable pub validate_oauth_profile :
    (String → String) → OauthProfile → Result AuthError OauthProfile
validate_oauth_profile lower_case profile =
    if profile.subject == ""
      || ltb 1024 (utf16_length profile.subject)
      || not (trim profile.subject == profile.subject)
      || has_nul profile.subject
    then err (bad_profile "validate-profile-subject")
    else elim (profile_email lower_case profile.email) [
      | err e ↦ err e
      | ok email ↦
          if bad_display_name profile.display_name
          then err (bad_profile "validate-profile-display-name")
          else ok (record {
            subject = profile.subject;
            email = email;
            email_verified = is_some email && profile.email_verified;
            display_name = profile.display_name;
          })
    ]
