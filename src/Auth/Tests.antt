-- ===== src/Auth/Tests.antt =====
-- Runs of the authentication service, and instances of its theorems at concrete inputs.
-- Opens what the runs below compute.
use structure.Prelude.{
  is_white, utf16_length, trim_start, trim_end, trim, some_char, split_at, in_front, split_on,
  until_char, strip_suffix, decimal, lookup, insert, delete, String, ℕ, some, none, ok, err, true,
  false, ◌≡◌, refl, ◌==◌, text_equality, if◌then◌else◌, List, [], ◌∷◌, ◌/◌, suc, zero, is_some,
  arith, ◌++◌, length, ◌≢◌, filter, ◌⊎◌, ◌≤◌, ◌<◌,
}
use structure.Auth.Store.{
  scoped, token_key, oauth_key, email_taken, assert_user_unique, insert_user, create_password_user,
  create_oauth_user, create_magic_link_user, find_user_by_id, find_user_by_email, find_password,
  set_email_verified, revoke_user_sessions, rehash, replace_password, put_one_time_token,
  consume_one_time_token, create_session, find_session, revoke_session, elevate_session, new_state,
}
use structure.Auth.Factors.{
  put_totp_secret, find_totp, confirm_totp, replace_totp_secret, reset_totp_failures,
  mark_totp_step_used, record_totp_failure,
}
use structure.Auth.Config.{
  normalize_email, validate_password, is_local_hostname, cookie_name_char, slot_pattern, valid_slot,
  check_origins, check_passkey, cookie_name_ok, validate_tenant_config,
}
use structure.Auth.Sessions.{
  pending_second_factor, config_for, limit, peek_wall, wall_before, wall_on_failure, open_session,
  issue_email_token, consume_token, resolve_session, get_session, require_elevated_session,
  sign_out, revoke_all_sessions,
}
use structure.Auth.Password.{
  register_password, verify_email, admit_user, check_credential, sign_in_password,
  request_password_reset, resume, finish_reset, apply_reset, reset_password, RegisterPasswordInput,
}
use structure.Auth.TwoFactor.{
  confirmed_enrollment, seal_legacy_secret, session_user, begin_enrollment, confirm_enrollment,
  elevate, claim_step, accept, open_enrollment, after_step, settle_verify, verify, is_enrolled,
  TotpPorts, reject_code, report_failure, claim_recovery, after_recovery,
}
use structure.Auth.Cookie.{
  slot_cookie_name, strip_prefix, slot_of, is_slot_cookie, join_segments,
  length_without_slot_cookies, token_in, too_long, read_cookie, slot_cookies, slot_cookies_of,
  details, attributes, pair, session_cookie, session_token_from_cookie, named_cookie,
}
use structure.Auth.Ports.{Url, TenantAuthConfig, Ports, World}
use structure.Auth.Oauth.{OauthPorts}
use structure.Auth.Passkey.{PasskeyPorts}
use structure.Auth.Model.{
  AuthUser, AuthSession, invalid_credentials, unsupported_passkey, password_reset,
  second_factor_required,
}
use structure.Auth.SignIn.{IsSignedIn, sign_in_password-IsSignedIn}
use structure.Auth.Reach.{
  Reach, is_token_for, found_by_address, token_single, called, Reach-IsSound, Call, begin, serve,
  waited,
}
use structure.Auth.Invariant.{IsSound}
use structure.Auth.Reset.{reset_password-IsReset}
use structure.Auth.Spent.{IsReset}
use structure.Auth.Waiting.{get_session-signed_in, require_elevated-signed_in}
use structure.Auth.Replay.{IsAccepted, verify-IsAccepted}
use structure.Auth.Replay.Twice.{verify_once}
use structure.Auth.Cookie.RoundTrip.{first_value, header_of, read_cookie-header}
use structure.Auth.Cookie.Session.{stored, cookie_round_trip}
use structure.Auth.Totp.{base32_decode, base32_encode}
use structure.Auth.Totp.RoundTrip.{base32_round_trip}

run : Unit {0}
unfolding is_white utf16_length trim_start trim_end trim some_char split_at in_front split_on
    until_char strip_suffix decimal lookup insert delete scoped token_key oauth_key email_taken
    assert_user_unique insert_user create_password_user create_oauth_user create_magic_link_user
    find_user_by_id find_user_by_email find_password set_email_verified revoke_user_sessions rehash
    replace_password put_one_time_token consume_one_time_token create_session find_session
    revoke_session elevate_session put_totp_secret find_totp confirm_totp replace_totp_secret
    reset_totp_failures mark_totp_step_used normalize_email validate_password is_local_hostname
    cookie_name_char slot_pattern valid_slot check_origins check_passkey cookie_name_ok
    validate_tenant_config pending_second_factor config_for limit peek_wall wall_before
    wall_on_failure open_session issue_email_token consume_token resolve_session get_session
    require_elevated_session sign_out revoke_all_sessions register_password verify_email admit_user
    check_credential sign_in_password request_password_reset resume finish_reset apply_reset
    reset_password confirmed_enrollment seal_legacy_secret session_user begin_enrollment
    confirm_enrollment elevate claim_step accept open_enrollment after_step settle_verify verify
    is_enrolled slot_cookie_name strip_prefix slot_of is_slot_cookie join_segments
    length_without_slot_cookies token_in too_long read_cookie slot_cookies slot_cookies_of details
    attributes pair session_cookie session_token_from_cookie
run = tt

abbrev base : Url
base = record {
  protocol = "https:";
  hostname = "app.test";
  origin = "https://app.test";
  username = "";
  password = "";
}

abbrev config : TenantAuthConfig
config = record {
  base_url = base;
  email_verification_link = none;
  magic_link_link = none;
  password_reset_link = none;
  min_length = none;
  max_length = none;
  session_ttl_millis = none;
  cookie_name = none;
  cookie_domain = none;
  cookie_path = none;
  cookie_same_site = none;
  email_verification_ttl_millis = none;
  magic_link_ttl_millis = none;
  password_reset_ttl_millis = none;
  oauth_state_ttl_millis = none;
  passkey_challenge_ttl_millis = none;
  passkey = none;
}

-- The n-th token is a text of that many marks and one.
abbrev drawn_text : ℕ → String
drawn_text zero = "x"
drawn_text (suc n) = String.◌∷◌ "x" (drawn_text n)

abbrev ports : Ports
ports = record {
  resolve_tenant = λ tenant_id. ok config;
  parse_url = λ text. none;
  hash_token = λ token. ok (String.◌∷◌ "#" token);
  random_token = λ n byte_length. drawn_text n;
  hash_password = λ password. ok (String.◌∷◌ "!" password);
  verify_password = λ password hash. ok (hash == String.◌∷◌ "!" password);
  lower_case = λ text. text;
  token_url = λ path url token. token;
  send = λ email. none;
  check = λ charged request. none;
  peek = none;
  second_factor = some is_enrolled;
}

abbrev oauth_ports : OauthPorts
oauth_ports = record {
  resolve = λ tenant_id provider settings. ok none;
  exchange = λ provider code verifier uri. err (invalid_credentials "exchange");
  authorize = λ request. ok false;
  allow = none;
  challenge = λ verifier. ok verifier;
  resolve_url = λ text url. none;
  encode_component = λ text. text;
  set_params = λ text params. text;
}

abbrev passkey_ports : PasskeyPorts
passkey_ports = record {
  challenge_of = λ text. ok text;
  verify_registration = λ settings response. err (unsupported_passkey "none");
  verify_authentication = λ settings passkey response. err (unsupported_passkey "none");
}

abbrev totp_ports : TotpPorts
totp_ports = record {
  threshold = 5;
  cooldown = 300000;
  is_sealed = λ secret. true;
  seal = λ secret. ok secret;
  unseal = λ secret. ok secret;
  hash_code = λ code. ok code;
  match_entry = λ code entry. ok (code == entry);
  match_code = λ secret code now. ok (if code == "123456" then some (now / 30000) else none);
  is_recovery_code = λ code. code == "recovery";
  new_secret = drawn_text;
  new_codes = λ n. [];
  qr_payload = λ secret account issuer. secret;
}

abbrev empty_world : World
empty_world = record {
  auth = new_state;
  now = 60000;
  drawn = 0;
  charged = [];
  mails = [];
  audited = [];
}

abbrev ada : RegisterPasswordInput
ada = record {
  tenant_id = "t";
  email = "ada@lab.org";
  password = "correct horse";
  display_name = none;
}

abbrev registered : World
registered = (register_password ports ada empty_world).1

abbrev verified : World
verified = (verify_email ports "t" "xx" registered).1

abbrev ada_user : AuthUser
ada_user = record {
  id = "x";
  tenant_id = "t";
  email = some "ada@lab.org";
  email_verified = true;
  display_name = none;
  created_at = 60000;
  updated_at = 60000;
}

abbrev session : AuthSession
session = record { token = "xxx"; user = ada_user; expires_at = 2592060000 }

signed_in :
    sign_in_password ports "t" "ada@lab.org" "correct horse" none verified
    ≡ (ok session, (sign_in_password ports "t" "ada@lab.org" "correct horse" none verified).1)
unfolding run
signed_in = refl

abbrev after_sign_in : World
after_sign_in = (sign_in_password ports "t" "ada@lab.org" "correct horse" none verified).1

sign_in_password-IsSignedIn_example :
    IsSignedIn ports "t" "ada@lab.org" "correct horse" verified.auth session after_sign_in.auth
sign_in_password-IsSignedIn_example =
    sign_in_password-IsSignedIn ports "t" "ada@lab.org" "correct horse" none verified after_sign_in
      session signed_in

verified_reached : Reach ports oauth_ports passkey_ports totp_ports verified
unfolding run serve
verified_reached =
    called (Call.verify_email "t" "xx")
      (called (Call.register_password ada) (begin empty_world refl))

verified-IsSound : IsSound verified.auth
verified-IsSound = Reach-IsSound ports oauth_ports passkey_ports totp_ports verified_reached

stored_user : lookup (scoped "t" "x") verified.auth.users ≡ some ada_user
unfolding run
stored_user = refl

found_by_address_example : find_user_by_email "t" "ada@lab.org" verified.auth ≡ some ada_user
found_by_address_example =
    found_by_address ports oauth_ports passkey_ports totp_ports verified_reached (scoped "t" "x")
      ada_user "ada@lab.org" stored_user refl

-- A reset of the password is asked for twice; one token is left.
abbrev asked_twice : World
asked_twice =
    (request_password_reset ports "t" "ada@lab.org"
      (request_password_reset ports "t" "ada@lab.org" verified).1).1

asked_twice_reached : Reach ports oauth_ports passkey_ports totp_ports asked_twice
unfolding run serve
asked_twice_reached =
    called (Call.request_password_reset "t" "ada@lab.org")
      (called (Call.request_password_reset "t" "ada@lab.org") verified_reached)

token_single_example :
    length (filter (λ e. is_token_for "t" password_reset "ada@lab.org" e.1) asked_twice.auth.tokens)
    ≤ 1
token_single_example =
    token_single ports oauth_ports passkey_ports totp_ports asked_twice_reached "t" password_reset
      "ada@lab.org"

one_is_left :
    length (filter (λ e. is_token_for "t" password_reset "ada@lab.org" e.1) asked_twice.auth.tokens)
    ≡ 1
unfolding run
one_is_left = refl

abbrev reset_world : World
reset_world = (reset_password ports "t" "xxxx" "battery staple" asked_twice).1

abbrev reset_session : AuthSession
reset_session = record { token = "xxxxx"; user = ada_user; expires_at = 2592060000 }

was_reset :
    reset_password ports "t" "xxxx" "battery staple" asked_twice ≡ (ok reset_session, reset_world)
unfolding run
was_reset = refl

reset_password-IsReset_example :
    IsReset ports "t" "xxxx" "battery staple" asked_twice.auth reset_session reset_world.auth
reset_password-IsReset_example =
    reset_password-IsReset ports "t" "xxxx" "battery staple" asked_twice reset_world reset_session
      (Reach-IsSound ports oauth_ports passkey_ports totp_ports asked_twice_reached) was_reset

get_session-signed_in_example :
    get_session ports "t" "xxx" (record after_sign_in { now = 70000 })
    ≡ (ok session, record after_sign_in { now = 70000 })
get_session-signed_in_example =
    get_session-signed_in ports "t" "ada@lab.org" "correct horse" none verified after_sign_in
      (record after_sign_in { now = 70000 }) session verified-IsSound signed_in refl refl omega
      arith

-- The second factor is enrolled with the code of minute two; a later sign-in waits for it.
abbrev enrolling : World
enrolling = (begin_enrollment ports totp_ports "t" "xxx" after_sign_in).1

abbrev enrolled : World
enrolled = (confirm_enrollment ports totp_ports "t" "xxx" "123456" enrolling).1

abbrev enrolled_later : World
enrolled_later = record enrolled { now = 120000 }

abbrev second_sign_in : World
second_sign_in = (sign_in_password ports "t" "ada@lab.org" "correct horse" none enrolled_later).1

abbrev soon_after : World
soon_after = record second_sign_in { now = 120001 }

abbrev waiting_session : AuthSession
waiting_session = record { token = "xxxxxxx"; user = ada_user; expires_at = 2592120000 }

signed_in_again :
    sign_in_password ports "t" "ada@lab.org" "correct horse" none enrolled_later
    ≡ (ok waiting_session, second_sign_in)
unfolding run
signed_in_again = refl

enrolled_reached : Reach ports oauth_ports passkey_ports totp_ports enrolled_later
unfolding run serve
enrolled_reached = waited 120000 (
    called (Call.confirm_enrollment "t" "xxx" "123456") (
      called (Call.begin_enrollment "t" "xxx")
        (called (Call.sign_in_password "t" "ada@lab.org" "correct horse" none) verified_reached)))

require_elevated-signed_in_example : require_elevated_session ports "t" "xxxxxxx" soon_after ≡ (
  if is_some (confirmed_enrollment "t" "x" enrolled_later.auth)
      then err (second_factor_required "x")
      else ok waiting_session,
  soon_after,
)
require_elevated-signed_in_example =
    require_elevated-signed_in ports "t" "ada@lab.org" "correct horse" none enrolled_later
      second_sign_in soon_after waiting_session
      (Reach-IsSound ports oauth_ports passkey_ports totp_ports enrolled_reached) signed_in_again
      refl refl omega arith refl

is_enrolled_now : is_some (confirmed_enrollment "t" "x" enrolled_later.auth) ≡ true
unfolding run
is_enrolled_now = refl

abbrev code_accepted : World
code_accepted = (verify ports totp_ports "t" "xxxxxxx" "123456" second_sign_in).1

accepted_code :
    verify ports totp_ports "t" "xxxxxxx" "123456" second_sign_in ≡ (ok tt, code_accepted)
unfolding run
accepted_code = refl

verify-IsAccepted_example :
    IsAccepted ports totp_ports "t" "xxxxxxx" "123456" second_sign_in code_accepted.auth
verify-IsAccepted_example =
    verify-IsAccepted ports totp_ports "t" "xxxxxxx" "123456" second_sign_in code_accepted tt refl
      accepted_code

-- The next code of the same session, a minute later.
abbrev minute_later : World
minute_later = record code_accepted { now = 180000 }

abbrev next_accepted : World
next_accepted = (verify ports totp_ports "t" "xxxxxxx" "123456" minute_later).1

accepted_next : verify ports totp_ports "t" "xxxxxxx" "123456" minute_later ≡ (ok tt, next_accepted)
unfolding run
accepted_next = refl

refused_again :
    (verify ports totp_ports "t" "xxxxxxx" "123456" (record code_accepted { now = 120002 })).0
    ≡ err (invalid_credentials "totp")
unfolding run reject_code report_failure record_totp_failure claim_recovery after_recovery
refused_again = refl

verify_once_example :
    (first : IsAccepted ports totp_ports "t" "xxxxxxx" "123456" second_sign_in code_accepted.auth)
    × ((second : IsAccepted ports totp_ports "t" "xxxxxxx" "123456" minute_later next_accepted.auth)
        × ((first.user.id ≢ second.user.id) ⊎ (first.step < second.step)))
verify_once_example =
    verify_once ports totp_ports "t" "xxxxxxx" "123456" "xxxxxxx" "123456" second_sign_in
      code_accepted minute_later next_accepted tt tt refl refl accepted_code refl accepted_next

-- The cookie of a slot among others.
abbrev cookie_text : String
cookie_text = "structure_session.admin=xxx; Path=/; HttpOnly; SameSite=Lax; Secure; Max-Age=2592000"

written_cookie :
    session_cookie ports "t" (some session) (some "admin") after_sign_in
    ≡ (ok cookie_text, after_sign_in)
unfolding run
written_cookie = refl

abbrev other_cookies : List (String × String)
other_cookies = ("theme", "dark") ∷ []

cookie_round_trip_example :
    session_token_from_cookie ports "t"
      (some (header_of (other_cookies ++ stored cookie_text ∷ other_cookies)))
      (some "admin")
      registered
    ≡ (ok (some "xxx"), registered)
unfolding run first_value header_of stored
cookie_round_trip_example =
    cookie_round_trip ports "t" session (some "admin") after_sign_in after_sign_in cookie_text
      written_cookie registered other_cookies other_cookies refl (λ e. absurd (cc))
      ((refl, refl), tt) ((refl, refl), tt) refl omega arith

read_cookie-header_example :
    read_cookie "session" none (header_of (("theme", "dark") ∷ ("session", "xxx") ∷ []))
    ≡ first_value (named_cookie "session" none) (("theme", "dark") ∷ ("session", "xxx") ∷ [])
unfolding run first_value header_of stored
read_cookie-header_example =
    read_cookie-header "session" none (("theme", "dark") ∷ ("session", "xxx") ∷ [])
      ((refl, refl), ((refl, refl), tt)) omega arith

base32_round_trip_example :
    base32_decode (λ text. text) (base32_encode (255 ∷ 0 ∷ 7 ∷ [])) ≡ ok (255 ∷ 0 ∷ 7 ∷ [])
base32_round_trip_example =
    base32_round_trip (λ text. text) (255 ∷ 0 ∷ 7 ∷ []) (λ text written. refl)
      (omega arith, (omega arith, (omega arith, tt)))
