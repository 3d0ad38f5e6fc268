-- ===== src/Web/Tests.antt =====
-- errors/, response/ and middleware/: the theorems on concrete errors, tokens and requests.
use mathlib.Core.Path.{subst}
use utils_go.Base.{
  ℕ, ◌≡◌, ◌≢◌, refl, sym, ap, ◌∙◌, eq_of_some, Bool, true, false, ◌&&◌, Option, none, some, List,
  [], ◌∷◌, arith, if◌then◌else◌, ◌==◌, ◌⊎◌,
}
use utils_go.Base.Int.{ℤ, pos, int_eq, int_beq_iff, ◌+ℤ◌, ◌≤ℤ◌, ◌-ℤ◌, ◌<ℤ◌, leb_ℤ, ltb_ℤ}
use utils_go.Base.Text.{Text, text, text_beq, text_beq_iff, text_eq}
use utils_go.Base.Decimal.{decimal}
use utils_go.Util.Token.{
  Answer, answer, refused, Claims, Method, hmac, Parsed, Jwt, Settings, new_claims,
  generate_auth_token, refresh_token,
}
use utils_go.Web.Errors.{Any, string, other, BizError, error_text}
use utils_go.Web.Auth.{Context, auth, abort}
use utils_go.Web.Gate.{IsPassed, IsRefused, unauthorized_answer, IsAuthorized, auth_lem}
use utils_go.Web.Session.{auth-generate_auth_token}

-- A library that signs one set of claims with one key.
abbrev signed_claims : Claims
signed_claims = record {
  address = text "0xab";
  expires_at = some (pos 1100);
  issued_at = some (pos 1001);
  not_before = some (pos 1002);
  issuer = text "owlto.finance";
  subject = text "0xab";
}

abbrev hmac_key : Text
hmac_key = text "hmac_key"

abbrev signed_token : Text
signed_token = text "h.c.s"

abbrev time_beq : Option ℤ → Option ℤ → Bool
time_beq (some s) (some t) = s == t
time_beq none none = true
time_beq _ _ = false

time_beq_sound : (s t : Option ℤ) → time_beq s t ≡ true → s ≡ t
time_beq_sound none none h = refl
time_beq_sound none (some t) h = ground arith
time_beq_sound (some s) none h = ground arith
time_beq_sound (some s) (some t) h = ground (arith, int_beq_iff s t)

abbrev claims_beq : Claims → Claims → Bool
claims_beq c d =
    c.address == d.address
    && time_beq c.expires_at d.expires_at
    && time_beq c.issued_at d.issued_at
    && time_beq c.not_before d.not_before
    && c.issuer == d.issuer
    && c.subject == d.subject

claims_beq_sound : (c d : Claims) → claims_beq c d ≡ true → c ≡ d
claims_beq_sound c d h = ground (
  arith,
  text_beq_iff c.address d.address,
  text_beq_iff c.issuer d.issuer,
  text_beq_iff c.subject d.subject,
  time_beq_sound c.expires_at d.expires_at,
  time_beq_sound c.issued_at d.issued_at,
  time_beq_sound c.not_before d.not_before,
)

abbrev sign : Text → Claims → Answer Text
sign secret claims =
    if secret == hmac_key && claims_beq claims signed_claims
    then answer signed_token
    else refused (text "not signed here")

abbrev checked_key : Answer Text → Bool → Answer Parsed
checked_key (answer k) in_time =
    if k == hmac_key && in_time
    then answer (record { claims = some signed_claims; valid = true })
    else refused (text "token is not valid")
checked_key (refused msg) in_time = refused msg

abbrev parse : (Method → Answer Text) → ℤ → Text → Answer Parsed
parse keys now token =
    if token == signed_token
    then checked_key (keys hmac) (leb_ℤ (pos 1002) now && ltb_ℤ now (pos 1100))
    else refused (text "token is malformed")

abbrev jwt : Jwt
jwt = record { signed_string = sign; parse_with_claims = parse; new_numeric_date = λ t. t }

abbrev settings : Settings
settings = record { jwt_secret = hmac_key; token_expire_duration = pos 100 }

sign_sound :
    (secret : Text) (claims : Claims) (token : Text)
    → sign secret claims ≡ answer token
    → (secret ≡ hmac_key) × (claims ≡ signed_claims) × (token ≡ signed_token)
sign_sound secret claims token made =
    ground (arith, text_beq_iff secret hmac_key, claims_beq_sound claims signed_claims)

sign_not_empty :
    (secret : Text) (claims : Claims) (token : Text)
    → sign secret claims ≡ answer token
    → token ≢ []
sign_not_empty secret claims token made = rw (sign_sound secret claims token made).2 (λ e. cc)

parse_ok :
    (keys : Method → Answer Text) (now : ℤ)
    → keys hmac ≡ answer hmac_key
    → pos 1002 ≤ℤ now
    → now <ℤ pos 1100
    → parse keys now signed_token ≡ answer (record { claims = some signed_claims; valid = true })
unfolding text_beq
parse_ok keys now keyed early late =
    let in_time : (leb_ℤ (pos 1002) now && ltb_ℤ now (pos 1100)) ≡ true = ground arith in
    rw (keyed, in_time) refl

parse_signed :
    (secret : Text) (claims : Claims) (token : Text) (keys : Method → Answer Text)
    (not_before expires now : ℤ)
    → sign secret claims ≡ answer token
    → keys hmac ≡ answer secret
    → claims.not_before ≡ some not_before
    → claims.expires_at ≡ some expires
    → not_before ≤ℤ now
    → now <ℤ expires
    → parse keys now token ≡ answer (record { claims = some claims; valid = true })
parse_signed secret claims token keys not_before expires now made keyed start end early late =
    let (secret_is, claims_are, token_is) = sign_sound secret claims token made in
    let starts : pos 1002 ≡ not_before =
      eq_of_some _ _ (sym (ap (λ c. c.not_before) claims_are) ∙ start) in
    let ends : pos 1100 ≡ expires =
      eq_of_some _ _ (sym (ap (λ c. c.expires_at) claims_are) ∙ end) in
    ap (parse keys now) token_is
    ∙ (parse_ok keys now (keyed ∙ ap answer secret_is) (subst (λ s. s ≤ℤ now) (sym starts) early)
          (subst (λ t. now <ℤ t) (sym ends) late)
        ∙ ap (λ c. answer (record { claims = some c; valid = true })) (sym claims_are))

abbrev request : Text → Context ℕ
request header = record {
  authorization = header;
  keys = [];
  responses = [];
  aborted = false;
  nexts = 0;
}

auth-generate_auth_token_example :
    IsPassed
      (text "0xab")
      (request (text "Bearer h.c.s"))
      (auth jwt settings (pos 1010) (pos 1011) (pos 1012) (request (text "Bearer h.c.s")))
unfolding generate_auth_token new_claims ◌+ℤ◌ text_beq
auth-generate_auth_token_example =
    auth-generate_auth_token jwt settings sign_not_empty parse_signed (λ t. omega arith) (pos 1000)
      (pos 1001) (pos 1002) (pos 1010) (pos 1011) (pos 1012) (text "0xab") signed_token
      (request (text "Bearer h.c.s")) refl (omega arith) refl

auth_lem_example :
    ((address : Text) × IsAuthorized jwt settings
        (pos 1010)
        (pos 1011)
        (pos 1012)
        (request (text "Basic h.c.s"))
        address
      × IsPassed address
          (request (text "Basic h.c.s"))
          (auth jwt settings (pos 1010) (pos 1011) (pos 1012) (request (text "Basic h.c.s"))))
    ⊎ ((¬ (
          (address : Text) × IsAuthorized jwt settings
            (pos 1010)
            (pos 1011)
            (pos 1012)
            (request (text "Basic h.c.s"))
            address))
        × (((text "Basic h.c.s" ≡ [])
              × IsRefused [] (request (text "Basic h.c.s")) (
                  auth jwt settings
                    (pos 1010)
                    (pos 1011)
                    (pos 1012)
                    (request (text "Basic h.c.s"))))
            ⊎ IsRefused unauthorized_answer (request (text "Basic h.c.s")) (
                auth jwt settings (pos 1010) (pos 1011) (pos 1012) (request (text "Basic h.c.s")))))
auth_lem_example =
    auth_lem jwt settings (pos 1010) (pos 1011) (pos 1012) (request (text "Basic h.c.s"))

expired_request :
    (auth jwt settings (pos 1100) (pos 1101) (pos 1102) (request (text "Bearer h.c.s"))).responses
    ≡ record { code = pos 1004; message = text "unauthorized"; answer_data = none } ∷ []
unfolding auth text_beq
expired_request = refl

-- A request without the header is aborted and gets no answer.
silent_request :
    auth jwt settings (pos 1010) (pos 1011) (pos 1012) (request (text ""))
    ≡ abort (request (text ""))
unfolding auth text_beq
silent_request = refl

-- Less than a day is left, so a new token is made.
refreshed_token :
    refresh_token jwt settings (pos 1010) (pos 1011) (pos 1000) (pos 1001) (pos 1002) signed_token
    ≡ answer signed_token
unfolding refresh_token text_beq ◌+ℤ◌ ◌-ℤ◌
refreshed_token = refl

abbrev missing_order : BizError ℕ
missing_order = record {
  code = pos 2001;
  msg = text "no order";
  info = (text "id", other 7) ∷ (text "chain", string (text "base")) ∷ [];
}

abbrev arguments : List (Any ℕ)
arguments =
    string (text "id")
    ∷ other 8
    ∷ other 5
    ∷ other 6
    ∷ string (text "id")
    ∷ other 9
    ∷ string (text "left over")
    ∷ []

error_text_example :
    error_text (λ v. elim v [ string s ↦ s | other n ↦ decimal n ]) missing_order
    ≡ text "code: 2001, msg: no order | info: {id = 7, chain = base}"
unfolding error_text decimal
error_text_example = refl
