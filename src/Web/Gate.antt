-- ===== src/Web/Gate.antt =====
-- middleware/auth.go: which requests the handler lets through, and what it does with the others.
use mathlib.Core.Path.{subst}
use utils_go.Base.{
  suc, ◌≡◌, ◌≢◌, ◌⊎◌, inl, inr, refl, sym, ap, ◌∙◌, true, false, none, some, List, [], ◌∷◌, ◌++◌,
  arith, Option-cases,
}
use utils_go.Base.Int.{ℤ, pos}
use utils_go.Base.Text.{Text, text, text_beq, text_eq}
use utils_go.Base.GoMap.{lookup-insert_self}
use utils_go.Util.Token.{
  answer, Answer-cases, Jwt, Settings, validate_token, get_address_from_token,
}
use utils_go.Web.Errors.{string}
use utils_go.Web.Response.{Response}
use utils_go.Web.Auth.{
  bearer_prefix, user_address_key, Context, after_prefix, abort, unauthorized, let_through,
  check_token, auth_header, auth, get_user_address,
}

after_prefix_sound : (prefix s rest : Text) → after_prefix prefix s ≡ some rest → s ≡ prefix ++ rest
unfolding after_prefix
after_prefix_sound [] s rest h = ground arith
after_prefix_sound (p ∷ ps) [] rest h = ground arith
after_prefix_sound (p ∷ ps) (c ∷ s) rest h = ground (arith, after_prefix_sound ps s rest)

-- The handler went on once, with the address as the user's, and did nothing else to the request.
abbrev pub IsPassed : {V : Type 0} → Text → Context V → Context V → Type 0
IsPassed address before after =
    (after.nexts ≡ suc before.nexts)
    × (get_user_address after ≡ (address, true))
    × (after.aborted ≡ before.aborted)
    × (after.responses ≡ before.responses)

-- The handler aborted, did not go on and set no key; the answers are these.
abbrev pub IsRefused : {V : Type 0} → List (Response V) → Context V → Context V → Type 0
IsRefused answers before after =
    (after.nexts ≡ before.nexts)
    × (after.aborted ≡ true)
    × (after.keys ≡ before.keys)
    × (after.responses ≡ answers)

abbrev pub unauthorized_answer : {V : Type 0} → List (Response V)
unauthorized_answer =
    record { code = pos 1004; message = text "unauthorized"; answer_data = none } ∷ []

get_user_address-let_through :
    {V : Type 0} (address : Text) (c : Context V)
    → get_user_address (let_through address c) ≡ (address, true)
unfolding get_user_address let_through
get_user_address-let_through address c =
    rw (get_user_address, lookup-insert_self user_address_key (string address) c.keys) refl

pub let_through-IsPassed :
    {V : Type 0} (address : Text) (c : Context V) → IsPassed address c (let_through address c)
unfolding let_through
let_through-IsPassed address c = (refl, get_user_address-let_through address c, refl, refl)

abort-IsRefused : {V : Type 0} (c : Context V) → IsRefused c.responses c (abort c)
unfolding abort
abort-IsRefused c = (refl, refl, refl, refl)

unauthorized-IsRefused :
    {V : Type 0} (c : Context V) → IsRefused (c.responses ++ unauthorized_answer) c (unauthorized c)
unfolding unauthorized abort
unauthorized-IsRefused c = (refl, refl, refl, refl)

module _ {V : Type 0} (jwt : Jwt) (settings : Settings) (t1 t2 t3 : ℤ) where
  -- The request carries a token that is valid and of this address.
  abbrev pub IsAuthorized : Context V → Text → Type 0
  IsAuthorized c address =
      (token : Text) × (c.authorization ≡ bearer_prefix ++ token)
      × (token ≢ [])
      × (validate_token jwt settings t1 t2 token ≡ answer true)
      × (get_address_from_token jwt settings t3 token ≡ answer address)

  check_token-cases :
      (token : Text) (c : Context V)
      → ((address : Text) × (validate_token jwt settings t1 t2 token ≡ answer true)
          × (get_address_from_token jwt settings t3 token ≡ answer address)
          × (check_token jwt settings t1 t2 t3 token c ≡ let_through address c))
        ⊎ (check_token jwt settings t1 t2 t3 token c ≡ unauthorized c)
  unfolding check_token
  check_token-cases token c = elim (Answer-cases (validate_token jwt settings t1 t2 token)) [
    | inr (msg, bad) ↦ inr (rw (check_token, bad) refl)
    | inl (false, bad) ↦ inr (rw (check_token, bad) refl)
    | inl (true, good) ↦ elim (Answer-cases (get_address_from_token jwt settings t3 token)) [
      | inr (msg, bad) ↦ inr (rw (check_token, good, bad) refl)
      | inl (address, found) ↦ inl (address, good, found, rw (check_token, good, found) refl)
    ]
  ]

  check_token_ok :
      (token address : Text) (c : Context V)
      → validate_token jwt settings t1 t2 token ≡ answer true
      → get_address_from_token jwt settings t3 token ≡ answer address
      → check_token jwt settings t1 t2 t3 token c ≡ let_through address c
  unfolding check_token
  check_token_ok token address c good found = rw (check_token, good, found) refl

  auth_header_ok :
      (token : Text) (c : Context V)
      → token ≢ []
      → auth_header jwt settings t1 t2 t3 (bearer_prefix ++ token) c
        ≡ check_token jwt settings t1 t2 t3 token c
  unfolding auth_header text_beq after_prefix
  auth_header_ok [] c some_token = elim (some_token refl) [ ]
  auth_header_ok (b ∷ bs) c some_token = refl

  pub auth_complete :
      (c : Context V) (address : Text)
      → IsAuthorized c address
      → auth jwt settings t1 t2 t3 c ≡ let_through address c
  unfolding auth
  auth_complete c address (token, header, some_token, good, found) =
      ap (λ h. auth_header jwt settings t1 t2 t3 h c) header
      ∙ (auth_header_ok token c some_token ∙ check_token_ok token address c good found)

  -- What the handler does with a header.
  auth_header-cases :
      (header : Text) (c : Context V)
      → ((header ≡ []) × (auth_header jwt settings t1 t2 t3 header c ≡ abort c))
        ⊎ ((token : Text) × (header ≡ bearer_prefix ++ token)
            × (token ≢ [])
            × (auth_header jwt settings t1 t2 t3 header c
                ≡ check_token jwt settings t1 t2 t3 token c))
        ⊎ (auth_header jwt settings t1 t2 t3 header c ≡ unauthorized c)
  unfolding auth_header text_beq
  auth_header-cases [] c = inl (refl, refl)
  auth_header-cases (h ∷ hs) c = elim (Option-cases (after_prefix bearer_prefix (h ∷ hs))) [
    | inl no_prefix ↦ inr (inr (rw (auth_header, no_prefix) refl))
    | inr ([], bare) ↦ inr (inr (rw (auth_header, bare) refl))
    | inr (b ∷ bs, split) ↦ inr (
        inl (
          b ∷ bs,
          after_prefix_sound bearer_prefix (h ∷ hs) (b ∷ bs) split,
          (λ e. cc),
          rw (auth_header, split) refl,
        ))
  ]

  not-IsAuthorized :
      (c refusal : Context V)
      → auth jwt settings t1 t2 t3 c ≡ refusal
      → refusal.nexts ≡ c.nexts
      → ¬ ((address : Text) × IsAuthorized c address)
  unfolding let_through
  not-IsAuthorized c refusal refuses same (address, authorized) =
      let counts : suc c.nexts ≡ c.nexts =
        ap (λ d. d.nexts) (sym (auth_complete c address authorized) ∙ refuses) ∙ same in
      omega arith

  -- The request goes on, with the address of its token as the user's, exactly where its header is
  -- "Bearer " and a token that ValidateToken accepts and GetAddressFromToken reads. Where it is not,
  -- the handler aborts, goes on with nothing and sets no address; it answers with the error
  -- "unauthorized", but for a request without the header, which gets no answer.
  pub auth_lem :
      (c : Context V)
      → ((address : Text) × IsAuthorized c address
          × IsPassed address c (auth jwt settings t1 t2 t3 c))
        ⊎ ((¬ ((address : Text) × IsAuthorized c address))
            × (((c.authorization ≡ []) × IsRefused c.responses c (auth jwt settings t1 t2 t3 c))
                ⊎ IsRefused (c.responses ++ unauthorized_answer) c (auth jwt settings t1 t2 t3 c)))
  unfolding auth
  auth_lem c = elim (auth_header-cases c.authorization c) [
    | inl (none_given, aborts) ↦
        let refused_so = subst (IsRefused c.responses c) (sym aborts) (abort-IsRefused c) in
        inr (
          not-IsAuthorized c (auth jwt settings t1 t2 t3 c) refl refused_so.0,
          inl (none_given, refused_so),
        )
    | inr (inr refuses) ↦ inr (refusal c refuses)
    | inr (inl (token, header, some_token, checks)) ↦ elim (check_token-cases token c) [
      | inl (address, good, found, runs) ↦ inl (
        address,
        (token, header, some_token, good, found),
        subst (IsPassed address c) (sym (checks ∙ runs)) (let_through-IsPassed address c),
      )
      | inr refuses ↦ inr (refusal c (checks ∙ refuses))
    ]
  ]
    where
      refusal :
          (c : Context V)
          → auth jwt settings t1 t2 t3 c ≡ unauthorized c
          → (¬ ((address : Text) × IsAuthorized c address))
            × (((c.authorization ≡ []) × IsRefused c.responses c (auth jwt settings t1 t2 t3 c))
                ⊎ IsRefused (c.responses ++ unauthorized_answer) c (auth jwt settings t1 t2 t3 c))
      refusal c refuses =
          let refused_so =
            subst (IsRefused (c.responses ++ unauthorized_answer) c) (sym refuses)
              (unauthorized-IsRefused c) in
          (not-IsAuthorized c (auth jwt settings t1 t2 t3 c) refl refused_so.0, inr refused_so)
