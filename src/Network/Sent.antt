-- ===== src/Network/Sent.antt =====
-- network/http.go and httputils/httputils.go: a request is sent at most once, and the body of its response is closed.
use mathlib.Core.Path.{subst}
use utils_go.Base.{
  ◌↔◌, inl, inr, All, Bool-cases, ◌≡◌, refl, Option, none, some, List, [], ◌∷◌, ◌==◌,
}
use utils_go.Base.Int.{ℤ, pos, int_eq}
use utils_go.Base.Text.{Text}
use utils_go.Util.Token.{answer, refused, Answer-cases}
use utils_go.Network.{
  HttpRequest, HttpResponse, Http, Event, sent, closed, Reply, ErrorTexts, with_text, read_into,
  read_response, exchange, fail,
}

module _ {D B R : Type 0} (http : Http D B R) where
  -- Nothing is sent; or one request, without a response; or one request, and the body of its response
  -- is closed.
  abbrev pub IsClean : ℤ → List (Event B) → Type 0
  IsClean timeout [] = Unit
  IsClean timeout (sent req ∷ []) = (msg : Text) × (http.send timeout req ≡ refused msg)
  IsClean timeout (sent req ∷ closed b ∷ []) =
      (resp : HttpResponse B) × (http.send timeout req ≡ answer resp) × (resp.body ≡ b)
  IsClean timeout other = ⊥

  abbrev pub requests : List (Event B) → List HttpRequest
  requests [] = []
  requests (sent req ∷ trace) = req ∷ requests trace
  requests (closed b ∷ trace) = requests trace

  -- The response to the request has status 200, is read to its end and decodes to the reply's result.
  abbrev pub IsDecoded : ℤ → HttpRequest → R → Reply B R → Type 0
  IsDecoded timeout req result reply =
      (resp : HttpResponse B) × (http.send timeout req ≡ answer resp)
      × (resp.status_code ≡ pos 200)
      × ((http.read_all resp.body).1 ≡ none)
      × (http.unmarshal (http.read_all resp.body).0 result ≡ (reply.result, none))

  -- What holds of a reply to one call: its requests satisfy P, and it has no error exactly where the one
  -- request was answered well.
  abbrev pub IsReply : ℤ → (HttpRequest → Type 0) → R → Reply B R → Type 0
  IsReply timeout P result reply =
      IsClean timeout reply.trace
      × All P (requests reply.trace)
      × ((reply.err ≡ none) ↔ (
          (req : HttpRequest) × (requests reply.trace ≡ req ∷ [])
          × IsDecoded timeout req result reply))

  pub fail-IsReply :
      (timeout : ℤ) (P : HttpRequest → Type 0) (msg : Text) (result : R)
      → IsReply timeout P result (fail http msg result)
  unfolding fail
  fail-IsReply timeout P msg result = (tt, tt, (λ e. cc, λ e. let (req, one, decoded) = e in cc))

  with_text-none :
      (on_json : Text → Text) (r : R × Option Text)
      → ((with_text http on_json r).1 ≡ none) ↔ (r ≡ ((with_text http on_json r).0, none))
  unfolding with_text
  with_text-none on_json (result, none) = (λ e. refl, λ e. refl)
  with_text-none on_json (result, some msg) = (λ e. cc, λ e. cc)

  read_into-none :
      (texts : ErrorTexts B) (body : Text × Option Text) (result : R)
      → ((read_into http texts body result).1 ≡ none) ↔ (
          (body.1 ≡ none)
          × (http.unmarshal body.0 result ≡ ((read_into http texts body result).0, none)))
  unfolding read_into
  read_into-none texts (body, some msg) result = (λ e. cc, λ e. cc)
  read_into-none texts (body, none) result =
      let (out, back) =
        with_text-none (λ msg. texts.on_json msg body) (http.unmarshal body result) in
      (λ e. (refl, out e), λ e. back e.1)

  read_response-none :
      (texts : ErrorTexts B) (resp : HttpResponse B) (result : R)
      → ((read_response http texts resp result).1 ≡ none) ↔ (
          (resp.status_code ≡ pos 200)
          × ((http.read_all resp.body).1 ≡ none)
          × (http.unmarshal (http.read_all resp.body).0 result
              ≡ ((read_response http texts resp result).0, none)))
  unfolding read_response
  read_response-none texts resp result =
      let (out, back) = int_eq.equal_iff resp.status_code (pos 200) in
      elim (Bool-cases (resp.status_code == pos 200)) [
        | inl ok ↦
            let (out', back') = read_into-none texts (http.read_all resp.body) result in
            rw (read_response, ok)
              (
                λ e. let (whole, json) = out' e in (out ok, whole, json),
                λ e. let (status, whole, json) = e in back' (whole, json),
              )
        | inr bad ↦ rw (read_response, bad) (λ e. cc, λ e. let refused = back e.0 in cc)
      ]

  same_response :
      (timeout : ℤ) (req other : HttpRequest) (resp found : HttpResponse B)
      → req ∷ [] ≡ other ∷ []
      → http.send timeout req ≡ answer resp
      → http.send timeout other ≡ answer found
      → found ≡ resp
  same_response timeout req other resp found one sends answers = cc

  refused_answer :
      {A : Type 0} (timeout : ℤ) (req other : HttpRequest) (msg : Text) (found : HttpResponse B)
      → req ∷ [] ≡ other ∷ []
      → http.send timeout req ≡ refused msg
      → http.send timeout other ≡ answer found
      → A
  refused_answer timeout req other msg found one sends answers = cc

  pub exchange-IsReply :
      (texts : ErrorTexts B) (timeout : ℤ) (P : HttpRequest → Type 0) (req : HttpRequest)
      (result : R)
      → P req
      → IsReply timeout P result (exchange http texts timeout req result)
  unfolding exchange
  exchange-IsReply texts timeout P req result p = elim (Answer-cases (http.send timeout req)) [
    | inl (resp, sends) ↦
        let (out, back) = read_response-none texts resp result in
        rw (exchange, sends)
          (
            (resp, sends, refl),
            (p, tt),
            (
              λ e.
                  let (status, whole, json) = out e in
                  (req, refl, (resp, sends, status, whole, json)),
              λ e.
                  let (other, one, (found, answers, status, whole, json)) = e in
                  back (
                    subst
                      (λ x.
                        (x.status_code ≡ pos 200)
                        × ((http.read_all x.body).1 ≡ none)
                        × (http.unmarshal (http.read_all x.body).0 result
                            ≡ ((read_response http texts resp result).0, none)))
                      (same_response timeout req other resp found one sends answers)
                      (status, whole, json)),
            ),
          )
    | inr (msg, sends) ↦
        rw (exchange, sends)
          (
            (msg, sends),
            (p, tt),
            (
              λ e. cc,
              λ e.
                  let (other, one, (found, answers, status, whole, json)) = e in
                  refused_answer timeout req other msg found one sends answers,
            ),
          )
  ]
