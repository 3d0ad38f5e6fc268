-- ===== src/Network/Replies.antt =====
-- network/http.go and httputils/httputils.go: the replies of the four functions that send a request.

use utils_go.Base.{inl, inr, Option-cases, ◌≡◌, refl, Option, List, []}
use utils_go.Base.Int.{ℤ, pos, int_eq}
use utils_go.Base.Text.{Text, text}
use utils_go.Util.Token.{Answer-cases}
use utils_go.Network.{Http, set_all}
use utils_go.Network.Client.{
  Client, Payload, body_of, perform, do_get, do_post, perform_texts, post_texts,
}
use utils_go.Network.Headers.{IsCarried, lookup-do_request_header}
use utils_go.Network.Request.{request_texts, request, do_request, method_and_body, client_timeout}
use utils_go.Network.Sent.{IsReply, fail-IsReply, exchange-IsReply}

module _ {D B R : Type 0} (http : Http D B R) where
  -- DoRequest sends at most one request, to its URL, whose header has, for each canonical key, the last of
  -- the caller's values, and else application/json for Accept and Content-Type. The body of a response is
  -- closed, and nothing happens after it. DoRequest returns no error exactly where a request was sent and its
  -- response has status 200, is read to the end without an error and decodes without one, to the result.
  pub do_request-IsReply :
      (url : Text) (timeoutms : ℤ) (headers : List (Text × Text)) (payload : Option D) (result : R)
      → IsReply http
          (client_timeout timeoutms)
          (λ req. (req.url ≡ url) × IsCarried http headers req)
          result
          (do_request http url timeoutms headers payload result)
  unfolding do_request
  do_request-IsReply url timeoutms headers payload result =
      elim (Answer-cases (method_and_body http payload)) [
        | inr (msg, bad) ↦
            rw (do_request, bad)
              (fail-IsReply http (client_timeout timeoutms)
                (λ req. (req.url ≡ url) × IsCarried http headers req) _ result)
        | inl ((method, body), good) ↦ elim (Option-cases (http.request_error method url)) [
          | inr (msg, bad) ↦
              rw (do_request, good, bad)
                (fail-IsReply http (client_timeout timeoutms)
                  (λ req. (req.url ≡ url) × IsCarried http headers req) _ result)
          | inl made ↦
              rw (do_request, good, made)
                (exchange-IsReply http (request_texts url) (client_timeout timeoutms) _ _ result
                  (refl, λ key. lookup-do_request_header http headers key))
        ]
      ]

  pub request-do_request :
      (url : Text) (payload : Option D) (result : R)
      → request http url payload result ≡ do_request http url (pos 0) [] payload result
  unfolding request do_request client_timeout set_all
  request-do_request url payload result = refl

  module _ (client : Client) where
    pub do_get-IsReply :
        (url : Text) (headers : List (Text × Text)) (result : R)
        → IsReply http client.timeout
            (λ req. req.url ≡ url)
            result
            (do_get http client url headers result)
    unfolding do_get perform
    do_get-IsReply url headers result = elim (Option-cases (http.request_error (text "GET") url)) [
      | inr (msg, bad) ↦
          rw (do_get, bad) (fail-IsReply http client.timeout (λ req. req.url ≡ url) msg result)
      | inl made ↦
          rw (do_get, made)
            (exchange-IsReply http perform_texts client.timeout (λ req. req.url ≡ url) _ result
              refl)
    ]

    pub do_post-IsReply :
        {V : Type 0} (encode : V → Text) (url : Text) (payload : Payload V D)
        (headers : List (Text × Text)) (result : R)
        → IsReply http client.timeout
            (λ req. req.url ≡ url)
            result
            (do_post http client encode url payload headers result)
    unfolding do_post
    do_post-IsReply encode url payload headers result =
        elim (Answer-cases (body_of http client encode payload)) [
          | inr (msg, bad) ↦
              rw (do_post, bad) (fail-IsReply http client.timeout (λ req. req.url ≡ url) msg result)
          | inl ((body, content_type), good) ↦
              elim (Option-cases (http.request_error (text "POST") url)) [
                | inr (msg, bad) ↦
                    rw (do_post, good, bad)
                      (fail-IsReply http client.timeout (λ req. req.url ≡ url) msg result)
                | inl made ↦
                    rw (do_post, good, made)
                      (exchange-IsReply http post_texts client.timeout (λ req. req.url ≡ url) _
                        result refl)
              ]
        ]
