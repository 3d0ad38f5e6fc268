-- ===== src/Network/Tests.antt =====
-- network/http.go and httputils/httputils.go: the theorem and runs with concrete answers.
use utils_go.Base.{◌≡◌, refl, none, some, List, [], ◌∷◌}
use utils_go.Base.Int.{pos}
use utils_go.Base.Text.{Text, text, text_beq, to_lower}
use utils_go.Util.Token.{answer, refused}
use utils_go.Network.{HttpRequest, Http, sent, closed, Reply}
use utils_go.Network.Headers.{IsCarried}
use utils_go.Network.Request.{do_request, client_timeout}
use utils_go.Network.Sent.{IsReply}
use utils_go.Network.Replies.{do_request-IsReply}

-- Keys are told apart up to case, a body is its bytes, and the results are texts. The server echoes the
-- body of a request, and refuses one without a body.
abbrev echo : Http Text Text Text
echo = record {
  canonical = to_lower;
  request_error = λ method url. none;
  send = λ timeout req. elim req.body [
    | [] ↦ refused (text "EOF")
    | c ∷ s ↦ answer (record { status_code = pos 200; status = text "200 OK"; body = c ∷ s })
  ];
  read_all = λ body. (body, none);
  marshal = answer;
  unmarshal = λ body result. (body, none);
}

abbrev caller_headers : List (Text × Text)
caller_headers = (text "accept", text "text/plain") ∷ []

abbrev echoed : Reply Text Text
echoed = do_request echo (text "http://a") (pos 500) caller_headers (some (text "hi")) []

do_request-IsReply_example :
    IsReply echo
      (client_timeout (pos 500))
      (λ req. (req.url ≡ text "http://a") × IsCarried echo caller_headers req)
      []
      echoed
do_request-IsReply_example =
    do_request-IsReply echo (text "http://a") (pos 500) caller_headers (some (text "hi")) []

-- The caller's header stands in place of that of a JSON request.
abbrev echo_request : HttpRequest
echo_request = record {
  method = text "POST";
  url = text "http://a";
  body = text "hi";
  header =
      (text "content-type", text "application/json" ∷ [])
      ∷ (text "accept", text "text/plain" ∷ [])
      ∷ [];
}

echoed_lem :
    echoed
    ≡ record { err = none; result = text "hi"; trace = sent echo_request ∷ closed (text "hi") ∷ [] }
unfolding do_request text_beq to_lower
echoed_lem = refl
