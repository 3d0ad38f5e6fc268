-- ===== src/Network/Request.antt =====
-- network/http.go: Request and DoRequest.
use utils_go.Base.{◌^◌, Option, none, some, List, [], ◌∷◌, ◌++◌}
use utils_go.Base.Int.{ℤ, pos, ◌+ℤ◌, ◌-ℤ◌, ◌*ℤ◌, mod_ℤ, int_eq}
use utils_go.Base.Text.{Text, text}
use utils_go.Base.Decimal.{decimal, format_int}
use utils_go.Base.GoMap.{GoMap}
use utils_go.Util.Token.{Answer, answer, refused}
use utils_go.Network.{HttpRequest, Http, Reply, header_set, set_all, fail, ErrorTexts, exchange}

-- The values of []byte as %v prints them, after the bracket.
unfoldable bytes_text : Text → Text
bytes_text [] = text "]"
bytes_text (c ∷ []) = decimal c ++ text "]"
bytes_text (c ∷ d ∷ s) = decimal c ++ text " " ++ bytes_text (d ∷ s)

-- fmt.Errorf("error read body %v : %v - %v", url, err, body)
unfoldable pub body_error : Text → Text → Text → Text
unfolding bytes_text
body_error url msg body =
    text "error read body " ++ url ++ text " : " ++ msg ++ text " - [" ++ bytes_text body

unfoldable pub request_texts : {B : Type 0} → Text → ErrorTexts B
unfolding body_error format_int
request_texts url = record {
  on_send = λ msg. text "error sending request " ++ url ++ text " : " ++ msg;
  on_status =
      λ resp. text "unexpected status code " ++ url ++ text " : " ++ format_int resp.status_code;
  on_read = body_error url;
  on_json = body_error url;
}

-- time.Duration(timeoutms) * time.Millisecond, an int64
unfoldable pub client_timeout : ℤ → ℤ
unfolding mod_ℤ ◌+ℤ◌ ◌-ℤ◌ ◌*ℤ◌
client_timeout timeoutms = mod_ℤ (timeoutms *ℤ pos 1000000 +ℤ pos (2 ^ 63)) (2 ^ 64) -ℤ pos (2 ^ 63)

module _ {D B R : Type 0} (http : Http D B R) where
  -- The two headers of a JSON request.
  unfoldable pub json_header : GoMap Text (List Text)
  unfolding header_set
  json_header =
      header_set http (text "Accept") (text "application/json")
        (header_set http (text "Content-Type") (text "application/json") [])

  -- The method and the body for data, which may be nil.
  unfoldable pub method_and_body : Option D → Answer (Text × Text)
  method_and_body none = answer (text "GET", [])
  method_and_body (some d) = elim (http.marshal d) [
    | refused msg ↦ refused msg
    | answer bytes ↦ answer (text "POST", bytes)
  ]

  unfoldable pub request : Text → Option D → R → Reply B R
  unfolding method_and_body json_header request_texts exchange fail
  request url payload result = elim (method_and_body payload) [
    | refused msg ↦
        fail http (text "failed to marshal request body " ++ url ++ text " : " ++ msg) result
    | answer (method, body) ↦ elim (http.request_error method url) [
      | some msg ↦ fail http (text "error creating request " ++ url ++ text " : " ++ msg) result
      | none ↦
          let req : HttpRequest = record {
            method = method;
            url = url;
            body = body;
            header = json_header;
          } in
          exchange http (request_texts url) (pos 0) req result
    ]
  ]

  unfoldable pub do_request : Text → ℤ → List (Text × Text) → Option D → R → Reply B R
  unfolding method_and_body json_header request_texts set_all exchange fail client_timeout
  do_request url timeoutms headers payload result = elim (method_and_body payload) [
    | refused msg ↦
        fail http (text "failed to marshal request body " ++ url ++ text " : " ++ msg) result
    | answer (method, body) ↦ elim (http.request_error method url) [
      | some msg ↦ fail http (text "error creating request " ++ url ++ text " : " ++ msg) result
      | none ↦
          let header = set_all http headers json_header in
          let req : HttpRequest = record {
            method = method;
            url = url;
            body = body;
            header = header;
          } in
          exchange http (request_texts url) (client_timeout timeoutms) req result
    ]
  ]
