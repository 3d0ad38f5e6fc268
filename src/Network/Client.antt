-- ===== src/Network/Client.antt =====
-- httputils/httputils.go: a Client with a timeout, and its DoGet and DoPost.
use utils_go.Base.{none, some, List, [], ◌∷◌, ◌++◌}
use utils_go.Base.Int.{ℤ, int_eq}
use utils_go.Base.Text.{Text, text}
use utils_go.Util.Token.{Answer, answer, refused}
use utils_go.Network.{
  HttpRequest, Http, Reply, header_set, set_all, add_all, fail, ErrorTexts, exchange,
}

-- The timeout of the http.Client.
pub record Client : Type 0 where
  pub timeout : ℤ

abbrev pub new_client : ℤ → Client
new_client timeout = record { timeout = timeout }

-- The types of data that DoPost tells apart; V is url.Values.
pub data Payload (V D : Type 0) : Type 0 where
  plain : Text → Payload V D
  form : V → Payload V D
  other : D → Payload V D

-- The bytes of "无法将数据序列化为 JSON：".
abbrev pub cannot_marshal : Text
cannot_marshal =
    230 ∷ 151 ∷ 160 ∷ 230 ∷ 179 ∷ 149 ∷ 229 ∷ 176 ∷ 134 ∷ 230 ∷ 149 ∷ 176 ∷ 230 ∷ 141 ∷ 174 ∷ 229
    ∷ 186 ∷ 143 ∷ 229 ∷ 136 ∷ 151 ∷ 229 ∷ 140 ∷ 150 ∷ 228 ∷ 184 ∷ 186 ∷ 32 ∷ 74 ∷ 83 ∷ 79 ∷ 78 ∷ 239
    ∷ 188 ∷ 154 ∷ []

-- The bytes of "请求失败，状态码: ".
abbrev pub status_failed : Text
status_failed =
    232 ∷ 175 ∷ 183 ∷ 230 ∷ 177 ∷ 130 ∷ 229 ∷ 164 ∷ 177 ∷ 232 ∷ 180 ∷ 165 ∷ 239 ∷ 188 ∷ 140 ∷ 231
    ∷ 138 ∷ 182 ∷ 230 ∷ 128 ∷ 129 ∷ 231 ∷ 160 ∷ 129 ∷ 58 ∷ 32 ∷ []

unfoldable pub perform_texts : {B : Type 0} → ErrorTexts B
perform_texts = record {
  on_send = λ msg. msg;
  on_status = λ resp. text "failed with status: " ++ resp.status;
  on_read = λ msg body. msg;
  on_json = λ msg body. text "json.Unmarshal err: " ++ msg ++ text ", body: " ++ body;
}

unfoldable pub post_texts : {B : Type 0} → ErrorTexts B
post_texts = record {
  on_send = λ msg. msg;
  on_status = λ resp. status_failed ++ resp.status;
  on_read = λ msg body. msg;
  on_json = λ msg body. msg;
}

module _ {D B R : Type 0} (http : Http D B R) (client : Client) where
  -- doRequest
  unfoldable pub perform : HttpRequest → R → Reply B R
  unfolding exchange perform_texts
  perform req response = exchange http perform_texts client.timeout req response

  unfoldable pub do_get : Text → List (Text × Text) → R → Reply B R
  unfolding add_all fail perform
  do_get url headers response = elim (http.request_error (text "GET") url) [
    | some msg ↦ fail http msg response
    | none ↦
        let header = add_all http headers [] in
        perform (record { method = text "GET"; url = url; body = []; header = header }) response
  ]

  -- The body and its content type; `encode` is Encode of url.Values.
  unfoldable pub body_of : {V : Type 0} → (V → Text) → Payload V D → Answer (Text × Text)
  body_of encode (plain v) = answer (v, text "text/plain")
  body_of encode (form v) = answer (encode v, text "application/x-www-form-urlencoded")
  body_of encode (other d) = elim (http.marshal d) [
    | refused msg ↦ refused (cannot_marshal ++ msg)
    | answer body ↦ answer (body, text "application/json")
  ]

  unfoldable pub do_post :
      {V : Type 0} → (V → Text) → Text → Payload V D → List (Text × Text) → R → Reply B R
  unfolding body_of fail header_set set_all exchange post_texts
  do_post encode url payload headers response = elim (body_of encode payload) [
    | refused msg ↦ fail http msg response
    | answer (body, content_type) ↦ elim (http.request_error (text "POST") url) [
      | some msg ↦ fail http msg response
      | none ↦
          let header =
            set_all http headers (header_set http (text "Content-Type") content_type []) in
          let req : HttpRequest = record {
            method = text "POST";
            url = url;
            body = body;
            header = header;
          } in
          exchange http post_texts client.timeout req response
    ]
  ]
