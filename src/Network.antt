-- ===== src/Network.antt =====
-- network/http.go and httputils/httputils.go: JSON requests over HTTP. net/http, encoding/json and net/url are
-- parameters; what is sent and which response bodies are closed is listed. A header map of a caller is listed in the
-- order of its range.
mod Request
mod Client
mod Headers
mod Sent
mod Replies
mod Tests
use utils_go.Base.{Option, none, some, List, [], ◌∷◌, ◌++◌, if◌then◌else◌, ◌==◌}
use utils_go.Base.Int.{ℤ, pos, int_eq}
use utils_go.Base.Text.{Text, text_eq}
use utils_go.Base.GoMap.{GoMap, lookup, insert}
use utils_go.Util.Token.{Answer, answer, refused}

-- An http.Request as it is made here; `header` maps canonical keys to their values.
pub record HttpRequest : Type 0 where
  pub method : Text
  pub url : Text
  pub body : Text
  pub header : GoMap Text (List Text)

pub record HttpResponse (B : Type 0) : Type 0 where
  pub status_code : ℤ
  pub status : Text
  pub body : B

-- D is the data to send, B a response's body, R what the result points to.
pub record Http (D B R : Type 0) : Type 0 where
  -- textproto.CanonicalMIMEHeaderKey
  pub canonical : Text → Text
  -- the error of http.NewRequest for a method and a URL
  pub request_error : Text → Text → Option Text
  -- Do of an http.Client with a timeout; that of DoGet and DoPost under the context of the call
  pub send : ℤ → HttpRequest → Answer (HttpResponse B)
  -- io.ReadAll: what is read, and the error that ends it
  pub read_all : B → Text × Option Text
  pub marshal : D → Answer Text
  -- json.Unmarshal into the result, which an error may leave partly set
  pub unmarshal : Text → R → R × Option Text

pub data Event (B : Type 0) : Type 0 where
  sent : HttpRequest → Event B
  closed : B → Event B

pub record Reply (B R : Type 0) : Type 0 where
  pub err : Option Text
  pub result : R
  pub trace : List (Event B)

-- The texts of the errors that follow the making of a request.
pub record ErrorTexts (B : Type 0) : Type 0 where
  pub on_send : Text → Text
  pub on_status : HttpResponse B → Text
  -- of an error and what was read
  pub on_read : Text → Text → Text
  pub on_json : Text → Text → Text

module _ {D B R : Type 0} (http : Http D B R) where
  -- req.Header.Set
  unfoldable pub header_set : Text → Text → GoMap Text (List Text) → GoMap Text (List Text)
  unfolding insert
  header_set k v header = insert (http.canonical k) (v ∷ []) header

  -- req.Header.Add
  unfoldable pub header_add : Text → Text → GoMap Text (List Text) → GoMap Text (List Text)
  unfolding insert lookup
  header_add k v header = elim (lookup (http.canonical k) header) [
    | none ↦ insert (http.canonical k) (v ∷ []) header
    | some values ↦ insert (http.canonical k) (values ++ v ∷ []) header
  ]

  unfoldable pub set_all : List (Text × Text) → GoMap Text (List Text) → GoMap Text (List Text)
  unfolding header_set
  set_all [] header = header
  set_all ((k, v) ∷ headers) header = set_all headers (header_set k v header)

  unfoldable pub add_all : List (Text × Text) → GoMap Text (List Text) → GoMap Text (List Text)
  unfolding header_add
  add_all [] header = header
  add_all ((k, v) ∷ headers) header = add_all headers (header_add k v header)

  -- Nothing is sent.
  unfoldable pub fail : Text → R → Reply B R
  fail msg result = record { err = some msg; result = result; trace = [] }

  -- The end of json.Unmarshal.
  unfoldable pub with_text : (Text → Text) → R × Option Text → R × Option Text
  with_text on_json (result, none) = (result, none)
  with_text on_json (result, some msg) = (result, some (on_json msg))

  -- io.ReadAll and json.Unmarshal.
  unfoldable pub read_into : ErrorTexts B → Text × Option Text → R → R × Option Text
  unfolding with_text
  read_into texts (body, some msg) result = (result, some (texts.on_read msg body))
  read_into texts (body, none) result =
      with_text (λ msg. texts.on_json msg body) (http.unmarshal body result)

  unfoldable pub read_response : ErrorTexts B → HttpResponse B → R → R × Option Text
  unfolding read_into
  read_response texts resp result =
      if resp.status_code == pos 200
      then read_into texts (http.read_all resp.body) result
      else (result, some (texts.on_status resp))

  -- client.Do with what follows it. The body of a response is closed at the end.
  unfoldable pub exchange : ErrorTexts B → ℤ → HttpRequest → R → Reply B R
  unfolding read_response
  exchange texts timeout req result = elim (http.send timeout req) [
    | refused msg ↦ record {
      err = some (texts.on_send msg);
      result = result;
      trace = sent req ∷ [];
    }
    | answer resp ↦
        let (result', err) = read_response texts resp result in
        record { err = err; result = result'; trace = sent req ∷ closed resp.body ∷ [] }
  ]
