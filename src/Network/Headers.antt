-- ===== src/Network/Headers.antt =====
-- network/http.go: the header of a request that DoRequest makes.
use utils_go.Base.{
  ◌≡◌, refl, ap, ◌∙◌, Option, none, some, List, [], ◌∷◌, arith, if◌then◌else◌, ◌==◌,
}
use utils_go.Base.Text.{Text, text, text_eq}
use utils_go.Base.GoMap.{GoMap, lookup, insert, lookup-insert}
use utils_go.Network.{HttpRequest, Http, header_set, set_all}
use utils_go.Network.Request.{json_header}

abbrev pub or_else : {A : Type 0} → Option A → Option A → Option A
or_else (some a) b = some a
or_else none b = b

module _ {D B R : Type 0} (http : Http D B R) where
  -- The value of the last of the caller's headers with a canonical key.
  abbrev pub last_value : Text → List (Text × Text) → Option (List Text)
  last_value key [] = none
  last_value key ((k, v) ∷ headers) =
      or_else (last_value key headers) (if http.canonical k == key then some (v ∷ []) else none)

  -- What a JSON request has where the caller gives no header.
  abbrev pub json_value : Text → Option (List Text)
  json_value key =
      if http.canonical (text "Accept") == key
      then some (text "application/json" ∷ [])
      else if http.canonical (text "Content-Type") == key
      then some (text "application/json" ∷ [])
      else none

  -- The header has the caller's last value for each key, and else that of a JSON request.
  abbrev pub IsCarried : List (Text × Text) → HttpRequest → Type 0
  IsCarried headers req =
      (key : Text) → lookup key req.header ≡ or_else (last_value key headers) (json_value key)

  or_else_assoc :
      (a : Option (List Text)) (b c : Option (List Text))
      → or_else a (or_else b c) ≡ or_else (or_else a b) c
  or_else_assoc none b c = refl
  or_else_assoc (some v) b c = refl

  lookup-header_set :
      (key k v : Text) (header : GoMap Text (List Text))
      → lookup key (header_set http k v header)
        ≡ or_else (if http.canonical k == key then some (v ∷ []) else none) (lookup key header)
  unfolding header_set
  lookup-header_set key k v header =
      rw (lookup-insert (http.canonical k) key (v ∷ []) header) (ground arith)

  lookup-set_all :
      (key : Text) (headers : List (Text × Text)) (header : GoMap Text (List Text))
      → lookup key (set_all http headers header)
        ≡ or_else (last_value key headers) (lookup key header)
  unfolding set_all
  lookup-set_all key [] header = refl
  lookup-set_all key ((k, v) ∷ headers) header =
      lookup-set_all key headers (header_set http k v header)
      ∙ ap (or_else (last_value key headers)) (lookup-header_set key k v header)
      ∙ or_else_assoc (last_value key headers)
          (if http.canonical k == key then some (v ∷ []) else none) (lookup key header)

  lookup-json_header : (key : Text) → lookup key (json_header http) ≡ json_value key
  unfolding json_header header_set lookup insert
  lookup-json_header key =
      lookup-header_set key (text "Accept") (text "application/json")
        (header_set http (text "Content-Type") (text "application/json") [])
      ∙ ground arith

  pub lookup-do_request_header :
      (headers : List (Text × Text)) (key : Text)
      → lookup key (set_all http headers (json_header http))
        ≡ or_else (last_value key headers) (json_value key)
  lookup-do_request_header headers key =
      lookup-set_all key headers (json_header http)
      ∙ ap (or_else (last_value key headers)) (lookup-json_header key)
