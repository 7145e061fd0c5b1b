-- ===== src/Rpc/Connect.antt =====
-- What the generated code calls of connectrpc.com/connect, and of net/http and net/url.
use Prim.Native.Char.{code}
use inbox.Prelude.{String, nat_eq, ◌==◌, ◌&&◌, ◌≡◌, Option, none, some, if◌then◌else◌}
use inbox.Effect.{Exec, continue, pure, rethrow}
use inbox.Service.Convert.{Code, ConnectError}
use inbox.Rpc.Procedure.{Procedure, Request, Response}

-- An HTTP request: its URL and what it carries.
pub record HttpRequest (Body : Type 0) : Type 0 where
  pub url : String
  pub body : Body

-- An answer of a procedure's handler, or `http.NotFound`.
pub data HttpResponse (Reply : Type 0) : Type 0 where
  answered : Reply → HttpResponse Reply
  not_found : HttpResponse Reply

-- The error that a client gets: the code and the text of the handler's error.
pub record ClientError : Type 0 where
  pub code : Code
  pub message : String

-- A handler, or a client's transport. Only a panic of a method passes through it as one.
abbrev pub HttpHandler : Type 0 → Type 0 → Type 0 → Type 0
HttpHandler S Body Reply = HttpRequest Body → Exec S ConnectError (HttpResponse Reply)

-- `connect.NewUnaryHandler(procedure, method)`, `connect.NewClient(httpClient, url)` with its
-- `CallUnary`, and the error that is sent for an error of a method
pub record Connect (S Any Body Reply : Type 0) : Type 0 where
  pub unary :
      (p : Procedure)
      → (Request Any p → Exec S ConnectError (Response Any p))
      → Body
      → Exec S ConnectError Reply
  pub call_unary :
      (p : Procedure)
      → HttpHandler S Body Reply
      → String
      → Request Any p
      → Exec S ClientError (Response Any p)
  pub sent_error : ConnectError → ClientError

-- A client whose transport hands the requests for its URL to the handler of the same procedure gets
-- what the method returns, an error as it is sent.
pub record ConnectLaws {S Any Body Reply : Type 0} (connect : Connect S Any Body Reply)
    : Type 0 where
  pub call-unary :
      (p : Procedure) (method : Request Any p → Exec S ConnectError (Response Any p))
      (http : HttpHandler S Body Reply) (url : String)
      → ((body : Body) (s : S)
          → http (record { url = url; body = body }) s
            ≡ continue
                (connect.unary p method body s).0
                (λ reply. pure (answered reply))
                (connect.unary p method body s).1)
      → (req : Request Any p) (s : S)
      → connect.call_unary p http url req s ≡ rethrow connect.sent_error (method req) s

-- `strings.TrimRight(s, "/")`
unfoldable pub trim_right_slashes : String → String
trim_right_slashes String.[] = ""
trim_right_slashes (String.◌∷◌ c s) =
    let rest = trim_right_slashes s in
    if rest == "" && nat_eq (code c) 47 then "" else String.◌∷◌ c rest

abbrev pub cut_prefix : String → String → Option String
cut_prefix String.[] t = some t
cut_prefix (String.◌∷◌ c s) String.[] = none
cut_prefix (String.◌∷◌ c s) (String.◌∷◌ d t) =
    let rest = cut_prefix s t in if nat_eq (code c) (code d) then rest else none

-- the text after "://"
abbrev after_scheme : String → String
after_scheme String.[] = ""
after_scheme (String.◌∷◌ c s) =
    let rest = after_scheme s in
    elim (cut_prefix "://" (String.◌∷◌ c s)) [ some t ↦ t | none ↦ rest ]

abbrev from_slash : String → String
from_slash String.[] = ""
from_slash (String.◌∷◌ c s) =
    let rest = from_slash s in if nat_eq (code c) 47 then String.◌∷◌ c s else rest

-- `r.URL.Path` of a URL with a scheme and a host, without a query
abbrev pub url_path : String → String
url_path url = from_slash (after_scheme url)
