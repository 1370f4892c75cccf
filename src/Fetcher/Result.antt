-- ===== src/Fetcher/Result.antt =====
-- `FetchResult`, the replies of a server, and what the fetcher calls in libraries and in the page
-- parsers: parameters, with the behaviour that it relies on.
use competitor_intelligence.Base.{
  ℕ, ◌≡◌, ◌≤◌, ◌<◌, Bool, true, false, Option, none, String, List, [], Text,
}

pub data Method : Type 0 where
  httpx playwright : Method

-- A detected language or page type, with its confidence.
pub record Label : Type 0 where
  pub name : String
  pub confidence : ℕ

pub record FetchResult : Type 0 where
  pub html : Text
  pub url : Text
  pub method : Method
  pub status_code : Option ℕ
  pub content_length : ℕ
  pub js_rendered : Bool
  pub redirect_chain : List Text
  pub final_url : Text
  pub is_404_redirect : Bool
  pub etag : Option String
  pub last_modified : Option String
  pub cache_control : Option Text
  pub content_hash : String
  pub not_modified : Bool
  pub language : Label
  pub page_type : Label

abbrev pub no_label : Label
no_label = record { name = ""; confidence = 0 }

-- The defaults of the dataclass.
abbrev pub blank : Text → Method → FetchResult
blank url method = record {
  html = [];
  url = url;
  method = method;
  status_code = none;
  content_length = 0;
  js_rendered = false;
  redirect_chain = [];
  final_url = [];
  is_404_redirect = false;
  etag = none;
  last_modified = none;
  cache_control = none;
  content_hash = "";
  not_modified = false;
  language = no_label;
  page_type = no_label;
}

-- An answer of `client.get`.
pub record Response : Type 0 where
  pub status_code : ℕ
  pub url : Text
  pub history : List Text
  pub etag : Option String
  pub last_modified : Option String
  pub cache_control : Option Text
  pub text : Text

-- The exceptions that the code tells apart.
pub data FetchError : Type 0 where
  timeout connect remote_protocol other_transport unexpected runtime_error : FetchError
  http_status : ℕ → FetchError

-- One request: an answer, a transport error, or an exception that the loop does not catch.
pub data Reply : Type 0 where
  responded : Response → Reply
  transport : FetchError → Reply
  broken : Reply

-- `httpx` raises for client and server errors and not for a success; `urllib` takes a URL apart;
-- the page hash is that of app/utilities/content_hasher.py. The parsers that label a page are `none`
-- where they raise, as for a JSON-LD item that is not an object.
pub record Libraries : Type 0 where
  pub raises_for_status : ℕ → Bool
  pub raises_for_errors : (s : ℕ) → 400 ≤ s → raises_for_status s ≡ true
  pub raises_not_for_success : (s : ℕ) → 200 ≤ s → s < 300 → raises_for_status s ≡ false
  pub url_path : Text → Text
  pub netloc : Text → String
  pub origin : Text → Text
  pub cache_key : Text → String
  pub content_hash : Text → Text → String
  pub detect_language : Text → Option Label
  pub classify_page : Text → Text → Option Label
