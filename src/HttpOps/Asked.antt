-- ===== src/HttpOps/Asked.antt =====
-- What `http_get` of include/http_ops.hpp asks for, from the parts of its URL.
use feedback_ingest.Base.{
  ◌≡◌, ◌≢◌, refl, ◌⊎◌, inl, inr, none, some, [], Bytes, codes, bytes_eq, Option-cases, arith,
}
use feedback_ingest.Platform.{Url}
use feedback_ingest.Effects.{HttpRequest}
use feedback_ingest.HttpOps.{make_http_get_header, service_of}

-- The port of the URL, or its scheme where it has none.
abbrev pub NamesService : Url → Bytes → Type 0
NamesService url service = (url.port ≡ some service) ⊎ ((url.port ≡ none) × (service ≡ url.scheme))

-- The target of the URL, or the root where that is empty.
abbrev pub NamesTarget : Url → Bytes → Type 0
NamesTarget url target =
    ((url.encoded_target ≢ []) × (target ≡ url.encoded_target))
    ⊎ ((url.encoded_target ≡ []) × (target ≡ codes "/"))

-- A GET of the target of the URL from its host.
pub record Asks (user_agent : Bytes) (url : Url) (req : HttpRequest) : Type 0 where
  pub method : req.method ≡ codes "GET"
  pub target : NamesTarget url req.target
  pub host : req.host ≡ url.encoded_host
  pub agent : req.user_agent ≡ user_agent
  pub body : req.body ≡ []

pub service_of-NamesService : (url : Url) → NamesService url (service_of url)
service_of-NamesService url = elim (Option-cases url.port) [
  | inl e ↦ rw e (inr (refl, refl))
  | inr (port, e) ↦ rw e (inl refl)
]

target-NamesTarget :
    (user_agent : Bytes) (url : Url) → NamesTarget url (make_http_get_header user_agent url).target
unfolding make_http_get_header
target-NamesTarget user_agent url = ground arith

pub make_http_get_header-Asks :
    (user_agent : Bytes) (url : Url) → Asks user_agent url (make_http_get_header user_agent url)
unfolding make_http_get_header
make_http_get_header-Asks user_agent url = record {
  method = refl;
  target = target-NamesTarget user_agent url;
  host = refl;
  agent = refl;
  body = refl;
}
