-- ===== src/System/Duties.antt =====
-- What the coroutines of include/data_source and include/rest_server.hpp may do to the world, and
-- what they rely on.
use feedback_ingest.Base.{◌≡◌, ◌⊎◌, Option, none, some, List, Bytes, ok, All}
use feedback_ingest.Schema.{Schema}
use feedback_ingest.Schema.Stamp.{IsStamped}
use feedback_ingest.Serializer.{serialize_to_json}
use feedback_ingest.Base.Int.{ℤ}
use feedback_ingest.Platform.{Platform, Url}
use feedback_ingest.Effects.{
  HttpRequest, HttpResponse, resolve, write_request, Command, Answer, read_file, open_output,
  write_output, write_part, create_directories, write_response, register_route, find_route,
}
use feedback_ingest.Effects.Contract.{Contract}
use feedback_ingest.HttpOps.{
  parsed, service_of, make_http_get_header, forbidden_response, ok_response, not_found_response,
}
use feedback_ingest.Sink.{schema_base_path, create_json_file_name, create_dir_name}
use feedback_ingest.Notifyu.{NotifyuOperationState}
use feedback_ingest.Discourse.{DiscourseOperationState}
use feedback_ingest.Discourse.Algorithms.{make_url_for_posts_between, make_url_for_post_ids}
use feedback_ingest.Filepp.{FileppOperationState}
use feedback_ingest.Application.{AnyOperationState, source_id_of, tenant_id_of}

-- `S` says which operation states there are.
module _ (P : Platform) (S : AnyOperationState → Type 0) where
  open P use {Time}

  -- The file is one for the source and the tenant of an operation state, at some time.
  abbrev pub IsOwned : Bytes → Type 0
  IsOwned path =
      (o : AnyOperationState) × S o
      × (t : Time) × (path
          ≡ create_json_file_name schema_base_path (P.count t) (source_id_of o) (tenant_id_of o))

  -- The text is the JSON of schemas that all carry the source and the tenant whose file it is.
  abbrev pub IsOwnedText : Bytes → Bytes → Type 0
  IsOwnedText path text =
      (o : AnyOperationState) × S o
      × (t : Time) × (path
          ≡ create_json_file_name schema_base_path (P.count t) (source_id_of o) (tenant_id_of o))
      × (schemas : List (Schema P.json.Real)) × All (IsStamped (source_id_of o) (tenant_id_of o))
          schemas
      × (j : P.json.Json) × (serialize_to_json P.json schemas ≡ ok j)
      × (P.json.dump j ≡ ok text)

  -- The directory is that of the tenant of an operation state.
  abbrev pub IsOwnedDirectory : Bytes → Type 0
  IsOwnedDirectory dir =
      (o : AnyOperationState) × S o × (dir ≡ create_dir_name schema_base_path (tenant_id_of o))

  -- The file is the input of a filepp source.
  abbrev pub IsInput : Bytes → Type 0
  IsInput path =
      (self : FileppOperationState) × S (AnyOperationState.filepp self)
      × (path ≡ self.filepp_info.file_path)

  -- The handler is that of a notifyu source, and the path is its own.
  abbrev pub IsServed : Bytes → NotifyuOperationState → Type 0
  IsServed path self =
      S (AnyOperationState.notifyu self) × (path ≡ self.notifyu_info.listening_route)

  abbrev pub IsStandard : HttpResponse → Type 0
  IsStandard response =
      (response ≡ ok_response) ⊎ (response ≡ forbidden_response) ⊎ (response ≡ not_found_response)

  -- The URL is that of a search for posts, or of some posts of the topic of a discourse source.
  abbrev pub IsAskedUrl : Bytes → Type 0
  IsAskedUrl url =
      (self : DiscourseOperationState) × S (AnyOperationState.discourse self)
      × (((begin end : Time) × (url ≡ make_url_for_posts_between P.date begin end))
          ⊎ ((ids : List ℤ) × (url ≡ make_url_for_post_ids self.discourse_info.topic_id ids)))

  -- The parts of such a URL.
  abbrev pub IsAsked : Url → Type 0
  IsAsked u = (url : Bytes) × IsAskedUrl url × (parsed (P.parse_uri url) ≡ ok u)

  -- The host is that of such a URL, with its port or scheme.
  abbrev pub IsAskedHost : Bytes → Bytes → Type 0
  IsAskedHost host service =
      (u : Url) × IsAsked u × (host ≡ u.encoded_host) × (service ≡ service_of u)

  -- The request is the one for such a URL.
  abbrev pub IsAskedRequest : HttpRequest → Type 0
  IsAskedRequest req = (u : Url) × IsAsked u × (req ≡ make_http_get_header P.beast_version u)

  abbrev pub Allowed : Command P → Type 0
  Allowed (open_output path) = IsOwned path
  Allowed (write_output path text) = IsOwnedText path text
  Allowed (write_part path) = IsOwned path
  Allowed (create_directories dir) = IsOwnedDirectory dir
  Allowed (read_file path) = IsInput path
  Allowed (register_route path self) = IsServed path self
  Allowed (write_response socket response) = IsStandard response
  Allowed (resolve host service) = IsAskedHost host service
  Allowed (write_request socket req) = IsAskedRequest req
  Allowed _ = Unit

  abbrev pub Serves : Bytes → Option NotifyuOperationState → Type 0
  Serves target none = Unit
  Serves target (some self) = IsServed target self

  abbrev pub Relied : (c : Command P) → Answer P c → Type 0
  Relied (find_route target) found = Serves target found
  Relied _ answer = Unit

  abbrev pub duties : Contract P
  duties = record { gives = Allowed; gets = Relied }
