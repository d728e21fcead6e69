-- ===== src/Discourse/Stored.antt =====
-- From the answers of a forum to the file that is written: include/data_source/discourse with the
-- sink of include/sink/json_sink.hpp.
use feedback_ingest.Base.{
  ◌≡◌, refl, sym, ap, ◌∙◌, some, List, [], ◌∷◌, ◌++◌, map, Bytes, Outcome, ok, throws, undefined,
  AllPairs, ok-injective, Never, codes,
}
use feedback_ingest.Base.Int.{ℤ}
use mathlib.Core.List.{append-nil}
use mathlib.Core.Path.{subst}
use feedback_ingest.Json.{IsLawful}
use feedback_ingest.Platform.{Platform}
use feedback_ingest.Schema.{Schema}
use feedback_ingest.Effects.{Ending, returned, raised, crashed, unfinished, now, Event}
use feedback_ingest.Effects.After.{After, Gives, InTurn, goes_on, raises, crashes, pauses}
use feedback_ingest.HttpOps.Bodies.{bodies, bodies-append, Received, http_get-Received}
use feedback_ingest.Sink.Files.{Written, write-Written}
use feedback_ingest.Discourse.{DiscourseOperationState}
use feedback_ingest.Discourse.Algorithms.{get_post_ids, raw_posts_to_schema}
use feedback_ingest.Discourse.Rounds.{
  greeting, PostsFetched, SpanFetched, ForumRound, extract_transform_and_load-ForumRound,
}
use feedback_ingest.Discourse.Posts.{PostData, ShowsPost, schema_of, raw_posts_to_schema-ShowsPost}
use feedback_ingest.Discourse.Operation.{extract_transform_and_load}
use feedback_ingest.Effects.Runs.{Run, Run-Ensures}
use feedback_ingest.Sink.{json_sink}

module _ (P : Platform) (self : DiscourseOperationState) where
  open P use {json, Time}

  abbrev Schemas : Type 0
  Schemas = List (Schema json.Real)

  abbrev read_posts : Bytes → Outcome Schemas
  read_posts content = raw_posts_to_schema json content self.source_id self.tenant_id

  -- One body was read and it is read as the schemas that are returned; without a result, none was
  -- that can be read as schemas.
  abbrev PostsReceived : List (Event P) → Ending Schemas → Type 0
  PostsReceived events (returned schemas) =
      (content : Bytes) × (bodies events ≡ content ∷ []) × (read_posts content ≡ ok schemas)
  PostsReceived events _ =
      (content : Bytes) (rest : List Bytes) (schemas : Schemas)
      → bodies events ≡ content ∷ rest
      → read_posts content ≡ ok schemas
      → Never

  posts_read :
      (content : Bytes) (o : Outcome Schemas) (before more : List (Event P))
      (ending : Ending Schemas)
      → read_posts content ≡ o
      → bodies before ≡ content ∷ []
      → After Gives o more ending
      → PostsReceived (before ++ more) ending
  posts_read content (ok schemas) before more ending read one (no_more, done) =
      rw (no_more, done, append-nil before) (content, one, read)
  posts_read content (throws e) before more ending read one (no_more, done) =
      rw (no_more, done, append-nil before) (λ c rest schemas more_than_one readable. cc)
  posts_read content undefined before more ending read one (no_more, done) =
      rw (no_more, done, append-nil before) (λ c rest schemas more_than_one readable. cc)

  PostsFetched-PostsReceived :
      (ids : List ℤ) (events : List (Event P)) (ending : Ending Schemas)
      → PostsFetched P (λ url. Received) (λ ss es e. Unit) self ids events ending
      → PostsReceived events ending
  PostsFetched-PostsReceived ids _ _ (goes_on {a} {before} {more} {ending} one k) =
      posts_read a (read_posts a) before more ending refl one k
  PostsFetched-PostsReceived ids _ _ (raises none_read) = λ c rest schemas some_body readable. cc
  PostsFetched-PostsReceived ids _ _ (crashes none_read) = λ c rest schemas some_body readable. cc
  PostsFetched-PostsReceived ids _ _ (pauses none_read) = λ c rest schemas some_body readable. cc

  -- Two bodies were read, and the second is read as the schemas that are returned; without a
  -- result, there was no second one that can be read as schemas.
  abbrev SpanReceived : List (Event P) → Ending Schemas → Type 0
  SpanReceived events (returned schemas) =
      (found content : Bytes) × (bodies events ≡ found ∷ content ∷ [])
      × (read_posts content ≡ ok schemas)
  SpanReceived events _ =
      (found content : Bytes) (rest : List Bytes) (schemas : Schemas)
      → bodies events ≡ found ∷ content ∷ rest
      → read_posts content ≡ ok schemas
      → Never

  later_bodies :
      (found f c : Bytes) (rest : List Bytes) (before more : List (Event P))
      → bodies before ≡ found ∷ []
      → bodies (before ++ more) ≡ f ∷ c ∷ rest
      → bodies more ≡ c ∷ rest
  later_bodies found f c rest before more one two =
      let both : found ∷ bodies more ≡ f ∷ c ∷ rest =
        sym (bodies-append before more ∙ ap (λ bs. bs ++ bodies more) one) ∙ two in
      cc

  posts_after :
      (found : Bytes) (before more : List (Event P)) (ending : Ending Schemas)
      → bodies before ≡ found ∷ []
      → PostsReceived more ending
      → SpanReceived (before ++ more) ending
  posts_after found before more (returned schemas) one (content, next, read) =
      (found, content, rw (bodies-append before more, one, next) refl, read)
  posts_after found before more (raised e) one unread = λ f c rest schemas two readable.
      unread c rest schemas (later_bodies found f c rest before more one two) readable
  posts_after found before more crashed one unread = λ f c rest schemas two readable.
      unread c rest schemas (later_bodies found f c rest before more one two) readable
  posts_after found before more unfinished one unread = λ f c rest schemas two readable.
      unread c rest schemas (later_bodies found f c rest before more one two) readable

  ids_read :
      (found : Bytes) (o : Outcome (List ℤ)) (before more : List (Event P))
      (ending : Ending Schemas)
      → bodies before ≡ found ∷ []
      → After (PostsFetched P (λ url. Received) (λ ss es e. Unit) self) o more ending
      → SpanReceived (before ++ more) ending
  ids_read found (ok ids) before more ending one h =
      posts_after found before more ending one (PostsFetched-PostsReceived ids more ending h)
  ids_read found (throws e) before more ending one (no_more, done) =
      rw (no_more, done, append-nil before) (λ f c rest schemas two readable. cc)
  ids_read found undefined before more ending one (no_more, done) =
      rw (no_more, done, append-nil before) (λ f c rest schemas two readable. cc)

  SpanFetched-SpanReceived :
      (begin end : Time) (events : List (Event P)) (ending : Ending Schemas)
      → SpanFetched P (λ url. Received) (λ ss es e. Unit) self begin end events ending
      → SpanReceived events ending
  SpanFetched-SpanReceived begin end _ _ (goes_on {a} {before} {more} {ending} one k) =
      ids_read a (get_post_ids json a self.discourse_info.topic_id) before more ending one k
  SpanFetched-SpanReceived begin end _ _ (raises none_read) = λ f c rest schemas two readable. cc
  SpanFetched-SpanReceived begin end _ _ (crashes none_read) = λ f c rest schemas two readable. cc
  SpanFetched-SpanReceived begin end _ _ (pauses none_read) = λ f c rest schemas two readable. cc

  module _ (found content : Bytes) (rest : List Bytes) (schemas : Schemas)
      (readable : read_posts content ≡ ok schemas) where
    -- Once the two bodies were read, the schemas are written.
    abbrev WrittenAfter : List (Event P) → Ending (Unit {0}) → Type 0
    WrittenAfter events ending =
        (before more : List (Event P)) × (events ≡ before ++ more)
        × (bodies before ≡ found ∷ content ∷ [])
        × Written P schemas more ending

    InTurn-WrittenAfter :
        (begin end : Time) (events : List (Event P)) (ending : Ending (Unit {0}))
        → InTurn
            (SpanFetched P (λ url. Received) (Written P) self begin end)
            (Written P)
            events
            ending
        → bodies events ≡ found ∷ content ∷ rest
        → WrittenAfter events ending
    InTurn-WrittenAfter begin end _ _ (goes_on {a} {before} {more} {ending} fetched written) two =
        let (f, c, both, read) = SpanFetched-SpanReceived begin end before _ fetched in
        let split : f ∷ c ∷ bodies more ≡ found ∷ content ∷ rest =
          sym (bodies-append before more ∙ ap (λ bs. bs ++ bodies more) both) ∙ two in
        let second : c ≡ content = cc in
        let first : f ≡ found = cc in
        let same : a ≡ schemas = ok-injective (sym read ∙ (ap read_posts second ∙ readable)) in
        (
          before,
          more,
          refl,
          both ∙ rw (first, second) refl,
          subst (λ ss. Written P ss more ending) same written,
        )
    InTurn-WrittenAfter begin end _ _ (raises {events} fetched) two =
        elim (SpanFetched-SpanReceived begin end events _ fetched found content rest schemas two
          readable) [ ]
    InTurn-WrittenAfter begin end _ _ (crashes {events} fetched) two =
        elim (SpanFetched-SpanReceived begin end events _ fetched found content rest schemas two
          readable) [ ]
    InTurn-WrittenAfter begin end _ _ (pauses {events} fetched) two =
        elim (SpanFetched-SpanReceived begin end events _ fetched found content rest schemas two
          readable) [ ]

  -- In a round in which `found` and then `content` are read as the bodies of responses, where the
  -- second shows some posts, one file is then written with the text of a JSON value that, read back, is
  -- exactly these posts in their order with the ids of the source and the tenant. A directory that
  -- cannot be made or a value that cannot be printed ends the round with its exception.
  pub extract_transform_and_load-WrittenAfter :
      IsLawful json
      → (found content : Bytes) (rest : List Bytes) (j stream elements : json.Json)
        (posts : List (PostData json))
      → json.parse content ≡ some j
      → json.find j (codes "post_stream") ≡ some stream
      → json.find stream (codes "posts") ≡ some elements
      → AllPairs (ShowsPost json) (json.elements elements) posts
      → (prev_time : Time) {events : List (Event P)} {ending : Ending (Unit {0})}
      → Run (extract_transform_and_load P (json_sink P) self prev_time) events ending
      → bodies events ≡ found ∷ content ∷ rest
      → (before more : List (Event P)) × (events ≡ before ++ more)
        × (bodies before ≡ found ∷ content ∷ [])
        × Written P (map (schema_of json self.source_id self.tenant_id) posts) more ending
  extract_transform_and_load-WrittenAfter L found content rest j stream elements posts parsed
        in_json in_stream shows prev_time run two =
      let (end, later, e, h) =
        Run-Ensures (ForumRound P (λ url. Received) (Written P) self prev_time) run (
          extract_transform_and_load-ForumRound P (λ url. Received) (Written P) self
            (http_get-Received P) (json_sink P) (write-Written P L) prev_time) in
      let (before, more, split, both, written) =
        InTurn-WrittenAfter found content rest
          (map (schema_of json self.source_id self.tenant_id) posts)
          (raw_posts_to_schema-ShowsPost json L self.source_id self.tenant_id content j stream
            elements posts parsed in_json in_stream shows)
          prev_time end later _ h (ap bodies (sym e) ∙ two) in
      (
        (greeting P self, tt) ∷ (now, end) ∷ before,
        more,
        e ∙ ap (λ es. (greeting P self, tt) ∷ (now, end) ∷ es) split,
        both,
        written,
      )
