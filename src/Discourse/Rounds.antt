-- ===== src/Discourse/Rounds.antt =====
-- One round of the polling of include/data_source/discourse/discourse_operation_state.hpp.
use feedback_ingest.Base.{◌≡◌, refl, List, ◌∷◌, Bytes, codes}
use feedback_ingest.Base.Int.{ℤ}
use feedback_ingest.Platform.{Platform}
use feedback_ingest.Schema.{Schema}
use feedback_ingest.Effects.{Ending, Event, Ensures, Command, now, log, info_ids, ◌>>=◌}
use feedback_ingest.Effects.Traces.{Ensures-mono}
use feedback_ingest.Effects.After.{After, Gives, lift-Gives, lift-After, InTurn, Ensures-InTurn}
use feedback_ingest.HttpOps.{http_get}
use feedback_ingest.Sink.{Sink}
use feedback_ingest.Discourse.{DiscourseOperationState}
use feedback_ingest.Discourse.Algorithms.{
  make_url_for_posts_between, make_url_for_post_ids, get_post_ids, raw_posts_to_schema,
}
use feedback_ingest.Discourse.Operation.{fetch_posts_between, extract_transform_and_load}

module _ (P : Platform) (self : DiscourseOperationState) where
  abbrev pub greeting : Command P
  greeting = log (
      info_ids (codes "Discourse: Processing data for source_id: {}, tenant_id: {}") self.source_id
        self.tenant_id)

module _ (P : Platform) (G : Bytes → List (Event P) → Ending Bytes → Type 0)
    (W : List (Schema P.json.Real) → List (Event P) → Ending (Unit {0}) → Type 0)
    (self : DiscourseOperationState) where
  open P use {Time}

  -- The second request, for the posts with the ids, and what its answer is read as.
  abbrev pub PostsFetched : List ℤ → List (Event P) → Ending (List (Schema P.json.Real)) → Type 0
  PostsFetched ids =
      InTurn (G (make_url_for_post_ids self.discourse_info.topic_id ids))
        (λ posts. After Gives (raw_posts_to_schema P.json posts self.source_id self.tenant_id))

  -- The first request, for the posts in a span of time, and the second for those on the topic.
  abbrev pub SpanFetched :
      Time → Time → List (Event P) → Ending (List (Schema P.json.Real)) → Type 0
  SpanFetched begin end =
      InTurn (G (make_url_for_posts_between P.date begin end))
        (λ found. After PostsFetched (get_post_ids P.json found self.discourse_info.topic_id))

  -- The span ends at the time that the clock shows.
  abbrev pub ForumRound : Time → List (Event P) → Ending (Unit {0}) → Type 0
  ForumRound prev_time events ending =
      (end : Time) × (more : List (Event P)) × (events ≡ (greeting P self, tt) ∷ (now, end) ∷ more)
      × InTurn (SpanFetched prev_time end) W more ending

  module _ (gets : (url : Bytes) → Ensures (G url) (http_get P url)) where
    fetch_posts_between-SpanFetched :
        (begin end : Time)
        → Ensures (SpanFetched begin end) (
            fetch_posts_between P self.source_id self.tenant_id self.discourse_info.topic_id begin
              end)
    unfolding fetch_posts_between
    fetch_posts_between-SpanFetched begin end =
        Ensures-InTurn (G (make_url_for_posts_between P.date begin end)) _
          (http_get P (make_url_for_posts_between P.date begin end)) _
          (gets (make_url_for_posts_between P.date begin end))
          (λ found.
            lift-After PostsFetched (get_post_ids P.json found self.discourse_info.topic_id) _
              (λ ids.
                Ensures-InTurn (G (make_url_for_post_ids self.discourse_info.topic_id ids)) _
                  (http_get P (make_url_for_post_ids self.discourse_info.topic_id ids)) _
                  (gets (make_url_for_post_ids self.discourse_info.topic_id ids))
                  (λ posts.
                    lift-Gives P (raw_posts_to_schema P.json posts self.source_id self.tenant_id))))

    -- If `http_get` does with a URL what `G` says, and the sink with schemas what `W` says, a round
    -- asks for the posts from the time that it is given to the time that the clock shows, then for
    -- those among them that are on the topic, and gives the sink exactly the schemas that the second
    -- answer is read as. A step that fails ends the round with its failure.
    pub extract_transform_and_load-ForumRound :
        (sink : Sink P)
        → ((schemas : List (Schema P.json.Real)) → Ensures (W schemas) (sink.write schemas))
        → (prev_time : Time)
        → Ensures (ForumRound prev_time) (extract_transform_and_load P sink self prev_time)
    unfolding extract_transform_and_load
    extract_transform_and_load-ForumRound sink writes prev_time = λ _ end.
        Ensures-mono
          (fetch_posts_between P self.source_id self.tenant_id self.discourse_info.topic_id
              prev_time end
            >>= sink.write)
          (InTurn (SpanFetched prev_time end) W)
          (λ more. ForumRound prev_time ((greeting P self, tt) ∷ (now, end) ∷ more))
          (λ more ending h. (end, more, refl, h))
          (Ensures-InTurn (SpanFetched prev_time end) W
            (fetch_posts_between P self.source_id self.tenant_id self.discourse_info.topic_id
              prev_time end)
            sink.write (fetch_posts_between-SpanFetched prev_time end) writes)
