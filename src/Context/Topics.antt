-- ===== src/Context/Topics.antt =====
-- What assert_topic tells of a topic: whether the endpoint has to delete it.
use rmw_connextdds.Prelude.{◌≡◌, ◌↔◌, Bool, true, false, arith}
use rmw_connextdds.Ret.{Ret}
use rmw_connextdds.Context.State.{TopicCalls, assert_topic}

-- An asserted topic is one that the endpoint did not create exactly where the endpoint is internal
-- and the topic was there; and the call succeeds exactly where the topic was there for an internal
-- endpoint, was found for another one, or was created, and a topic that is not internal was enabled.
pub assert_topic_lem :
    (T : TopicCalls) (internal before : Bool)
    → ((assert_topic T internal before).0 ≡ Ret.ok
        → ((assert_topic T internal before).1 ≡ false)
          ↔ ((internal ≡ true) × (T.lookup_topicdescription ≡ true)))
      × (((assert_topic T internal before).0 ≡ Ret.ok) ↔ (
          (internal ≡ false → T.enable ≡ true)
          × (T.lookup_topicdescription ≡ false → T.create_topic ≡ true)
          × (T.lookup_topicdescription ≡ true → internal ≡ false → T.find_topic ≡ true)))
unfolding assert_topic
assert_topic_lem T true before = (ground arith, ground arith)
assert_topic_lem T false before = (ground arith, ground arith)
