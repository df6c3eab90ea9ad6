-- ===== src/Tests/Graph.antt =====
-- The graph at a concrete cache: a stack of each kind of thing, from which the newest is removed.
use rmw_connextdds.Prelude.{
  ℕ, ◌≡◌, ◌⊎◌, refl, false, true, List, [], ◌∷◌, some, Bool, if◌then◌else◌,
}
use rmw_connextdds.Ret.{Ret, is_ok}
use rmw_connextdds.Names.Text.{Text, codes, text_eq, text_eq_self}
use rmw_connextdds.Endpoint.Identity.{Gid, gid_to_guid, guid_to_gid, zeros}
use rmw_connextdds.Qos.Policies.{
  RosHistory, RosReliability, RosDurability, RosLiveliness, Profile, DdsHistory, DdsReliability,
  DdsDurability, DdsLiveliness, Duration, Policies,
}
use rmw_connextdds.Qos.Convert.{
  readerwriter_qos_to_ros, history_to_ros, reliability_to_ros, durability_to_ros, liveliness_to_ros,
  lifespan_to_ros,
}
use rmw_connextdds.Graph.Cache.{
  Node, GraphCache, Entity, Context, publish_update, add_entity, add_local, add_local_publisher,
  add_local_subscriber, remove_entity,
}
use rmw_connextdds.Graph.Endpoints.{
  on_publisher_created, on_publisher_deleted, on_subscriber_created,
}
use rmw_connextdds.Graph.Nodes.{Pair, on_node_created, on_service_created}
use rmw_connextdds.Graph.Undo.{
  Undoes, on_node_created-fails, on_publisher_created-fails, on_subscriber_created-fails,
}
use rmw_connextdds.Graph.Pairs.{
  on_publisher_deleted-on_publisher_created, on_service_created-leaves,
}

pub record Stacks : Type 0 where
  pub entities : List (List ℕ)
  pub nodes : List Text
  pub writers : List (List ℕ)
  pub readers : List (List ℕ)

abbrev pub rest {ℓ} : {A : Type ℓ} → List A → List A
rest [] = []
rest (x ∷ xs) = xs

-- An entity is removed where it is the newest.
abbrev pub remove : List ℕ → List (List ℕ) → Bool × List (List ℕ)
remove g [] = (false, [])
remove g (e ∷ es) = if text_eq e g then (true, es) else (false, e ∷ es)

abbrev pub profile : Profile
profile = record {
  history = RosHistory.keep_last;
  depth = 10;
  reliability = RosReliability.reliable;
  durability = RosDurability.volatile;
  deadline = record { sec = 0; nsec = 0 };
  lifespan = record { sec = 0; nsec = 0 };
  liveliness = RosLiveliness.system_default;
  liveliness_lease_duration = record { sec = 0; nsec = 0 };
}

-- The network is up or down.
abbrev pub cache : GraphCache
cache = record {
  State = Stacks;
  Message = ℕ;
  Network = Bool;
  add_entity = λ g topic type dp q r c. (true, record c { entities = g.bytes ∷ c.entities });
  remove_entity = λ g r c.
      ((remove g.bytes c.entities).0, record c { entities = (remove g.bytes c.entities).1 });
  add_node = λ g n c. (0, record c { nodes = n.name ∷ c.nodes });
  remove_node = λ g n c. (1, record c { nodes = rest c.nodes });
  associate_writer = λ w dp n c. (2, record c { writers = w.bytes ∷ c.writers });
  dissociate_writer = λ w dp n c. (3, record c { writers = rest c.writers });
  associate_reader = λ r dp n c. (4, record c { readers = r.bytes ∷ c.readers });
  dissociate_reader = λ r dp n c. (5, record c { readers = rest c.readers });
  remove_participant = λ g c. c;
  publish = λ msg up. (if up then Ret.ok else Ret.error, up);
  uninitialized_guid = zeros 16;
  identifier = codes "rmw_connextdds";
  gid_storage_size = 24;
  qos_profile_default = profile;
}

abbrev pub undoes : Undoes cache
undoes = record {
  IsNewNode = λ g n c. c.nodes ≡ [];
  IsNewWriter = λ w dp n c. c.writers ≡ [];
  IsNewReader = λ r dp n c. c.readers ≡ [];
  remove_entity-add_entity = λ g topic type dp q r c h. rw (text_eq_self g.bytes) refl;
  add_entity-fails = λ g topic type dp q r c h. absurd cc;
  remove_node-add_node = λ g n c h. refl;
  remove_entity-associate_writer = λ g w dp n r c. refl;
  remove_entity-associate_reader = λ g w dp n r c. refl;
  dissociate_writer-associate_writer = λ w dp n c h. refl;
  dissociate_reader-associate_reader = λ r dp n c h. refl;
  dissociate_writer-associate_reader = λ w r dp n c. refl;
}

abbrev pub node : Node
node = record { name = codes "talker"; namespace = codes "/" }

abbrev pub no_time : Duration
no_time = record { sec = 0; nanosec = 0 }

abbrev pub policies : Policies
policies = record {
  history = DdsHistory.keep_all;
  depth = 1;
  reliability = DdsReliability.best_effort;
  max_blocking_time = no_time;
  durability = DdsDurability.transient_local;
  deadline = no_time;
  liveliness = DdsLiveliness.manual_by_topic;
  lease_duration = no_time;
  lifespan = some no_time;
  max_samples_per_instance = 4;
  max_samples = 4;
}

abbrev pub gid : ℕ → Gid
gid n = record { implementation_identifier = codes "rmw_connextdds"; bytes = n ∷ zeros 23 }

abbrev pub entity : ℕ → Entity
entity n = record {
  gid = gid n;
  instance_handle = n ∷ zeros 15;
  topic_name = codes "rt/chatter";
  type_name = codes "String_";
  policies = some policies;
}

abbrev pub context : Bool → Context cache
context up = record {
  gid = gid 1;
  has_pub = true;
  cache = record { entities = (2 ∷ []) ∷ []; nodes = []; writers = []; readers = [] };
  network = up;
}

on_node_created-fails_example :
    ((on_node_created cache node (context false)).0 ≡ Ret.ok)
    ⊎ (((on_node_created cache node (context false)).0 ≡ Ret.error)
        × ((on_node_created cache node (context false)).1.cache ≡ (context false).cache))
on_node_created-fails_example = on_node_created-fails cache undoes node (context false) refl

on_publisher_created-fails_example :
    ((on_publisher_created cache node (entity 5) (context false)).0 ≡ Ret.ok)
    ⊎ ((on_publisher_created cache node (entity 5) (context false)).1.cache ≡ (context false).cache)
unfolding guid_to_gid
on_publisher_created-fails_example =
    on_publisher_created-fails cache undoes node (entity 5) (context false) refl refl refl

on_subscriber_created-fails_example :
    ((on_subscriber_created cache node (entity 5) (context false)).0 ≡ Ret.ok)
    ⊎ ((on_subscriber_created cache node (entity 5) (context false)).1.cache
        ≡ (context false).cache)
unfolding guid_to_gid
on_subscriber_created-fails_example =
    on_subscriber_created-fails cache undoes node (entity 5) (context false) refl refl refl

-- With the network up, the publisher is created, and the participant's identifier is as before.
created :
    ((on_publisher_created cache node (entity 5) (context true)).0 ≡ Ret.ok)
    × ((on_publisher_created cache node (entity 5) (context true)).1.gid ≡ (context true).gid)
unfolding on_publisher_created add_local_publisher add_local add_entity publish_update remove_entity
    readerwriter_qos_to_ros history_to_ros reliability_to_ros durability_to_ros liveliness_to_ros
    lifespan_to_ros gid_to_guid guid_to_gid
created = (refl, refl)

on_publisher_deleted-on_publisher_created_example :
    (on_publisher_deleted cache node
      (entity 5)
      (on_publisher_created cache node (entity 5) (context true)).1).1.cache
    ≡ (context true).cache
unfolding guid_to_gid
on_publisher_deleted-on_publisher_created_example =
    on_publisher_deleted-on_publisher_created cache undoes node (entity 5) (context true) refl refl
      refl created.0 created.1

abbrev pub service : Pair
service = record { publisher = entity 5; subscriber = entity 6 }

-- The service's cache, with its two entities.
abbrev pub service_added : Context cache
service_added =
    (add_local_publisher cache (entity 5)
      (add_local_subscriber cache (entity 6) (context false)).1).1

added :
    (is_ok (add_local_subscriber cache (entity 6) (context false)).0 ≡ true)
    × (is_ok
          (add_local_publisher cache
            (entity 5)
            (add_local_subscriber cache (entity 6) (context false)).1).0
        ≡ true)
    × (service_added.cache.writers ≡ [])
    × (service_added.cache.readers ≡ [])
unfolding add_local_publisher add_local_subscriber add_local add_entity readerwriter_qos_to_ros
    history_to_ros reliability_to_ros durability_to_ros liveliness_to_ros lifespan_to_ros
    gid_to_guid guid_to_gid
added = (refl, refl, refl, refl)

on_service_created-leaves_example :
    ((on_service_created cache node service (context false)).0 ≡ Ret.ok)
    ⊎ (((on_service_created cache node service (context false)).0 ≡ Ret.error)
        × ((on_service_created cache node service (context false)).1.cache ≡ service_added.cache))
on_service_created-leaves_example =
    on_service_created-leaves cache undoes node service (context false) added.0 added.1 added.2
      added.3
