-- ===== src/WaitSet/Loops.antt =====
-- What the loops of RMW_Connext_WaitSet::attach have done when they succeed.
use rmw_connextdds.Prelude.{ℕ, sym, Bool, [], ◌∷◌, ◌++◌, if◌then◌else◌, update, update_same, All}
use rmw_connextdds.Ret.{Ret, Sat, Sat-then, Sat-each, ◌then_ok◌, for_each}
use mathlib.Core.Path.{subst}
use rmw_connextdds.WaitSet.Events.{ros_event_to_dds}
use rmw_connextdds.WaitSet.Conditions
use rmw_connextdds.WaitSet.Conditions.{Dds, Condition, Elements, WaitSet, World, enable_statuses}
use rmw_connextdds.WaitSet.Attach.{
  Heap, Arrays, array, client_condition, service_condition, event_condition, claim, reset_event,
  attach_reader, attach_subscriber, attach_client, attach_service, attach_event, attach_guard,
  attach_all, elements, emplace,
}
use rmw_connextdds.WaitSet.Claim.{
  Mine, Mine-Grows, Grown, Grown-refl, Joined, claim-Sat, reset_statuses-Sat, enable_statuses-Sat,
  attach-Sat, attach_reader-Sat, refused,
}
use rmw_connextdds.WaitSet.Built.{
  Joins, Built, Built-Grows, push_subscriber, push_condition, push_client, push_service, push_event,
}
use rmw_connextdds.WaitSet.Detached.{no_elements}

-- No other wait set has the conditions of the arrays' elements.
pub record Unclaimed (D : Dds) (have : Bool) (H : Heap) (ws : ℕ) (a : Arrays) (f : ℕ → Condition)
    : Type 0 where
  pub subscribers : All (λ x. Mine ws f (H.subscriber_condition x)) (array a.subscribers)
  pub conditions : All (Mine ws f) (array a.conditions)
  pub clients : All (λ x. Mine ws f (client_condition D have H x)) (array a.clients)
  pub services : All (λ x. Mine ws f (service_condition D have H x)) (array a.services)
  pub events : All (λ x. Mine ws f (event_condition D have H (H.events x))) (array a.events)

module _ (D : Dds) (have : Bool) (H : Heap) (others : World D → World D) (ws : ℕ)
    (u : World D) where
  abbrev pub At : Elements → World D → Type 0
  At els v = Built D have H ws els u.conditions v.conditions (v.waitsets ws)

  -- The conditions that were no other's are still not, and stay so.
  still_mine :
      (els : Elements) (c : ℕ) (v : World D)
      → At els v
      → Mine ws u.conditions c
      → Mine ws v.conditions c
  still_mine els c v B m = Mine-Grows u.conditions v.conditions ws c B.grown m

  At-Grown : (els : Elements) (v t : World D) → At els v → Grown D ws v t → At els t
  At-Grown els v t B (e, G) =
      subst (λ f. Built D have H ws els u.conditions t.conditions (f ws)) (sym e)
        (Built-Grows D have H ws t.conditions B G)

  -- The end of a loop's body, which changes the wait set's lists by `g`.
  push-Sat :
      (els els' : Elements) (c : ℕ) (g : WaitSet → WaitSet) (v : World D) (r : Ret × World D)
      → At els v
      → Sat (Joined D ws c v) r
      → ((t : World D)
          → At els t
          → Joins D have H ws t.conditions c
          → Built D have H ws els' u.conditions t.conditions (g (t.waitsets ws)))
      → Sat (At els') (
          r
          then_ok (λ t. (Ret.ok, record t { waitsets = update t.waitsets ws (g (t.waitsets ws)) })))
  push-Sat els els' c g v r B p step =
      Sat-then (Joined D ws c v) (At els') r
        (λ t. (Ret.ok, record t { waitsets = update t.waitsets ws (g (t.waitsets ws)) })) p
        (λ t (G, j) o.
          rw (update_same t.waitsets ws (g (t.waitsets ws))) (step t (At-Grown els v t B G) j))

  attach_subscriber-Sat :
      (els : Elements) (a : ℕ) (v : World D)
      → Mine ws u.conditions (H.subscriber_condition a)
      → At els v
      → Sat
          (At (record els { subscribers = els.subscribers ++ (a ∷ []) }))
          (attach_subscriber D have H others ws a v)
  unfolding attach_subscriber
  attach_subscriber-Sat els a v m B =
      let c = H.subscriber_condition a in
      push-Sat els _ c
        (λ s. record s {
          attached = record s.attached { subscribers = s.attached.subscribers ++ (a ∷ []) };
        })
        v (attach_reader D have H others ws c v) B
        (attach_reader-Sat D ws have H others c v (still_mine els c v B m))
        (λ t A j. push_subscriber D have H ws A a j)

  attach_client-Sat :
      (els : Elements) (a : ℕ) (v : World D)
      → Mine ws u.conditions (client_condition D have H a)
      → At els v
      → Sat
          (At (record els { clients = els.clients ++ (a ∷ []) }))
          (attach_client D have H others ws a v)
  unfolding attach_client
  attach_client-Sat els a v m B =
      let c = client_condition D have H a in
      push-Sat els _ c
        (λ s. record s {
          attached = record s.attached { clients = s.attached.clients ++ (a ∷ []) };
        })
        v (attach_reader D have H others ws c v) B
        (attach_reader-Sat D ws have H others c v (still_mine els c v B m))
        (λ t A j. push_client D have H ws A a j)

  attach_service-Sat :
      (els : Elements) (a : ℕ) (v : World D)
      → Mine ws u.conditions (service_condition D have H a)
      → At els v
      → Sat
          (At (record els { services = els.services ++ (a ∷ []) }))
          (attach_service D have H others ws a v)
  unfolding attach_service
  attach_service-Sat els a v m B =
      let c = service_condition D have H a in
      push-Sat els _ c
        (λ s. record s {
          attached = record s.attached { services = s.attached.services ++ (a ∷ []) };
        })
        v (attach_reader D have H others ws c v) B
        (attach_reader-Sat D ws have H others c v (still_mine els c v B m))
        (λ t A j. push_service D have H ws A a j)

  attach_guard-Sat :
      (els : Elements) (a : ℕ) (v : World D)
      → Mine ws u.conditions a
      → At els v
      → Sat
          (At (record els { conditions = els.conditions ++ (a ∷ []) }))
          (attach_guard D have H others ws a v)
  unfolding attach_guard
  attach_guard-Sat els a v m B =
      let r = claim D have H others ws a v in
      let mine = still_mine els a v B m in
      push-Sat els _ a
        (λ s. record s {
          attached = record s.attached { conditions = s.attached.conditions ++ (a ∷ []) };
        })
        v (r then_ok Conditions.attach D a ws) B
        (Sat-then (Grown D ws v) (Joined D ws a v) r (Conditions.attach D a ws)
          (claim-Sat D ws have H others a v v mine (Grown-refl D ws v))
          (λ t G. attach-Sat D ws a v t (Mine-Grows v.conditions t.conditions ws a G.1 mine) G))
        (λ t A j. push_condition D have H ws A a j)

  attach_event-Sat :
      (els : Elements) (e : ℕ) (v : World D)
      → Mine ws u.conditions (event_condition D have H (H.events e))
      → At els v
      → Sat
          (At (record els { events = els.events ++ (e ∷ []) }))
          (attach_event D have H others ws e v)
  unfolding attach_event
  attach_event-Sat els e v m B =
      let c = event_condition D have H (H.events e) in
      let mine = still_mine els c v B m in
      let kind = (ros_event_to_dds have (H.events e).event_type).0 in
      let r : Ret × World D = if (v.conditions c).deleted then (Ret.error, v) else (Ret.ok, v) in
      let r' = r then_ok enable_statuses D c kind in
      let s1 = refused D ws (v.conditions c).deleted v v (Grown-refl D ws v) in
      let s2 =
        Sat-then (Grown D ws v) (Grown D ws v) r (enable_statuses D c kind) s1
          (λ t G. enable_statuses-Sat D ws c kind v t G) in
      push-Sat els _ c
        (λ s. record s {
          attached = record s.attached { events = s.attached.events ++ (e ∷ []) };
          cache = emplace D have H e (H.events e) s.cache;
        })
        v (r' then_ok Conditions.attach D c ws) B
        (Sat-then (Grown D ws v) (Joined D ws c v) r' (Conditions.attach D c ws) s2
          (λ t G. attach-Sat D ws c v t (Mine-Grows v.conditions t.conditions ws c G.1 mine) G))
        (λ t A j. push_event D have H ws A e j)

  reset_event-Sat :
      (els : Elements) (e : ℕ) (v : World D)
      → Mine ws u.conditions (event_condition D have H (H.events e))
      → At els v
      → Sat (At els) (reset_event D have H others ws e v)
  unfolding reset_event
  reset_event-Sat els e v m B =
      let c = event_condition D have H (H.events e) in
      let r = claim D have H others ws c v in
      let go =
        Sat-then (Grown D ws v) (Grown D ws v) r (Conditions.reset_statuses D c)
          (claim-Sat D ws have H others c v v (still_mine els c v B m) (Grown-refl D ws v))
          (λ t G. reset_statuses-Sat D ws c v t G) in
      λ o. At-Grown els v (r then_ok Conditions.reset_statuses D c).1 B (go o)

  pub attach_all-Sat :
      (a : Arrays)
      → Unclaimed D have H ws a u.conditions
      → At no_elements u
      → Sat (At (elements a)) (attach_all D have H others ws a u)
  unfolding attach_all
  attach_all-Sat a U B =
      let S = array a.subscribers in
      let C = array a.clients in
      let V = array a.services in
      let E = array a.events in
      let G = array a.conditions in
      let e1 : Elements = record {
        subscribers = S;
        conditions = [];
        clients = [];
        services = [];
        events = [];
      } in
      let e2 : Elements = record {
        subscribers = S;
        conditions = [];
        clients = C;
        services = [];
        events = [];
      } in
      let e3 : Elements = record {
        subscribers = S;
        conditions = [];
        clients = C;
        services = V;
        events = [];
      } in
      let e4 : Elements = record {
        subscribers = S;
        conditions = [];
        clients = C;
        services = V;
        events = E;
      } in
      let f0 = for_each (reset_event D have H others ws) E in
      let f1 = for_each (attach_subscriber D have H others ws) S in
      let f2 = for_each (attach_client D have H others ws) C in
      let f3 = for_each (attach_service D have H others ws) V in
      let f4 = for_each (attach_event D have H others ws) E in
      let f5 = for_each (attach_guard D have H others ws) G in
      let s0 =
        Sat-each (λ xs. At no_elements)
          (λ x. Mine ws u.conditions (event_condition D have H (H.events x)))
          (reset_event D have H others ws) (λ xs x v m B. reset_event-Sat no_elements x v m B) [] E
          u U.events B in
      let s1 = Sat-then (At no_elements) (At e1) (f0 u) f1 s0 (λ t A.
        Sat-each (λ xs. At (record no_elements { subscribers = xs }))
          (λ x. Mine ws u.conditions (H.subscriber_condition x))
          (attach_subscriber D have H others ws) (λ xs x v m B. attach_subscriber-Sat _ x v m B) []
          S t U.subscribers A) in
      let s2 = Sat-then (At e1) (At e2) (f0 u then_ok f1) f2 s1 (λ t A.
        Sat-each (λ xs. At (record e1 { clients = xs }))
          (λ x. Mine ws u.conditions (client_condition D have H x))
          (attach_client D have H others ws) (λ xs x v m B. attach_client-Sat _ x v m B) [] C t
          U.clients A) in
      let s3 = Sat-then (At e2) (At e3) (f0 u then_ok f1 then_ok f2) f3 s2 (λ t A.
        Sat-each (λ xs. At (record e2 { services = xs }))
          (λ x. Mine ws u.conditions (service_condition D have H x))
          (attach_service D have H others ws) (λ xs x v m B. attach_service-Sat _ x v m B) [] V t
          U.services A) in
      let s4 = Sat-then (At e3) (At e4) (f0 u then_ok f1 then_ok f2 then_ok f3) f4 s3 (λ t A.
        Sat-each (λ xs. At (record e3 { events = xs }))
          (λ x. Mine ws u.conditions (event_condition D have H (H.events x)))
          (attach_event D have H others ws) (λ xs x v m B. attach_event-Sat _ x v m B) [] E t
          U.events A) in
      Sat-then (At e4) (At (elements a)) (f0 u then_ok f1 then_ok f2 then_ok f3 then_ok f4) f5 s4
        (λ t A.
          Sat-each (λ xs. At (record e4 { conditions = xs })) (Mine ws u.conditions)
            (attach_guard D have H others ws) (λ xs x v m B. attach_guard-Sat _ x v m B) [] G t
            U.conditions A)
