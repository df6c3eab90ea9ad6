-- ===== src/WaitSet/Built.antt =====
-- The invariant of the loops of RMW_Connext_WaitSet::attach: what has been attached so far.
use rmw_connextdds.Prelude.{
  ℕ, ◌≡◌, inl, inr, refl, ap, Bool, true, List, [], ◌∷◌, ◌++◌, map, some, ◌==◌, ==_iff, Bool-cases,
  All, All-append, All-mono,
}
use mathlib.Core.Path.{subst}
use rmw_connextdds.WaitSet.Handles.{Event}
use rmw_connextdds.WaitSet.Conditions.{Dds, Condition, Elements, WaitSet}
use rmw_connextdds.WaitSet.Attach.{
  Heap, client_condition, service_condition, event_condition, cached, occurs, emplace,
}
use rmw_connextdds.WaitSet.Claim.{Grows, Grows-trans, attached-Grows}

module _ (D : Dds) (have : Bool) (H : Heap) (ws : ℕ) where
  abbrev pub Joins : (ℕ → Condition) → ℕ → Type 0
  Joins f c = (f c).attached_waitset ≡ some ws

  abbrev pub KnownEvent : List (ℕ × Event) → ℕ → Type 0
  KnownEvent cache e = cached D have H cache e ≡ H.events e

  -- The wait set `s` lists `els`, whose conditions are attached to it and whose events it has cached;
  -- since `u`, conditions have at most been attached to it.
  pub record Built (els : Elements) (u f : ℕ → Condition) (s : WaitSet) : Type 0 where
    pub elements : s.attached ≡ els
    pub grown : Grows ws u f
    pub subscribers : All (λ a. Joins f (H.subscriber_condition a)) els.subscribers
    pub conditions : All (Joins f) els.conditions
    pub clients : All (λ a. Joins f (client_condition D have H a)) els.clients
    pub services : All (λ a. Joins f (service_condition D have H a)) els.services
    pub events : All (λ e. Joins f (event_condition D have H (H.events e))) els.events
    pub known : All (KnownEvent s.cache) els.events
    pub faithful :
        (e : ℕ) → occurs D have H e (map (λ entry. entry.0) s.cache) ≡ true → KnownEvent s.cache e

  -- Attaching more conditions keeps it.
  pub Built-Grows :
      {els : Elements} {u f : ℕ → Condition} (g : ℕ → Condition) {s : WaitSet}
      → Built els u f s
      → Grows ws f g
      → Built els u g s
  Built-Grows {els} {u} {f} g B G = record {
    elements = B.elements;
    grown = Grows-trans u f g ws B.grown G;
    subscribers = All-mono _ _ (λ a. attached-Grows f g ws _ G) _ B.subscribers;
    conditions = All-mono _ _ (λ a. attached-Grows f g ws _ G) _ B.conditions;
    clients = All-mono _ _ (λ a. attached-Grows f g ws _ G) _ B.clients;
    services = All-mono _ _ (λ a. attached-Grows f g ws _ G) _ B.services;
    events = All-mono _ _ (λ a. attached-Grows f g ws _ G) _ B.events;
    known = B.known;
    faithful = B.faithful;
  }

  module _ {els : Elements} {u f : ℕ → Condition} {s : WaitSet} (B : Built els u f s) (a : ℕ) where
    pub push_subscriber :
        Joins f (H.subscriber_condition a)
        → Built
            (record els { subscribers = els.subscribers ++ (a ∷ []) })
            u
            f
            (record s {
              attached = record s.attached { subscribers = s.attached.subscribers ++ (a ∷ []) };
            })
    push_subscriber j = record {
      elements =
          ap {A = Elements} (λ x. record x { subscribers = x.subscribers ++ (a ∷ []) }) B.elements;
      grown = B.grown;
      subscribers = All-append _ els.subscribers (a ∷ []) B.subscribers (j, tt);
      conditions = B.conditions;
      clients = B.clients;
      services = B.services;
      events = B.events;
      known = B.known;
      faithful = B.faithful;
    }

    pub push_condition :
        Joins f a
        → Built
            (record els { conditions = els.conditions ++ (a ∷ []) })
            u
            f
            (record s {
              attached = record s.attached { conditions = s.attached.conditions ++ (a ∷ []) };
            })
    push_condition j = record {
      elements =
          ap {A = Elements} (λ x. record x { conditions = x.conditions ++ (a ∷ []) }) B.elements;
      grown = B.grown;
      subscribers = B.subscribers;
      conditions = All-append _ els.conditions (a ∷ []) B.conditions (j, tt);
      clients = B.clients;
      services = B.services;
      events = B.events;
      known = B.known;
      faithful = B.faithful;
    }

    pub push_client :
        Joins f (client_condition D have H a)
        → Built
            (record els { clients = els.clients ++ (a ∷ []) })
            u
            f
            (record s { attached = record s.attached { clients = s.attached.clients ++ (a ∷ []) } })
    push_client j = record {
      elements = ap {A = Elements} (λ x. record x { clients = x.clients ++ (a ∷ []) }) B.elements;
      grown = B.grown;
      subscribers = B.subscribers;
      conditions = B.conditions;
      clients = All-append _ els.clients (a ∷ []) B.clients (j, tt);
      services = B.services;
      events = B.events;
      known = B.known;
      faithful = B.faithful;
    }

    pub push_service :
        Joins f (service_condition D have H a)
        → Built
            (record els { services = els.services ++ (a ∷ []) })
            u
            f
            (record s {
              attached = record s.attached { services = s.attached.services ++ (a ∷ []) };
            })
    push_service j = record {
      elements = ap {A = Elements} (λ x. record x { services = x.services ++ (a ∷ []) }) B.elements;
      grown = B.grown;
      subscribers = B.subscribers;
      conditions = B.conditions;
      clients = B.clients;
      services = All-append _ els.services (a ∷ []) B.services (j, tt);
      events = B.events;
      known = B.known;
      faithful = B.faithful;
    }

    -- What `emplace` makes of the cache: the entries are kept, and the new event is known.
    emplace-kept :
        (e : ℕ) → KnownEvent s.cache e → KnownEvent (emplace D have H a (H.events a) s.cache) e
    emplace-kept e k = elim (Bool-cases (occurs D have H a (map (λ entry. entry.0) s.cache))) [
      | inl o ↦ rw o k
      | inr n ↦ rw n (elim (Bool-cases (a == e)) [
        | inl d ↦ rw d (ap H.events ((==_iff a e).0 d))
        | inr d ↦ rw d k
      ])
    ]

    emplace-new : KnownEvent (emplace D have H a (H.events a) s.cache) a
    emplace-new = elim (Bool-cases (occurs D have H a (map (λ entry. entry.0) s.cache))) [
      | inl o ↦ rw o (B.faithful a o)
      | inr n ↦ rw n (rw ((==_iff a a).1 refl) refl)
    ]

    emplace-faithful :
        (e : ℕ)
        → occurs D have H e (map (λ entry. entry.0) (emplace D have H a (H.events a) s.cache))
          ≡ true
        → KnownEvent (emplace D have H a (H.events a) s.cache) e
    emplace-faithful e h = elim (Bool-cases (a == e)) [
      | inl d ↦
          subst (KnownEvent (emplace D have H a (H.events a) s.cache)) ((==_iff a e).0 d)
            emplace-new
      | inr d ↦ emplace-kept e (
          B.faithful e (elim (Bool-cases (occurs D have H a (map (λ entry. entry.0) s.cache))) [
            | inl o ↦ rw o at h
            | inr n ↦ rw (n, d) at h
          ]))
    ]

    pub push_event :
        Joins f (event_condition D have H (H.events a))
        → Built
            (record els { events = els.events ++ (a ∷ []) })
            u
            f
            (record s {
              attached = record s.attached { events = s.attached.events ++ (a ∷ []) };
              cache = emplace D have H a (H.events a) s.cache;
            })
    push_event j = record {
      elements = ap {A = Elements} (λ x. record x { events = x.events ++ (a ∷ []) }) B.elements;
      grown = B.grown;
      subscribers = B.subscribers;
      conditions = B.conditions;
      clients = B.clients;
      services = B.services;
      events = All-append _ els.events (a ∷ []) B.events (j, tt);
      known =
          All-append _ els.events (a ∷ []) (All-mono _ _ emplace-kept els.events B.known)
            (emplace-new, tt);
      faithful = emplace-faithful;
    }
