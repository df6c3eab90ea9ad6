-- ===== src/WaitSet/Attached.antt =====
-- What RMW_Connext_WaitSet::attach has done when it succeeds.
use rmw_connextdds.Prelude.{
  ℕ, ◌≡◌, inl, inr, refl, ◌∙◌, Bool, true, List, [], ◌∷◌, map, All, All-append, All-mono, All-map,
}
use rmw_connextdds.Ret.{Ret, Sat-then}
use rmw_connextdds.WaitSet.Handles.{Event}
use rmw_connextdds.WaitSet.Conditions.{Dds, Condition, Elements, WaitSet, World}
use rmw_connextdds.WaitSet.Attach
use rmw_connextdds.WaitSet.Attach.{
  Heap, Arrays, array, client_condition, service_condition, event_condition, attached_conditions,
  cached, claim, reset_event, attach_reader, attach_subscriber, attach_client, attach_service,
  attach_event, attach_guard, attach_all, refresh_attach, elements, emplace,
}
use rmw_connextdds.WaitSet.Claim.{Mine}
use rmw_connextdds.WaitSet.Built.{Joins, KnownEvent, Built}
use rmw_connextdds.WaitSet.Detached.{Released, no_elements, Emptied, detach-Emptied}
use rmw_connextdds.WaitSet.Loops.{Unclaimed, attach_all-Sat}

module _ (D : Dds) (have : Bool) (H : Heap) (ws : ℕ) where
  -- The events' conditions, by the cache.
  cached-All :
      (f : ℕ → Condition) (cache : List (ℕ × Event)) (es : List ℕ)
      → All (KnownEvent D have H ws cache) es
      → All (λ e. Joins D have H ws f (event_condition D have H (H.events e))) es
      → All (Joins D have H ws f) (map (λ e. event_condition D have H (cached D have H cache e)) es)
  cached-All f cache [] k j = tt
  cached-All f cache (e ∷ es) (k, ks) (j, js) = (rw k j, cached-All f cache es ks js)

  Built-All :
      (els : Elements) (u f : ℕ → Condition) (s : WaitSet)
      → Built D have H ws els u f s
      → All (Joins D have H ws f) (attached_conditions D have H s)
  Built-All els u f s B =
      let j = Joins D have H ws f in
      rw B.elements (
        All-append _ _ _
          (All-append _ _ _
            (All-append _ _ _
              (All-append _ _ els.conditions
                (All-map j H.subscriber_condition els.subscribers B.subscribers) B.conditions)
              (All-map j (client_condition D have H) els.clients B.clients))
            (All-map j (service_condition D have H) els.services B.services))
          (cached-All f s.cache els.events B.known B.events))

  Unclaimed-Released :
      (a : Arrays) (f g : ℕ → Condition)
      → Released f g
      → Unclaimed D have H ws a f
      → Unclaimed D have H ws a g
  Unclaimed-Released a f g R U =
      let still : (c : ℕ) → Mine ws f c → Mine ws g c = λ c m. elim (R.at_most c) [
        | inr n ↦ inl n
        | inl e ↦ elim m [ inl n ↦ inl (e ∙ n) | inr s ↦ inr (e ∙ s) ]
      ] in
      record {
        subscribers = All-mono _ _ (λ x. still _) _ U.subscribers;
        conditions = All-mono _ _ still _ U.conditions;
        clients = All-mono _ _ (λ x. still _) _ U.clients;
        services = All-mono _ _ (λ x. still _) _ U.services;
        events = All-mono _ _ (λ x. still _) _ U.events;
      }

  Emptied-Built :
      (w : World D) (r : Ret × World D)
      → Emptied D have H ws w r
      → Built D have H ws no_elements r.1.conditions r.1.conditions (r.1.waitsets ws)
  Emptied-Built w r E = record {
    elements = E.elements;
    grown = λ k. inl refl;
    subscribers = tt;
    conditions = tt;
    clients = tt;
    services = tt;
    events = tt;
    known = tt;
    faithful = λ e h. absurd (let q = rw E.no_cache at h in cc);
  }

  -- When the elements have changed and no other wait set has the conditions of the new ones, a good
  -- result of attach means that the wait set lists the new elements, all of them and in their order,
  -- and that every condition behind its lists is attached to it.
  pub attach-attached :
      (others : World D → World D) (a : Arrays) (w : World D)
      → Unclaimed D have H ws a w.conditions
      → refresh_attach (w.waitsets ws).attached a ≡ true
      → (Attach.attach D have H others ws a w).0 ≡ Ret.ok
      → (((Attach.attach D have H others ws a w).1.waitsets ws).attached ≡ elements a)
        × All
            (Joins D have H ws (Attach.attach D have H others ws a w).1.conditions)
            (attached_conditions D have H ((Attach.attach D have H others ws a w).1.waitsets ws))
  unfolding Attach.attach
  attach-attached others a w U refresh =
      let r = Attach.detach D have H ws w in
      let E = detach-Emptied D have H ws w in
      let P : World D → Type 0 = λ t.
        Unclaimed D have H ws a t.conditions
        × Built D have H ws no_elements t.conditions t.conditions (t.waitsets ws) in
      let Q : World D → Type 0 = λ t.
        ((t.waitsets ws).attached ≡ elements a)
        × All (Joins D have H ws t.conditions) (attached_conditions D have H (t.waitsets ws)) in
      rw refresh (
        Sat-then P Q r (attach_all D have H others ws a)
          (λ o.
            (Unclaimed-Released a w.conditions r.1.conditions E.released U, Emptied-Built w r E))
          (λ t (V, B) o.
            let C = attach_all-Sat D have H others ws t a V B o in
            (C.elements, Built-All (elements a) t.conditions _ _ C)))
